-- ===== src/Secrets.antt =====
-- agentsecure/interfaces/key_store.py: a store of secrets by name, behind its laws. The services
-- take such a store as a parameter; `Encrypted` is the one that the program builds.
pub mod Encrypted
use agentsecure_community.Base.{◌≡◌, Bool, true, false, Option, none, some, ◌==◌, if◌then◌else◌}
use agentsecure_community.Base.Text.{Text, text_eq}

pub record SecretStore : Type 1 where
  pub State : Type 0
  pub get : State → Text → Option Text
  -- The name, the value, and the random bytes that are drawn during the call.
  pub put : State → Text → Text → Text → State
  pub delete : State → Text → State

pub record IsLawful (S : SecretStore) : Type 0 where
  pub get-put :
      (s : S.State) (name value nonce other : Text)
      → S.get (S.put s name value nonce) other
        ≡ (if other == name then some value else S.get s other)
  pub get-delete :
      (s : S.State) (name other : Text)
      → S.get (S.delete s name) other ≡ (if other == name then none else S.get s other)
