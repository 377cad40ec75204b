-- ===== src/Keys/Usable.antt =====
-- agentsecure/core/key_service.py: what a key that was created is good for.
use agentsecure_community.Base.{ℕ, ◌<◌, ◌≡◌, refl, subst, inl, inr, Option, some, arith}
use agentsecure_community.Base.Text.{Text, lit, text_eq, starts_with, after_char}
use agentsecure_community.Base.Dict.{Dict}
use agentsecure_community.Base.Event.{Log}
use agentsecure_community.Base.Exec.{Result, ok, Result-cases}
use agentsecure_community.Model.{SecretGrant}
use agentsecure_community.Grants.{get_by_virtual_token}
use agentsecure_community.Grants
use agentsecure_community.Grants.Laws.{get-put}
use agentsecure_community.Resolver.{Context, stored_secret, grant_resolve}
use agentsecure_community.Resolver.Active.{grant_resolve-IsLive}
use agentsecure_community.Secrets.{SecretStore, IsLawful}
use agentsecure_community.Aliases.Runs.{ttl_seconds}
use agentsecure_community.Keys.{CreatedKey, KeyState, secret_id, key_grant, create_key}

module _ (S : SecretStore) (lawful : IsLawful S)
    (env_name real_secret provider inject_as name ttl : Text) (token_random id_random nonce : Text)
    (created_at : ℕ) (s : KeyState) (secrets : S.State) (key : CreatedKey) (t : KeyState)
    (secrets' : S.State) where
  abbrev grant_for_key : ℕ → SecretGrant
  grant_for_key =
      key_grant S env_name real_secret provider inject_as name ttl token_random id_random nonce
        created_at

  abbrev creating : Result CreatedKey × (KeyState × S.State)
  creating =
      create_key S env_name real_secret provider inject_as name ttl token_random id_random nonce
        created_at s secrets

  abbrev id_of_key : Text
  id_of_key =
      secret_id S env_name real_secret provider inject_as name ttl token_random id_random nonce
        created_at

  create_key_stores :
      creating ≡ (ok key, (t, secrets'))
      → (seconds : ℕ) × (key.virtual_token ≡ (grant_for_key seconds).virtual_token)
        × (key.expires_at ≡ (grant_for_key seconds).expires_at)
        × (t.grants ≡ Grants.put s.grants (grant_for_key seconds))
        × (secrets' ≡ S.put secrets id_of_key real_secret nonce)
  unfolding create_key
  create_key_stores h = elim (Result-cases (ttl_seconds ttl)) [
    | inl (error, e) ↦ absurd (ground arith)
    | inr (seconds, e) ↦ elim (Result-cases s.config) [
      | inl (error, f) ↦ absurd (ground arith)
      | inr (entries, f) ↦ (seconds, ground arith, ground arith, ground arith, ground arith)
    ]
  ]

  stored_key :
      (seconds : ℕ) (alias_get : Text → Option Text)
      → stored_secret
          (S.get (S.put secrets id_of_key real_secret nonce))
          alias_get
          (grant_for_key seconds)
        ≡ some real_secret
  unfolding stored_secret starts_with after_char lit
  stored_key seconds alias_get =
      ground (arith, lawful.get-put secrets id_of_key real_secret nonce id_of_key)

  granted_key :
      (seconds : ℕ)
      → get_by_virtual_token
          (Grants.put s.grants (grant_for_key seconds))
          (grant_for_key seconds).virtual_token
        ≡ some (grant_for_key seconds)
  granted_key seconds =
      ground (arith, get-put s.grants (grant_for_key seconds) (grant_for_key seconds).virtual_token)

  -- A virtual token that `create_key` returned resolves to the real secret, in every context, until
  -- the time at which the key expires.
  pub create_key-grant_resolve :
      (alias_get : Text → Option Text) (legacy : Dict Text Text) (context : Context) (now : ℕ)
      (log : Log)
      → creating ≡ (ok key, (t, secrets'))
      → now < key.expires_at
      → (grant_resolve
          (S.get secrets')
          alias_get
          t.grants
          legacy
          key.virtual_token
          context
          now
          log).0
        ≡ some real_secret
  create_key-grant_resolve alias_get legacy context now log h unexpired =
      let (seconds, token, expiry, grants, stored) = create_key_stores h in
      let grant = grant_for_key seconds in
      rw (token, grants, stored)
        ((grant_resolve-IsLive (S.get (S.put secrets id_of_key real_secret nonce)) alias_get
            (Grants.put s.grants grant) legacy grant.virtual_token context now log grant real_secret
            (granted_key seconds)).1
          (
            record {
              active = refl;
              in_project = inl refl;
              in_run = inl refl;
              unexpired = subst (λ n. now < n) expiry unexpired;
            },
            stored_key seconds alias_get,
          ))
