-- ===== src/Crypto/Store.antt =====
-- agentsecure/implementations/encrypted_secret_store.py over agentsecure/crypto/cipher.py: the store
-- of secrets with the cipher that the program gives it.
use agentsecure_community.Base.{◌≡◌, refl, ap, false, Option, none, some, [], ◌∷◌, ◌++◌}
use agentsecure_community.Base.Lists.{length}
use agentsecure_community.Base.Text.{Text, lit, is_empty}
use agentsecure_community.Base.Exec.{Result, ok, raised}
use agentsecure_community.Secrets.{SecretStore, IsLawful}
use agentsecure_community.Secrets.Encrypted.{encrypted_store, encrypted_store-IsLawful}
use agentsecure_community.Crypto.{Bytes, version, Primitives, AreDocumented, encrypt, decrypt}
use agentsecure_community.Crypto.RoundTrip.{decrypt-encrypt}

-- `except (ValueError, TypeError): return None`
abbrev pub or_none : Result Text → Option Text
or_none (ok text) = some text
or_none (raised error) = none

module _ (p : Primitives) (urandom : Text → Bytes) where
  -- The store with the cipher; a call of `put` draws its nonce from the seed.
  abbrev pub cipher_store : SecretStore
  cipher_store =
      encrypted_store (λ seed value. encrypt p (urandom seed) value)
        (λ text. or_none (decrypt p text))

  module _ (documented : AreDocumented p) (drawn : (seed : Text) → length (urandom seed) ≡ 16) where
    text_filled :
        (text : Text) (rest : Bytes)
        → p.b64decode text ≡ some (version ++ rest)
        → is_empty text ≡ false
    unfolding lit
    text_filled [] rest e = absurd (cc (documented.b64decode-nil, e))
    text_filled (c ∷ text) rest e = refl

    encrypt_filled : (nonce : Bytes) (value : Text) → is_empty (encrypt p nonce value) ≡ false
    unfolding encrypt
    encrypt_filled nonce value = text_filled _ _ (documented.b64decode-b64encode _)

    -- With the local cipher the store keeps the laws of a secret store: what was put is read back,
    -- what was deleted is gone, and other names keep their values.
    pub cipher_store-IsLawful : IsLawful cipher_store
    cipher_store-IsLawful =
        encrypted_store-IsLawful _ _
          (λ seed value.
            ap or_none (decrypt-encrypt p documented (urandom seed) (drawn seed) value))
          (λ seed value. encrypt_filled (urandom seed) value)
