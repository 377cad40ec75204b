-- ===== src/Secrets/Encrypted.antt =====
-- agentsecure/implementations/encrypted_secret_store.py: secrets kept as ciphertexts. The file is
-- the dictionary that `_read_raw` returns, an item its `ciphertext` field. The cipher is a
-- parameter: `encrypt` of a nonce and a text, `decrypt` with `none` for an authentication failure.
use agentsecure_community.Base.{◌≡◌, Bool, true, false, Option, none, some, arith, if◌then◌else◌}
use agentsecure_community.Base.Text.{Text, text_eq, is_empty}
use agentsecure_community.Base.Dict
use agentsecure_community.Base.Dict.{Dict}
use agentsecure_community.Secrets.{SecretStore, IsLawful}

module _ (encrypt : Text → Text → Text) (decrypt : Text → Option Text) where
  unfoldable pub put : Dict Text Text → Text → Text → Text → Dict Text Text
  put items name value nonce = Dict.insert name (encrypt nonce value) items

  unfoldable pub get : Dict Text Text → Text → Option Text
  get items name = elim (Dict.lookup name items) [
    | none ↦ none
    | some ciphertext ↦ if is_empty ciphertext then none else decrypt ciphertext
  ]

  unfoldable pub delete : Dict Text Text → Text → Bool × Dict Text Text
  delete items name = elim (Dict.lookup name items) [
    | none ↦ (false, items)
    | some ciphertext ↦ (true, Dict.erase name items)
  ]

  abbrev pub encrypted_store : SecretStore
  encrypted_store = record {
    State = Dict Text Text;
    get = get;
    put = put;
    delete = λ items name. (delete items name).1;
  }

  module _ (decrypt-encrypt : (nonce value : Text) → decrypt (encrypt nonce value) ≡ some value)
      (encrypt_filled : (nonce value : Text) → is_empty (encrypt nonce value) ≡ false) where
    -- If decryption undoes encryption and no ciphertext is empty, the store of ciphertexts keeps the
    -- laws of a secret store: a name that was put has its value, a name that was deleted has none,
    -- and other names keep theirs.
    pub encrypted_store-IsLawful : IsLawful encrypted_store
    unfolding get put delete
    encrypted_store-IsLawful = record {
      get-put = λ items name value nonce other. ground (
        arith,
        Dict.lookup-insert other name (encrypt nonce value) items,
        decrypt-encrypt nonce value,
        encrypt_filled nonce value,
      );
      get-delete = λ items name other. ground (arith, Dict.lookup-erase other name items);
    }
