-- ===== src/Tests/Keys.antt =====
-- core/key_service.py with the encrypted store and one key.
use agentsecure_community.Base.{◌≡◌, refl, Option, none, some, [], ◌∷◌, arith}
use agentsecure_community.Base.Computing.{computing}
use agentsecure_community.Base.Text.{Text, lit, slug}
use agentsecure_community.Base.Dict.{Dict}
use agentsecure_community.Base.Exec.{Result, ok}
use agentsecure_community.Duration.{parse_duration_seconds}
use agentsecure_community.Resolver.{Context, grant_resolve}
use agentsecure_community.Secrets.{SecretStore}
use agentsecure_community.Secrets.Encrypted.{encrypted_store, encrypted_store-IsLawful}
use agentsecure_community.Aliases.Runs.{ttl_seconds}
use agentsecure_community.Keys.{
  CreatedKey, KeyState, created_key, record_key, store_key, create_key,
}
use agentsecure_community.Keys.Usable.{create_key-grant_resolve}

abbrev marked : Text → Text → Text
marked nonce value = 1 ∷ value

abbrev unmark : Text → Option Text
unmark [] = none
unmark (_ ∷ value) = some value

abbrev store : SecretStore
store = encrypted_store marked unmark

abbrev no_secrets : Dict Text Text
no_secrets = []

abbrev fresh : KeyState
fresh = record { grants = []; config = ok []; log = [] }

abbrev creating : Result CreatedKey × (KeyState × Dict Text Text)
creating =
    create_key store (lit "OPENAI_API_KEY") (lit "sk-real") (lit "openai") (lit "bearer") []
      (lit "1h") (lit "a") (lit "b") (lit "n") 1000 fresh no_secrets

abbrev key : CreatedKey
key =
    created_key store (lit "OPENAI_API_KEY") (lit "sk-real") (lit "openai") (lit "bearer") []
      (lit "1h") (lit "a") (lit "b") (lit "n") 1000 3600

was_created : creating ≡ (ok key, (creating.1.0, creating.1.1))
unfolding create_key store_key record_key ttl_seconds parse_duration_seconds slug computing
was_created = refl

abbrev somewhere : Context
somewhere = record { host = lit "api.openai.com"; project_id = lit "p"; run_id = [] }

abbrev no_alias : Text → Option Text
no_alias name = none

create_key-grant_resolve_example :
    (grant_resolve
      (store.get creating.1.1)
      no_alias
      creating.1.0.grants
      []
      key.virtual_token
      somewhere
      2000
      []).0
    ≡ some (lit "sk-real")
create_key-grant_resolve_example =
    create_key-grant_resolve store
      (encrypted_store-IsLawful marked unmark (λ _ _. refl) (λ _ _. refl)) (lit "OPENAI_API_KEY")
      (lit "sk-real") (lit "openai") (lit "bearer") [] (lit "1h") (lit "a") (lit "b") (lit "n") 1000
      fresh no_secrets key creating.1.0 creating.1.1 no_alias [] somewhere 2000 [] was_created
      (omega arith)
