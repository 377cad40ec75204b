-- ===== src/Keys.antt =====
-- agentsecure/core/key_service.py: `create_key`, which stores a secret and grants a virtual token.
-- `secrets.token_urlsafe` and `now_seconds` are arguments. The configuration file is what loading
-- it gives: the entries of its `secrets`, or the error.
pub mod Usable
use agentsecure_community.Base.{ℕ, ◌+◌, Bool, true, false, List, [], ◌∷◌, ◌++◌, if◌then◌else◌}
use agentsecure_community.Base.Text.{Text, lit, is_empty, or_text, slug}
use agentsecure_community.Base.Event.{Log, emit, text, number}
use agentsecure_community.Base.Exec.{Result, ok, raised, key_error}
use agentsecure_community.Model.{SecretGrant}
use agentsecure_community.Grants.{Grants}
use agentsecure_community.Grants
use agentsecure_community.Aliases.Runs.{ttl_seconds}
use agentsecure_community.Secrets.{SecretStore}

-- The entry that is added to `secrets` of the configuration.
pub record KeyEntry : Type 0 where
  pub env_name : Text
  pub virtual_token : Text
  pub real_secret_ref : Text
  pub inject_as : Text
  pub provider : Text
  pub name : Text
  pub expires_at : ℕ

-- The result, without the path of the configuration.
pub record CreatedKey : Type 0 where
  pub env_name : Text
  pub provider : Text
  pub inject_as : Text
  pub virtual_token : Text
  pub secret_ref : Text
  pub created_at : ℕ
  pub expires_at : ℕ
  pub ttl_seconds : ℕ

pub record KeyState : Type 0 where
  pub grants : Grants
  pub config : Result (List KeyEntry)
  pub log : Log

-- `_generate_virtual_token`
abbrev pub generate_virtual_token : Text → Text → Text
generate_virtual_token provider_slug random = lit "virt_" ++ (provider_slug ++ (lit "_" ++ random))

-- `_generate_secret_id`
abbrev pub generate_secret_id : Text → Text → Text
generate_secret_id provider_slug random = provider_slug ++ (lit "_" ++ random)

module _ (S : SecretStore) (env_name real_secret provider inject_as name ttl : Text)
    (token_random id_random nonce : Text) (created_at : ℕ) where
  abbrev pub provider_slug : Text
  provider_slug = slug (or_text provider (lit "custom"))

  abbrev pub virtual_token : Text
  virtual_token = generate_virtual_token provider_slug token_random

  abbrev pub secret_id : Text
  secret_id = generate_secret_id provider_slug id_random

  abbrev pub secret_ref : Text
  secret_ref = lit "local:" ++ secret_id

  abbrev pub key_grant : ℕ → SecretGrant
  key_grant seconds = record {
    env_name = env_name;
    virtual_token = virtual_token;
    secret_ref = secret_ref;
    provider = provider_slug;
    inject_as = inject_as;
    created_at = created_at;
    expires_at = created_at + seconds;
    status = lit "active";
    alias_id = [];
    scope = lit "project";
    project_id = [];
    run_id = [];
  }

  abbrev pub key_entry : ℕ → KeyEntry
  key_entry seconds = record {
    env_name = env_name;
    virtual_token = virtual_token;
    real_secret_ref = secret_ref;
    inject_as = inject_as;
    provider = provider_slug;
    name = name;
    expires_at = created_at + seconds;
  }

  abbrev pub created_key : ℕ → CreatedKey
  created_key seconds = record {
    env_name = env_name;
    provider = provider_slug;
    inject_as = inject_as;
    virtual_token = virtual_token;
    secret_ref = secret_ref;
    created_at = created_at;
    expires_at = created_at + seconds;
    ttl_seconds = seconds;
  }

  -- From the load of the configuration on, with the secret and the grant stored.
  unfoldable pub record_key : ℕ → KeyState → Result (List KeyEntry) → Result CreatedKey × KeyState
  record_key seconds s (raised error) = (raised error, s)
  record_key seconds s (ok entries) = (
    ok (created_key seconds),
    record s {
      config = ok (entries ++ (key_entry seconds ∷ []));
      log = emit s.log (lit "key_created") (
          (lit "env_name", text env_name)
          ∷ (lit "provider", text provider_slug)
          ∷ (lit "secret_ref", text secret_ref)
          ∷ (lit "virtual_token", text virtual_token)
          ∷ (lit "expires_at", number (created_at + seconds))
          ∷ []);
    },
  )

  -- From the lifetime on.
  unfoldable pub store_key :
      Result ℕ → KeyState → S.State → Result CreatedKey × (KeyState × S.State)
  unfolding record_key
  store_key (raised error) s secrets = (raised error, (s, secrets))
  store_key (ok seconds) s secrets =
      let (result, s') =
        record_key seconds (record s { grants = Grants.put s.grants (key_grant seconds) })
          s.config in
      (result, (s', S.put secrets secret_id real_secret nonce))

  unfoldable pub create_key : KeyState → S.State → Result CreatedKey × (KeyState × S.State)
  unfolding store_key
  create_key s secrets =
      if is_empty env_name
      then (raised (key_error (lit "env_name is required")), (s, secrets))
      else if is_empty real_secret
      then (raised (key_error (lit "real_secret is required")), (s, secrets))
      else store_key (ttl_seconds ttl) s secrets
