-- ===== src/Tests/Launch.antt =====
-- mesh/service.py: the environment of a launched agent, with one secret in the process.
use agentsecure_community.Base.{◌≡◌, refl, none, some, [], ◌∷◌}
use agentsecure_community.Base.Computing.{computing}
use agentsecure_community.Base.Text.{Text, lit, text_eq}
use agentsecure_community.Base.Dict
use agentsecure_community.Base.Dict.{Dict}
use agentsecure_community.Base.Exec.{ok, raised, value_error}
use agentsecure_community.Model.{SecretBinding, EnvPolicy, rule_for}
use agentsecure_community.Mesh.Redaction.{looks_secret_text, key_from, key_at}
use agentsecure_community.Mesh.Launch.{
  is_secret_env_name, is_env_name, safe_entry, safe_entries, safe_launch_profile_env,
  virtual_secrets, passed_on, update, launch_environment, agent_environment,
}
use agentsecure_community.Mesh.Launch.Environment.{IsGiven, agent_environment-IsGiven}

abbrev key_binding : SecretBinding
key_binding = record {
  env_name = lit "OPENAI_API_KEY";
  virtual_token = lit "virt_key";
  real_secret_env = [];
  real_secret_ref = lit "local:k";
  inject_as = [];
  provider = [];
  expires_at = none;
  alias_id = [];
  approved_hosts = [];
}

abbrev no_rules : EnvPolicy
no_rules = []

abbrev process : Dict Text Text
process =
    (lit "HOME", lit "/root")
    ∷ (lit "OPENAI_API_KEY", lit "sk-real")
    ∷ (lit "SHELL", lit "token=abc")
    ∷ []

abbrev profile : Dict Text Text
profile = (lit "AGENTSECURE_AGENT_ID", lit "bob") ∷ (lit " MODE ", lit "fast") ∷ []

abbrev launched : Dict Text Text
launched =
    (lit "HOME", lit "/root")
    ∷ (lit "AGENTSECURE_AGENT_ID", lit "bob")
    ∷ (lit "MODE", lit "fast")
    ∷ (lit "OPENAI_API_KEY", lit "virt_key")
    ∷ []

was_launched : launch_environment no_rules (key_binding ∷ []) process profile ≡ ok launched
unfolding launch_environment safe_launch_profile_env safe_entries safe_entry is_env_name
    is_secret_env_name virtual_secrets rule_for passed_on update looks_secret_text key_from key_at
    computing
was_launched = refl

secret_name_refused :
    safe_launch_profile_env ((lit "DB_PASSWORD", lit "x") ∷ []) (lit "bob")
    ≡ raised (value_error (lit "launch profile env must not persist secret-like key: DB_PASSWORD"))
unfolding safe_launch_profile_env safe_entries safe_entry is_env_name is_secret_env_name
    looks_secret_text key_from key_at computing
secret_name_refused = refl

agent_launched :
    agent_environment no_rules (key_binding ∷ []) process profile (lit "alice")
    ≡ ok (Dict.insert (lit "AGENTSECURE_AGENT_ID") (lit "alice") launched)
unfolding agent_environment launch_environment safe_launch_profile_env safe_entries safe_entry
    is_env_name is_secret_env_name virtual_secrets rule_for passed_on update looks_secret_text
    key_from key_at computing
agent_launched = refl

agent_has_token :
    Dict.lookup
      (lit "OPENAI_API_KEY")
      (Dict.insert (lit "AGENTSECURE_AGENT_ID") (lit "alice") launched)
    ≡ some (lit "virt_key")
unfolding computing
agent_has_token = refl

agent_environment-IsGiven_example :
    IsGiven no_rules
      (key_binding ∷ [])
      process
      profile
      (lit "alice")
      (lit "OPENAI_API_KEY")
      (lit "virt_key")
agent_environment-IsGiven_example =
    agent_environment-IsGiven no_rules (key_binding ∷ []) process profile
      (Dict.insert (lit "AGENTSECURE_AGENT_ID") (lit "alice") launched) (lit "alice")
      (lit "OPENAI_API_KEY") (lit "virt_key") agent_launched agent_has_token
