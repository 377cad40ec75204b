-- ===== src/Mesh/Launch.antt =====
-- agentsecure/mesh/service.py: the environment that an agent is launched with.
pub mod Environment
use agentsecure_community.Base.{
  ℕ, Bool, true, false, not, ◌&&◌, ◌||◌, Option, none, some, List, [], ◌∷◌, ◌++◌, ◌==◌, contains,
  nat_beq, if◌then◌else◌,
}
use agentsecure_community.Base.Lists.{any}
use agentsecure_community.Base.Text.{Text, lit, text_eq, is_empty, strip, upper, in_range, has_sub}
use agentsecure_community.Base.Dict
use agentsecure_community.Base.Dict.{Dict}
use agentsecure_community.Base.Exec.{Result, ok, raised, value_error, ◌>>=◌}
use agentsecure_community.Model.{
  Mode, mode_deny, mode_virtualize, mode_broker, SecretBinding, EnvPolicy, rule_for,
}
use agentsecure_community.Mesh.Redaction.{looks_secret_text}

abbrev pub agent_id_key : Text
agent_id_key = lit "AGENTSECURE_AGENT_ID"

abbrev pub safe_launch_env_keys : List Text
safe_launch_env_keys =
    lit "AGENTSECURE_AGENT_ID"
    ∷ lit "CI"
    ∷ lit "COLORTERM"
    ∷ lit "HOME"
    ∷ lit "LANG"
    ∷ lit "LC_ALL"
    ∷ lit "LC_CTYPE"
    ∷ lit "LOGNAME"
    ∷ lit "NODE_ENV"
    ∷ lit "PATH"
    ∷ lit "SHELL"
    ∷ lit "TERM"
    ∷ lit "TMPDIR"
    ∷ lit "USER"
    ∷ []

abbrev pub secret_env_markers : List Text
secret_env_markers =
    lit "ACCESS_TOKEN"
    ∷ lit "APIKEY"
    ∷ lit "API_KEY"
    ∷ lit "AUTH"
    ∷ lit "BEARER"
    ∷ lit "CLIENT_SECRET"
    ∷ lit "CONNECTION_STRING"
    ∷ lit "COOKIE"
    ∷ lit "CREDENTIAL"
    ∷ lit "DATABASE_URL"
    ∷ lit "DB_URL"
    ∷ lit "JWT"
    ∷ lit "KEY"
    ∷ lit "OAUTH"
    ∷ lit "PASSWORD"
    ∷ lit "PRIVATE"
    ∷ lit "SECRET"
    ∷ lit "TOKEN"
    ∷ []

-- `_is_secret_env_name`
unfoldable pub is_secret_env_name : Text → Bool
is_secret_env_name name =
    let normalized = upper name in any (λ marker. has_sub normalized marker) secret_env_markers

abbrev is_name_start : ℕ → Bool
is_name_start c = in_range 65 90 c || in_range 97 122 c || nat_beq c b'_'

abbrev is_name_char : ℕ → Bool
is_name_char c = is_name_start c || in_range 48 57 c

-- `^[A-Za-z_][A-Za-z0-9_]*$`, on a name without white space at its ends.
unfoldable pub is_env_name : Text → Bool
is_env_name [] = false
is_env_name (c ∷ s) = is_name_start c && not (any (λ d. not (is_name_char d)) s)

-- One round of the loop in `_safe_launch_profile_env`.
unfoldable pub safe_entry : Text → Text → Dict Text Text → Result (Dict Text Text)
safe_entry key value safe =
    let name = strip key in
    if is_empty name
    then ok safe
    else if not (is_env_name name)
    then raised (
        value_error
          (lit "launch profile env key must be a valid environment variable name: " ++ name))
    else if not (name == agent_id_key) && is_secret_env_name name
    then raised (value_error (lit "launch profile env must not persist secret-like key: " ++ name))
    else if looks_secret_text value
    then raised (
        value_error (
          lit "launch profile env "
          ++ name
          ++ lit " looks secret-like; use AgentSecure secrets instead"))
    else ok (Dict.insert name value safe)

unfoldable pub safe_entries : Dict Text Text → Dict Text Text → Result (Dict Text Text)
unfolding safe_entry
safe_entries [] safe = ok safe
safe_entries ((key, value) ∷ rest) safe =
    safe_entry key value safe >>= λ next. safe_entries rest next

-- `_safe_launch_profile_env`
unfoldable pub safe_launch_profile_env : Dict Text Text → Text → Result (Dict Text Text)
unfolding safe_entries
safe_launch_profile_env env agent_id = safe_entries env ((agent_id_key, agent_id) ∷ [])

abbrev pub is_denied : Mode → Bool
is_denied mode_deny = true
is_denied mode_virtualize = false
is_denied mode_broker = false

-- `_virtual_secret_environment`, on what the rounds before have assigned.
unfoldable pub virtual_secrets : EnvPolicy → List SecretBinding → Dict Text Text → Dict Text Text
virtual_secrets env_policy [] environment = environment
virtual_secrets env_policy (binding ∷ rest) environment =
    let next =
      if is_denied (rule_for env_policy binding.env_name).mode || is_empty binding.virtual_token
      then environment
      else Dict.insert binding.env_name binding.virtual_token environment in
    virtual_secrets env_policy rest next

-- The variables of the process that are passed on.
unfoldable pub passed_on : Dict Text Text → Dict Text Text
passed_on [] = []
passed_on ((key, value) ∷ rest) =
    let kept = passed_on rest in
    if contains safe_launch_env_keys key && not (looks_secret_text value)
    then (key, value) ∷ kept
    else kept

-- `env.update(more)`
unfoldable pub update : Dict Text Text → Dict Text Text → Dict Text Text
update env [] = env
update env ((key, value) ∷ more) = update (Dict.insert key value env) more

abbrev pub id_in_profile : Dict Text Text → Text
id_in_profile profile_env = elim (Dict.lookup agent_id_key profile_env) [
  | none ↦ []
  | some agent_id ↦ agent_id
]

-- `_launch_environment`
unfoldable pub launch_environment :
    EnvPolicy → List SecretBinding → Dict Text Text → Dict Text Text → Result (Dict Text Text)
unfolding safe_launch_profile_env virtual_secrets passed_on update
launch_environment env_policy secrets environ profile_env =
    safe_launch_profile_env profile_env (id_in_profile profile_env) >>= λ safe.
    ok (update (update (passed_on environ) safe) (virtual_secrets env_policy secrets []))

-- The environment that `launch_agent` gives to the process: its id is put in last.
unfoldable pub agent_environment :
    EnvPolicy
    → List SecretBinding
    → Dict Text Text
    → Dict Text Text
    → Text
    → Result (Dict Text Text)
unfolding launch_environment
agent_environment env_policy secrets environ profile_env agent_id =
    launch_environment env_policy secrets environ profile_env >>= λ env.
    ok (Dict.insert agent_id_key agent_id env)
