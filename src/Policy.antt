-- ===== src/Policy.antt =====
-- agentsecure/core/policy_mutation.py, with policy_validation.py and policy_response.py: a change of
-- the policy of a project. The file of the configuration is the JSON value in it, if there is one.
-- Parameters: those of the loader and of the broker URLs, `urlsplit`'s password, and `json.dumps`
-- with sorted keys.
pub mod Validation
pub mod Applying
pub mod Screening
use agentsecure_community.Base.{
  ℕ, Bool, true, false, not, ◌&&◌, ◌||◌, Option, none, some, List, [], ◌∷◌, ◌++◌, ◌==◌, contains,
  map, if◌then◌else◌,
}
use agentsecure_community.Base.Int.{ℤ, pos, negsuc}
use agentsecure_community.Base.Lists.{keep}
use agentsecure_community.Base.Text.{Text, lit, text_eq, is_empty, strip}
use agentsecure_community.Base.Dict
use agentsecure_community.Base.Dict.{Dict}
use agentsecure_community.Base.Exec.{Result, ok, raised, Error, value_error, ◌>>=◌}
use agentsecure_community.Base.Json.{
  Json, null, boolean, number, text, array, object, Items, nil, item, end, entries, members, truthy,
  get_or, to_fields, Python, str, to_int,
}
use agentsecure_community.Model.{
  EnvKeyPolicy, EnvPolicy, Capability, BrokerEndpointPlan, AgentSecureConfig,
}
use agentsecure_community.Network.{Ip}
use agentsecure_community.Broker.{sorted_names, is_broker, broker_endpoint_plan}
use agentsecure_community.Broker.Allocator.{assign_local_ports}
use agentsecure_community.Config.{load_data}
use agentsecure_community.Config.Values.{Url, is_port}
use agentsecure_community.Policy.Validation.{
  env_policy_fields, capability_fields, validate_fields, extract_policy_payload,
  reject_raw_secret_value,
}

abbrev problem : Text → Text → Error
problem path message = value_error (path ++ message)

-- A dictionary in the raw configuration, and no entries where there is another value.
abbrev pub dict_or_empty : Json → Dict Text Json
dict_or_empty (object fields) = entries fields
dict_or_empty _ = []

-- `config.setdefault(key, {})`, which must be a dictionary.
abbrev pub section_of : Text → Dict Text Json → Result (Dict Text Json)
section_of key config = elim (get_or key (object end) config) [
  | object fields ↦ ok (entries fields)
  | _ ↦ raised (problem (lit "current " ++ key) (lit " must be a JSON object"))
]

abbrev pub with_section : Text → Dict Text Json → Dict Text Json → Dict Text Json
with_section key section config = Dict.insert key (object (to_fields section)) config

abbrev texts : List Text → Items
texts [] = nil
texts (t ∷ ts) = item (text t) (texts ts)

abbrev int_of : Text → Option ℤ → Result ℤ
int_of path none = raised (problem path (lit " must be an integer"))
int_of path (some n) = ok n

module _ (py : Python) (url_password : Text → Bool) where
  -- `[str(item).strip() for item in value if str(item).strip()]`
  abbrev stripped_hosts : Text → Json → Result Json
  stripped_hosts path (array items) = ok (
      array (
        texts (
          keep (λ host. not (is_empty host))
            (map (λ value. strip (str py value)) (members items)))))
  stripped_hosts path _ = raised (problem path (lit " must be a list"))

  abbrev as_text : Json → Json
  as_text null = text []
  as_text value = text (str py value)

  -- What a field of a rule becomes.
  unfoldable pub rule_field : Text → Text → Json → Result Json
  rule_field path name value = reject_raw_secret_value url_password path value >>= λ done.
      if name == lit "approved_hosts" then stripped_hosts path value else ok (as_text value)

  abbrev port_field : Text → Bool → Json → Result Json
  port_field path allow_zero value =
      int_of path (to_int py (if truthy value then value else number (pos 0))) >>= λ port.
      if is_port allow_zero port
      then ok (number port)
      else raised (problem path (lit " must be between 1 and 65535"))

  -- What a field of a capability becomes.
  unfoldable pub capability_field : Text → Text → Json → Result Json
  capability_field path name value = reject_raw_secret_value url_password path value >>= λ done.
      if name == lit "target_port"
      then port_field path false value
      else if name == lit "local_port"
      then port_field path true value
      else ok (as_text value)

  -- The loop over the fields of an entry.
  unfoldable pub merge_fields :
      (Text → Text → Json → Result Json)
      → Text
      → Dict Text Json
      → Dict Text Json
      → Result (Dict Text Json)
  merge_fields convert path [] next = ok next
  merge_fields convert path ((name, value) ∷ rest) next =
      convert (path ++ lit "." ++ name) name value >>= λ converted.
      merge_fields convert path rest (Dict.insert name converted next)

  -- The loop over the entries of an update.
  unfoldable pub merge_entries :
      (Text → Text → Json → Result Json)
      → List Text
      → Text
      → Dict Text Json
      → Dict Text Json
      → Result (Dict Text Json)
  unfolding merge_fields
  merge_entries convert allowed section [] current = ok current
  merge_entries convert allowed section ((name, object fields) ∷ rest) current =
      let path = section ++ lit "." ++ name in
      validate_fields path (entries fields) allowed >>= λ done.
      merge_fields convert path (entries fields) (dict_or_empty (get_or name (object end) current))
      >>= λ next.
          merge_entries convert allowed section rest
            (Dict.insert name (object (to_fields next)) current)
  merge_entries convert allowed section ((name, _) ∷ rest) current =
      raised (problem (section ++ lit "." ++ name) (lit " must be a JSON object"))

  -- `_merge_env_policy` and `_merge_capabilities`: the section of the configuration.
  unfoldable pub merge_section :
      (Text → Text → Json → Result Json)
      → List Text
      → Text
      → Dict Text Json
      → Dict Text Json
      → Result (Dict Text Json)
  unfolding merge_entries
  merge_section convert allowed section mutation config = elim (Dict.lookup section mutation) [
    | none ↦ ok config
    | some (object updates) ↦ section_of section config >>= λ current.
        merge_entries convert allowed section (entries updates) current >>= λ merged.
        ok (with_section section merged config)
    | some _ ↦ raised (problem section (lit " must be a JSON object"))
  ]

  unfoldable pub merge_env_policy : Dict Text Json → Dict Text Json → Result (Dict Text Json)
  unfolding merge_section rule_field
  merge_env_policy = merge_section rule_field env_policy_fields (lit "env_policy")

  unfoldable pub merge_capabilities : Dict Text Json → Dict Text Json → Result (Dict Text Json)
  unfolding merge_section capability_field
  merge_capabilities = merge_section capability_field capability_fields (lit "capabilities")

-- `_load_raw_config`, from the content of the file.
unfoldable pub load_raw_config : Option Json → Result (Dict Text Json)
load_raw_config none = ok []
load_raw_config (some (object fields)) = ok (entries fields)
load_raw_config (some _) = raised (value_error (lit "config root must be a JSON object"))

-- What `_build_mutation` returns.
pub record Mutation : Type 0 where
  pub next_config : Dict Text Json
  pub config : AgentSecureConfig
  pub changed : Bool

-- The answer to a client: the rules and the capabilities stand in the configuration, and the
-- endpoints in the order of their variables.
pub record Response : Type 0 where
  pub changed : Bool
  pub applied : Bool
  pub config : AgentSecureConfig
  pub broker_endpoint_plans : List BrokerEndpointPlan

abbrev pub is_brokered : AgentSecureConfig → Text → Bool
is_brokered config env_name = elim (Dict.lookup env_name config.env_policy) [
  | none ↦ false
  | some rule ↦ is_broker rule.mode
]

module _ (py : Python) (ip_address : Text → Option Ip) (urlsplit : Text → Option Url)
    (url_path : Text → Option Text) (quote : Text → Option Text) (url_password : Text → Bool)
    (canonical : Json → Text) where
  -- `_build_mutation`
  unfoldable pub build_mutation : Option Json → Json → Result Mutation
  unfolding load_raw_config merge_env_policy merge_capabilities
  build_mutation file payload = load_raw_config file >>= λ current.
      extract_policy_payload payload >>= λ mutation.
      merge_env_policy py url_password mutation current >>= λ ruled.
      merge_capabilities py url_password mutation ruled >>= λ merged.
      assign_local_ports py merged mutation >>= λ next_config.
      load_data py ip_address urlsplit (object (to_fields next_config)) >>= λ config. ok (record {
        next_config = next_config;
        config = config;
        changed =
            not (
              canonical (object (to_fields current)) == canonical (object (to_fields next_config)));
      })

  -- The endpoints of the listed variables.
  unfoldable pub plans_of : AgentSecureConfig → List Text → Result (List BrokerEndpointPlan)
  plans_of config [] = ok []
  plans_of config (env_name ∷ names) =
      broker_endpoint_plan ip_address url_path quote config env_name [] >>= λ plan.
      plans_of config names >>= λ plans. ok (plan ∷ plans)

  -- `LocalPolicyResponseRenderer.response`
  unfoldable pub response : AgentSecureConfig → Bool → Bool → Result Response
  unfolding plans_of
  response config changed applied =
      plans_of config (keep (is_brokered config) (sorted_names (Dict.keys config.env_policy)))
      >>= λ plans. ok (record {
        changed = changed;
        applied = applied;
        config = config;
        broker_endpoint_plans = plans;
      })

  unfoldable pub review : Option Json → Result Response
  unfolding load_raw_config response
  review file = load_raw_config file >>= λ current.
      load_data py ip_address urlsplit (object (to_fields current)) >>= λ config.
      response config false false

  unfoldable pub preview : Option Json → Json → Result Response
  unfolding build_mutation response
  preview file payload =
      build_mutation file payload >>= λ mutation. response mutation.config mutation.changed false

  -- `apply_local` once the change is built: the file, and the answer.
  unfoldable pub apply_built : Option Json → Result Mutation → Option Json × Result Response
  unfolding response
  apply_built file (raised error) = (file, raised error)
  apply_built file (ok mutation) = (
    (if mutation.changed then some (object (to_fields mutation.next_config)) else file),
    response mutation.config mutation.changed mutation.changed,
  )

  unfoldable pub apply_local : Option Json → Json → Option Json × Result Response
  unfolding build_mutation apply_built
  apply_local file payload = apply_built file (build_mutation file payload)
