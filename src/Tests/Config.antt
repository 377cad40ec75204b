-- ===== src/Tests/Config.antt =====
-- core/config.py at a concrete configuration.
use agentsecure_community.Base.{
  ◌⊎◌, ◌≡◌, ◌≤◌, refl, true, false, Option, none, some, [], ◌∷◌, arith,
}
use agentsecure_community.Base.Computing.{computing}
use agentsecure_community.Base.Int.{pos}
use agentsecure_community.Base.Lists.{length}
use agentsecure_community.Base.Text.{lstrip, or_text, Text, lit, text_eq}
use agentsecure_community.Base.Dict
use agentsecure_community.Base.Exec.{unicode_error, ok, raised, config_error}
use agentsecure_community.Base.Json.{Json, text, number, object, field, end, get_or, Python}
use agentsecure_community.Model.{
  mode_broker, EnvKeyPolicy, default_rule, rule_for, Capability, BrokerEndpointPlan,
  AgentSecureConfig, config_of,
}
use agentsecure_community.Network.{Ip}
use agentsecure_community.Broker.{
  is_slash, database_from_url, is_loopback_host, broker_endpoint_plan,
}
use agentsecure_community.Config.{
  gateway_of, parse_gateway, runtime_of, parse_secret_runtime, network_of, parse, load_data,
}
use agentsecure_community.Config.Values.{Url, parse_entries}
use agentsecure_community.Config.Capabilities.{capability_of, parse_capability, parse_capabilities}
use agentsecure_community.Config.Rules.{mode_of, rule_of, parse_rule, parse_env_policy}
use agentsecure_community.Config.Providers.{overlap, parse_provider_proxy}
use agentsecure_community.Config.Secrets.{each, parse_secrets, parse_secret_aliases}
use agentsecure_community.Config.WellFormed.{IsWellFormed, load_data-IsWellFormed}
use agentsecure_community.Config.Serving.{load_data-broker_endpoint_plan}

abbrev py : Python
py = record { show = λ value. lit "?"; parse_int = λ t. none; parse_float = λ t. none }

abbrev no_address : Text → Option Ip
no_address host = none

abbrev local_url : Text → Option Url
local_url t = some (record { scheme = lit "https"; hostname = lit "api"; port = some none })

abbrev main_json : Json
main_json = object (
    field (lit "type") (text (lit "postgres")) (
      field (lit "target_host") (text (lit "db")) (
        field (lit "target_port") (number (pos 5432))
          (field (lit "local_host") (text (lit "localhost")) end))))

abbrev rule_json : Json
rule_json =
    object
      (field (lit "mode") (text (lit "broker")) (field (lit "capability") (text (lit "main")) end))

abbrev gateway_json : Json
gateway_json = object (field (lit "host") (text (lit "localhost")) end)

abbrev data_json : Json
data_json = object (
    field (lit "capabilities") (object (field (lit "main") main_json end)) (
      field (lit "env_policy") (object (field (lit "DB") rule_json end))
        (field (lit "gateway") gateway_json end)))

abbrev main_db : Capability
main_db = record {
  name = lit "main";
  type = lit "postgres";
  expose_as = [];
  target_host = lit "db";
  target_port = 5432;
  access = [];
  database = [];
  local_host = lit "localhost";
  local_port = 0;
}

abbrev db_rule : EnvKeyPolicy
db_rule = record default_rule { mode = mode_broker; capability = lit "main" }

abbrev loaded : AgentSecureConfig
loaded = record (config_of ((lit "DB", db_rule) ∷ []) ((lit "main", main_db) ∷ [])) {
  gateway = record { host = lit "localhost"; port = 8765 };
}

data_loads : load_data py no_address local_url data_json ≡ ok loaded
unfolding load_data parse parse_gateway gateway_of parse_secret_runtime runtime_of network_of
    parse_entries capability_of parse_capability parse_capabilities mode_of rule_of parse_rule
    parse_env_policy parse_provider_proxy parse_secrets parse_secret_aliases each get_or
    is_loopback_host computing
data_loads = refl

load_data-IsWellFormed_example : IsWellFormed no_address local_url loaded
load_data-IsWellFormed_example =
    load_data-IsWellFormed py no_address local_url data_json loaded data_loads

few : length (Dict.keys loaded.capabilities) ≤ 50103
unfolding computing
few = omega arith

db_is_brokered : (rule_for loaded.env_policy (lit "DB")).mode ≡ mode_broker
unfolding rule_for computing
db_is_brokered = refl

load_data-broker_endpoint_plan_example :
    ((plan : BrokerEndpointPlan) × (broker_endpoint_plan no_address
          (λ url. none)
          some
          loaded
          (lit "DB")
          []
        ≡ ok plan))
    ⊎ ((broker_endpoint_plan no_address (λ url. none) some loaded (lit "DB") []
          ≡ raised unicode_error)
        × ((capability : Capability) × (Dict.lookup
                (rule_for loaded.env_policy (lit "DB")).capability
                loaded.capabilities
              ≡ some capability)
            × (some (
                  lstrip is_slash (
                    or_text capability.database
                      (database_from_url no_address (λ url. none) some [])))
                ≡ none)))
load_data-broker_endpoint_plan_example =
    load_data-broker_endpoint_plan py no_address local_url (λ url. none) some data_json loaded
      (lit "DB") [] data_loads few db_is_brokered

-- A gateway that other machines could reach is refused.
gateway_refused :
    load_data py no_address local_url
      (object (field (lit "gateway") (object (field (lit "host") (text (lit "0.0.0.0")) end)) end))
    ≡ raised (config_error (lit "gateway.host must be loopback-only"))
unfolding load_data parse parse_gateway gateway_of parse_entries parse_capabilities parse_env_policy
    parse_secrets parse_secret_aliases each get_or is_loopback_host computing
gateway_refused = refl

-- `/api` and `/api/v1` overlap, `/api` and `/apis` do not.
paths_overlap : overlap (lit "/api") (lit "/api/v1") ≡ true
unfolding overlap computing
paths_overlap = refl

paths_apart : overlap (lit "/api") (lit "/apis") ≡ false
unfolding overlap computing
paths_apart = refl
