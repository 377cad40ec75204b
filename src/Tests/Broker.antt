-- ===== src/Tests/Broker.antt =====
-- core/capabilities.py and the environment of implementations/secrets.py at a concrete database.
use agentsecure_community.Base.{◌≡◌, refl, Option, none, some, List, [], ◌∷◌}
use agentsecure_community.Base.Computing.{computing}
use agentsecure_community.Base.Text.{Text, lit, text_eq}
use agentsecure_community.Base.Dict
use agentsecure_community.Base.Dict.{Dict}
use agentsecure_community.Base.Exec.{ok}
use agentsecure_community.Model.{
  mode_broker, mode_deny, SecretBinding, EnvKeyPolicy, EnvPolicy, default_rule, rule_for,
  Capability, BrokerEndpointPlan, AgentSecureConfig, config_of,
}
use agentsecure_community.Network.{Ip}
use agentsecure_community.Broker.{
  sorted_names, insert_name, offset_from, assigned_local_port, is_loopback_host, url_host,
  database_from_url, path_of, endpoint, plan_for, broker_endpoint_plan, broker_url_for_env,
}
use agentsecure_community.Broker.Endpoint.{IsPlanned, broker_endpoint_plan-IsPlanned}
use agentsecure_community.Broker.Environment.{
  real_value_for_binding, build_loop, build_environment, ShownBy, build_environment-ShownBy,
}
use agentsecure_community.Broker.TokenMap.{build_token_map, LastsBy, build_token_map-LastsBy}

abbrev main_db : Capability
main_db = record {
  name = lit "main";
  type = lit "postgres";
  expose_as = lit "DATABASE_URL";
  target_host = lit "db.internal";
  target_port = 5432;
  access = lit "read";
  database = [];
  local_host = lit "localhost";
  local_port = 0;
}

abbrev audit_db : Capability
audit_db = record main_db { name = lit "audit"; local_port = 15433 }

abbrev broker_rule : EnvKeyPolicy
broker_rule = record default_rule { mode = mode_broker; capability = lit "main" }

abbrev env_policy : EnvPolicy
env_policy =
    (lit "DATABASE_URL", broker_rule)
    ∷ (lit "ROOT_KEY", record default_rule { mode = mode_deny })
    ∷ []

abbrev config : AgentSecureConfig
config = config_of env_policy ((lit "main", main_db) ∷ (lit "audit", audit_db) ∷ [])

abbrev no_address : Text → Option Ip
no_address host = none

abbrev app_path : Text → Option Text
app_path url = some (lit "/app")

abbrev unquoted : Text → Option Text
unquoted text = some text

abbrev real_url : Text
real_url = lit "postgres://u:p@db/app"

abbrev main_plan : BrokerEndpointPlan
main_plan =
    endpoint no_address app_path unquoted (lit "DATABASE_URL") main_db (lit "app") 15433
      (lit "/app")

main_planned :
    broker_endpoint_plan no_address app_path unquoted config (lit "DATABASE_URL") real_url
    ≡ ok main_plan
unfolding broker_endpoint_plan plan_for path_of rule_for is_loopback_host database_from_url
    assigned_local_port sorted_names insert_name offset_from computing
main_planned = refl

main_url :
    broker_url_for_env no_address app_path unquoted config (lit "DATABASE_URL") real_url
    ≡ ok (lit "postgres://agentsecure@localhost:15433/app")
unfolding broker_url_for_env broker_endpoint_plan plan_for path_of rule_for is_loopback_host
    url_host database_from_url assigned_local_port sorted_names insert_name offset_from computing
main_url = refl

broker_endpoint_plan-IsPlanned_example :
    IsPlanned no_address app_path unquoted config (lit "DATABASE_URL") real_url main_plan
broker_endpoint_plan-IsPlanned_example =
    (broker_endpoint_plan-IsPlanned no_address app_path unquoted config (lit "DATABASE_URL")
        real_url main_plan).0
      main_planned

-- Without a port, `audit` is assigned the base port, which `main` declares.
abbrev first_db : Capability
first_db = record audit_db { local_port = 0 }

abbrev second_db : Capability
second_db = record main_db { local_port = 15432 }

abbrev two : AgentSecureConfig
two = config_of env_policy ((lit "audit", first_db) ∷ (lit "main", second_db) ∷ [])

abbrev planned_of : Capability → BrokerEndpointPlan
planned_of db =
    endpoint no_address app_path unquoted (lit "DATABASE_URL") db (lit "app") 15432 (lit "/app")

abbrev database_binding : SecretBinding
database_binding = record {
  env_name = lit "DATABASE_URL";
  virtual_token = lit "virt_db";
  real_secret_env = lit "REAL_DATABASE_URL";
  real_secret_ref = [];
  inject_as = [];
  provider = [];
  expires_at = none;
  alias_id = [];
  approved_hosts = [];
}

abbrev key_binding : SecretBinding
key_binding = record database_binding {
  env_name = lit "OPENAI_API_KEY";
  virtual_token = lit "virt_key";
}

abbrev root_binding : SecretBinding
root_binding = record database_binding {
  env_name = lit "ROOT_KEY";
  virtual_token = lit "virt_root";
}

abbrev bindings : List SecretBinding
bindings = database_binding ∷ key_binding ∷ root_binding ∷ []

abbrev environ : Dict Text Text
environ = (lit "REAL_DATABASE_URL", real_url) ∷ []

abbrev environment : Dict Text Text
environment =
    (lit "DATABASE_URL", lit "postgres://agentsecure@localhost:15433/app")
    ∷ (lit "OPENAI_API_KEY", lit "virt_key")
    ∷ []

built :
    build_environment no_address app_path unquoted env_policy (some config) none environ bindings
    ≡ ok environment
unfolding build_environment build_loop real_value_for_binding broker_url_for_env
    broker_endpoint_plan plan_for path_of rule_for is_loopback_host url_host database_from_url
    assigned_local_port sorted_names insert_name offset_from computing
built = refl

has_key : Dict.lookup (lit "OPENAI_API_KEY") environment ≡ some (lit "virt_key")
unfolding computing
has_key = refl

build_environment-ShownBy_example :
    ShownBy no_address app_path unquoted env_policy
      (some config)
      none
      environ
      (lit "OPENAI_API_KEY")
      (lit "virt_key")
      bindings
build_environment-ShownBy_example =
    build_environment-ShownBy no_address app_path unquoted env_policy (some config) none environ
      bindings environment (lit "OPENAI_API_KEY") (lit "virt_key") built has_key

has_token : Dict.lookup (lit "virt_key") (build_token_map none environ bindings) ≡ some real_url
unfolding build_token_map computing
has_token = refl

build_token_map-LastsBy_example : LastsBy none environ (lit "virt_key") real_url bindings
build_token_map-LastsBy_example =
    build_token_map-LastsBy none environ bindings (lit "virt_key") real_url has_token
