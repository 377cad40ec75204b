-- ===== src/Model.antt =====
-- agentsecure/core/models.py: the records that the components exchange.
-- Times (`float` seconds in the source) are natural numbers.
use agentsecure_community.Base.{ℕ, Bool, true, false, Option, none, some, List, [], ◌∷◌}
use agentsecure_community.Base.Text.{Text, lit}
use agentsecure_community.Base.Dict
use agentsecure_community.Base.Dict.{Dict}
use agentsecure_community.Base.Text.{text_eq}

pub record Destination : Type 0 where
  pub scheme : Text
  pub host : Text
  pub port : ℕ
  pub credentials_present : Bool

pub record PolicyDecision : Type 0 where
  pub allowed : Bool
  pub reason : Text
  pub rule_id : Option Text

abbrev pub allow : Text → Text → PolicyDecision
allow reason rule_id = record { allowed = true; reason = reason; rule_id = some rule_id }

abbrev pub deny : Text → Text → PolicyDecision
deny reason rule_id = record { allowed = false; reason = reason; rule_id = some rule_id }

pub record SecretBinding : Type 0 where
  pub env_name : Text
  pub virtual_token : Text
  pub real_secret_env : Text
  pub real_secret_ref : Text
  pub inject_as : Text
  pub provider : Text
  pub expires_at : Option ℕ
  pub alias_id : Text
  pub approved_hosts : List Text

-- `EnvKeyPolicy.mode`; `__post_init__` refuses any other text.
pub data Mode : Type 0 where
  mode_deny mode_virtualize mode_broker : Mode

pub record EnvKeyPolicy : Type 0 where
  pub mode : Mode
  pub access : Text
  pub environment : Text
  pub risk : Text
  pub approved_hosts : List Text
  pub reason : Text
  pub capability : Text

-- `EnvKeyPolicy()`
abbrev pub default_rule : EnvKeyPolicy
default_rule = record {
  mode = mode_virtualize;
  access = [];
  environment = [];
  risk = [];
  approved_hosts = [];
  reason = [];
  capability = [];
}

-- `EnvPolicy.rules`
abbrev pub EnvPolicy : Type 0
EnvPolicy = Dict Text EnvKeyPolicy

unfoldable pub rule_for : EnvPolicy → Text → EnvKeyPolicy
rule_for rules env_name = elim (Dict.lookup env_name rules) [
  | none ↦ default_rule
  | some rule ↦ rule
]

pub record SecretGrant : Type 0 where
  pub env_name : Text
  pub virtual_token : Text
  pub secret_ref : Text
  pub provider : Text
  pub inject_as : Text
  pub created_at : ℕ
  pub expires_at : ℕ
  pub status : Text
  pub alias_id : Text
  pub scope : Text
  pub project_id : Text
  pub run_id : Text

pub record SecretAlias : Type 0 where
  pub alias_id : Text
  pub name : Text
  pub env_name : Text
  pub provider : Text
  pub inject_as : Text
  pub secret_ref : Text
  pub approved_hosts : List Text

pub record ProjectSecretAlias : Type 0 where
  pub alias_id : Text
  pub env_name : Text
  pub provider : Text
  pub inject_as : Text
  pub approved_hosts : List Text
  pub required : Bool
  pub mode : Text

pub record NetworkPolicy : Type 0 where
  pub allow_domains : List Text
  pub deny_domains : List Text
  pub allow_ports : List ℕ
  pub deny_ip_literals : Bool
  pub deny_private_networks : Bool

pub record Capability : Type 0 where
  pub name : Text
  pub type : Text
  pub expose_as : Text
  pub target_host : Text
  pub target_port : ℕ
  pub access : Text
  pub database : Text
  pub local_host : Text
  pub local_port : ℕ

pub record BrokerEndpointPlan : Type 0 where
  pub env_name : Text
  pub capability : Text
  pub type : Text
  pub local_url : Text
  pub local_host : Text
  pub local_port : ℕ
  pub target_host : Text
  pub target_port : ℕ
  pub access : Text
  pub database : Text

pub record GatewayConfig : Type 0 where
  pub host : Text
  pub port : ℕ

pub record ProviderProxyProvider : Type 0 where
  pub name : Text
  pub env_name : Text
  pub base_url_env : Text
  pub upstream : Text
  pub local_path : Text
  pub inject_as : Text
  pub allow_paths : List Text

pub record ProviderProxyConfig : Type 0 where
  pub enabled : Bool
  pub providers : Dict Text ProviderProxyProvider

-- The sections `process`, `files`, `audit` and `secret_runtime` have one field each, which stands
-- here under the name of its section. The raw data is left out.
pub record AgentSecureConfig : Type 0 where
  pub secrets : List SecretBinding
  pub secret_aliases : List ProjectSecretAlias
  pub env_policy : EnvPolicy
  pub network : NetworkPolicy
  pub allowed_commands : List Text
  pub protect_write : List Text
  pub audit_path : Text
  pub gateway : GatewayConfig
  pub secret_runtime_mode : Text
  pub provider_proxy : ProviderProxyConfig
  pub capabilities : Dict Text Capability

-- `AgentSecureConfig()`, with the rules and the capabilities that are given.
abbrev pub config_of : EnvPolicy → Dict Text Capability → AgentSecureConfig
config_of env_policy capabilities = record {
  secrets = [];
  secret_aliases = [];
  env_policy = env_policy;
  network = record {
    allow_domains = [];
    deny_domains = [];
    allow_ports = 80 ∷ 443 ∷ [];
    deny_ip_literals = true;
    deny_private_networks = true;
  };
  allowed_commands = [];
  protect_write = [];
  audit_path = lit ".agentsecure/audit.log";
  gateway = record { host = lit "127.0.0.1"; port = 8765 };
  secret_runtime_mode = lit "virtual";
  provider_proxy = record { enabled = false; providers = [] };
  capabilities = capabilities;
}
