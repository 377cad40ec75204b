-- ===== src/Broker.antt =====
-- agentsecure/core/capabilities.py: where the local broker of a capability listens.
-- Parameters: `ipaddress.ip_address` (`none` is its ValueError), the path that `urlsplit` finds in
-- a URL (`none` is its ValueError), and `quote` with no safe character
-- (`none` is its UnicodeEncodeError).
pub mod Ports
pub mod Parts
pub mod Endpoint
pub mod Environment
pub mod TokenMap
pub mod Allocator
use agentsecure_community.Base.{
  ℕ, zero, suc, ◌+◌, Bool, true, false, not, ◌&&◌, ◌||◌, Option, none, some, List, [], ◌∷◌, ◌++◌,
  ◌==◌, nat_eq, leb, if◌then◌else◌,
}
use agentsecure_community.Base.Text.{
  Text, lit, text_eq, is_empty, or_text, strip, lstrip, starts_with, ends_with, drop_text,
  drop_last, decimal, text_leb, has_sub,
}
use agentsecure_community.Base.Dict
use agentsecure_community.Base.Exec.{Result, ok, raised, broker_error, unicode_error}
use agentsecure_community.Model.{
  Mode, mode_deny, mode_virtualize, mode_broker, EnvKeyPolicy, rule_for, Capability,
  BrokerEndpointPlan, AgentSecureConfig,
}
use agentsecure_community.Network.{Ip}

abbrev pub broker_base_port : ℕ
broker_base_port = 15432

-- `sorted(names)`
unfoldable pub insert_name : Text → List Text → List Text
insert_name name [] = name ∷ []
insert_name name (other ∷ names) =
    let rest = insert_name name names in
    if text_leb name other then name ∷ other ∷ names else other ∷ rest

unfoldable pub sorted_names : List Text → List Text
unfolding insert_name
sorted_names [] = []
sorted_names (name ∷ names) = insert_name name (sorted_names names)

-- `names.index(name)`, and 0 for a name that is not listed.
unfoldable pub offset_from : ℕ → Text → List Text → ℕ
offset_from at name [] = 0
offset_from at name (other ∷ names) =
    let rest = offset_from (suc at) name names in if name == other then at else rest

unfoldable pub assigned_local_port : AgentSecureConfig → Text → ℕ
unfolding sorted_names offset_from
assigned_local_port config capability_name =
    broker_base_port + offset_from 0 capability_name (sorted_names (Dict.keys config.capabilities))

abbrev pub is_valid_port : ℕ → Bool
is_valid_port port = leb 1 port && leb port 65535

-- `text.startswith("[") and text.endswith("]")`
abbrev pub is_bracketed : Text → Bool
is_bracketed host = starts_with host (lit "[") && ends_with host (lit "]")

abbrev pub is_broker : Mode → Bool
is_broker mode_broker = true
is_broker mode_deny = false
is_broker mode_virtualize = false

-- `port or default`
abbrev pub or_port : ℕ → ℕ → ℕ
or_port zero default = default
or_port (suc port) default = suc port

unfoldable pub url_host : Text → Text
url_host given =
    let host = strip given in
    if has_sub host (lit ":") && not (is_bracketed host) then lit "[" ++ host ++ lit "]" else host

abbrev pub is_slash : ℕ → Bool
is_slash c = c == b'/'

abbrev pub slashed : Option Text → Option Text
slashed none = none
slashed (some quoted) = some (lit "/" ++ quoted)

module _ (ip_address : Text → Option Ip) where
  abbrev pub loops_back : Option Ip → Bool
  loops_back none = false
  loops_back (some ip) = ip.is_loopback

  unfoldable pub is_loopback_host : Text → Bool
  is_loopback_host given =
      let host = strip given in
      if host == lit "localhost"
      then true
      else loops_back
          (ip_address (if is_bracketed host then drop_last (drop_text 1 host) else host))

module _ (ip_address : Text → Option Ip) (url_path : Text → Option Text)
    (quote : Text → Option Text) where
  unfoldable pub database_from_url : Text → Text
  database_from_url value =
      if is_empty value
      then []
      else elim (url_path (strip value)) [ none ↦ [] | some path ↦ lstrip is_slash path ]

  -- The path of the URL, if the database can be quoted.
  unfoldable pub path_of : Text → Option Text
  path_of database =
      if is_empty database then some [] else slashed (quote (lstrip is_slash database))

  -- The URL and the record at the end of `broker_endpoint_plan`.
  abbrev pub endpoint : Text → Capability → Text → ℕ → Text → BrokerEndpointPlan
  endpoint env_name capability database port path = record {
    env_name = env_name;
    capability = capability.name;
    type = capability.type;
    local_url =
        lit "postgres://agentsecure@"
        ++ url_host capability.local_host
        ++ lit ":"
        ++ decimal port
        ++ path;
    local_host = capability.local_host;
    local_port = port;
    target_host = capability.target_host;
    target_port = capability.target_port;
    access = capability.access;
    database = database;
  }

  -- The part of `broker_endpoint_plan` that has the capability.
  unfoldable pub plan_for : AgentSecureConfig → Text → Text → Capability → Result BrokerEndpointPlan
  unfolding path_of
  plan_for config env_name real_value capability =
      let database = or_text capability.database (database_from_url real_value) in
      let port = or_port capability.local_port (assigned_local_port config capability.name) in
      if not (is_loopback_host ip_address capability.local_host)
      then raised (
          broker_error
            (lit "capabilities." ++ capability.name ++ lit ".local_host must be loopback-only"))
      else if not (is_valid_port port)
      then raised (
          broker_error (
            lit "capabilities."
            ++ capability.name
            ++ lit ".local_port must be between 1 and 65535"))
      else elim (path_of database) [
        | none ↦ raised unicode_error
        | some path ↦ ok (endpoint env_name capability database port path)
      ]

  unfoldable pub broker_endpoint_plan : AgentSecureConfig → Text → Text → Result BrokerEndpointPlan
  unfolding plan_for
  broker_endpoint_plan config env_name real_value =
      let rule = rule_for config.env_policy env_name in
      if not (is_broker rule.mode)
      then raised
          (broker_error (lit "env_policy." ++ env_name ++ lit " is not configured for broker mode"))
      else if is_empty rule.capability
      then raised (
          broker_error
            (lit "env_policy." ++ env_name ++ lit ".capability is required for broker mode"))
      else elim (Dict.lookup rule.capability config.capabilities) [
        | none ↦ raised (
            broker_error (
              lit "env_policy."
              ++ env_name
              ++ lit ".capability references unknown capability "
              ++ rule.capability))
        | some capability ↦ plan_for config env_name real_value capability
      ]

  unfoldable pub broker_url_for_env : AgentSecureConfig → Text → Text → Result Text
  broker_url_for_env config env_name real_value =
      elim (broker_endpoint_plan config env_name real_value) [
        | raised error ↦ raised error
        | ok plan ↦ ok plan.local_url
      ]
