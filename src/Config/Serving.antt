-- ===== src/Config/Serving.antt =====
-- agentsecure/core/config.py with agentsecure/core/capabilities.py: the endpoints of a
-- configuration that is loaded.
use agentsecure_community.Base.{
  ℕ, zero, suc, ◌≡◌, ◌≤◌, ◌∙◌, ◌⊎◌, true, Option, none, some, arith, inl, inr, Option-cases,
}
use agentsecure_community.Base.Lists.{length}
use agentsecure_community.Base.Text.{Text, text_eq, or_text, lstrip}
use agentsecure_community.Base.Dict
use agentsecure_community.Base.Dict.{Dict}
use agentsecure_community.Base.Exec.{ok, raised, unicode_error}
use agentsecure_community.Base.Json.{Json, Python}
use agentsecure_community.Model.{
  mode_broker, EnvPolicy, rule_for, Capability, BrokerEndpointPlan, AgentSecureConfig,
}
use agentsecure_community.Network.{Ip}
use agentsecure_community.Broker.{
  or_port, is_valid_port, assigned_local_port, is_slash, database_from_url, path_of,
  broker_endpoint_plan,
}
use agentsecure_community.Broker.Ports.{assigned_local_port_bounds}
use agentsecure_community.Broker.Parts.{no_path}
use agentsecure_community.Broker.Endpoint.{
  planned_endpoint, database_of, unquoted_plan_for, found_plan_for, plan_broker_endpoint,
  bounds_is_valid_port,
}
use agentsecure_community.Config.{load_data}
use agentsecure_community.Config.Values.{Url}
use agentsecure_community.Config.Rules.{is_declared}
use agentsecure_community.Config.WellFormed.{load_data-IsWellFormed}

rule_listed :
    (rules : EnvPolicy) (env_name : Text)
    → (rule_for rules env_name).mode ≡ mode_broker
    → Dict.lookup env_name rules ≡ some (rule_for rules env_name)
unfolding rule_for
rule_listed rules env_name h = elim (Option-cases (Dict.lookup env_name rules)) [
  | inl n ↦ absurd (ground arith)
  | inr (rule, e) ↦ ground arith
]

declared_capability :
    (capabilities : Dict Text Capability) (name : Text)
    → is_declared capabilities name ≡ true
    → (capability : Capability) × (Dict.lookup name capabilities ≡ some capability)
declared_capability capabilities name h = elim (Option-cases (Dict.lookup name capabilities)) [
  | inl n ↦ absurd (ground arith)
  | inr (capability, e) ↦ (capability, e)
]

or_port_valid :
    (port default : ℕ)
    → (port ≡ 0) ⊎ (is_valid_port port ≡ true)
    → is_valid_port default ≡ true
    → is_valid_port (or_port port default) ≡ true
or_port_valid zero default local given = given
or_port_valid (suc port) default (inl z) given = absurd (omega (arith, z))
or_port_valid (suc port) default (inr v) given = v

module _ (py : Python) (ip_address : Text → Option Ip) (urlsplit : Text → Option Url)
    (url_path : Text → Option Text) (quote : Text → Option Text) where
  -- In a configuration that is loaded, and has at most 50103 capabilities, every variable whose
  -- rule is in broker mode gets its endpoint, unless the database of its capability cannot be
  -- quoted: that is the only error.
  pub load_data-broker_endpoint_plan :
      (value : Json) (config : AgentSecureConfig) (env_name real_value : Text)
      → load_data py ip_address urlsplit value ≡ ok config
      → length (Dict.keys config.capabilities) ≤ 50103
      → (rule_for config.env_policy env_name).mode ≡ mode_broker
      → ((plan : BrokerEndpointPlan) × (broker_endpoint_plan ip_address url_path quote config
              env_name real_value
            ≡ ok plan))
        ⊎ ((broker_endpoint_plan ip_address url_path quote config env_name real_value
              ≡ raised unicode_error)
            × ((capability : Capability) × (Dict.lookup
                    (rule_for config.env_policy env_name).capability
                    config.capabilities
                  ≡ some capability)
                × (quote (
                      lstrip is_slash (
                        or_text capability.database
                          (database_from_url ip_address url_path quote real_value)))
                    ≡ none)))
  load_data-broker_endpoint_plan value config env_name real_value h few b =
      let formed = load_data-IsWellFormed py ip_address urlsplit value config h in
      let rule = rule_for config.env_policy env_name in
      let (named, listed) =
        formed.served env_name rule (rule_listed config.env_policy env_name b) b in
      let (capability, e) = declared_capability config.capabilities rule.capability listed in
      let servable = formed.servable rule.capability capability e in
      let bounds = assigned_local_port_bounds config rule.capability capability e in
      let assigned : is_valid_port (assigned_local_port config capability.name) ≡ true =
        rw (servable.named) (
          bounds_is_valid_port (assigned_local_port config rule.capability)
            (omega (arith, bounds.0)) (omega (arith, bounds.1, few))) in
      let valid = or_port_valid capability.local_port _ servable.local_valid assigned in
      let planned =
        plan_broker_endpoint ip_address url_path quote config env_name real_value capability b named
          e in
      elim (Option-cases (
        path_of ip_address url_path quote
          (database_of ip_address url_path quote config env_name real_value capability))) [
            | inl n ↦ inr (
              planned
                  ∙ unquoted_plan_for ip_address url_path quote config env_name real_value
                      capability servable.loopback valid n,
              (capability, e, no_path ip_address url_path quote _ n),
            )
            | inr (path, q) ↦ inl (
              planned_endpoint ip_address url_path quote config env_name real_value capability path,
              planned
                  ∙ found_plan_for ip_address url_path quote config env_name real_value capability
                      path servable.loopback valid q,
            )
          ]
