-- ===== src/Broker/Endpoint.antt =====
-- agentsecure/core/capabilities.py: when an endpoint is planned, and what is planned.
use agentsecure_community.Base.{
  ℕ, zero, suc, ◌≤◌, ◌≡◌, refl, ◌↔◌, ◌∙◌, sym, ap, subst, inl, inr, true, false, Option, none, some,
  ◌++◌, arith, nat_eq, Option-cases,
}
use agentsecure_community.Base.Text.{Text, lit, text_eq, or_text, is_empty, decimal}
use agentsecure_community.Base.Dict
use agentsecure_community.Base.Exec.{Result, ok, raised, unicode_error}
use agentsecure_community.Model.{
  Mode, mode_deny, mode_virtualize, mode_broker, EnvKeyPolicy, rule_for, Capability,
  BrokerEndpointPlan, AgentSecureConfig,
}
use agentsecure_community.Network.{Ip}
use agentsecure_community.Broker.{
  is_broker, or_port, is_valid_port, assigned_local_port, is_loopback_host, database_from_url,
  url_host, path_of, endpoint, plan_for, broker_endpoint_plan,
}
use agentsecure_community.Broker.Parts.{
  IsLoopback, is_loopback_host-IsLoopback, IsLoopback-is_loopback_host, IsPath, path_of-IsPath,
  IsPath-path_of,
}

is_broker_mode : (mode : Mode) → is_broker mode ≡ true → mode ≡ mode_broker
is_broker_mode mode_broker h = refl
is_broker_mode mode_deny h = cc
is_broker_mode mode_virtualize h = cc

or_port_declared : (port default : ℕ) → 1 ≤ port → or_port port default ≡ port
or_port_declared zero default h = absurd (omega (arith, h))
or_port_declared (suc port) default h = refl

is_valid_port_bounds : (port : ℕ) → is_valid_port port ≡ true → (1 ≤ port) × (port ≤ 65535)
is_valid_port_bounds port h = ground arith

pub bounds_is_valid_port : (port : ℕ) → 1 ≤ port → port ≤ 65535 → is_valid_port port ≡ true
bounds_is_valid_port port low high = ground arith

module _ (ip_address : Text → Option Ip) (url_path : Text → Option Text)
    (quote : Text → Option Text) (config : AgentSecureConfig) (env_name real_value : Text) where
  abbrev rule : EnvKeyPolicy
  rule = rule_for config.env_policy env_name

  abbrev pub port_of : Capability → ℕ
  port_of capability = or_port capability.local_port (assigned_local_port config capability.name)

  abbrev pub database_of : Capability → Text
  database_of capability =
      or_text capability.database (database_from_url ip_address url_path quote real_value)

  abbrev pub planned_endpoint : Capability → Text → BrokerEndpointPlan
  planned_endpoint capability path =
      endpoint ip_address url_path quote env_name capability (database_of capability)
        (port_of capability) path

  -- The capability that the rule of the variable names listens on a loopback address, at its own
  -- port or at the one it is assigned, which is a port number, its database can be quoted, and the
  -- plan is its endpoint.
  pub record IsPlanned (plan : BrokerEndpointPlan) : Type 0 where
    pub capability : Capability
    pub path : Text
    pub broker : rule.mode ≡ mode_broker
    pub named : is_empty rule.capability ≡ false
    pub declared : Dict.lookup rule.capability config.capabilities ≡ some capability
    pub loopback : IsLoopback ip_address plan.local_host
    pub lowest : 1 ≤ plan.local_port
    pub highest : plan.local_port ≤ 65535
    pub quoted : IsPath ip_address url_path quote (database_of capability) path
    pub planned : plan ≡ record {
      env_name = env_name;
      capability = capability.name;
      type = capability.type;
      local_url =
          lit "postgres://agentsecure@"
          ++ url_host capability.local_host
          ++ lit ":"
          ++ decimal (port_of capability)
          ++ path;
      local_host = capability.local_host;
      local_port = port_of capability;
      target_host = capability.target_host;
      target_port = capability.target_port;
      access = capability.access;
      database = database_of capability;
    }

  abbrev pub plan_with : Capability → Result BrokerEndpointPlan
  plan_with = plan_for ip_address url_path quote config env_name real_value

  plan_for_found :
      (capability : Capability) (plan : BrokerEndpointPlan)
      → plan_with capability ≡ ok plan
      → (is_loopback_host ip_address capability.local_host ≡ true)
        × (is_valid_port (port_of capability) ≡ true)
        × ((path : Text) × (path_of ip_address url_path quote (database_of capability) ≡ some path)
            × (plan ≡ planned_endpoint capability path))
  unfolding plan_for
  plan_for_found capability plan h =
      elim (Option-cases (path_of ip_address url_path quote (database_of capability))) [
        | inl e ↦ absurd (ground arith)
        | inr (path, e) ↦ (ground arith, ground arith, (path, e, ground arith))
      ]

  pub found_plan_for :
      (capability : Capability) (path : Text)
      → is_loopback_host ip_address capability.local_host ≡ true
      → is_valid_port (port_of capability) ≡ true
      → path_of ip_address url_path quote (database_of capability) ≡ some path
      → plan_with capability ≡ ok (planned_endpoint capability path)
  unfolding plan_for
  found_plan_for capability path l v q = rw (l, v, q)

  pub unquoted_plan_for :
      (capability : Capability)
      → is_loopback_host ip_address capability.local_host ≡ true
      → is_valid_port (port_of capability) ≡ true
      → path_of ip_address url_path quote (database_of capability) ≡ none
      → plan_with capability ≡ raised unicode_error
  unfolding plan_for
  unquoted_plan_for capability l v q = rw (l, v, q)

  broker_endpoint_plan_rule :
      (plan : BrokerEndpointPlan)
      → broker_endpoint_plan ip_address url_path quote config env_name real_value ≡ ok plan
      → (is_broker rule.mode ≡ true)
        × (is_empty rule.capability ≡ false)
        × ((capability : Capability) × (Dict.lookup rule.capability config.capabilities
              ≡ some capability)
            × (plan_with capability ≡ ok plan))
  unfolding broker_endpoint_plan
  broker_endpoint_plan_rule plan h =
      elim (Option-cases (Dict.lookup rule.capability config.capabilities)) [
        | inl n ↦ absurd (ground arith)
        | inr (capability, e) ↦ (ground arith, ground arith, (capability, e, ground arith))
      ]

  pub plan_broker_endpoint :
      (capability : Capability)
      → rule.mode ≡ mode_broker
      → is_empty rule.capability ≡ false
      → Dict.lookup rule.capability config.capabilities ≡ some capability
      → broker_endpoint_plan ip_address url_path quote config env_name real_value
        ≡ plan_with capability
  unfolding broker_endpoint_plan
  plan_broker_endpoint capability b n e = rw (b, n, e)

  -- A broker endpoint is planned for a variable exactly if its rule is in broker mode and names a
  -- declared capability whose local host is `localhost` or a loopback address, in brackets or not,
  -- whose local port, its own or the assigned one, is from 1 to 65535, and whose database, if it
  -- has one, can be quoted; the plan is then the endpoint of that capability.
  pub broker_endpoint_plan-IsPlanned :
      (plan : BrokerEndpointPlan)
      → (broker_endpoint_plan ip_address url_path quote config env_name real_value ≡ ok plan)
        ↔ IsPlanned plan
  broker_endpoint_plan-IsPlanned plan = (
    λ h.
        let (b, n, (capability, e, p)) = broker_endpoint_plan_rule plan h in
        let (l, v, (path, q, shape)) = plan_for_found capability plan p in
        record {
          capability = capability;
          path = path;
          broker = is_broker_mode _ b;
          named = n;
          declared = e;
          loopback = rw shape (is_loopback_host-IsLoopback ip_address capability.local_host l);
          lowest = rw shape (is_valid_port_bounds (port_of capability) v).0;
          highest = rw shape (is_valid_port_bounds (port_of capability) v).1;
          quoted = path_of-IsPath ip_address url_path quote (database_of capability) path q;
          planned = shape;
        },
    λ planned.
        plan_broker_endpoint planned.capability planned.broker planned.named planned.declared
        ∙ found_plan_for planned.capability planned.path
            (IsLoopback-is_loopback_host ip_address planned.capability.local_host
              (subst (λ p. IsLoopback ip_address p.local_host) planned.planned planned.loopback))
            (subst (λ p. is_valid_port p.local_port ≡ true) planned.planned
              (bounds_is_valid_port plan.local_port planned.lowest planned.highest))
            (IsPath-path_of ip_address url_path quote (database_of planned.capability) planned.path
              planned.quoted)
        ∙ ap ok (sym planned.planned),
  )
