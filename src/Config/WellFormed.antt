-- ===== src/Config/WellFormed.antt =====
-- agentsecure/core/config.py: what a configuration that is loaded satisfies.
use agentsecure_community.Base.{zero, suc, ◌≡◌, subst, true, false, Option, [], arith, contains}
use agentsecure_community.Base.Int.{pos}
use agentsecure_community.Base.Lists.{All}
use agentsecure_community.Base.Text.{Text, lit, text_eq}
use agentsecure_community.Base.Dict.{Dict}
use agentsecure_community.Base.Exec.{ok, ok_injective, ◌>>=◌}
use agentsecure_community.Base.Json.{
  Json, null, boolean, number, text, array, object, nil, end, field, entries, get_or, Python,
  to_int, as_dict,
}
use agentsecure_community.Model.{AgentSecureConfig, GatewayConfig, EnvPolicy, Capability}
use agentsecure_community.Network.{Ip}
use agentsecure_community.Broker.{is_loopback_host, is_valid_port}
use agentsecure_community.Config.{
  modes, gateway_of, parse_gateway, runtime_of, parse_secret_runtime, network_of, section_list,
  parse, load_data,
}
use agentsecure_community.Config.Values.{
  Url, Holds, Holds-nil, parse_entries-Holds, bind-ok, int_or,
}
use agentsecure_community.Config.Capabilities.{
  IsServable, parse_capability, parse_capabilities, parse_capability-IsServable, is_port_valid,
}
use agentsecure_community.Config.Rules.{IsServed, parse_rule, parse_env_policy, parse_rule-IsServed}
use agentsecure_community.Config.Providers.{parse_provider_proxy}
use agentsecure_community.Config.Secrets.{
  IsNamed, parse_secrets, parse_secret_aliases, parse_secret_aliases-IsNamed,
}
use agentsecure_community.Config.Routes.{AreServed, parse_provider_proxy-AreServed}

-- What the program relies on in a configuration.
pub record IsWellFormed (ip_address : Text → Option Ip) (urlsplit : Text → Option Url)
    (c : AgentSecureConfig) : Type 0 where
  pub aliases : All IsNamed c.secret_aliases
  pub servable : Holds (IsServable ip_address) c.capabilities
  pub served : Holds (λ name rule. IsServed c.capabilities rule) c.env_policy
  pub loopback : is_loopback_host ip_address c.gateway.host ≡ true
  pub port_valid : is_valid_port c.gateway.port ≡ true
  pub mode_known : contains modes c.secret_runtime_mode ≡ true
  pub routes : AreServed urlsplit c.provider_proxy.providers

module _ (py : Python) (ip_address : Text → Option Ip) (urlsplit : Text → Option Url) where
  capabilities-Holds :
      (value : Json) (capabilities : Dict Text Capability)
      → parse_capabilities py ip_address value ≡ ok capabilities
      → Holds (IsServable ip_address) capabilities
  unfolding parse_capabilities
  capabilities-Holds (object fields) capabilities h =
      parse_entries-Holds (λ name. name) (parse_capability py ip_address) (IsServable ip_address)
        (parse_capability-IsServable py ip_address) (entries fields) [] capabilities h
        (Holds-nil (IsServable ip_address))
  capabilities-Holds _ capabilities h = cc

  rules-Holds :
      (value : Json) (capabilities : Dict Text Capability) (rules : EnvPolicy)
      → parse_env_policy py capabilities value ≡ ok rules
      → Holds (λ name rule. IsServed capabilities rule) rules
  unfolding parse_env_policy
  rules-Holds (object fields) capabilities rules h =
      parse_entries-Holds (λ name. name) (parse_rule py capabilities)
        (λ name rule. IsServed capabilities rule) (parse_rule-IsServed py capabilities)
        (entries fields) [] rules h (Holds-nil (λ name rule. IsServed capabilities rule))
  rules-Holds _ capabilities rules h = cc

  gateway_of-valid :
      (data' : Dict Text Json) (gateway : GatewayConfig)
      → gateway_of py ip_address urlsplit data' ≡ ok gateway
      → (is_loopback_host ip_address gateway.host ≡ true) × (is_valid_port gateway.port ≡ true)
  unfolding gateway_of
  gateway_of-valid data' gateway h =
      let (port, read, h1) =
        bind-ok (int_or _ (to_int py (get_or (lit "port") (number (pos 8765)) data'))) _ gateway
          h in
      ground (arith, is_port_valid port)

  runtime_of-known :
      (data' : Dict Text Json) (mode : Text)
      → runtime_of py ip_address urlsplit data' ≡ ok mode
      → contains modes mode ≡ true
  unfolding runtime_of
  runtime_of-known data' mode h = ground arith

  virtual_known : (mode : Text) → ok (lit "virtual") ≡ ok mode → contains modes mode ≡ true
  virtual_known mode h = let same : mode ≡ lit "virtual" = cc h in ground arith

  runtime-known :
      (value : Json) (mode : Text)
      → parse_secret_runtime py ip_address urlsplit value ≡ ok mode
      → contains modes mode ≡ true
  unfolding parse_secret_runtime
  runtime-known (object end) mode h = virtual_known mode h
  runtime-known (object (field key value rest)) mode h =
      runtime_of-known (entries (field key value rest)) mode h
  runtime-known (array nil) mode h = virtual_known mode h
  runtime-known null mode h = virtual_known mode h
  runtime-known (boolean false) mode h = virtual_known mode h
  runtime-known (text []) mode h = virtual_known mode h
  runtime-known (number (pos zero)) mode h = virtual_known mode h
  runtime-known (number (pos (suc n))) mode h = absurd (ground arith)
  runtime-known _ mode h = cc

  gateway-valid :
      (value : Json) (gateway : GatewayConfig)
      → parse_gateway py ip_address urlsplit value ≡ ok gateway
      → (is_loopback_host ip_address gateway.host ≡ true) × (is_valid_port gateway.port ≡ true)
  unfolding parse_gateway
  gateway-valid value gateway h =
      let (data', read, h1) = bind-ok (as_dict value) _ gateway h in
      gateway_of-valid data' gateway h1

  parse-IsWellFormed :
      (data' : Dict Text Json) (c : AgentSecureConfig)
      → parse py ip_address urlsplit data' ≡ ok c
      → IsWellFormed ip_address urlsplit c
  unfolding parse
  parse-IsWellFormed data' c h =
      let (secrets, e1, h1) =
        bind-ok (parse_secrets py (get_or (lit "secrets") (array nil) data')) _ c h in
      let (secret_aliases, e2, h2) =
        bind-ok (parse_secret_aliases py (get_or (lit "secret_aliases") (array nil) data')) _ c
          h1 in
      let (capabilities, e3, h3) =
        bind-ok (parse_capabilities py ip_address (get_or (lit "capabilities") (object end) data'))
          _ c h2 in
      let (env_policy, e4, h4) =
        bind-ok (parse_env_policy py capabilities (get_or (lit "env_policy") (object end) data')) _
          c h3 in
      let (gateway, e5, h5) =
        bind-ok (parse_gateway py ip_address urlsplit (get_or (lit "gateway") (object end) data')) _
          c h4 in
      let (mode, e6, h6) =
        bind-ok
          (parse_secret_runtime py ip_address urlsplit
            (get_or (lit "secret_runtime") (object end) data'))
          _ c h5 in
      let (provider_proxy, e7, h7) =
        bind-ok
          (parse_provider_proxy py urlsplit (get_or (lit "provider_proxy") (object end) data')) _ c
          h6 in
      let (network, e8, h8) =
        bind-ok
          (as_dict (get_or (lit "network") (object end) data')
            >>= network_of py ip_address urlsplit)
          _ c h7 in
      let (allowed_commands, e9, h9) =
        bind-ok
          (section_list py ip_address urlsplit (lit "allowed_commands")
            (get_or (lit "process") (object end) data'))
          _ c h8 in
      let (protect_write, e10, h10) =
        bind-ok
          (section_list py ip_address urlsplit (lit "protect_write")
            (get_or (lit "files") (object end) data'))
          _ c h9 in
      let (audit, e11, h11) = bind-ok (as_dict (get_or (lit "audit") (object end) data')) _ c h10 in
      subst (IsWellFormed ip_address urlsplit) (ok_injective _ c h11) (record {
        aliases = parse_secret_aliases-IsNamed py _ secret_aliases e2;
        servable = capabilities-Holds _ capabilities e3;
        served = rules-Holds _ capabilities env_policy e4;
        loopback = (gateway-valid _ gateway e5).0;
        port_valid = (gateway-valid _ gateway e5).1;
        mode_known = runtime-known (get_or (lit "secret_runtime") (object end) data') mode e6;
        routes = parse_provider_proxy-AreServed py urlsplit _ provider_proxy e7;
      })

  -- Whatever is loaded is well formed.
  pub load_data-IsWellFormed :
      (value : Json) (c : AgentSecureConfig)
      → load_data py ip_address urlsplit value ≡ ok c
      → IsWellFormed ip_address urlsplit c
  unfolding load_data
  load_data-IsWellFormed (object fields) c h = parse-IsWellFormed (entries fields) c h
  load_data-IsWellFormed _ c h = cc
