-- ===== src/Config.antt =====
-- agentsecure/core/config.py: `JsonConfigLoader.load_data`, from a JSON value to the configuration.
-- Parameters: Python's `str`, `int` and `float` (Base/Json), `ipaddress.ip_address`, and `urlsplit`.
-- A list of hosts or of commands holds what `str` makes of its members, which is how it is read.
pub mod Values
pub mod Capabilities
pub mod Rules
pub mod Providers
pub mod Secrets
pub mod Routes
pub mod WellFormed
pub mod Serving
use agentsecure_community.Base.{
  ℕ, Bool, true, false, not, Option, none, some, List, [], ◌∷◌, ◌++◌, ◌==◌, contains, if◌then◌else◌,
}
use agentsecure_community.Base.Int.{ℤ, pos, negsuc}
use agentsecure_community.Base.Text.{Text, lit, text_eq, is_empty, or_text, strip}
use agentsecure_community.Base.Dict.{Dict}
use agentsecure_community.Base.Exec.{Result, ok, raised, config_error, ◌>>=◌}
use agentsecure_community.Base.Json.{
  Json, boolean, number, text, array, object, nil, item, end, entries, truthy, get_or, as_dict,
  iterate, Python, str, to_int, get_str, strs,
}
use agentsecure_community.Model.{NetworkPolicy, GatewayConfig, AgentSecureConfig}
use agentsecure_community.Network.{Ip}
use agentsecure_community.Broker.{is_loopback_host}
use agentsecure_community.Config.Values.{Url, is_port, nat_of, int_or, refuse}
use agentsecure_community.Config.Capabilities.{parse_capabilities}
use agentsecure_community.Config.Rules.{parse_env_policy}
use agentsecure_community.Config.Providers.{parse_provider_proxy}
use agentsecure_community.Config.Secrets.{parse_secrets, parse_secret_aliases}

abbrev pub modes : List Text
modes = lit "strict" ∷ lit "virtual" ∷ lit "compat" ∷ []

module _ (py : Python) (ip_address : Text → Option Ip) (urlsplit : Text → Option Url) where
  -- `_parse_gateway`, on the dictionary that the section is.
  unfoldable pub gateway_of : Dict Text Json → Result GatewayConfig
  gateway_of data' =
      let host =
        or_text (strip (get_str py (lit "host") (lit "127.0.0.1") data')) (lit "127.0.0.1") in
      int_or (lit "gateway.port must be an integer")
        (to_int py (get_or (lit "port") (number (pos 8765)) data'))
      >>= λ port.
          refuse (not (is_loopback_host ip_address host)) (lit "gateway.host must be loopback-only")
            (refuse (not (is_port false port)) (lit "gateway.port must be between 1 and 65535")
              (ok (record { host = host; port = nat_of port })))

  unfoldable pub parse_gateway : Json → Result GatewayConfig
  unfolding gateway_of
  parse_gateway value = as_dict value >>= gateway_of

  -- `_parse_secret_runtime`: the mode.
  unfoldable pub runtime_of : Dict Text Json → Result Text
  runtime_of data' =
      let mode = or_text (strip (get_str py (lit "mode") (lit "virtual") data')) (lit "virtual") in
      if contains modes mode
      then ok mode
      else raised (config_error (lit "secret_runtime.mode must be strict, virtual, or compat"))

  unfoldable pub parse_secret_runtime : Json → Result Text
  unfolding runtime_of
  parse_secret_runtime (object fields) =
      if truthy (object fields) then runtime_of (entries fields) else ok (lit "virtual")
  parse_secret_runtime value =
      if truthy value
      then raised (config_error (lit "secret_runtime must be a JSON object"))
      else ok (lit "virtual")

  -- The ports of a list; a member that is no natural number equals no port.
  abbrev pub ports_of : List Json → List ℕ
  ports_of [] = []
  ports_of (number (pos n) ∷ rest) = n ∷ ports_of rest
  ports_of (boolean true ∷ rest) = 1 ∷ ports_of rest
  ports_of (boolean false ∷ rest) = 0 ∷ ports_of rest
  ports_of (_ ∷ rest) = ports_of rest

  abbrev pub default_ports : Json
  default_ports = array (item (number (pos 80)) (item (number (pos 443)) nil))

  -- The `NetworkPolicy` of `_parse`.
  unfoldable pub network_of : Dict Text Json → Result NetworkPolicy
  network_of data' = strs py (get_or (lit "allow_domains") (array nil) data') >>= λ allow_domains.
      strs py (get_or (lit "deny_domains") (array nil) data') >>= λ deny_domains.
      iterate (get_or (lit "allow_ports") default_ports data') >>= λ allow_ports. ok (record {
        allow_domains = allow_domains;
        deny_domains = deny_domains;
        allow_ports = ports_of allow_ports;
        deny_ip_literals = truthy (get_or (lit "deny_ip_literals") (boolean true) data');
        deny_private_networks = truthy (get_or (lit "deny_private_networks") (boolean true) data');
      })

  -- The list under a key of a section.
  abbrev pub section_list : Text → Json → Result (List Text)
  section_list key section = as_dict section >>= λ data'. strs py (get_or key (array nil) data')

  -- `_parse`
  unfoldable pub parse : Dict Text Json → Result AgentSecureConfig
  unfolding parse_gateway parse_secret_runtime network_of
  parse data' = parse_secrets py (get_or (lit "secrets") (array nil) data') >>= λ secrets.
      parse_secret_aliases py (get_or (lit "secret_aliases") (array nil) data')
      >>= λ secret_aliases.
          parse_capabilities py ip_address (get_or (lit "capabilities") (object end) data')
          >>= λ capabilities.
              parse_env_policy py capabilities (get_or (lit "env_policy") (object end) data')
              >>= λ env_policy.
                  parse_gateway (get_or (lit "gateway") (object end) data') >>= λ gateway.
                  parse_secret_runtime (get_or (lit "secret_runtime") (object end) data')
                  >>= λ mode.
                      parse_provider_proxy py urlsplit
                        (get_or (lit "provider_proxy") (object end) data')
                      >>= λ provider_proxy.
                          (as_dict (get_or (lit "network") (object end) data') >>= network_of)
                          >>= λ network.
                              section_list (lit "allowed_commands")
                                (get_or (lit "process") (object end) data')
                              >>= λ allowed_commands.
                                  section_list (lit "protect_write")
                                    (get_or (lit "files") (object end) data')
                                  >>= λ protect_write.
                                      as_dict (get_or (lit "audit") (object end) data') >>= λ audit.
                                      ok (record {
                                        secrets = secrets;
                                        secret_aliases = secret_aliases;
                                        env_policy = env_policy;
                                        network = network;
                                        allowed_commands = allowed_commands;
                                        protect_write = protect_write;
                                        audit_path =
                                            get_str py (lit "path") (lit ".agentsecure/audit.log")
                                              audit;
                                        gateway = gateway;
                                        secret_runtime_mode = mode;
                                        provider_proxy = provider_proxy;
                                        capabilities = capabilities;
                                      })

  unfoldable pub load_data : Json → Result AgentSecureConfig
  unfolding parse
  load_data (object fields) = parse (entries fields)
  load_data _ = raised (config_error (lit "config root must be a JSON object"))
