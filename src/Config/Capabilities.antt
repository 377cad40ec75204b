-- ===== src/Config/Capabilities.antt =====
-- agentsecure/core/config.py: `_parse_capabilities`.
use agentsecure_community.Base.{
  ◌≡◌, ◌⊎◌, true, false, not, Option, [], ◌++◌, ◌==◌, arith, if◌then◌else◌,
}
use agentsecure_community.Base.Int.{pos, negsuc}
use agentsecure_community.Base.Text.{Text, lit, text_eq, is_empty, or_text, strip}
use agentsecure_community.Base.Dict.{Dict}
use agentsecure_community.Base.Exec.{Result, ok, raised, config_error, ◌>>=◌}
use agentsecure_community.Base.Json.{
  Json, number, object, entries, truthy, get_or, Python, to_int, get_str,
}
use agentsecure_community.Model.{Capability}
use agentsecure_community.Network.{Ip}
use agentsecure_community.Broker.{is_loopback_host, is_valid_port}
use agentsecure_community.Config.Values.{is_port, nat_of, int_or, refuse, bind-ok, parse_entries}

-- `value or 0`
abbrev pub or_zero : Json → Json
or_zero value = if truthy value then value else number (pos 0)

-- What the configuration needs of a capability.
pub record IsServable (ip_address : Text → Option Ip) (name : Text) (c : Capability) : Type 0 where
  pub named : c.name ≡ name
  pub is_postgres : c.type ≡ lit "postgres"
  pub has_target : is_empty c.target_host ≡ false
  pub target_valid : is_valid_port c.target_port ≡ true
  pub loopback : is_loopback_host ip_address c.local_host ≡ true
  pub local_valid : (c.local_port ≡ 0) ⊎ (is_valid_port c.local_port ≡ true)

pub is_port_valid : (z : _) → is_port false z ≡ true → is_valid_port (nat_of z) ≡ true
is_port_valid (pos n) h = h
is_port_valid (negsuc n) h = cc

is_port_zero : (z : _) → is_port true z ≡ true → (nat_of z ≡ 0) ⊎ (is_valid_port (nat_of z) ≡ true)
is_port_zero (pos n) h = ground arith
is_port_zero (negsuc n) h = cc

module _ (py : Python) (ip_address : Text → Option Ip) where
  abbrev about : Text → Text → Text
  about name problem = lit "capabilities." ++ name ++ problem

  -- The body of the loop, on the dictionary that the entry is.
  unfoldable pub capability_of : Text → Dict Text Json → Result Capability
  capability_of name data' =
      let type = get_str py (lit "type") [] data' in
      let target_host = get_str py (lit "target_host") [] data' in
      let local_host =
        or_text (strip (get_str py (lit "local_host") (lit "127.0.0.1") data')) (lit "127.0.0.1") in
      int_or (about name (lit ".target_port must be an integer"))
        (to_int py (get_or (lit "target_port") (number (pos 0)) data'))
      >>= λ target_port.
          int_or (about name (lit ".local_port must be an integer"))
            (to_int py (or_zero (get_or (lit "local_port") (number (pos 0)) data')))
          >>= λ local_port.
              refuse (not (type == lit "postgres")) (about name (lit ".type must be postgres")) (
                refuse (is_empty target_host) (about name (lit ".target_host is required")) (
                  refuse (not (is_port false target_port))
                    (about name (lit ".target_port must be between 1 and 65535"))
                    (refuse (not (is_loopback_host ip_address local_host))
                      (about name (lit ".local_host must be loopback-only"))
                      (refuse (not (is_port true local_port))
                        (about name (lit ".local_port must be between 1 and 65535"))
                        (ok (record {
                          name = name;
                          type = type;
                          expose_as = get_str py (lit "expose_as") [] data';
                          target_host = target_host;
                          target_port = nat_of target_port;
                          access = get_str py (lit "access") [] data';
                          database = get_str py (lit "database") [] data';
                          local_host = local_host;
                          local_port = nat_of local_port;
                        }))))))

  unfoldable pub parse_capability : Text → Json → Result Capability
  unfolding capability_of
  parse_capability name (object fields) = capability_of name (entries fields)
  parse_capability name _ = raised (config_error (about name (lit " must be a JSON object")))

  unfoldable pub parse_capabilities : Json → Result (Dict Text Capability)
  unfolding parse_capability
  parse_capabilities (object fields) =
      parse_entries (λ name. name) parse_capability (entries fields) []
  parse_capabilities _ = raised (config_error (lit "capabilities must be a JSON object"))

  capability_of-IsServable :
      (name : Text) (data' : Dict Text Json) (c : Capability)
      → capability_of name data' ≡ ok c
      → IsServable ip_address name c
  unfolding capability_of
  capability_of-IsServable name data' c h =
      let (target, read, h1) =
        bind-ok
          (int_or (about name (lit ".target_port must be an integer"))
            (to_int py (get_or (lit "target_port") (number (pos 0)) data')))
          _ c h in
      let (port, found, h2) =
        bind-ok
          (int_or (about name (lit ".local_port must be an integer"))
            (to_int py (or_zero (get_or (lit "local_port") (number (pos 0)) data'))))
          _ c h1 in
      record {
        named = ground arith;
        is_postgres = ground arith;
        has_target = ground arith;
        target_valid = ground (arith, is_port_valid target);
        loopback = ground arith;
        local_valid = ground (arith, is_port_zero port);
      }

  pub parse_capability-IsServable :
      (name : Text) (value : Json) (c : Capability)
      → parse_capability name value ≡ ok c
      → IsServable ip_address name c
  unfolding parse_capability
  parse_capability-IsServable name (object fields) c h =
      capability_of-IsServable name (entries fields) c h
  parse_capability-IsServable name _ c h = cc
