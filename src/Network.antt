-- ===== src/Network.antt =====
-- agentsecure/implementations/policy.py: which destinations and commands an agent may use.
-- `ipaddress.ip_address` and `socket.getaddrinfo` are parameters: the first parses an address
-- (`none` is its ValueError), the second resolves a host (`none` is its `gaierror`).
pub mod Hosts
pub mod Decisions
pub mod Process
use agentsecure_community.Base.{
  ℕ, Bool, true, false, not, ◌&&◌, ◌||◌, Option, none, some, List, [], ◌∷◌, ◌==◌, contains, nat_eq,
  if◌then◌else◌,
}
use agentsecure_community.Base.Lists.{any}
use agentsecure_community.Base.Text.{
  Text, lit, text_eq, is_empty, normal_host, lower, starts_with, ends_with, drop_text,
}
use agentsecure_community.Base.Event.{Log, emit, text, number, flag, optional_text}
use agentsecure_community.Model.{Destination, PolicyDecision, allow, deny, NetworkPolicy}

-- What `ipaddress` says of an address.
pub record Ip : Type 0 where
  pub is_private : Bool
  pub is_loopback : Bool
  pub is_link_local : Bool
  pub is_multicast : Bool

-- One round of the loop in `_matches_any`, on the normalised pattern.
unfoldable pub covers : Text → Text → Bool
covers host normalized =
    if starts_with normalized (lit "*.")
    then ends_with host (drop_text 1 normalized) && not (host == drop_text 2 normalized)
    else host == normalized

unfoldable pub matches_any : Text → List Text → Bool
unfolding covers any
matches_any host = any (λ pattern. covers host (normal_host pattern))

module _ (ip_address : Text → Option Ip) (getaddrinfo : Text → Option (List Text)) where
  unfoldable pub is_ip_literal : Text → Bool
  is_ip_literal host = elim (ip_address host) [ none ↦ false | some ip ↦ true ]

  -- The loop's test on one resolved address.
  unfoldable pub is_private_address : Text → Bool
  is_private_address address = elim (ip_address address) [
    | none ↦ true
    | some ip ↦ ip.is_private || ip.is_loopback || ip.is_link_local || ip.is_multicast
  ]

  unfoldable pub resolves_to_private_ip : Text → Bool
  unfolding is_private_address any
  resolves_to_private_ip host = elim (getaddrinfo host) [
    | none ↦ true
    | some addresses ↦ any is_private_address addresses
  ]

  -- `StrictDestinationValidator.validate`
  unfoldable pub validate : NetworkPolicy → Destination → PolicyDecision
  unfolding is_ip_literal resolves_to_private_ip
  validate p d =
      let host = normal_host d.host in
      if not (contains p.allow_ports d.port)
      then deny (lit "port is not allowed") (lit "network.port")
      else if matches_any host p.deny_domains
      then deny (lit "domain is explicitly denied") (lit "network.deny_domain")
      else if p.deny_ip_literals && is_ip_literal host
      then deny (lit "IP literal destinations are denied") (lit "network.ip_literal")
      else if not (matches_any host p.allow_domains)
      then (if not d.credentials_present
          then allow (lit "destination allowed without credentials") (lit "network.no_credentials")
          else deny (lit "domain is not allowlisted") (lit "network.allow_domain"))
      else if p.deny_private_networks && resolves_to_private_ip host
      then deny (lit "domain resolves to private or loopback IP") (lit "network.private_ip")
      else allow (lit "destination allowed") (lit "network.allow_domain")

  -- `DefaultPolicyEngine.evaluate_network`
  unfoldable pub evaluate_network : NetworkPolicy → Destination → Log → PolicyDecision × Log
  evaluate_network p d log =
      let decision = validate p d in
      (
        decision,
        emit log (lit "network_policy") (
            (lit "scheme", text d.scheme)
            ∷ (lit "host", text d.host)
            ∷ (lit "port", number d.port)
            ∷ (lit "allowed", flag decision.allowed)
            ∷ (lit "reason", text decision.reason)
            ∷ (lit "rule_id", optional_text decision.rule_id)
            ∷ []),
      )
