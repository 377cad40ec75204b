-- ===== src/Network/Decisions.antt =====
-- `StrictDestinationValidator.validate` of implementations/policy.py against what it promises.
use agentsecure_community.Base.{
  ◌≡◌, refl, ◌↔◌, ◌⊎◌, inl, inr, Bool, true, false, ◌&&◌, Option, none, some, List, [], ◌∷◌, arith,
  contains, nat_eq, Bool-cases, Option-cases,
}
use agentsecure_community.Base.Lists.{All, any}
use agentsecure_community.Base.Text.{Text, normal_host}
use agentsecure_community.Model.{Destination, NetworkPolicy}
use agentsecure_community.Network.{
  Ip, matches_any, is_ip_literal, is_private_address, resolves_to_private_ip, validate,
}
use agentsecure_community.Network.Hosts.{CoveredBy, matches_any-CoveredBy}

module _ (ip_address : Text → Option Ip) (getaddrinfo : Text → Option (List Text)) where
  -- The address parses, and is none of the kinds that the policy calls private.
  abbrev pub IsPublic : Text → Type 0
  IsPublic address =
      (ip : Ip) × (ip_address address ≡ some ip)
      × (ip.is_private ≡ false)
      × (ip.is_loopback ≡ false)
      × (ip.is_link_local ≡ false)
      × (ip.is_multicast ≡ false)

  -- The host resolves, and to public addresses only.
  abbrev pub ResolvesPublic : Text → Type 0
  ResolvesPublic host =
      (addresses : List Text) × (getaddrinfo host ≡ some addresses) × All IsPublic addresses

  -- What `validate` should let through.
  pub record IsPermitted (p : NetworkPolicy) (d : Destination) : Type 0 where
    pub port_listed : contains p.allow_ports d.port ≡ true
    pub not_denied : ¬ CoveredBy (normal_host d.host) p.deny_domains
    pub not_literal : p.deny_ip_literals ≡ true → ip_address (normal_host d.host) ≡ none
    pub listed_or_plain :
        ((d.credentials_present ≡ false) × (¬ CoveredBy (normal_host d.host) p.allow_domains))
        ⊎ (CoveredBy (normal_host d.host) p.allow_domains
            × (p.deny_private_networks ≡ true → ResolvesPublic (normal_host d.host)))

  abbrev private_at : Text → Bool
  private_at = is_private_address ip_address getaddrinfo

  private_at-IsPublic : (a : Text) → private_at a ≡ false → IsPublic a
  unfolding is_private_address
  private_at-IsPublic a h = elim (Option-cases (ip_address a)) [
    | inl e ↦ absurd (ground arith)
    | inr (ip, e) ↦ (ip, e, ground arith, ground arith, ground arith, ground arith)
  ]

  IsPublic-private_at : (a : Text) → IsPublic a → private_at a ≡ false
  unfolding is_private_address
  IsPublic-private_at a (ip, e, p, l, k, m) = ground arith

  any-All : (addresses : List Text) → any private_at addresses ≡ false → All IsPublic addresses
  unfolding any
  any-All [] h = tt
  any-All (a ∷ rest) h = (private_at-IsPublic a (ground arith), any-All rest (ground arith))

  All-any : (addresses : List Text) → All IsPublic addresses → any private_at addresses ≡ false
  unfolding any
  All-any [] h = refl
  All-any (a ∷ rest) (h, hs) = ground (arith, IsPublic-private_at a h, All-any rest hs)

  resolves_sound :
      (host : Text)
      → resolves_to_private_ip ip_address getaddrinfo host ≡ false
      → ResolvesPublic host
  unfolding resolves_to_private_ip
  resolves_sound host h = elim (Option-cases (getaddrinfo host)) [
    | inl e ↦ absurd (ground arith)
    | inr (addresses, e) ↦ (addresses, e, any-All addresses (rw (e, resolves_to_private_ip) at h))
  ]

  resolves_complete :
      (host : Text)
      → ResolvesPublic host
      → resolves_to_private_ip ip_address getaddrinfo host ≡ false
  unfolding resolves_to_private_ip
  resolves_complete host (addresses, e, all) =
      rw (e, resolves_to_private_ip) (All-any addresses all)

  uncovered :
      (host : Text) (patterns : List Text)
      → matches_any host patterns ≡ false
      → ¬ CoveredBy host patterns
  uncovered host patterns h c = cc (h, (matches_any-CoveredBy host patterns).1 c)

  not_covered :
      (host : Text) (patterns : List Text)
      → ¬ CoveredBy host patterns
      → matches_any host patterns ≡ false
  not_covered host patterns h = elim (Bool-cases (matches_any host patterns)) [
    | inl e ↦ absurd (h ((matches_any-CoveredBy host patterns).0 e))
    | inr e ↦ e
  ]

  module _ (p : NetworkPolicy) (d : Destination) where
    -- The tests of `validate` on the way to an `allow`.
    abbrev Passes : Type 0
    Passes =
        let host = normal_host d.host in
        (contains p.allow_ports d.port ≡ true)
        × (matches_any host p.deny_domains ≡ false)
        × ((p.deny_ip_literals && is_ip_literal ip_address getaddrinfo host) ≡ false)
        × (((d.credentials_present ≡ false) × (matches_any host p.allow_domains ≡ false))
            ⊎ ((matches_any host p.allow_domains ≡ true)
                × ((p.deny_private_networks && resolves_to_private_ip ip_address getaddrinfo host)
                    ≡ false)))

    allowed-Passes : (validate ip_address getaddrinfo p d).allowed ≡ true → Passes
    unfolding validate
    allowed-Passes h = ground arith

    Passes-allowed : Passes → (validate ip_address getaddrinfo p d).allowed ≡ true
    unfolding validate
    Passes-allowed h = ground arith

    not_literal_sound :
        (p.deny_ip_literals && is_ip_literal ip_address getaddrinfo (normal_host d.host)) ≡ false
        → p.deny_ip_literals ≡ true
        → ip_address (normal_host d.host) ≡ none
    unfolding is_ip_literal
    not_literal_sound h on = ground arith

    not_literal_complete :
        (p.deny_ip_literals ≡ true → ip_address (normal_host d.host) ≡ none)
        → (p.deny_ip_literals && is_ip_literal ip_address getaddrinfo (normal_host d.host)) ≡ false
    unfolding is_ip_literal
    not_literal_complete h = elim (Bool-cases p.deny_ip_literals) [
      | inl on ↦ ground (arith, h on)
      | inr off ↦ ground arith
    ]

    Passes-IsPermitted : Passes → IsPermitted p d
    Passes-IsPermitted (port, fresh, literal, inl (plain, unlisted)) = record {
      port_listed = port;
      not_denied = uncovered _ _ fresh;
      not_literal = not_literal_sound literal;
      listed_or_plain = inl (plain, uncovered _ _ unlisted);
    }
    Passes-IsPermitted (port, fresh, literal, inr (listed, public)) = record {
      port_listed = port;
      not_denied = uncovered _ _ fresh;
      not_literal = not_literal_sound literal;
      listed_or_plain =
          inr ((matches_any-CoveredBy _ _).0 listed, λ on. resolves_sound _ (ground arith));
    }

    private_off :
        (p.deny_private_networks ≡ true → ResolvesPublic (normal_host d.host))
        → (p.deny_private_networks
            && resolves_to_private_ip ip_address getaddrinfo (normal_host d.host))
          ≡ false
    private_off h = elim (Bool-cases p.deny_private_networks) [
      | inl on ↦ ground (arith, resolves_complete (normal_host d.host) (h on))
      | inr off ↦ ground arith
    ]

    listed-Passes :
        ((d.credentials_present ≡ false) × (¬ CoveredBy (normal_host d.host) p.allow_domains))
          ⊎ (CoveredBy (normal_host d.host) p.allow_domains
              × (p.deny_private_networks ≡ true → ResolvesPublic (normal_host d.host)))
        → IsPermitted p d
        → Passes
    listed-Passes (inl (plain, unlisted)) h = (
      h.port_listed,
      not_covered _ _ h.not_denied,
      not_literal_complete h.not_literal,
      inl (plain, not_covered _ _ unlisted),
    )
    listed-Passes (inr (listed, public)) h = (
      h.port_listed,
      not_covered _ _ h.not_denied,
      not_literal_complete h.not_literal,
      inr ((matches_any-CoveredBy _ _).1 listed, private_off public),
    )

    -- A destination is allowed exactly if its port is listed, no deny pattern covers its host, its
    -- host is no IP literal where those are denied, and either it carries no credentials and no
    -- allow pattern covers its host, or an allow pattern does and, where private networks are
    -- denied, the host resolves to public addresses only.
    pub validate-IsPermitted :
        ((validate ip_address getaddrinfo p d).allowed ≡ true) ↔ IsPermitted p d
    validate-IsPermitted = (
      λ h. Passes-IsPermitted (allowed-Passes h),
      λ h. Passes-allowed (listed-Passes h.listed_or_plain h),
    )
