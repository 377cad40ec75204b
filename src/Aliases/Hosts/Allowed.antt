-- ===== src/Aliases/Hosts/Allowed.antt =====
-- `_merge_network_allow_domains` of core/secret_aliases.py: what it adds, and what it leaves.
use agentsecure_community.Base.{
  ◌≡◌, refl, ap, subst, sym, ◌∙◌, ◌⊎◌, inl, inr, true, false, not, ◌&&◌, ◌||◌, List, [], ◌∷◌, ◌++◌,
  map, arith, contains, Bool-cases,
}
use agentsecure_community.Base.Text.{Text, lit, text_eq, is_empty, strip, starts_with, normal_host}
use agentsecure_community.Base.Lists.{any}
use agentsecure_community.Network.{covers, matches_any}
use agentsecure_community.Aliases.Hosts.{
  NetworkSection, merge_host, merge_hosts, listed_domains, merge_network_allow_domains,
}

contains-append :
    (xs ys : List Text) (x : Text) → contains (xs ++ ys) x ≡ (contains xs x || contains ys x)
contains-append [] ys x = refl
contains-append (y ∷ xs) ys x = ground (arith, contains-append xs ys x)

map-append : (f : Text → Text) (xs ys : List Text) → map f (xs ++ ys) ≡ map f xs ++ map f ys
map-append f [] ys = refl
map-append f (x ∷ xs) ys = ap (λ rest. f x ∷ rest) (map-append f xs ys)

-- The set holds the normalised members of the list.
abbrev InStep : List Text × List Text → Type 0
InStep (allow_domains, existing) = existing ≡ map normal_host allow_domains

merge_host-InStep :
    (host : Text) (lists : List Text × List Text) → InStep lists → InStep (merge_host host lists)
unfolding merge_host
merge_host-InStep host (allow, existing) e =
    elim (Bool-cases
      (not (is_empty (strip host)) && not (contains existing (normal_host (strip host))))) [
        | inl t ↦ rw t (
            ap (λ s. s ++ (normal_host (strip host) ∷ [])) e
            ∙ sym (map-append normal_host allow (strip host ∷ [])))
        | inr t ↦ rw t e
      ]

-- A round adds its host, unless that is blank, and drops nothing.
merge_host_lem :
    (host name : Text) (lists : List Text × List Text)
    → ((contains lists.1 name ≡ true)
        ⊎ ((is_empty (strip host) ≡ false) × (normal_host (strip host) ≡ name)))
    → contains (merge_host host lists).1 name ≡ true
unfolding merge_host
merge_host_lem host name (allow, existing) h =
    ground (arith, contains-append existing (normal_host (strip host) ∷ []) name)

merge_hosts-InStep :
    (hosts : List Text) (lists : List Text × List Text)
    → InStep lists
    → InStep (merge_hosts hosts lists)
unfolding merge_hosts
merge_hosts-InStep [] lists e = e
merge_hosts-InStep (host ∷ hosts) lists e =
    merge_hosts-InStep hosts (merge_host host lists) (merge_host-InStep host lists e)

merge_hosts_keep :
    (hosts : List Text) (name : Text) (lists : List Text × List Text)
    → contains lists.1 name ≡ true
    → contains (merge_hosts hosts lists).1 name ≡ true
unfolding merge_hosts
merge_hosts_keep [] name lists h = h
merge_hosts_keep (host ∷ hosts) name lists h =
    merge_hosts_keep hosts name (merge_host host lists) (merge_host_lem host name lists (inl h))

merge_hosts_add :
    (hosts : List Text) (host : Text) (lists : List Text × List Text)
    → contains hosts host ≡ true
    → is_empty (strip host) ≡ false
    → contains (merge_hosts hosts lists).1 (normal_host (strip host)) ≡ true
unfolding merge_hosts
merge_hosts_add [] host lists h e = cc
merge_hosts_add (first ∷ hosts) host lists h e = elim (text_eq.dec host first) [
  | yes same ↦ merge_hosts_keep hosts (normal_host (strip host)) (merge_host first lists) (
      merge_host_lem first (normal_host (strip host)) lists (
        inr (
          ap (λ t. is_empty (strip t)) (sym same) ∙ e,
          ap (λ t. normal_host (strip t)) (sym same),
        )))
  | no other ↦ merge_hosts_add hosts host (merge_host first lists) (ground arith) e
]

contains-matches_any :
    (host : Text) (patterns : List Text)
    → contains (map normal_host patterns) host ≡ true
    → starts_with host (lit "*.") ≡ false
    → matches_any host patterns ≡ true
unfolding matches_any covers any
contains-matches_any host [] h s = cc
contains-matches_any host (pattern ∷ patterns) h s = elim (text_eq.dec host (normal_host pattern)) [
  | yes same ↦ ground arith
  | no other ↦ ground (arith, contains-matches_any host patterns)
]

-- After the hosts of an alias are merged, the network policy's allow list covers each of them that
-- is not blank and is no wildcard.
pub merge_network_allow_domains-matches_any :
    (hosts : List Text) (host : Text) (network : NetworkSection)
    → contains hosts host ≡ true
    → is_empty (strip host) ≡ false
    → starts_with (normal_host (strip host)) (lit "*.") ≡ false
    → matches_any
        (normal_host (strip host))
        (listed_domains (merge_network_allow_domains hosts network).allow_domains)
      ≡ true
unfolding merge_network_allow_domains
merge_network_allow_domains-matches_any [] host network h e s = cc
merge_network_allow_domains-matches_any (first ∷ hosts) host network h e s =
    let old = listed_domains network.allow_domains in
    let lists : List Text × List Text = (old, map normal_host old) in
    contains-matches_any (normal_host (strip host)) (merge_hosts (first ∷ hosts) lists).0
      (subst (λ set. contains set (normal_host (strip host)) ≡ true)
        (merge_hosts-InStep (first ∷ hosts) lists refl)
        (merge_hosts_add (first ∷ hosts) host lists h e))
      s
