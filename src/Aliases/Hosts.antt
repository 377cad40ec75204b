-- ===== src/Aliases/Hosts.antt =====
-- `_merge_network_allow_domains` of core/secret_aliases.py: the hosts of an alias that is assigned
-- to a project are added to the project's allow list.
pub mod Allowed
use agentsecure_community.Base.{
  ℕ, Bool, true, false, not, ◌&&◌, Option, none, some, List, [], ◌∷◌, ◌++◌, map, ◌==◌, contains,
  if◌then◌else◌,
}
use agentsecure_community.Base.Text.{Text, lit, text_eq, is_empty, strip, normal_host}

-- The section `network` of the configuration; a key that is missing is `none`.
pub record NetworkSection : Type 0 where
  pub allow_domains : Option (List Text)
  pub allow_ports : Option (List ℕ)
  pub deny_ip_literals : Option Bool
  pub deny_private_networks : Option Bool

-- One round of the loop, on the list and on the set of its normalised members.
unfoldable pub merge_host : Text → List Text × List Text → List Text × List Text
merge_host host (allow_domains, existing) =
    let normalized = strip host in
    if not (is_empty normalized) && not (contains existing (normal_host normalized))
    then (allow_domains ++ (normalized ∷ []), existing ++ (normal_host normalized ∷ []))
    else (allow_domains, existing)

unfoldable pub merge_hosts : List Text → List Text × List Text → List Text × List Text
unfolding merge_host
merge_hosts [] lists = lists
merge_hosts (host ∷ hosts) lists = merge_hosts hosts (merge_host host lists)

-- `network.get("allow_domains", [])`
abbrev pub listed_domains : Option (List Text) → List Text
listed_domains none = []
listed_domains (some domains) = domains

-- `setdefault`
abbrev pub set_default {ℓ} : {A : Type ℓ} → Option A → A → Option A
set_default none default = some default
set_default (some value) default = some value

unfoldable pub merge_network_allow_domains : List Text → NetworkSection → NetworkSection
unfolding merge_hosts
merge_network_allow_domains [] network = network
merge_network_allow_domains (host ∷ hosts) network =
    let allow_domains = listed_domains network.allow_domains in
    record network {
      allow_domains =
          some (merge_hosts (host ∷ hosts) (allow_domains, map normal_host allow_domains)).0;
      allow_ports = set_default network.allow_ports (80 ∷ 443 ∷ []);
      deny_ip_literals = set_default network.deny_ip_literals true;
      deny_private_networks = set_default network.deny_private_networks true;
    }
