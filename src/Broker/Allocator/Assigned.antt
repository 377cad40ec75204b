-- ===== src/Broker/Allocator/Assigned.antt =====
-- agentsecure/core/policy_ports.py: what the allocator promises, and that it keeps it.
use agentsecure_community.Base.{◌≡◌, ◌≤◌, ◌≢◌, true, false, none, some, List, nat_eq, contains}
use agentsecure_community.Base.Int.{pos}
use agentsecure_community.Base.Text.{Text, lit, text_eq}
use agentsecure_community.Base.Dict
use agentsecure_community.Base.Dict.{Dict}
use agentsecure_community.Base.Json.{Json, number, object, to_fields, Python}
use agentsecure_community.Broker.{broker_base_port}
use agentsecure_community.Broker.Allocator.{free_capability, used_local_ports}
use agentsecure_community.Broker.Allocator.Distinct.{port_at}

module _ (py : Python) where
  -- What the allocator promises: a listed capability without a port gets one from the base port on
  -- that no capability uses, and keeps its other fields; two of them get two ports; a capability
  -- that has a port or is not listed stays as it is.
  pub record IsAssigned (names : List Text) (capabilities result : Dict Text Json) : Type 0 where
    pub fresh :
        (k : Text) (c : Dict Text Json)
        → contains names k ≡ true
        → free_capability py capabilities k ≡ some c
        → (contains (used_local_ports py (Dict.values capabilities)) (port_at result k) ≡ false)
          × (broker_base_port ≤ port_at result k)
    pub distinct :
        (j k : Text) (c d : Dict Text Json)
        → j ≢ k
        → contains names j ≡ true
        → contains names k ≡ true
        → free_capability py capabilities j ≡ some c
        → free_capability py capabilities k ≡ some d
        → port_at result j ≢ port_at result k
    pub given :
        (k : Text) (c : Dict Text Json)
        → contains names k ≡ true
        → free_capability py capabilities k ≡ some c
        → Dict.lookup k result
          ≡ some (
              object
                (to_fields (Dict.insert (lit "local_port") (number (pos (port_at result k))) c)))
    pub unlisted :
        (k : Text) → contains names k ≡ false → Dict.lookup k result ≡ Dict.lookup k capabilities
    pub kept :
        (k : Text)
        → free_capability py capabilities k ≡ none
        → Dict.lookup k result ≡ Dict.lookup k capabilities
