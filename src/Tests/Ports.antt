-- ===== src/Tests/Ports.antt =====
-- core/policy_ports.py at a concrete configuration.
use agentsecure_community.Base.{◌≡◌, ◌≤◌, refl, false, none, List, [], ◌∷◌, nat_eq, contains}
use agentsecure_community.Base.Computing.{computing}
use agentsecure_community.Base.Int.{pos}
use agentsecure_community.Base.Text.{Text, lit, text_eq}
use agentsecure_community.Base.Dict
use agentsecure_community.Base.Dict.{Dict}
use agentsecure_community.Base.Json.{
  Json, Fields, text, number, object, field, end, entries, get_or, to_fields, Python,
}
use agentsecure_community.Broker.{insert_name, sorted_names}
use agentsecure_community.Broker.Allocator.{
  skip_used, is_undeclared, used_local_ports, free_capability, assign_loop, assign_ports,
}
use agentsecure_community.Broker.Allocator.Skipping.{skip_used_ends}
use agentsecure_community.Broker.Allocator.Distinct.{port_at}

abbrev py : Python
py = record { show = λ value. lit "?"; parse_int = λ t. none; parse_float = λ t. none }

-- Two capabilities without a port, and one that has the first port.
abbrev capabilities : Fields
capabilities = field (lit "a") (object end) (
    field (lit "b") (object (field (lit "local_port") (number (pos 15432)) end))
      (field (lit "c") (object end) end))

abbrev rule_json : Json
rule_json =
    object
      (field (lit "mode") (text (lit "broker")) (field (lit "capability") (text (lit "a")) end))

abbrev config : Dict Text Json
config =
    (lit "capabilities", object capabilities)
    ∷ (lit "env_policy", object (field (lit "DB") rule_json end))
    ∷ []

abbrev mutation : Dict Text Json
mutation = (lit "capabilities", object (field (lit "c") (object end) end)) ∷ []

abbrev names : List Text
names = lit "c" ∷ lit "a" ∷ []

abbrev after : Dict Text Json
after =
    Dict.insert (lit "capabilities")
      (object (to_fields (assign_ports py names (entries capabilities)))) config

ports_differ : port_at (assign_ports py names (entries capabilities)) (lit "c") ≡ 15434
unfolding assign_ports assign_loop sorted_names insert_name skip_used is_undeclared used_local_ports
    free_capability get_or to_fields computing
ports_differ = refl

skip_used_ends_example :
    (contains (7 ∷ 8 ∷ []) (skip_used 2 7 (7 ∷ 8 ∷ [])) ≡ false) × (7 ≤ skip_used 2 7 (7 ∷ 8 ∷ []))
skip_used_ends_example = skip_used_ends 7 (7 ∷ 8 ∷ [])
