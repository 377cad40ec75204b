-- ===== src/Broker/Allocator.antt =====
-- agentsecure/core/policy_ports.py: the local ports that a change of the policy fixes.
pub mod Skipping
pub mod Distinct
pub mod Given
pub mod Assigned
use agentsecure_community.Base.{
  ℕ, zero, suc, ◌+◌, ◌≡◌, refl, Bool, true, false, not, ◌&&◌, ◌||◌, Option, none, some, List, [],
  ◌∷◌, ◌++◌, ◌==◌, nat_eq, contains, if◌then◌else◌,
}
use agentsecure_community.Base.Int.{ℤ, pos, negsuc}
use agentsecure_community.Base.Lists.{length}
use agentsecure_community.Base.Text.{Text, lit, text_eq}
use agentsecure_community.Base.Dict
use agentsecure_community.Base.Dict.{Dict}
use agentsecure_community.Base.Exec.{Result, ok, raised, ◌>>=◌}
use agentsecure_community.Base.Json.{
  Json, number, object, end, entries, truthy, get_or, as_dict, to_fields, Python, str, to_int,
  get_str,
}
use agentsecure_community.Broker.{broker_base_port, is_valid_port, sorted_names}

-- `value or 0`
abbrev or_zero : Json → Json
or_zero value = if truthy value then value else number (pos 0)

-- `set.add`, on the list of the members.
abbrev pub add : Text → List Text → List Text
add name names = if contains names name then names else name ∷ names

abbrev pub add_all : List Text → List Text → List Text
add_all [] names = names
add_all (name ∷ more) names = add_all more (add name names)

-- `while next_port in used: next_port += 1`, on fuel.
unfoldable pub skip_used : ℕ → ℕ → List ℕ → ℕ
skip_used zero next_port used = next_port
skip_used (suc fuel) next_port used =
    let later = skip_used fuel (suc next_port) used in
    if contains used next_port then later else next_port

abbrev is_zero : Option ℤ → Bool
is_zero none = false
is_zero (some (pos n)) = n == 0
is_zero (some (negsuc n)) = false

abbrev valid_or_zero : Option ℤ → ℕ
valid_or_zero none = 0
valid_or_zero (some (negsuc n)) = 0
valid_or_zero (some (pos n)) = if is_valid_port n then n else 0

module _ (py : Python) where
  -- `_optional_port`
  abbrev optional_port : Json → ℕ
  optional_port value = valid_or_zero (to_int py (or_zero value))

  -- `not _has_declared_nonzero_local_port`
  unfoldable pub is_undeclared : Dict Text Json → Bool
  is_undeclared capability =
      is_zero (to_int py (or_zero (get_or (lit "local_port") (number (pos 0)) capability)))

  -- `_used_local_ports`
  unfoldable pub used_local_ports : List Json → List ℕ
  used_local_ports [] = []
  used_local_ports (object fields ∷ rest) =
      let port = optional_port (get_or (lit "local_port") (number (pos 0)) (entries fields)) in
      let ports = used_local_ports rest in if port == 0 then ports else port ∷ ports
  used_local_ports (_ ∷ rest) = used_local_ports rest

  -- `_broker_capability_names`, over the rules.
  unfoldable pub broker_names : List Json → List Text
  broker_names [] = []
  broker_names (object fields ∷ rest) =
      let rule = entries fields in
      let capability = get_or (lit "capability") (number (pos 0)) rule in
      let names = broker_names rest in
      if (get_str py (lit "mode") [] rule == lit "broker") && truthy capability
      then add (str py capability) names
      else names
  broker_names (_ ∷ rest) = broker_names rest

  abbrev rule_values : Json → List Json
  rule_values (object fields) = Dict.values (entries fields)
  rule_values _ = []

  -- The names of `referenced`.
  unfoldable pub referenced : Dict Text Json → Dict Text Json → Result (List Text)
  unfolding broker_names
  referenced config mutation =
      as_dict (get_or (lit "capabilities") (object end) mutation) >>= λ changed. ok (
        add_all (Dict.keys changed)
          (broker_names (rule_values (get_or (lit "env_policy") (object end) config))))

  abbrev free_in : Json → Option (Dict Text Json)
  free_in (object fields) = if is_undeclared (entries fields) then some (entries fields) else none
  free_in _ = none

  -- The capability of a name, if it is one that gets a port.
  unfoldable pub free_capability : Dict Text Json → Text → Option (Dict Text Json)
  unfolding is_undeclared
  free_capability capabilities name = elim (Dict.lookup name capabilities) [
    | none ↦ none
    | some value ↦ free_in value
  ]

  abbrev pub with_port : ℕ → Dict Text Json → Json
  with_port port capability =
      object (to_fields (Dict.insert (lit "local_port") (number (pos port)) capability))

  -- The loop of `assign`; as many steps as there are ports lead past the used ones.
  unfoldable pub assign_loop : List Text → Dict Text Json → ℕ → List ℕ → Dict Text Json
  unfolding free_capability skip_used
  assign_loop [] capabilities next_port used = capabilities
  assign_loop (name ∷ names) capabilities next_port used =
      elim (free_capability capabilities name) [
        | none ↦ assign_loop names capabilities next_port used
        | some capability ↦
            let port = skip_used (length used) next_port used in
            assign_loop names (Dict.insert name (with_port port capability) capabilities) port
              (port ∷ used)
      ]

  -- What `assign` does to the capabilities.
  unfoldable pub assign_ports : List Text → Dict Text Json → Dict Text Json
  unfolding assign_loop used_local_ports
  assign_ports names capabilities =
      assign_loop (sorted_names names) capabilities broker_base_port
        (used_local_ports (Dict.values capabilities))

  -- `assign`: the configuration as it is left. No capabilities count as an empty dictionary, and
  -- other values than dictionaries end the call.
  unfoldable pub assign_local_ports : Dict Text Json → Dict Text Json → Result (Dict Text Json)
  unfolding referenced assign_ports
  assign_local_ports config mutation = elim (Dict.lookup (lit "capabilities") config) [
    | none ↦ referenced config mutation >>= λ names. ok config
    | some (object fields) ↦ referenced config mutation >>= λ names. ok (
        Dict.insert (lit "capabilities") (object (to_fields (assign_ports names (entries fields))))
          config)
    | some _ ↦ ok config
  ]
