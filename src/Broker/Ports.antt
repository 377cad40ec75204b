-- ===== src/Broker/Ports.antt =====
-- agentsecure/core/capabilities.py: the ports that capabilities without one are assigned.
use agentsecure_community.Base.{
  ℕ, suc, ◌+◌, ◌≤◌, ◌<◌, ◌≡◌, refl, true, some, List, [], ◌∷◌, arith, contains,
}
use agentsecure_community.Base.Text.{Text, text_eq}
use agentsecure_community.Base.Lists.{length}
use agentsecure_community.Base.Dict
use agentsecure_community.Model.{Capability, AgentSecureConfig}
use agentsecure_community.Broker.{
  insert_name, sorted_names, offset_from, assigned_local_port, broker_base_port,
}

contains-insert_name_self :
    (name : Text) (names : List Text) → contains (insert_name name names) name ≡ true
unfolding insert_name
contains-insert_name_self name [] = ground arith
contains-insert_name_self name (other ∷ names) =
    ground (arith, contains-insert_name_self name names)

contains-insert_name :
    (new name : Text) (names : List Text)
    → contains names name ≡ true
    → contains (insert_name new names) name ≡ true
unfolding insert_name
contains-insert_name new name [] h = cc
contains-insert_name new name (other ∷ names) h =
    ground (arith, contains-insert_name new name names)

pub contains-sorted_names :
    (name : Text) (names : List Text)
    → contains names name ≡ true
    → contains (sorted_names names) name ≡ true
unfolding sorted_names
contains-sorted_names name [] h = cc
contains-sorted_names name (other ∷ names) h = ground (
  arith,
  contains-sorted_names name names,
  contains-insert_name_self other (sorted_names names),
  contains-insert_name other name (sorted_names names),
)

length-insert_name :
    (name : Text) (names : List Text) → length (insert_name name names) ≡ suc (length names)
unfolding insert_name
length-insert_name name [] = refl
length-insert_name name (other ∷ names) = ground (arith, length-insert_name name names)

length-sorted_names : (names : List Text) → length (sorted_names names) ≡ length names
unfolding sorted_names
length-sorted_names [] = refl
length-sorted_names (name ∷ names) =
    ground (arith, length-sorted_names names, length-insert_name name (sorted_names names))

contains-keys :
    (name : Text) (capabilities : Dict.Dict Text Capability) (capability : Capability)
    → Dict.lookup name capabilities ≡ some capability
    → contains (Dict.keys capabilities) name ≡ true
unfolding Dict.keys
contains-keys name [] capability h = absurd (ground (arith, Dict.lookup-nil {V = Capability} name))
contains-keys name ((key, found) ∷ rest) capability h =
    ground (arith, Dict.lookup-cons name key found rest, contains-keys name rest capability)

offset_from_bounds :
    (at : ℕ) (name : Text) (names : List Text)
    → contains names name ≡ true
    → (at ≤ offset_from at name names) × (offset_from at name names < at + length names)
unfolding offset_from
offset_from_bounds at name [] h = cc
offset_from_bounds at name (other ∷ names) h =
    ground (arith, offset_from_bounds (suc at) name names)

offset_from_injective :
    (at : ℕ) (a b : Text) (names : List Text)
    → contains names a ≡ true
    → contains names b ≡ true
    → offset_from at a names ≡ offset_from at b names
    → a ≡ b
unfolding offset_from
offset_from_injective at a b [] ha hb e = cc
offset_from_injective at a b (other ∷ names) ha hb e = ground (
  arith,
  offset_from_injective (suc at) a b names,
  offset_from_bounds (suc at) a names,
  offset_from_bounds (suc at) b names,
)

module _ (config : AgentSecureConfig) where
  -- Two declared capabilities that are assigned the same port are the same capability.
  pub assigned_local_port_injective :
      (a b : Text) (capability_a capability_b : Capability)
      → Dict.lookup a config.capabilities ≡ some capability_a
      → Dict.lookup b config.capabilities ≡ some capability_b
      → assigned_local_port config a ≡ assigned_local_port config b
      → a ≡ b
  unfolding assigned_local_port
  assigned_local_port_injective a b capability_a capability_b ha hb e =
      offset_from_injective 0 a b (sorted_names (Dict.keys config.capabilities))
        (contains-sorted_names a _ (contains-keys a config.capabilities capability_a ha))
        (contains-sorted_names b _ (contains-keys b config.capabilities capability_b hb))
        (omega (arith, e))

  -- A declared capability is assigned a port from the base port on, below the base port plus the
  -- number of capabilities.
  pub assigned_local_port_bounds :
      (name : Text) (capability : Capability)
      → Dict.lookup name config.capabilities ≡ some capability
      → (broker_base_port ≤ assigned_local_port config name)
        × (assigned_local_port config name
            < broker_base_port + length (Dict.keys config.capabilities))
  unfolding assigned_local_port
  assigned_local_port_bounds name capability h =
      let here =
        contains-sorted_names name _ (contains-keys name config.capabilities capability h) in
      ground (
        arith,
        offset_from_bounds 0 name (sorted_names (Dict.keys config.capabilities)) here,
        length-sorted_names (Dict.keys config.capabilities),
      )
