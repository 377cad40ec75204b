-- ===== src/Broker/Allocator/Distinct.antt =====
-- agentsecure/core/policy_ports.py: the ports that are assigned differ from each other and from
-- the used ones.
use agentsecure_community.Base.{
  ℕ, zero, suc, ◌≤◌, ◌≡◌, ◌≢◌, refl, sym, ap, ◌∙◌, true, false, Option, none, some, List, [], ◌∷◌,
  nat_eq, contains, arith, inl, inr, Option-cases,
}
use agentsecure_community.Base.Int.{pos}
use agentsecure_community.Base.Lists.{length}
use agentsecure_community.Base.Text.{Text, lit, text_eq}
use agentsecure_community.Base.Dict
use agentsecure_community.Base.Dict.{Dict}
use agentsecure_community.Base.Json.{
  Json, number, object, entries, get_or, entries-to_fields, Python,
}
use agentsecure_community.Broker.Allocator.{
  skip_used, is_undeclared, free_capability, with_port, assign_loop,
}
use agentsecure_community.Broker.Allocator.Skipping.{skip_used_ends}

-- The port that a capability has in the configuration.
abbrev port_in : Option Json → ℕ
port_in (some (number (pos n))) = n
port_in _ = 0

abbrev pub port_of_entry : Option Json → ℕ
port_of_entry (some (object fields)) = port_in (Dict.lookup (lit "local_port") (entries fields))
port_of_entry _ = 0

abbrev pub port_at : Dict Text Json → Text → ℕ
port_at capabilities name = port_of_entry (Dict.lookup name capabilities)

module _ (py : Python) where
  pub port-with_port :
      (port : ℕ) (capability : Dict Text Json)
      → port_of_entry (some (with_port py port capability)) ≡ port
  port-with_port port capability = rw (
    entries-to_fields (Dict.insert (lit "local_port") (number (pos port)) capability),
    Dict.lookup-insert_self (lit "local_port") (number (pos port)) capability,
  )

  is_undeclared-with_port :
      (port : ℕ) (capability : Dict Text Json)
      → 1 ≤ port
      → is_undeclared py (Dict.insert (lit "local_port") (number (pos port)) capability) ≡ false
  unfolding is_undeclared get_or
  is_undeclared-with_port zero capability h = absurd (omega (arith, h))
  is_undeclared-with_port (suc port) capability h =
      rw
        (
          is_undeclared,
          get_or,
          Dict.lookup-insert_self (lit "local_port") (number (pos (suc port))) capability,
        )
        (ground arith)

  -- A capability that was given a port is free no more.
  pub free-given :
      (capabilities capability : Dict Text Json) (name : Text) (port : ℕ)
      → 1 ≤ port
      → free_capability py (Dict.insert name (with_port py port capability) capabilities) name
        ≡ none
  unfolding free_capability
  free-given capabilities capability name port h = rw (
    free_capability,
    Dict.lookup-insert_self name (with_port py port capability) capabilities,
    entries-to_fields (Dict.insert (lit "local_port") (number (pos port)) capability),
    is_undeclared-with_port port capability h,
  )

  pub lookup_other :
      (j k : Text) (value : Json) (d : Dict Text Json)
      → j ≢ k
      → Dict.lookup j (Dict.insert k value d) ≡ Dict.lookup j d
  lookup_other j k value d differ = ground (arith, Dict.lookup-insert j k value d)

  pub free_other :
      (j k : Text) (value : Json) (d : Dict Text Json)
      → j ≢ k
      → free_capability py (Dict.insert k value d) j ≡ free_capability py d j
  unfolding free_capability
  free_other j k value d differ = rw (free_capability, lookup_other j k value d differ)

  pub free_differ :
      (capabilities capability : Dict Text Json) (j k : Text)
      → free_capability py capabilities j ≡ none
      → free_capability py capabilities k ≡ some capability
      → j ≢ k
  free_differ capabilities capability j k h e same =
      absurd (cc (h, e, ap (free_capability py capabilities) same))

  -- A capability that is not free stays as it is.
  pub loop_keeps :
      (names : List Text) (capabilities : Dict Text Json) (next_port : ℕ) (used : List ℕ) (k : Text)
      → free_capability py capabilities k ≡ none
      → Dict.lookup k (assign_loop py names capabilities next_port used)
        ≡ Dict.lookup k capabilities
  unfolding assign_loop
  loop_keeps [] capabilities next_port used k h = refl
  loop_keeps (name ∷ names) capabilities next_port used k h =
      elim (Option-cases (free_capability py capabilities name)) [
        | inl e ↦ rw (assign_loop, e) (loop_keeps names capabilities next_port used k h)
        | inr (capability, e) ↦
            let port = skip_used (length used) next_port used in
            let value = with_port py port capability in
            let differ = free_differ capabilities capability k name h e in
            rw (assign_loop, e)
              (loop_keeps names (Dict.insert name value capabilities) port (port ∷ used) k
                  (free_other k name value capabilities differ ∙ h)
                ∙ lookup_other k name value capabilities differ)
      ]

  -- A port that was given stays.
  given_port :
      (names : List Text) (capabilities capability : Dict Text Json) (name : Text) (port : ℕ)
      (used : List ℕ)
      → 1 ≤ port
      → port_at
          (assign_loop py names
            (Dict.insert name (with_port py port capability) capabilities)
            port
            used)
          name
        ≡ port
  given_port names capabilities capability name port used h =
      let value = with_port py port capability in
      ap port_of_entry (
        loop_keeps names (Dict.insert name value capabilities) port used name
          (free-given capabilities capability name port h)
        ∙ Dict.lookup-insert_self name value capabilities)
      ∙ port-with_port port capability

  pub loop_fresh :
      (names : List Text) (capabilities capability : Dict Text Json) (next_port : ℕ) (used : List ℕ)
      (k : Text)
      → 1 ≤ next_port
      → contains names k ≡ true
      → free_capability py capabilities k ≡ some capability
      → (contains used (port_at (assign_loop py names capabilities next_port used) k) ≡ false)
        × (next_port ≤ port_at (assign_loop py names capabilities next_port used) k)
  unfolding assign_loop
  loop_fresh [] capabilities capability next_port used k low listed free = cc
  loop_fresh (name ∷ names) capabilities capability next_port used k low listed free =
      elim (Option-cases (free_capability py capabilities name)) [
        | inl e ↦
            let differ = free_differ capabilities capability name k e free in
            rw (assign_loop, e)
              (loop_fresh names capabilities capability next_port used k low (ground arith) free)
        | inr (found, e) ↦
            let port = skip_used (length used) next_port used in
            let value = with_port py port found in
            let (unused, higher) = skip_used_ends next_port used in
            let positive : 1 ≤ port = omega (arith, low, higher) in
            elim (text_eq.dec k name) [
              | yes same ↦
                  let given =
                    given_port names capabilities found name port (port ∷ used) positive in
                  rw (assign_loop, e, same, given) (unused, higher)
              | no differ ↦
                  let (new, above) =
                    loop_fresh names (Dict.insert name value capabilities) capability port
                      (port ∷ used) k positive (ground arith)
                      (free_other k name value capabilities differ ∙ free) in
                  rw (assign_loop, e) (ground arith, omega (arith, above, higher))
            ]
      ]

  pub loop_distinct :
      (names : List Text) (capabilities c d : Dict Text Json) (next_port : ℕ) (used : List ℕ)
      (j k : Text)
      → 1 ≤ next_port
      → j ≢ k
      → contains names j ≡ true
      → contains names k ≡ true
      → free_capability py capabilities j ≡ some c
      → free_capability py capabilities k ≡ some d
      → port_at (assign_loop py names capabilities next_port used) j
        ≢ port_at (assign_loop py names capabilities next_port used) k
  unfolding assign_loop
  loop_distinct [] capabilities c d next_port used j k low apart at_j at_k free_j free_k = cc
  loop_distinct (name ∷ names) capabilities c d next_port used j k low apart at_j at_k free_j
        free_k =
      elim (Option-cases (free_capability py capabilities name)) [
        | inl e ↦
            let differ_j = free_differ capabilities c name j e free_j in
            let differ_k = free_differ capabilities d name k e free_k in
            rw (assign_loop, e)
              (loop_distinct names capabilities c d next_port used j k low apart (ground arith)
                (ground arith) free_j free_k)
        | inr (found, e) ↦
            let port = skip_used (length used) next_port used in
            let value = with_port py port found in
            let later = Dict.insert name value capabilities in
            let positive : 1 ≤ port = omega (arith, low, (skip_used_ends next_port used).1) in
            let given = given_port names capabilities found name port (port ∷ used) positive in
            elim (text_eq.dec j name) [
              | yes same_j ↦
                  let differ : k ≢ name = λ same_k. apart (same_j ∙ sym same_k) in
                  let (new, above) =
                    loop_fresh names later d port (port ∷ used) k positive (ground arith)
                      (free_other k name value capabilities differ ∙ free_k) in
                  rw (assign_loop, e, same_j, given) (ground arith)
              | no differ_j ↦ elim (text_eq.dec k name) [
                | yes same_k ↦
                    let (new, above) =
                      loop_fresh names later c port (port ∷ used) j positive (ground arith)
                        (free_other j name value capabilities differ_j ∙ free_j) in
                    rw (assign_loop, e, same_k, given) (ground arith)
                | no differ_k ↦
                    rw (assign_loop, e)
                      (loop_distinct names later c d port (port ∷ used) j k positive apart
                        (ground arith) (ground arith)
                        (free_other j name value capabilities differ_j ∙ free_j)
                        (free_other k name value capabilities differ_k ∙ free_k))
              ]
            ]
      ]
