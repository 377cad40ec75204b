-- ===== src/Broker/Allocator/Given.antt =====
-- agentsecure/core/policy_ports.py: what a capability that is given a port looks like, and that
-- the names that are not listed keep what they have.
use agentsecure_community.Base.{
  ℕ, ◌≤◌, ◌≡◌, ◌≢◌, refl, sym, ap, ◌∙◌, true, false, some, List, [], ◌∷◌, nat_eq, contains, arith,
  inl, inr, Option-cases,
}
use agentsecure_community.Base.Int.{pos}
use agentsecure_community.Base.Lists.{length}
use agentsecure_community.Base.Text.{Text, lit, text_eq}
use agentsecure_community.Base.Dict
use agentsecure_community.Base.Dict.{Dict}
use agentsecure_community.Base.Json.{Json, number, object, to_fields, Python}
use agentsecure_community.Broker.{insert_name, sorted_names}
use agentsecure_community.Broker.Allocator.{skip_used, free_capability, with_port, assign_loop}
use agentsecure_community.Broker.Allocator.Skipping.{skip_used_ends}
use agentsecure_community.Broker.Allocator.Distinct.{
  port_at, port_of_entry, port-with_port, free-given, free_other, free_differ, lookup_other,
  loop_keeps,
}

not_inserted :
    (new name : Text) (names : List Text)
    → name ≢ new
    → contains names name ≡ false
    → contains (insert_name new names) name ≡ false
unfolding insert_name
not_inserted new name [] differ h = ground arith
not_inserted new name (other ∷ names) differ h =
    ground (arith, not_inserted new name names differ (ground arith))

pub not_sorted :
    (name : Text) (names : List Text)
    → contains names name ≡ false
    → contains (sorted_names names) name ≡ false
unfolding sorted_names
not_sorted name [] h = refl
not_sorted name (other ∷ names) h =
    not_inserted other name (sorted_names names) (λ same. ground arith)
      (not_sorted name names (ground arith))

module _ (py : Python) where
  -- The entry of a capability with the port: its other fields are as they were.
  abbrev pub given : ℕ → Dict Text Json → Json
  given port capability =
      object (to_fields (Dict.insert (lit "local_port") (number (pos port)) capability))

  entry_given :
      (names : List Text) (capabilities capability : Dict Text Json) (name : Text) (port : ℕ)
      (used : List ℕ)
      → 1 ≤ port
      → Dict.lookup name (
          assign_loop py names
            (Dict.insert name (with_port py port capability) capabilities)
            port
            used)
        ≡ some (with_port py port capability)
  entry_given names capabilities capability name port used h =
      let value = with_port py port capability in
      loop_keeps py names (Dict.insert name value capabilities) port used name
        (free-given py capabilities capability name port h)
      ∙ Dict.lookup-insert_self name value capabilities

  -- A listed capability without a port is left with its fields and a port.
  loop_gives :
      (names : List Text) (capabilities capability : Dict Text Json) (next_port : ℕ) (used : List ℕ)
      (k : Text)
      → 1 ≤ next_port
      → contains names k ≡ true
      → free_capability py capabilities k ≡ some capability
      → (port : ℕ) × (Dict.lookup k (assign_loop py names capabilities next_port used)
          ≡ some (with_port py port capability))
  unfolding assign_loop
  loop_gives [] capabilities capability next_port used k low listed free = cc
  loop_gives (name ∷ names) capabilities capability next_port used k low listed free =
      elim (Option-cases (free_capability py capabilities name)) [
        | inl e ↦
            let differ = free_differ py capabilities capability name k e free in
            rw (assign_loop, e)
              (loop_gives names capabilities capability next_port used k low (ground arith) free)
        | inr (found, e) ↦
            let port = skip_used (length used) next_port used in
            let value = with_port py port found in
            let positive : 1 ≤ port = omega (arith, low, (skip_used_ends next_port used).1) in
            elim (text_eq.dec k name) [
              | yes same ↦
                  let left =
                    entry_given names capabilities found name port (port ∷ used) positive in
                  let agree : found ≡ capability =
                    cc (e, free, ap (free_capability py capabilities) same) in
                  rw (assign_loop, e)
                    (
                      port,
                      ap
                            (λ j. Dict.lookup j (
                              assign_loop py names (Dict.insert name value capabilities) port
                                (port ∷ used)))
                            same
                          ∙ left
                          ∙ ap (λ c. some (with_port py port c)) agree,
                    )
              | no differ ↦
                  rw (assign_loop, e)
                    (loop_gives names (Dict.insert name value capabilities) capability port
                      (port ∷ used) k positive (ground arith)
                      (free_other py k name value capabilities differ ∙ free))
            ]
      ]

  pub loop_given :
      (names : List Text) (capabilities capability : Dict Text Json) (next_port : ℕ) (used : List ℕ)
      (k : Text)
      → 1 ≤ next_port
      → contains names k ≡ true
      → free_capability py capabilities k ≡ some capability
      → Dict.lookup k (assign_loop py names capabilities next_port used)
        ≡ some (given (port_at (assign_loop py names capabilities next_port used) k) capability)
  loop_given names capabilities capability next_port used k low listed free =
      let (port, left) =
        loop_gives names capabilities capability next_port used k low listed free in
      left
      ∙ ap (λ n. some (given n capability))
          (sym (ap port_of_entry left ∙ port-with_port py port capability))

  -- A name that is not listed keeps its entry.
  pub loop_unlisted :
      (names : List Text) (capabilities : Dict Text Json) (next_port : ℕ) (used : List ℕ) (k : Text)
      → contains names k ≡ false
      → Dict.lookup k (assign_loop py names capabilities next_port used)
        ≡ Dict.lookup k capabilities
  unfolding assign_loop
  loop_unlisted [] capabilities next_port used k h = refl
  loop_unlisted (name ∷ names) capabilities next_port used k h =
      elim (Option-cases (free_capability py capabilities name)) [
        | inl e ↦
            rw (assign_loop, e) (loop_unlisted names capabilities next_port used k (ground arith))
        | inr (found, e) ↦
            let port = skip_used (length used) next_port used in
            let value = with_port py port found in
            rw (assign_loop, e)
              (loop_unlisted names (Dict.insert name value capabilities) port (port ∷ used) k
                  (ground arith)
                ∙ lookup_other py k name value capabilities (λ same. ground arith))
      ]
