-- ===== src/Aliases/Runs/Granted.antt =====
-- `prepare_run_bindings` of core/secret_aliases.py: each binding it returns has a grant for the run.
use agentsecure_community.Base.{
  ℕ, suc, ◌≡◌, refl, subst, inl, inr, Bool, true, false, Option, none, some, List, [], ◌∷◌, arith,
  ◌==◌, if◌then◌else◌, Bool-cases,
}
use agentsecure_community.Base.Lists.{All}
use agentsecure_community.Base.Text.{Text, lit, text_eq}
use agentsecure_community.Base.Dict
use agentsecure_community.Base.Exec.{Error, Result, ok, raised}
use agentsecure_community.Model.{SecretAlias, ProjectSecretAlias, SecretBinding, SecretGrant}
use agentsecure_community.Grants.{Grants, put, get_by_virtual_token}
use agentsecure_community.Grants.Laws.{get-put}
use agentsecure_community.Aliases.{AliasStore}
use agentsecure_community.Aliases.Runs.{
  RunState, ttl_seconds, normalize_all, run_grant, grant_for, grant_found, is_left_out,
  is_not_virtual, log_skipped, prepare_one, continue, prepare_loop, prepare_selected,
  prepare_run_bindings,
}

module _ (project_id run_id : Text) where
  -- The grant is active and is for one run of one project.
  abbrev pub IsForRun : Option SecretGrant → Type 0
  IsForRun none = ⊥
  IsForRun (some grant) =
      (grant.status ≡ lit "active")
      × (grant.scope ≡ lit "run")
      × (grant.project_id ≡ project_id)
      × (grant.run_id ≡ run_id)

  abbrev pub IsGranted : Grants → Text → Type 0
  IsGranted grants token = IsForRun (get_by_virtual_token grants token)

  put-IsGranted :
      (grants : Grants) (grant : SecretGrant) (token : Text)
      → IsForRun (some grant)
      → IsGranted grants token
      → IsGranted (put grants grant) token
  put-IsGranted grants grant token new old = elim (Bool-cases (token == grant.virtual_token)) [
    | inl e ↦ rw (get-put, e) new
    | inr e ↦ rw (get-put, e) old
  ]

  pub put-IsGranted_self :
      (grants : Grants) (grant : SecretGrant)
      → IsForRun (some grant)
      → IsGranted (put grants grant) grant.virtual_token
  put-IsGranted_self grants grant new =
      elim (Bool-cases (grant.virtual_token == grant.virtual_token)) [
        | inl e ↦ rw (get-put, e) new
        | inr e ↦ absurd (ground arith)
      ]

module _ (aliases : AliasStore) (random : ℕ → Text) (clock : ℕ → ℕ)
    (ttl project_id run_id : Text) where
  abbrev one :
      List Text → ProjectSecretAlias → ℕ → RunState → Result (Option SecretBinding) × RunState
  one = prepare_one aliases random clock ttl project_id run_id

  abbrev loop :
      List Text → List ProjectSecretAlias → ℕ → RunState → Result (List SecretBinding) × RunState
  loop = prepare_loop aliases random clock ttl project_id run_id

  -- A round leaves the grants alone, or it puts the grant of the binding that it makes.
  data RoundEffect (s : RunState) : Result (Option SecretBinding) × RunState → Type 0 where
    no_grant :
        (r : Result (Option SecretBinding)) (t : RunState)
        → t.grants ≡ s.grants
        → ((b : SecretBinding) → r ≡ ok (some b) → ⊥)
        → RoundEffect s (r, t)
    granted :
        (b : SecretBinding) (grant : SecretGrant) (t : RunState)
        → b.virtual_token ≡ grant.virtual_token
        → IsForRun project_id run_id (some grant)
        → t.grants ≡ put s.grants grant
        → RoundEffect s (ok (some b), t)

  effect_if :
      {s : RunState} (test : Bool) (x y : Result (Option SecretBinding) × RunState)
      → RoundEffect s x
      → RoundEffect s y
      → RoundEffect s (if test then x else y)
  effect_if true x y p q = p
  effect_if false x y p q = q

  unchanged : {s : RunState} → RoundEffect s (ok none, s)
  unchanged {s} = no_grant (ok none) s refl (λ b p. cc p)

  failed : {s : RunState} (e : Error) → RoundEffect s (raised e, s)
  failed {s} e = no_grant (raised e) s refl (λ b p. cc p)

  grant_for-effect :
      (alias : SecretAlias) (assignment : ProjectSecretAlias) (round : ℕ) (seconds : Result ℕ)
      (s : RunState)
      → RoundEffect s
          (grant_for aliases random clock ttl project_id run_id alias assignment round seconds s)
  unfolding grant_for
  grant_for-effect alias assignment round (raised e) s = failed e
  grant_for-effect alias assignment round (ok seconds) s =
      granted _
        (run_grant aliases random clock ttl project_id run_id alias assignment round seconds) _ refl
        (refl, refl, refl, refl) refl

  grant_found-effect :
      (found : Option SecretAlias) (assignment : ProjectSecretAlias) (round : ℕ) (s : RunState)
      → RoundEffect s
          (grant_found aliases random clock ttl project_id run_id found assignment round s)
  unfolding grant_found
  grant_found-effect none assignment round s =
      effect_if assignment.required _ _ (failed _) unchanged
  grant_found-effect (some alias) assignment round s =
      grant_for-effect alias assignment round (ttl_seconds ttl) s

  prepare_one-effect :
      (selected : List Text) (assignment : ProjectSecretAlias) (round : ℕ) (s : RunState)
      → RoundEffect s (one selected assignment round s)
  unfolding prepare_one
  prepare_one-effect selected assignment round s =
      effect_if (is_left_out aliases random clock ttl project_id run_id selected assignment) _ _
        unchanged
        (effect_if (is_not_virtual aliases random clock ttl project_id run_id assignment)
          (ok none, log_skipped aliases random clock ttl project_id run_id assignment s) _
          (no_grant (ok none) (log_skipped aliases random clock ttl project_id run_id assignment s)
            refl (λ b p. cc p))
          (grant_found-effect (Dict.lookup assignment.alias_id aliases) assignment round s))

  round_keeps :
      {s : RunState} {r : Result (Option SecretBinding) × RunState} (token : Text)
      → RoundEffect s r
      → IsGranted project_id run_id s.grants token
      → IsGranted project_id run_id r.1.grants token
  round_keeps token (no_grant r t e n) old = rw e old
  round_keeps {s} token (granted b grant t e new p) old =
      rw p (put-IsGranted project_id run_id s.grants grant token new old)

  round_grants :
      {s : RunState} {r : Result (Option SecretBinding) × RunState} (binding : SecretBinding)
      → RoundEffect s r
      → r.0 ≡ ok (some binding)
      → IsGranted project_id run_id r.1.grants binding.virtual_token
  round_grants binding (no_grant r t e n) h = absurd (n binding h)
  round_grants {s} binding (granted b grant t e new p) h =
      let same : binding.virtual_token ≡ grant.virtual_token = ground arith in
      rw (p, same) (put-IsGranted_self project_id run_id s.grants grant new)

  abbrev after_round :
      Result (Option SecretBinding)
      → Result (List SecretBinding) × RunState
      → RunState
      → Result (List SecretBinding) × RunState
  after_round = continue aliases random clock ttl project_id run_id

  after_round_keeps :
      (token : Text) (made : Result (Option SecretBinding))
      (rest : Result (List SecretBinding) × RunState) (s : RunState)
      → IsGranted project_id run_id s.grants token
      → IsGranted project_id run_id rest.1.grants token
      → IsGranted project_id run_id (after_round made rest s).1.grants token
  after_round_keeps token (raised e) rest s now later = now
  after_round_keeps token (ok made) (raised e, t) s now later = later
  after_round_keeps token (ok made) (ok bindings, t) s now later = later

  loop_keeps :
      (selected : List Text) (assignments : List ProjectSecretAlias) (round : ℕ) (s : RunState)
      (token : Text)
      → IsGranted project_id run_id s.grants token
      → IsGranted project_id run_id (loop selected assignments round s).1.grants token
  unfolding prepare_loop
  loop_keeps selected [] round s token old = old
  loop_keeps selected (assignment ∷ rest) round s token old =
      let new =
        round_keeps {r = one selected assignment round s} token
          (prepare_one-effect selected assignment round s) old in
      after_round_keeps token (one selected assignment round s).0
        (loop selected rest (suc round) (one selected assignment round s).1)
        (one selected assignment round s).1 new
        (loop_keeps selected rest (suc round) (one selected assignment round s).1 token new)

  -- What a loop that did not raise returns and leaves.
  abbrev AllGranted : Result (List SecretBinding) × RunState → Type 0
  AllGranted (raised e, t) = Unit
  AllGranted (ok bindings, t) =
      All (λ b. IsGranted project_id run_id t.grants b.virtual_token) bindings

  after_round_granted :
      (made : Result (Option SecretBinding)) (rest : Result (List SecretBinding) × RunState)
      (s : RunState)
      → ((b : SecretBinding)
          → made ≡ ok (some b)
          → IsGranted project_id run_id rest.1.grants b.virtual_token)
      → AllGranted rest
      → AllGranted (after_round made rest s)
  after_round_granted (raised e) rest s first others = tt
  after_round_granted (ok made) (raised e, t) s first others = tt
  after_round_granted (ok none) (ok bindings, t) s first others = others
  after_round_granted (ok (some b)) (ok bindings, t) s first others = (first b refl, others)

  loop_granted :
      (selected : List Text) (assignments : List ProjectSecretAlias) (round : ℕ) (s : RunState)
      → AllGranted (loop selected assignments round s)
  unfolding prepare_loop
  loop_granted selected [] round s = tt
  loop_granted selected (assignment ∷ rest) round s =
      let s' = (one selected assignment round s).1 in
      after_round_granted (one selected assignment round s).0 (loop selected rest (suc round) s') s'
        (λ b e.
          loop_keeps selected rest (suc round) s' b.virtual_token
            (round_grants b (prepare_one-effect selected assignment round s) e))
        (loop_granted selected rest (suc round) s')

  selected_granted :
      (selected : Result (List Text)) (assignments : List ProjectSecretAlias) (s : RunState)
      → AllGranted
          (prepare_selected aliases random clock ttl project_id run_id selected assignments s)
  selected_granted (raised e) assignments s = tt
  selected_granted (ok selected) assignments s = loop_granted selected assignments 0 s

  -- Every binding that `prepare_run_bindings` returns has, in the grants that it leaves, an active
  -- grant under its virtual token, for this run of this project and no other.
  pub prepare_run_bindings-IsGranted :
      (assignments : List ProjectSecretAlias) (selected_alias_ids : List Text) (s t : RunState)
      (bindings : List SecretBinding)
      → prepare_run_bindings aliases random clock ttl project_id run_id assignments
          selected_alias_ids s
        ≡ (ok bindings, t)
      → All (λ b. IsGranted project_id run_id t.grants b.virtual_token) bindings
  unfolding prepare_run_bindings
  prepare_run_bindings-IsGranted assignments selected_alias_ids s t bindings h =
      subst AllGranted h (selected_granted (normalize_all selected_alias_ids) assignments s)
