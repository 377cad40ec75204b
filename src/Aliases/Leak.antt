-- ===== src/Aliases/Leak.antt =====
-- `prepare_run_bindings` of core/secret_aliases.py when it raises: the grants of the rounds before.
use agentsecure_community.Base.{
  ℕ, ◌≡◌, refl, inl, inr, true, Option, none, some, List, [], ◌∷◌, ◌++◌, arith, ◌==◌, Bool-cases,
}
use agentsecure_community.Base.Text.{Text, lit, text_eq}
use agentsecure_community.Base.Dict
use agentsecure_community.Base.Exec.{Result, ok, raised, alias_error}
use agentsecure_community.Model.{SecretAlias, ProjectSecretAlias, SecretBinding}
use agentsecure_community.Aliases.{AliasStore}
use agentsecure_community.Aliases.Runs.{
  RunState, ttl_seconds, normalize_all, run_grant, grant_alias, grant_found, grant_for, prepare_one,
  prepare_loop, prepare_run_bindings,
}
use agentsecure_community.Aliases.Runs.Granted.{IsGranted, put-IsGranted_self}

module _ (aliases : AliasStore) (random : ℕ → Text) (clock : ℕ → ℕ)
    (ttl project_id run_id : Text) where
  abbrev one :
      List Text → ProjectSecretAlias → ℕ → RunState → Result (Option SecretBinding) × RunState
  one = prepare_one aliases random clock ttl project_id run_id

  found_round :
      (assignment : ProjectSecretAlias) (alias : SecretAlias) (seconds round : ℕ) (s : RunState)
      → assignment.mode ≡ lit "virtualize"
      → Dict.lookup assignment.alias_id aliases ≡ some alias
      → ttl_seconds ttl ≡ ok seconds
      → one [] assignment round s ≡ (
          let (b, t) =
            grant_alias aliases random clock ttl project_id run_id alias assignment round seconds
              s in
          (ok (some b), t))
  unfolding prepare_one
  found_round assignment alias seconds round s mode found lives =
      elim (Bool-cases (assignment.mode == lit "virtualize")) [
        | inl e ↦ rw (e, found, grant_found, lives, grant_for)
        | inr e ↦ absurd (ground arith)
      ]

  missing_round :
      (assignment : ProjectSecretAlias) (round : ℕ) (s : RunState)
      → assignment.mode ≡ lit "virtualize"
      → Dict.lookup assignment.alias_id aliases ≡ none
      → assignment.required ≡ true
      → one [] assignment round s ≡ (
        raised
            (alias_error (lit "required secret alias is missing locally: " ++ assignment.alias_id)),
        s,
      )
  unfolding prepare_one
  missing_round assignment round s mode gone needed = ground arith

  -- For two assignments and no selection, both to virtualize, and a lifetime that is accepted: if the
  -- alias of the first is known and that of the second is required and missing,
  -- `prepare_run_bindings` raises and returns no binding, and the grant of the first assignment
  -- stays active in the store.
  pub prepare_run_bindings_leaves_grant :
      (first second : ProjectSecretAlias) (alias : SecretAlias) (seconds : ℕ) (s : RunState)
      → first.mode ≡ lit "virtualize"
      → Dict.lookup first.alias_id aliases ≡ some alias
      → ttl_seconds ttl ≡ ok seconds
      → second.mode ≡ lit "virtualize"
      → Dict.lookup second.alias_id aliases ≡ none
      → second.required ≡ true
      → let (result, t) =
          prepare_run_bindings aliases random clock ttl project_id run_id
            (first ∷ second ∷ [])
            []
            s in
        (result
          ≡ raised
              (alias_error (lit "required secret alias is missing locally: " ++ second.alias_id)))
        × IsGranted project_id run_id t.grants
            (run_grant aliases random clock ttl project_id run_id alias first 0
              seconds).virtual_token
  unfolding prepare_run_bindings normalize_all prepare_loop
  prepare_run_bindings_leaves_grant first second alias seconds s mode found lives mode' gone
        needed =
      rw (found_round first alias seconds 0 s mode found lives) (
        rw (missing_round second 1 _ mode' gone needed) (
          refl,
          unfold grant_alias in
              put-IsGranted_self project_id run_id s.grants
                (run_grant aliases random clock ttl project_id run_id alias first 0 seconds)
                (refl, refl, refl, refl),
        ))
