-- ===== src/Aliases/Runs/Cleanup.antt =====
-- `revoke_run_bindings` of core/secret_aliases.py after `prepare_run_bindings`: nothing of a run
-- stays usable.
use mathlib.Core.Option
use agentsecure_community.Base.{
  ℕ, ◌≡◌, refl, subst, inl, inr, Option, none, some, List, [], ◌∷◌, arith, ◌==◌, Bool-cases,
  Option-cases,
}
use agentsecure_community.Base.Lists.{All}
use agentsecure_community.Base.Text.{Text, lit, text_eq}
use agentsecure_community.Base.Dict.{Dict}
use agentsecure_community.Base.Event.{Log}
use agentsecure_community.Base.Exec.{ok}
use agentsecure_community.Model.{ProjectSecretAlias, SecretBinding, SecretGrant}
use agentsecure_community.Grants.{Grants, get_by_virtual_token, revoke, revoked}
use agentsecure_community.Grants.Laws.{get-revoke}
use agentsecure_community.Resolver.{Context, grant_resolve}
use agentsecure_community.Resolver.Active.{grant_resolve_of_revoked}
use agentsecure_community.Aliases.{AliasStore}
use agentsecure_community.Aliases.Runs.{
  RunState, prepare_run_bindings, revoke_tokens, revoke_run_bindings,
}
use agentsecure_community.Aliases.Runs.Granted.{IsForRun, prepare_run_bindings-IsGranted}

abbrev IsThere : Option SecretGrant → Type 0
IsThere none = ⊥
IsThere (some grant) = Unit

abbrev IsDead : Option SecretGrant → Type 0
IsDead none = ⊥
IsDead (some grant) = grant.status ≡ lit "revoked"

map-IsThere : (o : Option SecretGrant) → IsThere o → IsThere (Option.map revoked o)
map-IsThere none h = elim h [ ]
map-IsThere (some g) h = tt

map-IsDead : (o : Option SecretGrant) → IsThere o → IsDead (Option.map revoked o)
map-IsDead none h = elim h [ ]
map-IsDead (some g) h = refl

dead-IsThere : (o : Option SecretGrant) → IsDead o → IsThere o
dead-IsThere none h = elim h [ ]
dead-IsThere (some g) h = tt

run-IsThere :
    (project_id run_id : Text) (o : Option SecretGrant) → IsForRun project_id run_id o → IsThere o
run-IsThere project_id run_id none h = elim h [ ]
run-IsThere project_id run_id (some g) h = tt

module _ (grants : Grants) (token other : Text) where
  revoke-IsThere :
      IsThere (get_by_virtual_token grants other)
      → IsThere (get_by_virtual_token (revoke grants token).1 other)
  revoke-IsThere h = elim (Bool-cases (other == token)) [
    | inl e ↦
        rw (get-revoke, e)
          (map-IsThere _
            (subst (λ (t : Text). IsThere (get_by_virtual_token grants t)) (ground arith) h))
    | inr e ↦ rw (get-revoke, e) h
  ]

  revoke-IsDead :
      IsDead (get_by_virtual_token grants other)
      → IsDead (get_by_virtual_token (revoke grants token).1 other)
  revoke-IsDead h = elim (Bool-cases (other == token)) [
    | inl e ↦
        rw (get-revoke, e)
          (map-IsDead _ (
            dead-IsThere _
              (subst (λ (t : Text). IsDead (get_by_virtual_token grants t)) (ground arith) h)))
    | inr e ↦ rw (get-revoke, e) h
  ]

revoke_kills :
    (grants : Grants) (token : Text)
    → IsThere (get_by_virtual_token grants token)
    → IsDead (get_by_virtual_token (revoke grants token).1 token)
revoke_kills grants token h = elim (Bool-cases (token == token)) [
  | inl e ↦ rw (get-revoke, e) (map-IsDead _ h)
  | inr e ↦ absurd (ground arith)
]

tokens-IsDead :
    (bindings : List SecretBinding) (grants : Grants) (token : Text)
    → IsDead (get_by_virtual_token grants token)
    → IsDead (get_by_virtual_token (revoke_tokens bindings grants).1 token)
unfolding revoke_tokens
tokens-IsDead [] grants token h = h
tokens-IsDead (b ∷ bindings) grants token h =
    tokens-IsDead bindings (revoke grants b.virtual_token).1 token
      (revoke-IsDead grants b.virtual_token token h)

All-revoke :
    (bindings : List SecretBinding) (grants : Grants) (token : Text)
    → All (λ b. IsThere (get_by_virtual_token grants b.virtual_token)) bindings
    → All (λ b. IsThere (get_by_virtual_token (revoke grants token).1 b.virtual_token)) bindings
All-revoke [] grants token h = tt
All-revoke (b ∷ bindings) grants token (h, hs) =
    (revoke-IsThere grants token b.virtual_token h, All-revoke bindings grants token hs)

revoke_tokens-IsDead :
    (bindings : List SecretBinding) (grants : Grants)
    → All (λ b. IsThere (get_by_virtual_token grants b.virtual_token)) bindings
    → All
        (λ b. IsDead (get_by_virtual_token (revoke_tokens bindings grants).1 b.virtual_token))
        bindings
unfolding revoke_tokens
revoke_tokens-IsDead [] grants h = tt
revoke_tokens-IsDead (b ∷ bindings) grants (h, hs) = (
  tokens-IsDead bindings (revoke grants b.virtual_token).1 b.virtual_token
      (revoke_kills grants b.virtual_token h),
  revoke_tokens-IsDead bindings (revoke grants b.virtual_token).1
      (All-revoke bindings grants b.virtual_token hs),
)

dead_resolves_none :
    (secret_get alias_get : Text → Option Text) (legacy : Dict Text Text) (context : Context)
    (now : ℕ) (log : Log) (grants : Grants) (token : Text)
    → IsDead (get_by_virtual_token grants token)
    → (grant_resolve secret_get alias_get grants legacy token context now log).0 ≡ none
dead_resolves_none secret_get alias_get legacy context now log grants token h =
    elim (Option-cases (get_by_virtual_token grants token)) [
      | inl e ↦ elim (subst IsDead e h) [ ]
      | inr (g, e) ↦
          grant_resolve_of_revoked secret_get alias_get grants legacy token context now log g e
            (subst IsDead e h)
    ]

All-map {ℓ κ} :
    {A : Type ℓ} (P Q : A → Type κ) (xs : List A) → ((x : A) → P x → Q x) → All P xs → All Q xs
All-map P Q [] f h = tt
All-map P Q (x ∷ xs) f (h, hs) = (f x h, All-map P Q xs f hs)

module _ (aliases : AliasStore) (random : ℕ → Text) (clock : ℕ → ℕ)
    (ttl project_id run_id : Text) where
  -- After a run that was prepared is revoked, no virtual token of its bindings resolves to a secret,
  -- in any context, at any time, whatever the stores and the legacy token map hold.
  pub revoke_run_bindings-resolve :
      (assignments : List ProjectSecretAlias) (selected_alias_ids : List Text) (s t : RunState)
      (bindings : List SecretBinding) (secret_get alias_get : Text → Option Text)
      (legacy : Dict Text Text) (context : Context) (now : ℕ) (log : Log)
      → prepare_run_bindings aliases random clock ttl project_id run_id assignments
          selected_alias_ids s
        ≡ (ok bindings, t)
      → All
          (λ b.
            (grant_resolve secret_get alias_get
              (revoke_run_bindings bindings run_id t).grants
              legacy
              b.virtual_token
              context
              now
              log).0
            ≡ none)
          bindings
  unfolding revoke_run_bindings
  revoke_run_bindings-resolve assignments selected_alias_ids s t bindings secret_get alias_get
        legacy context now log h =
      All-map _ _ bindings
        (λ b. dead_resolves_none secret_get alias_get legacy context now log _ b.virtual_token)
        (revoke_tokens-IsDead bindings t.grants (
          All-map _ _ bindings
            (λ b. run-IsThere project_id run_id (get_by_virtual_token t.grants b.virtual_token))
            (prepare_run_bindings-IsGranted aliases random clock ttl project_id run_id assignments
              selected_alias_ids s t bindings h)))
