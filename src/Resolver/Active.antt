-- ===== src/Resolver/Active.antt =====
-- `GrantAwareTokenResolver.resolve` of implementations/secrets.py: when a grant yields its secret.
use agentsecure_community.Base.{
  ℕ, ◌<◌, ◌≡◌, refl, ◌∙◌, ◌≢◌, ◌↔◌, ◌⊎◌, inl, inr, true, false, not, ◌&&◌, Option, none, some, [],
  ◌∷◌, arith, ◌==◌, Option-cases,
}
use agentsecure_community.Base.Text.{Text, lit, text_eq, is_empty}
use agentsecure_community.Base.Dict.{Dict}
use agentsecure_community.Base.Event.{Log}
use agentsecure_community.Model.{SecretGrant}
use agentsecure_community.Grants.{Grants, get_by_virtual_token, revoke, revoked}
use agentsecure_community.Grants.Laws.{get-revoke}
use agentsecure_community.Resolver.{Context, stored_secret, resolve_grant, grant_resolve}

-- The grant may be used in this context at this time.
pub record IsLive (grant : SecretGrant) (context : Context) (now : ℕ) : Type 0 where
  pub active : grant.status ≡ lit "active"
  pub in_project : (grant.project_id ≡ []) ⊎ (grant.project_id ≡ context.project_id)
  pub in_run : (grant.run_id ≡ []) ⊎ (grant.run_id ≡ context.run_id)
  pub unexpired : now < grant.expires_at

-- An optional restriction lets a value through if it is empty or equal to it.
restriction :
    (limit value : Text)
    → (not (is_empty limit) && not (limit == value)) ≡ false
    → (limit ≡ []) ⊎ (limit ≡ value)
restriction [] value h = inl refl
restriction (c ∷ s) value h = inr (ground arith)

unrestricted :
    (limit value : Text)
    → (limit ≡ []) ⊎ (limit ≡ value)
    → (not (is_empty limit) && not (limit == value)) ≡ false
unrestricted [] value h = refl
unrestricted (c ∷ s) value h = ground arith

module _ (secret_get alias_get : Text → Option Text) (grant : SecretGrant) (token : Text)
    (context : Context) (now : ℕ) (log : Log) where
  abbrev resolved_grant : Option Text
  resolved_grant = (resolve_grant secret_get alias_get grant token context now log).0

  abbrev Tests : Type 0
  Tests =
      (grant.status ≡ lit "active")
      × ((not (is_empty grant.project_id) && not (grant.project_id == context.project_id)) ≡ false)
      × ((not (is_empty grant.run_id) && not (grant.run_id == context.run_id)) ≡ false)
      × (now < grant.expires_at)

  passed_tests : (secret : Text) → resolved_grant ≡ some secret → Tests
  unfolding resolve_grant
  passed_tests secret h = ground arith

  found_stored :
      (secret : Text)
      → resolved_grant ≡ some secret
      → stored_secret secret_get alias_get grant ≡ some secret
  unfolding resolve_grant
  found_stored secret h = ground arith

  stored_found : Tests → resolved_grant ≡ stored_secret secret_get alias_get grant
  unfolding resolve_grant
  stored_found t = ground arith

  resolve_grant-IsLive :
      (secret : Text)
      → (resolved_grant ≡ some secret)
        ↔ (IsLive grant context now × (stored_secret secret_get alias_get grant ≡ some secret))
  resolve_grant-IsLive secret = (
    λ h.
        let (active, project, run, unexpired) = passed_tests secret h in
        (
          record {
            active = active;
            in_project = restriction grant.project_id context.project_id project;
            in_run = restriction grant.run_id context.run_id run;
            unexpired = unexpired;
          },
          found_stored secret h,
        ),
    λ (live, h).
        stored_found (
          live.active,
          unrestricted grant.project_id context.project_id live.in_project,
          unrestricted grant.run_id context.run_id live.in_run,
          live.unexpired,
        )
        ∙ h,
  )

pub revoked_ne_active : lit "revoked" ≢ lit "active"
unfolding lit
revoked_ne_active p = cc p

module _ (secret_get alias_get : Text → Option Text) (grants : Grants) (legacy : Dict Text Text)
    (token : Text) (context : Context) (now : ℕ) (log : Log) where
  with_grant :
      (grant : SecretGrant)
      → get_by_virtual_token grants token ≡ some grant
      → grant_resolve secret_get alias_get grants legacy token context now log
        ≡ resolve_grant secret_get alias_get grant token context now log
  unfolding grant_resolve
  with_grant grant e = rw (e, grant_resolve)

  -- A token that has a grant resolves to a secret exactly if the grant is active, is for the
  -- context's project and run or for any, expires later than now, and the store that it refers to
  -- has that secret.
  pub grant_resolve-IsLive :
      (grant : SecretGrant) (secret : Text)
      → get_by_virtual_token grants token ≡ some grant
      → ((grant_resolve secret_get alias_get grants legacy token context now log).0 ≡ some secret)
        ↔ (IsLive grant context now × (stored_secret secret_get alias_get grant ≡ some secret))
  grant_resolve-IsLive grant secret e =
      rw (with_grant grant e)
        (resolve_grant-IsLive secret_get alias_get grant token context now log secret)

  -- A grant that is marked as revoked yields nothing.
  pub grant_resolve_of_revoked :
      (grant : SecretGrant)
      → get_by_virtual_token grants token ≡ some grant
      → grant.status ≡ lit "revoked"
      → (grant_resolve secret_get alias_get grants legacy token context now log).0 ≡ none
  grant_resolve_of_revoked grant e dead =
      rw (with_grant grant e) (unfold resolve_grant in ground (arith, revoked_ne_active))

get-revoke_self :
    (grants : Grants) (token : Text)
    → (revoke grants token).0 ≡ true
    → (grant : SecretGrant) × (get_by_virtual_token (revoke grants token).1 token
        ≡ some (revoked grant))
get-revoke_self grants token found = elim (Option-cases (get_by_virtual_token grants token)) [
  | inl e ↦ absurd (unfold revoke get_by_virtual_token in ground arith)
  | inr (g, e) ↦ (g, ground (arith, get-revoke grants token token))
]

-- Once a token with a grant is revoked, it resolves to nothing, whatever the context, the time and
-- the stores hold.
pub grant_resolve-revoke :
    (secret_get alias_get : Text → Option Text) (grants : Grants) (legacy : Dict Text Text)
    (token : Text) (context : Context) (now : ℕ) (log : Log)
    → (revoke grants token).0 ≡ true
    → (grant_resolve secret_get alias_get (revoke grants token).1 legacy token context now log).0
      ≡ none
grant_resolve-revoke secret_get alias_get grants legacy token context now log found =
    let (g, e) = get-revoke_self grants token found in
    grant_resolve_of_revoked secret_get alias_get (revoke grants token).1 legacy token context now
      log (revoked g) e refl
