-- ===== src/Aliases/Rotation.antt =====
-- `_revoke_alias_grants` of core/secret_aliases.py: when an alias gets a new secret, every active
-- grant of it is revoked.
use mathlib.Core.Option
use agentsecure_community.Base.{
  ◌≡◌, ◌≢◌, refl, ap, subst, sym, ◌∙◌, inl, inr, ◌⊎◌, Bool, false, ◌&&◌, Option, none, some, List,
  [], ◌∷◌, arith, leb, ◌==◌, Bool-cases,
}
use agentsecure_community.Base.Text.{Text, lit, text_eq}
use agentsecure_community.Base.Dict
use agentsecure_community.Base.Dict.{Dict}
use agentsecure_community.Model.{SecretGrant}
use agentsecure_community.Grants.{
  Grants, get_by_virtual_token, insert_by_age, sort_by_age, list_grants, revoke, revoked,
}
use agentsecure_community.Grants.Laws.{IsKeyed, get-revoke}
use agentsecure_community.Resolver.Active.{revoked_ne_active}
use agentsecure_community.Aliases.{revoke_listed, revoke_alias_grants}

-- Membership, as a choice of a position.
abbrev pub In : SecretGrant → List SecretGrant → Type 0
In grant [] = ⊥
In grant (other ∷ rest) = (grant ≡ other) ⊎ In grant rest

reorder : {A B C D : Type 0} → (A ⊎ C → D) → A ⊎ B ⊎ C → B ⊎ D
reorder f (inl a) = inr (f (inl a))
reorder f (inr (inl b)) = inl b
reorder f (inr (inr c)) = inr (f (inr c))

insert_by_age-In :
    (grant other : SecretGrant) (grants : List SecretGrant)
    → (grant ≡ other) ⊎ In grant grants
    → In grant (insert_by_age other grants)
unfolding insert_by_age
insert_by_age-In grant other [] h = h
insert_by_age-In grant other (first ∷ rest) h =
    elim (Bool-cases (leb other.created_at first.created_at)) [
      | inl e ↦ rw e h
      | inr e ↦ rw e (reorder (insert_by_age-In grant other rest) h)
    ]

sort_by_age-In :
    (grant : SecretGrant) (grants : List SecretGrant)
    → In grant grants
    → In grant (sort_by_age grants)
unfolding sort_by_age
sort_by_age-In grant [] h = h
sort_by_age-In grant (other ∷ rest) (inl e) =
    insert_by_age-In grant other (sort_by_age rest) (inl e)
sort_by_age-In grant (other ∷ rest) (inr h) =
    insert_by_age-In grant other (sort_by_age rest) (inr (sort_by_age-In grant rest h))

values-In :
    (grants : Grants) (token : Text) (grant : SecretGrant)
    → get_by_virtual_token grants token ≡ some grant
    → In grant (Dict.values grants)
unfolding get_by_virtual_token Dict.values Dict.lookup
values-In [] token grant h = cc
values-In ((k, g) ∷ grants) token grant h = elim (Bool-cases (token == k)) [
  | inl e ↦ inl (ground arith)
  | inr e ↦ inr (values-In grants token grant (ground arith))
]

-- No active grant of the alias: what the loop leaves behind for the tokens that it has passed.
abbrev IsQuiet : Text → Option SecretGrant → Type 0
IsQuiet alias_id none = Unit
IsQuiet alias_id (some grant) = grant.alias_id ≡ alias_id → grant.status ≢ lit "active"

module _ (alias_id : Text) where
  -- The loop is still to reach an active grant of the alias under the token.
  abbrev IsPending : Text → List SecretGrant → Type 0
  IsPending token [] = ⊥
  IsPending token (grant ∷ rest) =
      ((grant.virtual_token ≡ token) × (grant.alias_id ≡ alias_id) × (grant.status ≡ lit "active"))
      ⊎ IsPending token rest

  In-IsPending :
      (grants : List SecretGrant) (grant : SecretGrant) (token : Text)
      → In grant grants
      → grant.virtual_token ≡ token
      → grant.alias_id ≡ alias_id
      → grant.status ≡ lit "active"
      → IsPending token grants
  In-IsPending [] grant token h k a s = h
  In-IsPending (other ∷ rest) grant token (inl e) k a s = inl (
    ap (λ (g : SecretGrant). g.virtual_token) (sym e) ∙ k,
    ap (λ (g : SecretGrant). g.alias_id) (sym e) ∙ a,
    ap (λ (g : SecretGrant). g.status) (sym e) ∙ s,
  )
  In-IsPending (other ∷ rest) grant token (inr h) k a s =
      inr (In-IsPending rest grant token h k a s)

  map-IsQuiet : (o : Option SecretGrant) → IsQuiet alias_id (Option.map revoked o)
  map-IsQuiet none = tt
  map-IsQuiet (some grant) = λ a s. revoked_ne_active s

  revoke-IsQuiet :
      (grants : Grants) (token other : Text)
      → IsQuiet alias_id (get_by_virtual_token grants other)
      → IsQuiet alias_id (get_by_virtual_token (revoke grants token).1 other)
  revoke-IsQuiet grants token other h = elim (Bool-cases (other == token)) [
    | inl e ↦ rw (get-revoke, e) (map-IsQuiet _)
    | inr e ↦ rw (get-revoke, e) h
  ]

  revoke_quiets :
      (grants : Grants) (token other : Text)
      → token ≡ other
      → IsQuiet alias_id (get_by_virtual_token (revoke grants token).1 other)
  revoke_quiets grants token other h = elim (Bool-cases (other == token)) [
    | inl e ↦ rw (get-revoke, e) (map-IsQuiet _)
    | inr e ↦ absurd (ground arith)
  ]

  is_hit : SecretGrant → Bool
  is_hit grant = grant.alias_id == alias_id && grant.status == lit "active"

  listed-IsQuiet :
      (listed : List SecretGrant) (grants : Grants) (token : Text)
      → IsQuiet alias_id (get_by_virtual_token grants token) ⊎ IsPending token listed
      → IsQuiet alias_id (get_by_virtual_token (revoke_listed alias_id listed grants).1 token)
  unfolding revoke_listed is_hit
  listed-IsQuiet [] grants token (inl h) = h
  listed-IsQuiet [] grants token (inr h) = elim h [ ]
  listed-IsQuiet (grant ∷ rest) grants token h = elim (Bool-cases (is_hit grant)) [
    | inl e ↦ rw e (listed-IsQuiet rest (revoke grants grant.virtual_token).1 token (after_hit h))
    | inr e ↦ rw e (listed-IsQuiet rest grants token (after_miss e h))
  ]
    where
      after_hit :
          IsQuiet alias_id (get_by_virtual_token grants token) ⊎ IsPending token (grant ∷ rest)
          → IsQuiet alias_id (get_by_virtual_token (revoke grants grant.virtual_token).1 token)
            ⊎ IsPending token rest
      after_hit (inl q) = inl (revoke-IsQuiet grants grant.virtual_token token q)
      after_hit (inr (inl (k, a, s))) = inl (revoke_quiets grants grant.virtual_token token k)
      after_hit (inr (inr p)) = inr p

      after_miss :
          is_hit grant ≡ false
          → IsQuiet alias_id (get_by_virtual_token grants token) ⊎ IsPending token (grant ∷ rest)
          → IsQuiet alias_id (get_by_virtual_token grants token) ⊎ IsPending token rest
      after_miss e (inl q) = inl q
      after_miss e (inr (inl (k, a, s))) = absurd (ground arith)
      after_miss e (inr (inr p)) = inr p

  IsQuiet-or_IsPending :
      (grants : Grants) (token : Text) (o : Option SecretGrant)
      → IsKeyed grants
      → get_by_virtual_token grants token ≡ o
      → IsQuiet alias_id o ⊎ IsPending token (list_grants grants)
  unfolding list_grants
  IsQuiet-or_IsPending grants token none keyed e = inl tt
  IsQuiet-or_IsPending grants token (some grant) keyed e = elim (Bool-cases (is_hit grant)) [
    | inl hit ↦ inr (
        In-IsPending (sort_by_age (Dict.values grants)) grant token
          (sort_by_age-In grant (Dict.values grants) (values-In grants token grant e))
          (keyed token grant e) (unfold is_hit in ground arith) (unfold is_hit in ground arith))
    | inr miss ↦ inl (λ a s. unfold is_hit in absurd (ground arith))
  ]

  -- If each grant is stored under its own token, then after `_revoke_alias_grants` no grant in the
  -- store is both of the alias and active.
  pub revoke_alias_grants_complete :
      (grants : Grants) (token : Text) (grant : SecretGrant)
      → IsKeyed grants
      → get_by_virtual_token (revoke_alias_grants alias_id grants).1 token ≡ some grant
      → grant.alias_id ≡ alias_id
      → grant.status ≢ lit "active"
  unfolding revoke_alias_grants
  revoke_alias_grants_complete grants token grant keyed e a =
      subst (IsQuiet alias_id) e
        (listed-IsQuiet (list_grants grants) grants token
          (IsQuiet-or_IsPending grants token (get_by_virtual_token grants token) keyed refl))
        a
