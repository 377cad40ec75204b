-- ===== src/Grants/Laws.antt =====
-- What `put` and `revoke` leave in the store.
use agentsecure_community.Base.{inl, inr, ◌≡◌, some, [], arith, ◌==◌, if◌then◌else◌, Option-cases}
use agentsecure_community.Base.Text.{Text, text_eq}
use mathlib.Core.Option
use agentsecure_community.Base.Dict
use agentsecure_community.Model.{SecretGrant}
use agentsecure_community.Grants.{Grants, put, get_by_virtual_token, revoke, revoked}

pub get-put :
    (grants : Grants) (grant : SecretGrant) (token : Text)
    → get_by_virtual_token (put grants grant) token
      ≡ (if token == grant.virtual_token then some grant else get_by_virtual_token grants token)
unfolding get_by_virtual_token put
get-put grants grant token = Dict.lookup-insert token grant.virtual_token grant grants

-- Revoking a token marks its grant, if it has one, as revoked and leaves every other field of it
-- and every other grant as it was.
pub get-revoke :
    (grants : Grants) (token other : Text)
    → get_by_virtual_token (revoke grants token).1 other ≡ (
        if other == token
        then Option.map revoked (get_by_virtual_token grants token)
        else get_by_virtual_token grants other)
unfolding get_by_virtual_token revoke
get-revoke grants token other = elim (Option-cases (Dict.lookup token grants)) [
  | inl e ↦ ground arith
  | inr (g, e) ↦ ground (arith, Dict.lookup-insert other token (revoked g) grants)
]

-- Each grant is stored under its own virtual token.
abbrev pub IsKeyed : Grants → Type 0
IsKeyed grants =
    (token : Text) (grant : SecretGrant)
    → get_by_virtual_token grants token ≡ some grant
    → grant.virtual_token ≡ token

pub IsKeyed-nil : IsKeyed []
unfolding get_by_virtual_token
IsKeyed-nil token grant e = absurd (ground (arith, Dict.lookup-nil {V = SecretGrant} token))

put-IsKeyed : (grants : Grants) (new : SecretGrant) → IsKeyed grants → IsKeyed (put grants new)
put-IsKeyed grants new keyed token grant e =
    ground (arith, get-put grants new token, keyed token grant)

revoke-IsKeyed :
    (grants : Grants) (revoked_token : Text)
    → IsKeyed grants
    → IsKeyed (revoke grants revoked_token).1
revoke-IsKeyed grants revoked_token keyed token grant e =
    elim (Option-cases (get_by_virtual_token grants revoked_token)) [
      | inl n ↦ ground (arith, get-revoke grants revoked_token token, keyed token grant)
      | inr (g, n) ↦
          ground
            (arith, get-revoke grants revoked_token token, keyed token grant, keyed revoked_token g)
    ]

-- `put` and `revoke` keep each grant under its own virtual token.
pub grants-IsKeyed :
    (grants : Grants) (new : SecretGrant) (token : Text)
    → IsKeyed grants
    → IsKeyed (put grants new) × IsKeyed (revoke grants token).1
grants-IsKeyed grants new token keyed =
    (put-IsKeyed grants new keyed, revoke-IsKeyed grants token keyed)
