-- ===== src/Grants.antt =====
-- agentsecure/implementations/grant_store.py: the grants of virtual tokens, by token. A store is
-- the dictionary that `_read` returns; each method reads it, and writes it back if it changed it.
pub mod Laws
use agentsecure_community.Base.{
  ℕ, ◌≡◌, refl, Bool, true, false, Option, none, some, List, [], ◌∷◌, arith, leb, if◌then◌else◌,
}
use agentsecure_community.Base.Text.{Text, lit, text_eq}
use agentsecure_community.Base.Dict
use agentsecure_community.Base.Dict.{Dict}
use agentsecure_community.Model.{SecretGrant}

abbrev pub Grants : Type 0
Grants = Dict Text SecretGrant

unfoldable pub put : Grants → SecretGrant → Grants
put grants grant = Dict.insert grant.virtual_token grant grants

unfoldable pub get_by_virtual_token : Grants → Text → Option SecretGrant
get_by_virtual_token grants virtual_token = Dict.lookup virtual_token grants

-- `sorted(..., key=created_at)`: insertion behind the grants that are as old.
unfoldable pub insert_by_age : SecretGrant → List SecretGrant → List SecretGrant
insert_by_age grant [] = grant ∷ []
insert_by_age grant (other ∷ rest) =
    if leb grant.created_at other.created_at
    then grant ∷ other ∷ rest
    else other ∷ insert_by_age grant rest

unfoldable pub sort_by_age : List SecretGrant → List SecretGrant
unfolding insert_by_age
sort_by_age [] = []
sort_by_age (grant ∷ rest) = insert_by_age grant (sort_by_age rest)

-- `list`
unfoldable pub list_grants : Grants → List SecretGrant
unfolding sort_by_age
list_grants grants = sort_by_age (Dict.values grants)

abbrev pub revoked : SecretGrant → SecretGrant
revoked grant = record grant { status = lit "revoked" }

unfoldable pub revoke : Grants → Text → Bool × Grants
revoke grants virtual_token = elim (Dict.lookup virtual_token grants) [
  | none ↦ (false, grants)
  | some grant ↦ (true, Dict.insert virtual_token (revoked grant) grants)
]
