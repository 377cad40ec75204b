-- ===== src/Aliases.antt =====
-- agentsecure/core/secret_aliases.py: aliases of vault secrets and their grants for one run.
-- `secrets.token_urlsafe` and `now_seconds` are arguments: what the call with that number returns.
pub mod Runs
pub mod Rotation
pub mod Leak
pub mod Hosts
use agentsecure_community.Base.{
  ℕ, zero, suc, ◌+◌, ◌≡◌, refl, Bool, true, false, not, ◌&&◌, ◌||◌, Option, none, some, List, [],
  ◌∷◌, ◌++◌, arith, nat_beq, ◌==◌, contains, if◌then◌else◌,
}
use agentsecure_community.Base.Lists.{any, length}
use agentsecure_community.Base.Text.{
  Text, lit, text_eq, is_empty, or_text, strip, slug, in_range, starts_with, after_char,
}
use agentsecure_community.Base.Dict
use agentsecure_community.Base.Dict.{Dict}
use agentsecure_community.Base.Event.{Log, emit, text, texts, number}
use agentsecure_community.Base.Exec.{Error, Result, ok, raised, alias_error, ◌>>=◌}
use agentsecure_community.Model.{SecretAlias, ProjectSecretAlias, SecretBinding, SecretGrant}
use agentsecure_community.Duration.{default_ttl_seconds, parse_duration_seconds}
use agentsecure_community.Grants.{Grants, put, list_grants, revoke}
use agentsecure_community.Resolver.{or_hosts, has_hosts}
use agentsecure_community.Secrets.{SecretStore}

-- `LocalSecretAliasStore`: the dictionary that `_read` returns.
abbrev pub AliasStore : Type 0
AliasStore = Dict Text SecretAlias

abbrev is_alias_char : ℕ → Bool
is_alias_char c =
    in_range 97 122 c
    || in_range 65 90 c
    || in_range 48 57 c
    || nat_beq c b'.'
    || nat_beq c b'_'
    || nat_beq c b'-'

unfoldable pub normalize_alias_id : Text → Result Text
unfolding any
normalize_alias_id value =
    let alias_id = strip value in
    if is_empty alias_id
    then raised (alias_error (lit "alias_id is required"))
    else if any (λ c. not (is_alias_char c)) alias_id
    then raised (alias_error (lit "alias_id may contain only letters, numbers, '.', '_' and '-'"))
    else ok alias_id

-- `_revoke_alias_grants`, over the grants that are listed.
unfoldable pub revoke_listed : Text → List SecretGrant → Grants → ℕ × Grants
revoke_listed alias_id [] grants = (0, grants)
revoke_listed alias_id (grant ∷ rest) grants =
    let hit = grant.alias_id == alias_id && grant.status == lit "active" in
    let (done, grants') = revoke grants grant.virtual_token in
    let (count, grants'') = revoke_listed alias_id rest (if hit then grants' else grants) in
    (if hit && done then suc count else count, grants'')

unfoldable pub revoke_alias_grants : Text → Grants → ℕ × Grants
unfolding revoke_listed
revoke_alias_grants alias_id grants = revoke_listed alias_id (list_grants grants) grants

-- What `add_alias` changes besides the secret store.
pub record State : Type 0 where
  pub aliases : AliasStore
  pub grants : Grants
  pub log : Log

module _ (S : SecretStore) where
  -- `_delete_secret_ref`
  unfoldable pub delete_secret_ref : Text → S.State → S.State
  delete_secret_ref secret_ref secrets =
      if starts_with secret_ref (lit "local:")
      then S.delete secrets (after_char b':' secret_ref)
      else secrets

  -- The block `if existing:`.
  unfoldable pub rotate : Option SecretAlias → SecretAlias → State → S.State → State × S.State
  unfolding delete_secret_ref revoke_alias_grants
  rotate none new s secrets = (s, secrets)
  rotate (some existing) new s secrets =
      let (revoked_count, grants) = revoke_alias_grants new.alias_id s.grants in
      (
        record s {
          grants = grants;
          log = emit s.log (lit "secret_alias_rotated") (
              (lit "alias_id", text new.alias_id)
              ∷ (lit "env_name", text new.env_name)
              ∷ (lit "provider", text new.provider)
              ∷ (lit "revoked_grants", number revoked_count)
              ∷ []);
        },
        delete_secret_ref existing.secret_ref secrets,
      )

  -- `add_alias` once its arguments are checked.
  unfoldable pub store_alias :
      Text
      → Text
      → Text
      → Text
      → Text
      → Text
      → List Text
      → Text
      → Text
      → State
      → S.State
      → Result SecretAlias × (State × S.State)
  unfolding rotate
  store_alias alias_id real_secret env_name provider inject_as name approved_hosts random nonce s
        secrets =
      let provider' = slug (or_text provider (lit "custom")) in
      let secret_id = lit "alias_" ++ (provider' ++ (lit "_" ++ random)) in
      let new : SecretAlias = record {
        alias_id = alias_id;
        name = or_text name alias_id;
        env_name = env_name;
        provider = provider';
        inject_as = or_text inject_as (lit "authorization_bearer");
        secret_ref = lit "local:" ++ secret_id;
        approved_hosts = approved_hosts;
      } in
      let (s', secrets') =
        rotate (Dict.lookup alias_id s.aliases) new
          (record s { aliases = Dict.insert alias_id new s.aliases })
          (S.put secrets secret_id real_secret nonce) in
      (
        ok new,
        (
          record s' {
            log = emit s'.log (lit "secret_alias_created") (
                (lit "alias_id", text new.alias_id)
                ∷ (lit "env_name", text new.env_name)
                ∷ (lit "provider", text new.provider)
                ∷ (lit "approved_hosts", texts new.approved_hosts)
                ∷ []);
          },
          secrets',
        ),
      )

  unfoldable pub add_alias :
      Text
      → Text
      → Text
      → Text
      → Text
      → Text
      → List Text
      → Text
      → Text
      → State
      → S.State
      → Result SecretAlias × (State × S.State)
  unfolding store_alias
  add_alias alias_id real_secret env_name provider inject_as name approved_hosts random nonce s
        secrets =
      elim (normalize_alias_id alias_id) [
        | raised e ↦ (raised e, (s, secrets))
        | ok alias ↦
            if is_empty real_secret
            then (raised (alias_error (lit "real_secret is required")), (s, secrets))
            else if is_empty env_name
            then (raised (alias_error (lit "env_name is required")), (s, secrets))
            else store_alias alias real_secret env_name provider inject_as name approved_hosts
                random nonce s secrets
      ]
