-- ===== src/Aliases/Runs.antt =====
-- `prepare_run_bindings` and `revoke_run_bindings` of agentsecure/core/secret_aliases.py. The token
-- text and the time of a round are functions of the number of assignments before it.
pub mod Granted
pub mod Cleanup
use agentsecure_community.Base.{
  ℕ, suc, ◌+◌, ◌≡◌, refl, Bool, true, false, not, ◌&&◌, Option, none, some, List, [], ◌∷◌, ◌++◌,
  ◌==◌, contains, if◌then◌else◌,
}
use agentsecure_community.Base.Text.{Text, lit, text_eq, is_empty, or_text, slug}
use agentsecure_community.Base.Dict
use agentsecure_community.Base.Event.{Log, emit, text, texts, number}
use agentsecure_community.Base.Exec.{Error, Result, ok, raised, alias_error, ◌>>=◌}
use agentsecure_community.Model.{SecretAlias, ProjectSecretAlias, SecretBinding, SecretGrant}
use agentsecure_community.Duration.{default_ttl_seconds, parse_duration_seconds}
use agentsecure_community.Grants.{Grants, put, revoke}
use agentsecure_community.Resolver.{or_hosts, has_hosts}
use agentsecure_community.Aliases.{AliasStore, normalize_alias_id}

-- The part of the state that a run changes.
pub record RunState : Type 0 where
  pub grants : Grants
  pub log : Log

-- `parse_duration_seconds(ttl) if ttl else DEFAULT_TTL_SECONDS`
unfoldable pub ttl_seconds : Text → Result ℕ
ttl_seconds ttl = if is_empty ttl then ok default_ttl_seconds else parse_duration_seconds ttl

-- `set(self._normalize_alias_id(item) for item in selected_alias_ids or [])`
unfoldable pub normalize_all : List Text → Result (List Text)
normalize_all [] = ok []
normalize_all (value ∷ values) =
    normalize_alias_id value >>= λ alias_id. normalize_all values >>= λ rest. ok (alias_id ∷ rest)

module _ (aliases : AliasStore) (random : ℕ → Text) (clock : ℕ → ℕ)
    (ttl project_id run_id : Text) where
  abbrev pub run_grant : SecretAlias → ProjectSecretAlias → ℕ → ℕ → SecretGrant
  run_grant alias assignment round seconds =
      let provider = slug (or_text assignment.provider alias.provider) in
      record {
        env_name = or_text assignment.env_name alias.env_name;
        virtual_token = lit "virt_" ++ (provider ++ (lit "_" ++ random round));
        secret_ref = alias.secret_ref;
        provider = provider;
        inject_as = or_text assignment.inject_as alias.inject_as;
        created_at = clock round;
        expires_at = clock round + seconds;
        status = lit "active";
        alias_id = alias.alias_id;
        scope = lit "run";
        project_id = project_id;
        run_id = run_id;
      }

  abbrev pub run_binding : SecretGrant → List Text → SecretBinding
  run_binding grant approved_hosts = record {
    env_name = grant.env_name;
    virtual_token = grant.virtual_token;
    real_secret_env = [];
    real_secret_ref = grant.secret_ref;
    inject_as = grant.inject_as;
    provider = grant.provider;
    expires_at = some grant.expires_at;
    alias_id = grant.alias_id;
    approved_hosts = approved_hosts;
  }

  -- The rest of a round, once the time to live is known.
  unfoldable pub grant_alias :
      SecretAlias → ProjectSecretAlias → ℕ → ℕ → RunState → SecretBinding × RunState
  grant_alias alias assignment round seconds s =
      let grant = run_grant alias assignment round seconds in
      let approved_hosts = or_hosts assignment.approved_hosts alias.approved_hosts in
      (
        run_binding grant approved_hosts,
        record s {
          grants = put s.grants grant;
          log = emit s.log (lit "run_secret_granted") (
              (lit "alias_id", text alias.alias_id)
              ∷ (lit "env_name", text grant.env_name)
              ∷ (lit "provider", text grant.provider)
              ∷ (lit "expires_at", number grant.expires_at)
              ∷ (lit "project_id", text project_id)
              ∷ (lit "run_id", text run_id)
              ∷ (lit "approved_hosts", texts approved_hosts)
              ∷ []);
        },
      )

  -- The round of an alias, by the time to live.
  unfoldable pub grant_for :
      SecretAlias
      → ProjectSecretAlias
      → ℕ
      → Result ℕ
      → RunState
      → Result (Option SecretBinding) × RunState
  unfolding grant_alias
  grant_for alias assignment round (raised e) s = (raised e, s)
  grant_for alias assignment round (ok seconds) s =
      let (binding, s') = grant_alias alias assignment round seconds s in (ok (some binding), s')

  -- The round of an assignment, by what the alias store has for it.
  unfoldable pub grant_found :
      Option SecretAlias
      → ProjectSecretAlias
      → ℕ
      → RunState
      → Result (Option SecretBinding) × RunState
  unfolding grant_for ttl_seconds
  grant_found none assignment round s =
      if assignment.required
      then (
        raised
            (alias_error (lit "required secret alias is missing locally: " ++ assignment.alias_id)),
        s,
      )
      else (ok none, s)
  grant_found (some alias) assignment round s = grant_for alias assignment round (ttl_seconds ttl) s

  abbrev pub is_left_out : List Text → ProjectSecretAlias → Bool
  is_left_out selected assignment =
      has_hosts selected && not (contains selected assignment.alias_id)

  abbrev pub is_not_virtual : ProjectSecretAlias → Bool
  is_not_virtual assignment = not (assignment.mode == lit "virtualize")

  unfoldable pub log_skipped : ProjectSecretAlias → RunState → RunState
  log_skipped assignment s = record s {
    log = emit s.log (lit "run_secret_skipped") (
        (lit "alias_id", text assignment.alias_id)
        ∷ (lit "mode", text assignment.mode)
        ∷ (lit "project_id", text project_id)
        ∷ (lit "run_id", text run_id)
        ∷ []);
  }

  -- One round: `none` is a `continue`.
  unfoldable pub prepare_one :
      List Text → ProjectSecretAlias → ℕ → RunState → Result (Option SecretBinding) × RunState
  unfolding grant_found log_skipped
  prepare_one selected assignment round s =
      if is_left_out selected assignment
      then (ok none, s)
      else if is_not_virtual assignment
      then (ok none, log_skipped assignment s)
      else grant_found (Dict.lookup assignment.alias_id aliases) assignment round s

  abbrev pub add_binding : Option SecretBinding → List SecretBinding → List SecretBinding
  add_binding none bindings = bindings
  add_binding (some binding) bindings = binding ∷ bindings

  -- What a round's result does to the result of the rounds behind it.
  abbrev pub continue :
      Result (Option SecretBinding)
      → Result (List SecretBinding) × RunState
      → RunState
      → Result (List SecretBinding) × RunState
  continue (raised e) rest s = (raised e, s)
  continue (ok made) (raised e, t) s = (raised e, t)
  continue (ok made) (ok bindings, t) s = (ok (add_binding made bindings), t)

  unfoldable pub prepare_loop :
      List Text → List ProjectSecretAlias → ℕ → RunState → Result (List SecretBinding) × RunState
  prepare_loop selected [] round s = (ok [], s)
  prepare_loop selected (assignment ∷ rest) round s =
      let (made, s') = prepare_one selected assignment round s in
      continue made (prepare_loop selected rest (suc round) s') s'

  abbrev pub prepare_selected :
      Result (List Text)
      → List ProjectSecretAlias
      → RunState
      → Result (List SecretBinding) × RunState
  prepare_selected (raised e) assignments s = (raised e, s)
  prepare_selected (ok selected) assignments s = prepare_loop selected assignments 0 s

  unfoldable pub prepare_run_bindings :
      List ProjectSecretAlias → List Text → RunState → Result (List SecretBinding) × RunState
  prepare_run_bindings assignments selected_alias_ids s =
      prepare_selected (normalize_all selected_alias_ids) assignments s

-- The loop of `revoke_run_bindings`: the labels of the tokens that were revoked, and the grants.
unfoldable pub revoke_tokens : List SecretBinding → Grants → List Text × Grants
revoke_tokens [] grants = ([], grants)
revoke_tokens (binding ∷ rest) grants =
    let (done, grants') = revoke grants binding.virtual_token in
    let (labels, grants'') = revoke_tokens rest grants' in
    (if done then or_text binding.alias_id binding.env_name ∷ labels else labels, grants'')

unfoldable pub revoke_run_bindings : List SecretBinding → Text → RunState → RunState
unfolding revoke_tokens
revoke_run_bindings bindings run_id s =
    let (labels, grants) = revoke_tokens bindings s.grants in
    record s {
      grants = grants;
      log =
          if has_hosts labels
          then emit s.log (lit "run_secret_revoked")
              ((lit "run_id", text run_id) ∷ (lit "aliases", texts labels) ∷ [])
          else s.log;
    }
