-- ===== src/Tests/Aliases.antt =====
-- core/secret_aliases.py and implementations/encrypted_secret_store.py at a concrete vault.
use agentsecure_community.Base.{ℕ, ◌≡◌, ◌≢◌, refl, true, Option, none, some, List, [], ◌∷◌, ◌++◌}
use agentsecure_community.Base.Computing.{computing}
use agentsecure_community.Base.Lists.{All}
use agentsecure_community.Base.Text.{Text, lit, text_eq, slug}
use agentsecure_community.Base.Dict
use agentsecure_community.Base.Exec.{Result, ok, raised, alias_error}
use agentsecure_community.Model.{SecretAlias, ProjectSecretAlias, SecretBinding, SecretGrant}
use agentsecure_community.Grants.{Grants, list_grants, put, get_by_virtual_token, revoke}
use agentsecure_community.Grants.Laws.{IsKeyed-nil, grants-IsKeyed}
use agentsecure_community.Resolver.{Context, grant_resolve}
use agentsecure_community.Aliases.{AliasStore, revoke_alias_grants}
use agentsecure_community.Aliases.Rotation.{revoke_alias_grants_complete}
use agentsecure_community.Aliases.Leak.{prepare_run_bindings_leaves_grant}
use agentsecure_community.Aliases.Runs.{
  RunState, ttl_seconds, normalize_all, run_grant, run_binding, prepare_one, prepare_loop,
  prepare_run_bindings, revoke_run_bindings,
}
use agentsecure_community.Aliases.Runs.Granted.{IsGranted, prepare_run_bindings-IsGranted}
use agentsecure_community.Aliases.Runs.Cleanup.{revoke_run_bindings-resolve}
use agentsecure_community.Duration.{parse_duration_seconds}

abbrev marked : Text → Text → Text
marked nonce value = 1 ∷ value

abbrev unmark : Text → Option Text
unmark [] = none
unmark (_ ∷ value) = some value

abbrev openai : SecretAlias
openai = record {
  alias_id = lit "openai";
  name = lit "openai";
  env_name = lit "OPENAI_API_KEY";
  provider = lit "openai";
  inject_as = lit "authorization_bearer";
  secret_ref = lit "local:alias_openai_1";
  approved_hosts = lit "api.openai.com" ∷ [];
}

abbrev vault : AliasStore
vault = (lit "openai", openai) ∷ []

abbrev assigned : Text → ProjectSecretAlias
assigned alias_id = record {
  alias_id = alias_id;
  env_name = [];
  provider = [];
  inject_as = lit "authorization_bearer";
  approved_hosts = [];
  required = true;
  mode = lit "virtualize";
}

abbrev draws : ℕ → Text
draws round = lit "r"

abbrev noon : ℕ → ℕ
noon round = 1000

abbrev start : RunState
start = record { grants = []; log = [] }

prepare : List ProjectSecretAlias → Result (List SecretBinding) × RunState
prepare assignments =
    prepare_run_bindings vault draws noon (lit "1h") (lit "p") (lit "mcp_1") assignments [] start

abbrev granted : SecretGrant
granted =
    run_grant vault draws noon (lit "1h") (lit "p") (lit "mcp_1") openai (assigned (lit "openai")) 0
      3600

abbrev bound : SecretBinding
bound =
    run_binding vault draws noon (lit "1h") (lit "p") (lit "mcp_1") granted
      (lit "api.openai.com" ∷ [])

prepared :
    prepare (assigned (lit "openai") ∷ [])
    ≡ (ok (bound ∷ []), (prepare (assigned (lit "openai") ∷ [])).1)
unfolding prepare prepare_run_bindings normalize_all prepare_loop prepare_one parse_duration_seconds
    slug computing
prepared = refl

prepare_run_bindings-IsGranted_example :
    All
      (λ b.
        IsGranted
          (lit "p")
          (lit "mcp_1")
          (prepare (assigned (lit "openai") ∷ [])).1.grants
          b.virtual_token)
      (bound ∷ [])
unfolding prepare
prepare_run_bindings-IsGranted_example =
    prepare_run_bindings-IsGranted vault draws noon (lit "1h") (lit "p") (lit "mcp_1")
      (assigned (lit "openai") ∷ []) [] start (prepare (assigned (lit "openai") ∷ [])).1
      (bound ∷ []) prepared

abbrev here : Context
here = record { host = lit "api.openai.com"; project_id = lit "p"; run_id = lit "mcp_1" }

abbrev nothing_stored : Text → Option Text
nothing_stored name = none

abbrev all_stored : Text → Option Text
all_stored name = some (lit "sk-real")

revoke_run_bindings-resolve_example :
    All
      (λ b.
        (grant_resolve nothing_stored all_stored
          (revoke_run_bindings
            (bound ∷ [])
            (lit "mcp_1")
            (prepare (assigned (lit "openai") ∷ [])).1).grants
          []
          b.virtual_token
          here
          1001
          []).0
        ≡ none)
      (bound ∷ [])
unfolding prepare
revoke_run_bindings-resolve_example =
    revoke_run_bindings-resolve vault draws noon (lit "1h") (lit "p") (lit "mcp_1")
      (assigned (lit "openai") ∷ []) [] start (prepare (assigned (lit "openai") ∷ [])).1
      (bound ∷ []) nothing_stored all_stored [] here 1001 [] prepared

one_hour : ttl_seconds (lit "1h") ≡ ok 3600
unfolding ttl_seconds parse_duration_seconds computing
one_hour = refl

in_vault : Dict.lookup (lit "openai") vault ≡ some openai
unfolding computing
in_vault = refl

not_in_vault : Dict.lookup (lit "stripe") vault ≡ none
unfolding computing
not_in_vault = refl

prepare_run_bindings_leaves_grant_example :
    let (result, t) = prepare (assigned (lit "openai") ∷ assigned (lit "stripe") ∷ []) in
    (result
      ≡ raised (alias_error (lit "required secret alias is missing locally: " ++ lit "stripe")))
    × IsGranted (lit "p") (lit "mcp_1") t.grants granted.virtual_token
unfolding prepare
prepare_run_bindings_leaves_grant_example =
    prepare_run_bindings_leaves_grant vault draws noon (lit "1h") (lit "p") (lit "mcp_1")
      (assigned (lit "openai")) (assigned (lit "stripe")) openai 3600 start refl in_vault one_hour
      refl not_in_vault refl

abbrev stored : Grants
stored = put [] granted

abbrev dead : SecretGrant
dead = record granted { status = lit "revoked" }

was_dead :
    get_by_virtual_token (revoke_alias_grants (lit "openai") stored).1 granted.virtual_token
    ≡ some dead
unfolding revoke_alias_grants list_grants put get_by_virtual_token revoke slug computing
was_dead = refl

revoke_alias_grants_complete_example : dead.status ≢ lit "active"
revoke_alias_grants_complete_example =
    revoke_alias_grants_complete (lit "openai") stored granted.virtual_token dead
      (grants-IsKeyed [] granted (lit "x") IsKeyed-nil).0 was_dead refl
