-- ===== src/Resolver.antt =====
-- agentsecure/implementations/secrets.py: virtual tokens to real secrets. The two secret stores are
-- parameters by their `get` (`none` is Python's `None`), and so is the time of the call.
pub mod Active
pub mod Approval
pub mod Privacy
use agentsecure_community.Base.{
  ℕ, ◌≡◌, refl, Bool, true, false, not, ◌&&◌, ◌||◌, Option, none, some, List, [], ◌∷◌, arith, leb,
  ◌==◌, if◌then◌else◌,
}
use agentsecure_community.Base.Text.{
  Text, lit, text_eq, is_empty, normal_host, starts_with, after_char,
}
use agentsecure_community.Base.Lists.{any}
use agentsecure_community.Base.Dict
use agentsecure_community.Base.Dict.{Dict}
use agentsecure_community.Base.Event.{Log, emit, text, number, flag}
use agentsecure_community.Model.{
  SecretGrant, SecretBinding, EnvPolicy, Mode, mode_deny, mode_virtualize, mode_broker,
  EnvKeyPolicy, rule_for,
}
use agentsecure_community.Grants.{Grants, get_by_virtual_token}
use agentsecure_community.Network.{covers}

-- The keys of a context that the resolvers read; a key that is missing is the empty text.
pub record Context : Type 0 where
  pub host : Text
  pub project_id : Text
  pub run_id : Text

-- Whether a secret was found, and no more of it.
abbrev pub is_found : Option Text → Bool
is_found none = false
is_found (some secret) = true

module _ (secret_get alias_get : Text → Option Text) where
  -- The part of `GrantAwareTokenResolver.resolve` that reads the stores.
  unfoldable pub stored_secret : SecretGrant → Option Text
  stored_secret grant =
      if starts_with grant.secret_ref (lit "local:")
      then (if not (is_empty grant.alias_id)
          then alias_get (after_char b':' grant.secret_ref)
          else secret_get (after_char b':' grant.secret_ref))
      else none

  -- The tests of `GrantAwareTokenResolver.resolve` on a grant, and the lookup behind them.
  unfoldable pub resolve_grant : SecretGrant → Text → Context → ℕ → Log → Option Text × Log
  unfolding stored_secret
  resolve_grant grant virtual_token context now log =
      if not (grant.status == lit "active")
      then (
        none,
        emit log (lit "secret_resolution_revoked")
            ((lit "virtual_token", text virtual_token) ∷ (lit "status", text grant.status) ∷ []),
      )
      else if not (is_empty grant.project_id) && not (grant.project_id == context.project_id)
      then (
        none,
        emit log (lit "secret_resolution_wrong_project") (
            (lit "virtual_token", text virtual_token)
            ∷ (lit "project_id", text context.project_id)
            ∷ []),
      )
      else if not (is_empty grant.run_id) && not (grant.run_id == context.run_id)
      then (
        none,
        emit log (lit "secret_resolution_wrong_run")
            ((lit "virtual_token", text virtual_token) ∷ (lit "run_id", text context.run_id) ∷ []),
      )
      else if leb grant.expires_at now
      then (
        none,
        emit log (lit "secret_resolution_expired") (
            (lit "virtual_token", text virtual_token)
            ∷ (lit "expires_at", number grant.expires_at)
            ∷ []),
      )
      else let secret = stored_secret grant in
        (
          secret,
          emit log (lit "secret_resolution") (
              (lit "virtual_token", text virtual_token)
              ∷ (lit "resolved", flag (is_found secret))
              ∷ (lit "expires_at", number grant.expires_at)
              ∷ (lit "alias_id", text grant.alias_id)
              ∷ (lit "scope", text grant.scope)
              ∷ []),
        )

  -- `GrantAwareTokenResolver.resolve`, over the grants and the legacy token map.
  unfoldable pub grant_resolve :
      Grants → Dict Text Text → Text → Context → ℕ → Log → Option Text × Log
  unfolding resolve_grant
  grant_resolve grants legacy virtual_token context now log =
      elim (get_by_virtual_token grants virtual_token) [
        | some grant ↦ resolve_grant grant virtual_token context now log
        | none ↦
            let secret = Dict.lookup virtual_token legacy in
            (
              secret,
              emit log (lit "secret_resolution") (
                  (lit "virtual_token", text virtual_token)
                  ∷ (lit "resolved", flag (is_found secret))
                  ∷ (lit "legacy", flag true)
                  ∷ []),
            )
      ]

-- `_host_matches_any`: a pattern that is empty once it is normalised is passed over.
unfoldable pub host_matches_any : Text → List Text → Bool
unfolding any
host_matches_any host = any (λ pattern.
    let normalized = normal_host pattern in not (is_empty normalized) && covers host normalized)

-- `a or b` on lists.
abbrev pub or_hosts : List Text → List Text → List Text
or_hosts [] b = b
or_hosts (x ∷ a) b = x ∷ a

abbrev pub has_hosts : List Text → Bool
has_hosts [] = false
has_hosts (_ ∷ _) = true

abbrev pub mode_text : Mode → Text
mode_text mode_deny = lit "deny"
mode_text mode_virtualize = lit "virtualize"
mode_text mode_broker = lit "broker"

abbrev pub is_blocked : Mode → Bool
is_blocked mode_virtualize = false
is_blocked _ = true

-- What `PolicyAwareTokenResolver.resolve` delegates to.
abbrev pub Delegate : Type 0
Delegate = Text → Context → ℕ → Log → Option Text × Log

module _ (delegate : Delegate) (env_policy : EnvPolicy) where
  -- The tests of `PolicyAwareTokenResolver.resolve` on a binding.
  unfoldable pub resolve_binding : SecretBinding → Delegate
  unfolding host_matches_any
  resolve_binding binding virtual_token context now log =
      let rule = rule_for env_policy binding.env_name in
      let approved_hosts = or_hosts binding.approved_hosts rule.approved_hosts in
      let host = normal_host context.host in
      if is_blocked rule.mode
      then (
        none,
        emit log (lit "secret_resolution_denied") (
            (lit "virtual_token", text virtual_token)
            ∷ (lit "env_name", text binding.env_name)
            ∷ (lit "mode", text (mode_text rule.mode))
            ∷ []),
      )
      else if not (is_empty binding.alias_id)
          && has_hosts approved_hosts
          && (is_empty host || not (host_matches_any host approved_hosts))
      then (
        none,
        emit log (lit "secret_resolution_wrong_destination") (
            (lit "virtual_token", text virtual_token)
            ∷ (lit "env_name", text binding.env_name)
            ∷ (lit "alias_id", text binding.alias_id)
            ∷ (lit "host", text host)
            ∷ []),
      )
      else delegate virtual_token context now log

  -- `PolicyAwareTokenResolver.resolve`
  unfoldable pub policy_resolve : Dict Text SecretBinding → Delegate
  unfolding resolve_binding
  policy_resolve bindings virtual_token context now log =
      elim (Dict.lookup virtual_token bindings) [
        | none ↦ delegate virtual_token context now log
        | some binding ↦ resolve_binding binding virtual_token context now log
      ]
