-- ===== src/Resolver/Privacy.antt =====
-- What the resolvers of implementations/secrets.py tell the audit log of a secret: only whether it
-- was found.
use agentsecure_community.Base.{ℕ, ◌≡◌, Option, arith, Option-cases, inl, inr}
use agentsecure_community.Base.Text.{after_char, Text, text_eq}
use agentsecure_community.Base.Dict
use agentsecure_community.Base.Dict.{Dict}
use agentsecure_community.Base.Event.{Log}
use agentsecure_community.Model.{SecretGrant, SecretBinding, EnvPolicy}
use agentsecure_community.Grants.{Grants, get_by_virtual_token}
use agentsecure_community.Resolver.{Context, is_found, resolve_grant, grant_resolve, policy_resolve}

-- Two stores hold secrets under the same names.
abbrev pub SameNames : (Text → Option Text) → (Text → Option Text) → Type 0
SameNames get other = (name : Text) → is_found (get name) ≡ is_found (other name)

module _ (secret_get alias_get other_secret_get other_alias_get : Text → Option Text)
    (same : SameNames secret_get other_secret_get)
    (same_alias : SameNames alias_get other_alias_get) where
  log-resolve_grant :
      (grant : SecretGrant) (token : Text) (context : Context) (now : ℕ) (log : Log)
      → (resolve_grant secret_get alias_get grant token context now log).1
        ≡ (resolve_grant other_secret_get other_alias_get grant token context now log).1
  unfolding resolve_grant
  log-resolve_grant grant token context now log = ground (
    arith,
    same (after_char b':' grant.secret_ref),
    same_alias (after_char b':' grant.secret_ref),
  )

  module _ (legacy other_legacy : Dict Text Text)
      (same_legacy : (token : Text)
        → is_found (Dict.lookup token legacy) ≡ is_found (Dict.lookup token other_legacy)) where
    log-grant_resolve :
        (grants : Grants) (token : Text) (context : Context) (now : ℕ) (log : Log)
        → (grant_resolve secret_get alias_get grants legacy token context now log).1
          ≡ (grant_resolve other_secret_get other_alias_get grants other_legacy token context now
              log).1
    unfolding grant_resolve
    log-grant_resolve grants token context now log =
        elim (Option-cases (get_by_virtual_token grants token)) [
          | inl e ↦ rw (e, grant_resolve, same_legacy token)
          | inr (g, e) ↦ rw (e, grant_resolve) (log-resolve_grant g token context now log)
        ]

    -- The audit log tells nothing of a secret but whether it was found: whatever is resolved, the
    -- log is the same over any other secrets that are stored under the same names.
    pub log-policy_resolve :
        (grants : Grants) (env_policy : EnvPolicy) (bindings : Dict Text SecretBinding)
        (token : Text) (context : Context) (now : ℕ) (log : Log)
        → (policy_resolve
            (grant_resolve secret_get alias_get grants legacy)
            env_policy
            bindings
            token
            context
            now
            log).1
          ≡ (policy_resolve
              (grant_resolve other_secret_get other_alias_get grants other_legacy)
              env_policy
              bindings
              token
              context
              now
              log).1
    unfolding policy_resolve
    log-policy_resolve grants env_policy bindings token context now log =
        ground (arith, log-grant_resolve grants token context now log)
