-- ===== src/Resolver/Approval.antt =====
-- `PolicyAwareTokenResolver.resolve` of implementations/secrets.py: where a secret may go.
use agentsecure_community.Base.{
  ℕ, ◌≡◌, refl, ◌≢◌, ◌↔◌, ◌⊎◌, inl, inr, Bool, true, false, not, ◌&&◌, ◌||◌, some, List, [], ◌∷◌,
  arith, Bool-cases,
}
use agentsecure_community.Base.Text.{Text, text_eq, is_empty, normal_host}
use agentsecure_community.Base.Dict
use agentsecure_community.Base.Dict.{Dict}
use agentsecure_community.Base.Event.{Log}
use agentsecure_community.Model.{SecretBinding, EnvPolicy, mode_virtualize, rule_for}
use agentsecure_community.Network.{covers}
use agentsecure_community.Network.Hosts.{Covers, covers_sound, covers_complete}
use agentsecure_community.Resolver.{
  Context, Delegate, or_hosts, has_hosts, host_matches_any, resolve_binding, policy_resolve,
}

-- Some pattern that is not empty once normalised covers the host.
abbrev pub ApprovedBy : Text → List Text → Type 0
ApprovedBy host [] = ⊥
ApprovedBy host (pattern ∷ patterns) =
    ((normal_host pattern ≢ []) × Covers (normal_host pattern) host) ⊎ ApprovedBy host patterns

filled : (s : Text) → is_empty s ≡ false → s ≢ []
filled [] h p = cc
filled (c ∷ s) h p = cc

filled_iff : (s : Text) → s ≢ [] → is_empty s ≡ false
filled_iff [] h = absurd (h refl)
filled_iff (c ∷ s) h = refl

host_matches_any_sound :
    (host : Text) (patterns : List Text)
    → host_matches_any host patterns ≡ true
    → ApprovedBy host patterns
unfolding host_matches_any
host_matches_any_sound host [] h = cc
host_matches_any_sound host (p ∷ patterns) h =
    elim (Bool-cases (not (is_empty (normal_host p)) && covers host (normal_host p))) [
      | inl e ↦
          inl (
            filled (normal_host p) (ground arith),
            covers_sound host (normal_host p) (ground arith),
          )
      | inr e ↦ inr (host_matches_any_sound host patterns (ground arith))
    ]

host_matches_any_complete :
    (host : Text) (patterns : List Text)
    → ApprovedBy host patterns
    → host_matches_any host patterns ≡ true
unfolding host_matches_any
host_matches_any_complete host [] h = absurd h
host_matches_any_complete host (p ∷ patterns) (inl (n, c)) =
    ground (arith, filled_iff (normal_host p) n, covers_complete host (normal_host p) c)
host_matches_any_complete host (p ∷ patterns) (inr h) =
    ground (arith, host_matches_any_complete host patterns h)

module _ (delegate : Delegate) (env_policy : EnvPolicy) (binding : SecretBinding) where
  -- The patterns that restrict the binding: its own, or else those of the rule for its name.
  abbrev pub restricting : List Text
  restricting =
      or_hosts binding.approved_hosts (rule_for env_policy binding.env_name).approved_hosts

  -- The binding may be used for the host.
  pub record MayUse (host : Text) : Type 0 where
    pub virtual : (rule_for env_policy binding.env_name).mode ≡ mode_virtualize
    pub destination :
        (binding.alias_id ≡ [])
        ⊎ (restricting ≡ [])
        ⊎ ((normal_host host ≢ []) × ApprovedBy (normal_host host) restricting)

  abbrev wrong_destination : Text → Bool
  wrong_destination host =
      not (is_empty binding.alias_id)
      && has_hosts restricting
      && (is_empty (normal_host host) || not (host_matches_any (normal_host host) restricting))

  right_destination :
      (host : Text) (alias_id : Text) (hosts : List Text)
      → (not (is_empty alias_id)
          && has_hosts hosts
          && (is_empty (normal_host host) || not (host_matches_any (normal_host host) hosts)))
        ≡ false
      → (alias_id ≡ [])
        ⊎ (hosts ≡ [])
        ⊎ ((normal_host host ≢ []) × ApprovedBy (normal_host host) hosts)
  right_destination host [] hosts h = inl refl
  right_destination host (_ ∷ _) [] h = inr (inl refl)
  right_destination host (_ ∷ _) (p ∷ hosts) h = inr (
      inr (
        filled (normal_host host) (ground arith),
        host_matches_any_sound (normal_host host) (p ∷ hosts) (ground arith),
      ))

  destination_right :
      (host : Text) (alias_id : Text) (hosts : List Text)
      → (alias_id ≡ [])
        ⊎ (hosts ≡ [])
        ⊎ ((normal_host host ≢ []) × ApprovedBy (normal_host host) hosts)
      → (not (is_empty alias_id)
          && has_hosts hosts
          && (is_empty (normal_host host) || not (host_matches_any (normal_host host) hosts)))
        ≡ false
  destination_right host alias_id hosts (inl e) = ground arith
  destination_right host alias_id hosts (inr (inl e)) = ground arith
  destination_right host alias_id hosts (inr (inr (n, a))) =
      ground (
        arith,
        filled_iff (normal_host host) n,
        host_matches_any_complete (normal_host host) hosts a,
      )

  module _ (token : Text) (context : Context) (now : ℕ) (log : Log) where
    passed :
        (secret : Text)
        → (resolve_binding delegate env_policy binding token context now log).0 ≡ some secret
        → ((rule_for env_policy binding.env_name).mode ≡ mode_virtualize)
          × (wrong_destination context.host ≡ false)
          × ((delegate token context now log).0 ≡ some secret)
    unfolding resolve_binding
    passed secret h = ground arith

    delegated :
        (rule_for env_policy binding.env_name).mode ≡ mode_virtualize
        → wrong_destination context.host ≡ false
        → resolve_binding delegate env_policy binding token context now log
          ≡ delegate token context now log
    unfolding resolve_binding
    delegated m d = ground arith

    resolve_binding-MayUse :
        (secret : Text)
        → ((resolve_binding delegate env_policy binding token context now log).0 ≡ some secret)
          ↔ (MayUse context.host × ((delegate token context now log).0 ≡ some secret))
    resolve_binding-MayUse secret = (
      λ h.
          let (virtual, place, found) = passed secret h in
          (
            record {
              virtual = virtual;
              destination = right_destination context.host binding.alias_id restricting place;
            },
            found,
          ),
      λ (may, h).
          rw
            (delegated may.virtual
              (destination_right context.host binding.alias_id restricting may.destination))
            h,
    )

module _ (delegate : Delegate) (env_policy : EnvPolicy) (bindings : Dict Text SecretBinding) where
  -- A token with a binding resolves to a secret exactly if the rule for the binding's name says
  -- `virtualize`, the delegate finds that secret, and, for the binding of an alias that is
  -- restricted to approved hosts, the context names a host that one of those patterns covers.
  pub policy_resolve-MayUse :
      (binding : SecretBinding) (token : Text) (context : Context) (now : ℕ) (log : Log)
      (secret : Text)
      → Dict.lookup token bindings ≡ some binding
      → ((policy_resolve delegate env_policy bindings token context now log).0 ≡ some secret) ↔ (
          MayUse delegate env_policy binding context.host
          × ((delegate token context now log).0 ≡ some secret))
  unfolding policy_resolve
  policy_resolve-MayUse binding token context now log secret e =
      rw (e, policy_resolve)
        (resolve_binding-MayUse delegate env_policy binding token context now log secret)
