-- ===== src/Policy/Applying.antt =====
-- agentsecure/core/policy_mutation.py: what `apply_local` leaves in the file.
use agentsecure_community.Base.{
  ◌≡◌, ◌≤◌, refl, sym, ap, subst, ◌∙◌, ◌⊎◌, inl, inr, Bool, true, false, Option, none, some, List,
  [], ◌∷◌, arith, if◌then◌else◌, Option-cases, Bool-cases,
}
use agentsecure_community.Base.Lists.{length, All, keep}
use agentsecure_community.Base.Text.{Text, text_eq}
use agentsecure_community.Base.Dict
use agentsecure_community.Base.Dict.{Dict}
use agentsecure_community.Base.Exec.{
  Result, ok, raised, Error, unicode_error, ok_injective, Result-cases,
}
use agentsecure_community.Base.Json.{Json, object, to_fields, Python}
use agentsecure_community.Model.{
  Mode, mode_broker, mode_deny, mode_virtualize, rule_for, AgentSecureConfig,
}
use agentsecure_community.Network.{Ip}
use agentsecure_community.Broker.{is_broker, sorted_names}
use agentsecure_community.Broker.Allocator.{assign_local_ports}
use agentsecure_community.Config.{load_data}
use agentsecure_community.Config.Values.{Url, bind-ok}
use agentsecure_community.Config.WellFormed.{IsWellFormed, load_data-IsWellFormed}
use agentsecure_community.Config.Serving.{load_data-broker_endpoint_plan}
use agentsecure_community.Policy.Validation.{extract_policy_payload}
use agentsecure_community.Policy.{
  Mutation, Response, load_raw_config, merge_env_policy, merge_capabilities, build_mutation,
  is_brokered, plans_of, response, apply_built, apply_local,
}

ok_raised {ℓ} : {A : Type ℓ} {a : A} {error : Error} → raised error ≡ ok a → ⊥
ok_raised h = absurd (cc h)

brokered_mode : (mode : Mode) → is_broker mode ≡ true → mode ≡ mode_broker
brokered_mode mode_broker h = refl
brokered_mode mode_deny h = cc
brokered_mode mode_virtualize h = cc

brokered_rule :
    (config : AgentSecureConfig) (env_name : Text)
    → is_brokered config env_name ≡ true
    → (rule_for config.env_policy env_name).mode ≡ mode_broker
unfolding rule_for
brokered_rule config env_name h = elim (Option-cases (Dict.lookup env_name config.env_policy)) [
  | inl n ↦ absurd (ground arith)
  | inr (rule, e) ↦ rw (rule_for, e) (brokered_mode rule.mode (ground arith))
]

All-keep_test {ℓ} :
    {A : Type ℓ} (test : A → Bool) (xs : List A) → All (λ x. test x ≡ true) (keep test xs)
unfolding keep
All-keep_test test [] = tt
All-keep_test test (x ∷ xs) = ground (arith, All-keep_test test xs)

module _ (py : Python) (ip_address : Text → Option Ip) (urlsplit : Text → Option Url)
    (url_path : Text → Option Text) (quote : Text → Option Text) (url_password : Text → Bool)
    (canonical : Json → Text) where
  abbrev build : Option Json → Json → Result Mutation
  build = build_mutation py ip_address urlsplit url_path quote url_password canonical

  abbrev apply : Option Json → Json → Option Json × Result Response
  apply = apply_local py ip_address urlsplit url_path quote url_password canonical

  abbrev respond : AgentSecureConfig → Bool → Bool → Result Response
  respond = response py ip_address urlsplit url_path quote url_password canonical

  build_loads :
      (file : Option Json) (payload : Json) (m : Mutation)
      → build file payload ≡ ok m
      → load_data py ip_address urlsplit (object (to_fields m.next_config)) ≡ ok m.config
  unfolding build_mutation
  build_loads file payload m h =
      let (current, e1, h1) = bind-ok (load_raw_config file) _ m h in
      let (mutation, e2, h2) = bind-ok (extract_policy_payload payload) _ m h1 in
      let (ruled, e3, h3) = bind-ok (merge_env_policy py url_password mutation current) _ m h2 in
      let (merged, e4, h4) = bind-ok (merge_capabilities py url_password mutation ruled) _ m h3 in
      let (next_config, e5, h5) = bind-ok (assign_local_ports py merged mutation) _ m h4 in
      let (config, e6, h6) =
        bind-ok (load_data py ip_address urlsplit (object (to_fields next_config))) _ m h5 in
      subst (λ m. load_data py ip_address urlsplit (object (to_fields m.next_config)) ≡ ok m.config)
        (ok_injective _ m h6) e6

  response-config :
      (config : AgentSecureConfig) (changed applied : Bool) (r : Response)
      → respond config changed applied ≡ ok r
      → (r.config ≡ config) × (r.applied ≡ applied)
  unfolding response
  response-config config changed applied r h =
      let (plans, e, built) =
        bind-ok
          (plans_of py ip_address urlsplit url_path quote url_password canonical config
            (keep (is_brokered config) (sorted_names (Dict.keys config.env_policy))))
          _ r h in
      let same = ok_injective _ r built in
      (sym (ap (λ r. r.config) same), sym (ap (λ r. r.applied) same))

  -- A result of the call, or the error of a text that cannot be quoted.
  abbrev Answers {ℓ} : {A : Type ℓ} → Result A → Type ℓ
  Answers {A = A} answer =
      ((a : A) × (answer ≡ ok a))
      ⊎ ((answer ≡ raised unicode_error) × ((t : Text) × (quote t ≡ none)))

  -- Every variable that is listed gets its endpoint, if the databases can be quoted.
  plans_of-Answers :
      (value : Json) (config : AgentSecureConfig) (names : List Text)
      → load_data py ip_address urlsplit value ≡ ok config
      → length (Dict.keys config.capabilities) ≤ 50103
      → All (λ name. is_brokered config name ≡ true) names
      → Answers (plans_of py ip_address urlsplit url_path quote url_password canonical config names)
  unfolding plans_of
  plans_of-Answers value config [] loaded few listed = inl ([], refl)
  plans_of-Answers value config (name ∷ names) loaded few (b, listed) =
      elim (load_data-broker_endpoint_plan py ip_address urlsplit url_path quote value config name
        [] loaded few (brokered_rule config name b)) [
          | inr (e, (capability, _, q)) ↦ inr (rw (plans_of, e) refl, (_, q))
          | inl (plan, e) ↦ elim (plans_of-Answers value config names loaded few listed) [
            | inl (plans, es) ↦ inl (plan ∷ plans, rw (e, es) refl)
            | inr (es, q) ↦ inr (rw (e, es) refl, q)
          ]
        ]

  response-Answers :
      (value : Json) (config : AgentSecureConfig) (changed applied : Bool)
      → load_data py ip_address urlsplit value ≡ ok config
      → length (Dict.keys config.capabilities) ≤ 50103
      → Answers (respond config changed applied)
  unfolding response
  response-Answers value config changed applied loaded few =
      elim (plans_of-Answers value config
        (keep (is_brokered config) (sorted_names (Dict.keys config.env_policy))) loaded few
        (All-keep_test (is_brokered config) (sorted_names (Dict.keys config.env_policy)))) [
          | inl (plans, e) ↦ inl (
            record {
              changed = changed;
              applied = applied;
              config = config;
              broker_endpoint_plans = plans;
            },
            rw (response, e) refl,
          )
          | inr (e, q) ↦ inr (rw (response, e) refl, q)
        ]

  abbrev built : Option Json → Result Mutation → Option Json × Result Response
  built = apply_built py ip_address urlsplit url_path quote url_password canonical

  built-IsWellFormed :
      (file : Option Json) (m : Mutation) (file' : Option Json) (r : Response)
      → load_data py ip_address urlsplit (object (to_fields m.next_config)) ≡ ok m.config
      → built file (ok m) ≡ (file', ok r)
      → ((r.applied ≡ false) × (file' ≡ file))
        ⊎ ((raw : Json) × (r.applied ≡ true)
            × (file' ≡ some raw)
            × (load_data py ip_address urlsplit raw ≡ ok r.config)
            × IsWellFormed ip_address urlsplit r.config)
  unfolding apply_built
  built-IsWellFormed file m file' r loaded h =
      let raw = object (to_fields m.next_config) in
      let left : (if m.changed then some raw else file) ≡ file' = ap (λ p. p.0) h in
      let right : respond m.config m.changed m.changed ≡ ok r = ap (λ p. p.1) h in
      let (config, applied) = response-config m.config m.changed m.changed r right in
      elim (Bool-cases m.changed) [
        | inl e ↦ inr (
          raw,
          applied ∙ e,
          ground (arith, e, left),
          rw config loaded,
          rw config (load_data-IsWellFormed py ip_address urlsplit raw m.config loaded),
        )
        | inr e ↦ inl (applied ∙ e, ground (arith, e, left))
      ]

  -- After a change that was applied, the file has a configuration that loads: it is the one of the
  -- answer, and well formed. After one that was not applied, the file is as it was.
  pub apply_local-IsWellFormed :
      (file : Option Json) (payload : Json) (file' : Option Json) (r : Response)
      → apply file payload ≡ (file', ok r)
      → ((r.applied ≡ false) × (file' ≡ file))
        ⊎ ((raw : Json) × (r.applied ≡ true)
            × (file' ≡ some raw)
            × (load_data py ip_address urlsplit raw ≡ ok r.config)
            × IsWellFormed ip_address urlsplit r.config)
  unfolding apply_local apply_built
  apply_local-IsWellFormed file payload file' r h = elim (Result-cases (build file payload)) [
    | inl (error, e) ↦
        let failed : built file (raised error) ≡ (file', ok r) =
          subst (λ b. built file b ≡ (file', ok r)) e h in
        absurd (ok_raised (ap (λ p. p.1) failed))
    | inr (m, e) ↦
        built-IsWellFormed file m file' r (build_loads file payload m e)
          (subst (λ b. built file b ≡ (file', ok r)) e h)
  ]

  -- With at most 50103 capabilities, a change that raises leaves the file as it was, or raises the
  -- error of a database that cannot be quoted: nothing else raises once the file is written.
  pub apply_local-raises :
      (file : Option Json) (payload : Json) (file' : Option Json) (error : Error)
      → ((m : Mutation)
          → build file payload ≡ ok m
          → length (Dict.keys m.config.capabilities) ≤ 50103)
      → apply file payload ≡ (file', raised error)
      → (file' ≡ file) ⊎ ((error ≡ unicode_error) × ((t : Text) × (quote t ≡ none)))
  unfolding apply_local apply_built
  apply_local-raises file payload file' error few h = elim (Result-cases (build file payload)) [
    | inl (error', e) ↦
        let failed : built file (raised error') ≡ (file', raised error) =
          subst (λ b. built file b ≡ (file', raised error)) e h in
        inl (sym (ap (λ p. p.0) failed))
    | inr (m, e) ↦
        let answered : built file (ok m) ≡ (file', raised error) =
          subst (λ b. built file b ≡ (file', raised error)) e h in
        elim (response-Answers (object (to_fields m.next_config)) m.config m.changed m.changed
          (build_loads file payload m e) (few m e)) [
            | inl (r, responded) ↦ absurd (ok_raised (sym (ap (λ p. p.1) answered) ∙ responded))
            | inr (responded, unquoted) ↦ inr (cc (ap (λ p. p.1) answered, responded), unquoted)
          ]
  ]
