-- ===== src/Mesh/Launch/Environment.antt =====
-- agentsecure/mesh/service.py: where each variable of a launched agent comes from.
use agentsecure_community.Base.{
  ◌≡◌, ◌≢◌, refl, subst, sym, ◌⊎◌, inl, inr, true, false, not, ◌&&◌, ◌||◌, some, List, [], ◌∷◌,
  arith, contains, ◌==◌, Bool-cases,
}
use agentsecure_community.Base.Text.{Text, lit, text_eq, strip, is_empty}
use agentsecure_community.Base.Dict
use agentsecure_community.Base.Dict.{Dict}
use agentsecure_community.Base.Exec.{ok, Result-cases}
use agentsecure_community.Model.{SecretBinding, EnvPolicy, rule_for}
use agentsecure_community.Mesh.Redaction.{looks_secret_text}
use agentsecure_community.Mesh.Launch.{
  agent_id_key, safe_launch_env_keys, is_secret_env_name, safe_entry, safe_entries,
  safe_launch_profile_env, is_denied, virtual_secrets, passed_on, update, id_in_profile,
  launch_environment, agent_environment,
}

same_entry :
    (P : Text → Text → Type 0) (key name found value : Text)
    → name ≡ key
    → value ≡ found
    → P key found
    → P name value
same_entry P key name found value p q h =
    subst (λ n. P n value) (sym p) (subst (λ v. P key v) (sym q) h)

module _ (P : Text → Text → Type 0) where
  -- The property holds of each name and its value.
  abbrev Entries : Dict Text Text → Type 0
  Entries [] = Unit
  Entries ((key, value) ∷ rest) = P key value × Entries rest

  insert-Entries :
      (key value : Text) (d : Dict Text Text)
      → P key value
      → Entries d
      → Entries (Dict.insert key value d)
  unfolding Dict.insert
  insert-Entries key value [] p h = (p, tt)
  insert-Entries key value ((other, found) ∷ rest) p (q, h) = elim (Bool-cases (key == other)) [
    | inl e ↦ rw e (subst (λ n. P n value) (ground arith) p, h)
    | inr e ↦ rw e (q, insert-Entries key value rest p h)
  ]

  lookup-Entries :
      (name value : Text) (d : Dict Text Text)
      → Dict.lookup name d ≡ some value
      → Entries d
      → P name value
  lookup-Entries name value [] e h = absurd (ground (arith, Dict.lookup-nil {V = Text} name))
  lookup-Entries name value ((key, found) ∷ rest) e (q, h) = elim (Bool-cases (name == key)) [
    | inl same ↦
        same_entry P key name found value (ground arith)
          (ground (arith, Dict.lookup-cons name key found rest)) q
    | inr other ↦
        lookup-Entries name value rest (ground (arith, Dict.lookup-cons name key found rest)) h
  ]

  update-Entries :
      (env more : Dict Text Text) → Entries env → Entries more → Entries (update env more)
  unfolding update
  update-Entries env [] h m = h
  update-Entries env ((key, value) ∷ more) h (p, m) =
      update-Entries (Dict.insert key value env) more (insert-Entries key value env p h) m

map-Entries :
    (P Q : Text → Text → Type 0)
    → ((name value : Text) → P name value → Q name value)
    → (d : Dict Text Text) → Entries P d
    → Entries Q d
map-Entries P Q f [] h = tt
map-Entries P Q f ((key, value) ∷ rest) (p, h) = (f key value p, map-Entries P Q f rest h)

ok_value {ℓ} : {A : Type ℓ} {a b : A} → ok a ≡ ok b → a ≡ b
ok_value h = cc

-- The dictionary has this entry.
abbrev pub IsEntry : Text → Text → Dict Text Text → Type 0
IsEntry name value [] = ⊥
IsEntry name value ((key, found) ∷ rest) =
    ((key ≡ name) × (found ≡ value)) ⊎ IsEntry name value rest

module _ (env_policy : EnvPolicy) (secrets : List SecretBinding)
    (environ profile_env : Dict Text Text) where
  -- A variable of the launching process, on the list of safe names and unlike a secret.
  abbrev IsPassedOn : Text → Text → Type 0
  IsPassedOn name value =
      IsEntry name value environ
      × (contains safe_launch_env_keys name ≡ true)
      × (looks_secret_text value ≡ false)

  -- A variable of the profile, with no name of a secret and unlike one, or the id of the agent.
  abbrev IsInProfile : Text → Text → Type 0
  IsInProfile name value =
      ((name ≡ agent_id_key) × (value ≡ id_in_profile profile_env))
      ⊎ (((key : Text) × IsEntry key value profile_env × (strip key ≡ name))
          × ((name ≡ agent_id_key) ⊎ (is_secret_env_name name ≡ false))
          × (looks_secret_text value ≡ false))

  -- The virtual token of a binding of that name, which the policy does not deny.
  abbrev IsToken : Text → Text → List SecretBinding → Type 0
  IsToken name value [] = ⊥
  IsToken name value (binding ∷ rest) =
      ((binding.env_name ≡ name)
        × (binding.virtual_token ≡ value)
        × (is_denied (rule_for env_policy name).mode ≡ false))
      ⊎ IsToken name value rest

  abbrev pub IsHarmless : Text → Text → Type 0
  IsHarmless name value =
      IsPassedOn name value ⊎ IsInProfile name value ⊎ IsToken name value secrets

  passed_on-Entries :
      (entries : Dict Text Text)
      → ((name value : Text) → IsEntry name value entries → IsEntry name value environ)
      → Entries IsPassedOn (passed_on entries)
  unfolding passed_on
  passed_on-Entries [] f = tt
  passed_on-Entries ((key, value) ∷ rest) f =
      let later = passed_on-Entries rest (λ n v i. f n v (inr i)) in
      elim (Bool-cases (contains safe_launch_env_keys key && not (looks_secret_text value))) [
        | inl e ↦ rw e ((f key value (inl (refl, refl)), ground arith, ground arith), later)
        | inr e ↦ rw e later
      ]

  virtual_secrets-Entries :
      (P : Text → Text → Type 0) (bindings : List SecretBinding) (environment : Dict Text Text)
      → ((name value : Text) → IsToken name value bindings → P name value)
      → Entries P environment
      → Entries P (virtual_secrets env_policy bindings environment)
  unfolding virtual_secrets
  virtual_secrets-Entries P [] environment f h = h
  virtual_secrets-Entries P (binding ∷ rest) environment f h =
      elim (Bool-cases
        (is_denied (rule_for env_policy binding.env_name).mode || is_empty binding.virtual_token)) [
          | inl e ↦ rw e (virtual_secrets-Entries P rest environment (λ n v i. f n v (inr i)) h)
          | inr e ↦ rw e (
              virtual_secrets-Entries P rest _ (λ n v i. f n v (inr i))
                (insert-Entries P binding.env_name binding.virtual_token environment
                  (f _ _ (inl (refl, refl, ground arith))) h))
        ]

  safe_entry_lem :
      (key value : Text) (safe next : Dict Text Text)
      → safe_entry key value safe ≡ ok next
      → IsEntry key value profile_env
      → (next ≡ safe)
        ⊎ ((next ≡ Dict.insert (strip key) value safe) × IsInProfile (strip key) value)
  unfolding safe_entry
  safe_entry_lem key value safe next h entry = elim (Bool-cases (is_empty (strip key))) [
    | inl e ↦ inl (ground arith)
    | inr e ↦ elim (Bool-cases (strip key == agent_id_key)) [
      | inl same ↦ inr (ground arith, inr ((key, entry, refl), inl (ground arith), ground arith))
      | inr differ ↦ inr (ground arith, inr ((key, entry, refl), inr (ground arith), ground arith))
    ]
  ]

  safe_entries-Entries :
      (entries safe result : Dict Text Text)
      → safe_entries entries safe ≡ ok result
      → ((name value : Text) → IsEntry name value entries → IsEntry name value profile_env)
      → Entries IsInProfile safe
      → Entries IsInProfile result
  unfolding safe_entries
  safe_entries-Entries [] safe result e f h = subst (Entries IsInProfile) (ok_value e) h
  safe_entries-Entries ((key, value) ∷ rest) safe result e f h =
      elim (Result-cases (safe_entry key value safe)) [
        | inl (error, r) ↦ absurd (ground arith)
        | inr (next, r) ↦
            safe_entries-Entries rest next result (ground arith) (λ n v i. f n v (inr i))
              (elim (safe_entry_lem key value safe next r (f key value (inl (refl, refl)))) [
                | inl same ↦ subst (Entries IsInProfile) (sym same) h
                | inr (new, p) ↦
                    subst (Entries IsInProfile) (sym new)
                      (insert-Entries IsInProfile (strip key) value safe p h)
              ])
      ]

  launch_environment-IsHarmless :
      (environment : Dict Text Text)
      → launch_environment env_policy secrets environ profile_env ≡ ok environment
      → Entries IsHarmless environment
  unfolding launch_environment safe_launch_profile_env
  launch_environment-IsHarmless environment h =
      elim (Result-cases (safe_launch_profile_env profile_env (id_in_profile profile_env))) [
        | inl (error, r) ↦ absurd (ground arith)
        | inr (safe, r) ↦
            let virtual = virtual_secrets env_policy secrets [] in
            let profile =
              safe_entries-Entries profile_env _ safe r (λ n v i. i) (inl (refl, refl), tt) in
            let passed = passed_on-Entries environ (λ n v i. i) in
            let built : update (update (passed_on environ) safe) virtual ≡ environment =
              ground arith in
            subst (Entries IsHarmless) built (
              update-Entries IsHarmless (update (passed_on environ) safe) virtual
                (update-Entries IsHarmless (passed_on environ) safe
                  (map-Entries IsPassedOn IsHarmless (λ n v p. inl p) (passed_on environ) passed)
                  (map-Entries IsInProfile IsHarmless (λ n v p. inr (inl p)) safe profile))
                (virtual_secrets-Entries IsHarmless secrets [] (λ n v p. inr (inr p)) tt))
      ]

  -- What a launched agent gets as a variable.
  abbrev pub IsGiven : Text → Text → Text → Type 0
  IsGiven agent_id name value =
      ((name ≡ lit "AGENTSECURE_AGENT_ID") × (value ≡ agent_id))
      ⊎ ((name ≢ lit "AGENTSECURE_AGENT_ID") × IsHarmless name value)

  split-IsGiven :
      (agent_id name value : Text) (environment : Dict Text Text)
      → Entries IsHarmless environment
      → Dict.lookup name (Dict.insert agent_id_key agent_id environment) ≡ some value
      → IsGiven agent_id name value
  split-IsGiven agent_id name value environment h e = elim (text_eq.dec name agent_id_key) [
    | yes same ↦
        inl (same, ground (arith, Dict.lookup-insert name agent_id_key agent_id environment))
    | no differ ↦ inr (
      differ,
      lookup-Entries IsHarmless name value environment
          (ground (arith, Dict.lookup-insert name agent_id_key agent_id environment)) h,
    )
  ]

  -- Every variable of a launched agent other than its id, which is the one it is launched with, is
  -- one of three: a variable of the launching process, on the list of safe names, whose value does
  -- not look like a secret; a variable of the profile, its name stripped and unlike that of a
  -- secret, whose value does not look like one either; or the virtual token of a binding of that
  -- name that the policy does not deny.
  pub agent_environment-IsGiven :
      (environment : Dict Text Text) (agent_id name value : Text)
      → agent_environment env_policy secrets environ profile_env agent_id ≡ ok environment
      → Dict.lookup name environment ≡ some value
      → IsGiven agent_id name value
  unfolding agent_environment
  agent_environment-IsGiven environment agent_id name value h e =
      elim (Result-cases (launch_environment env_policy secrets environ profile_env)) [
        | inl (error, r) ↦ absurd (ground arith)
        | inr (before, r) ↦
            let built : Dict.insert agent_id_key agent_id before ≡ environment = ground arith in
            split-IsGiven agent_id name value before (launch_environment-IsHarmless before r)
              (subst (λ d. Dict.lookup name d ≡ some value) (sym built) e)
      ]
