-- ===== src/Broker/Environment.antt =====
-- agentsecure/implementations/secrets.py: `ConfiguredVirtualEnvironmentProvider`, the environment
-- that an agent is started with. The bindings are the values of the provider's dictionary.
use agentsecure_community.Base.{
  ◌≡◌, refl, sym, subst, ◌≢◌, ◌⊎◌, inl, inr, Option, none, some, List, [], ◌∷◌, arith,
  if◌then◌else◌,
}
use agentsecure_community.Base.Text.{Text, lit, text_eq, is_empty, starts_with, after_char}
use agentsecure_community.Base.Dict
use agentsecure_community.Base.Dict.{Dict}
use agentsecure_community.Base.Exec.{Result, ok, raised, ◌>>=◌}
use agentsecure_community.Model.{
  Mode, mode_deny, mode_virtualize, mode_broker, SecretBinding, EnvPolicy, rule_for,
  AgentSecureConfig,
}
use agentsecure_community.Network.{Ip}
use agentsecure_community.Broker.{broker_url_for_env}

-- `value or ""` on what a lookup found.
abbrev pub or_blank : Option Text → Text
or_blank none = []
or_blank (some value) = value

-- A secret store that may not be there.
abbrev pub MaybeStore : Type 0
MaybeStore = Option (Text → Option Text)

module _ (secret_store : MaybeStore) (environ : Dict Text Text) where
  abbrev pub from_environ : SecretBinding → Text
  from_environ binding =
      if is_empty binding.real_secret_env
      then []
      else or_blank (Dict.lookup binding.real_secret_env environ)

  -- `_real_value_for_binding`
  unfoldable pub real_value_for_binding : SecretBinding → Text
  real_value_for_binding binding = elim secret_store [
    | none ↦ from_environ binding
    | some get ↦
        if starts_with binding.real_secret_ref (lit "local:")
        then or_blank (get (after_char b':' binding.real_secret_ref))
        else from_environ binding
  ]

-- The last call of a chain that did not raise.
ok_some :
    (m : Result Text) {value : Text} → (m >>= λ v. ok (some v)) ≡ ok (some value) → m ≡ ok value
ok_some (ok v) h = cc
ok_some (raised error) h = cc

-- The first call of a chain that did not raise, and the rest.
first_ok :
    {A B : Type 0} (m : Result A) (next : A → Result B) {b : B}
    → (m >>= next) ≡ ok b
    → (a : A) × (m ≡ ok a) × (next a ≡ ok b)
first_ok (ok a) next h = (a, refl, h)
first_ok (raised error) next h = cc

module _ (ip_address : Text → Option Ip) (url_path : Text → Option Text)
    (quote : Text → Option Text) (env_policy : EnvPolicy) (config : Option AgentSecureConfig)
    (secret_store : MaybeStore) (environ : Dict Text Text) where
  abbrev pub broker_url : AgentSecureConfig → SecretBinding → Result Text
  broker_url root binding =
      broker_url_for_env ip_address url_path quote root binding.env_name
        (real_value_for_binding secret_store environ binding)

  -- What the round for a binding in broker mode assigns.
  abbrev pub brokered : SecretBinding → Option AgentSecureConfig → Result Text
  brokered binding none = ok binding.virtual_token
  brokered binding (some root) = broker_url root binding

  -- What the round for a binding assigns to its variable, if it assigns it.
  abbrev pub shown : SecretBinding → Mode → Result (Option Text)
  shown binding mode_deny = ok none
  shown binding mode_broker = brokered binding config >>= λ value. ok (some value)
  shown binding mode_virtualize = ok (some binding.virtual_token)

  abbrev pub assign : Text → Option Text → Dict Text Text → Dict Text Text
  assign env_name none environment = environment
  assign env_name (some value) environment = Dict.insert env_name value environment

  unfoldable pub build_loop : List SecretBinding → Dict Text Text → Result (Dict Text Text)
  build_loop [] environment = ok environment
  build_loop (binding ∷ rest) environment =
      shown binding (rule_for env_policy binding.env_name).mode >>= λ value.
      build_loop rest (assign binding.env_name value environment)

  -- `build_environment`
  unfoldable pub build_environment : List SecretBinding → Result (Dict Text Text)
  unfolding build_loop
  build_environment bindings = build_loop bindings []

  -- A binding shows the value under the name: its rule does not deny the name, and the value is
  -- its virtual token or, in broker mode, the URL of its local broker.
  abbrev pub Shows : Text → Text → SecretBinding → Type 0
  Shows name value binding =
      (binding.env_name ≡ name)
      × ((rule_for env_policy name).mode ≢ mode_deny)
      × ((value ≡ binding.virtual_token)
          ⊎ ((root : AgentSecureConfig) × ((rule_for env_policy name).mode ≡ mode_broker)
              × (config ≡ some root)
              × (broker_url root binding ≡ ok value)))

  abbrev pub ShownBy : Text → Text → List SecretBinding → Type 0
  ShownBy name value [] = ⊥
  ShownBy name value (binding ∷ rest) = Shows name value binding ⊎ ShownBy name value rest

  Shows-url :
      (binding : SecretBinding) (value : Text) (found : Option AgentSecureConfig)
      → (rule_for env_policy binding.env_name).mode ≡ mode_broker
      → config ≡ found
      → brokered binding found ≡ ok value
      → Shows binding.env_name value binding
  Shows-url binding value none m e h = (refl, (λ d. cc), inl (cc))
  Shows-url binding value (some root) m e h = (refl, (λ d. cc), inr (root, m, e, h))

  Shows-mode :
      (binding : SecretBinding) (value : Text) (mode : Mode)
      → (rule_for env_policy binding.env_name).mode ≡ mode
      → shown binding mode ≡ ok (some value)
      → Shows binding.env_name value binding
  Shows-mode binding value mode_deny m h = absurd (cc)
  Shows-mode binding value mode_virtualize m h = (refl, (λ d. cc), inl (cc))
  Shows-mode binding value mode_broker m h =
      Shows-url binding value config m refl (ok_some (brokered binding config) h)

  -- A round keeps the other variables, and what it assigns the binding shows.
  lookup-assign :
      (binding : SecretBinding) (assigned : Option Text) (environment : Dict Text Text)
      (name value : Text)
      → shown binding (rule_for env_policy binding.env_name).mode ≡ ok assigned
      → Dict.lookup name (assign binding.env_name assigned environment) ≡ some value
      → (Dict.lookup name environment ≡ some value) ⊎ Shows name value binding
  lookup-assign binding none environment name value s e = inl e
  lookup-assign binding (some new) environment name value s e =
      elim (text_eq.dec name binding.env_name) [
        | yes same ↦ inr (
            subst (λ n. Shows n value binding) (sym same)
              (Shows-mode binding value _ refl
                (ground (arith, Dict.lookup-insert name binding.env_name new environment))))
        | no other ↦ inl (ground (arith, Dict.lookup-insert name binding.env_name new environment))
      ]

  build_loop-ShownBy :
      (bindings : List SecretBinding) (environment result : Dict Text Text) (name value : Text)
      → build_loop bindings environment ≡ ok result
      → Dict.lookup name result ≡ some value
      → (Dict.lookup name environment ≡ some value) ⊎ ShownBy name value bindings
  unfolding build_loop
  build_loop-ShownBy [] environment result name value h e = inl (cc)
  build_loop-ShownBy (binding ∷ rest) environment result name value h e =
      let (assigned, first, others) = first_ok (shown binding _) _ h in
      elim (build_loop-ShownBy rest _ result name value others e) [
        | inr later ↦ inr (inr later)
        | inl now ↦ elim (lookup-assign binding assigned environment name value first now) [
          | inl before ↦ inl before
          | inr this ↦ inr (inl this)
        ]
      ]

  -- Every variable of the environment that an agent gets comes from a binding of that name: its
  -- rule does not deny the name, and its value is the virtual token of the binding or, in broker
  -- mode, the URL of the local broker.
  pub build_environment-ShownBy :
      (bindings : List SecretBinding) (environment : Dict Text Text) (name value : Text)
      → build_environment bindings ≡ ok environment
      → Dict.lookup name environment ≡ some value
      → ShownBy name value bindings
  unfolding build_environment
  build_environment-ShownBy bindings environment name value h e =
      elim (build_loop-ShownBy bindings [] environment name value h e) [
        | inl old ↦ absurd (ground (arith, Dict.lookup-nil {V = Text} name))
        | inr found ↦ found
      ]
