-- ===== src/Broker/TokenMap.antt =====
-- agentsecure/implementations/secrets.py: `build_token_map_from_environment`, the tokens that
-- resolve without a grant.
use agentsecure_community.Base.{
  ◌≡◌, ◌⊎◌, inl, inr, false, not, ◌&&◌, none, some, List, [], ◌∷◌, arith, if◌then◌else◌,
  Option-cases,
}
use agentsecure_community.Base.Text.{Text, lit, text_eq, is_empty, starts_with, after_char}
use agentsecure_community.Base.Dict
use agentsecure_community.Base.Dict.{Dict}
use agentsecure_community.Model.{SecretBinding}
use agentsecure_community.Broker.Environment.{MaybeStore, or_blank}

module _ (secret_store : MaybeStore) (environ : Dict Text Text) where
  -- The first lookup, in the secret store.
  abbrev pub stored_value : SecretBinding → Text
  stored_value binding = elim secret_store [
    | none ↦ []
    | some get ↦
        if starts_with binding.real_secret_ref (lit "local:")
        then or_blank (get (after_char b':' binding.real_secret_ref))
        else []
  ]

  -- The value behind both lookups; no value and the empty one are not told apart.
  unfoldable pub token_value : SecretBinding → Text
  token_value binding =
      if is_empty (stored_value binding) && not (is_empty binding.real_secret_env)
      then or_blank (Dict.lookup binding.real_secret_env environ)
      else stored_value binding

  -- The round for one binding.
  unfoldable pub add_token : SecretBinding → Dict Text Text → Dict Text Text
  unfolding token_value
  add_token binding token_map = elim binding.expires_at [
    | some expiry ↦ token_map
    | none ↦
        if is_empty (token_value binding)
        then token_map
        else Dict.insert binding.virtual_token (token_value binding) token_map
  ]

  unfoldable pub token_map_loop : List SecretBinding → Dict Text Text → Dict Text Text
  unfolding add_token
  token_map_loop [] token_map = token_map
  token_map_loop (binding ∷ rest) token_map = token_map_loop rest (add_token binding token_map)

  -- `build_token_map_from_environment`
  unfoldable pub build_token_map : List SecretBinding → Dict Text Text
  unfolding token_map_loop
  build_token_map bindings = token_map_loop bindings []

  -- The binding never expires, and its secret is the one that is found for the token.
  abbrev pub Lasts : Text → Text → SecretBinding → Type 0
  Lasts token value binding =
      (binding.virtual_token ≡ token)
      × (binding.expires_at ≡ none)
      × (token_value binding ≡ value)
      × (is_empty value ≡ false)

  abbrev pub LastsBy : Text → Text → List SecretBinding → Type 0
  LastsBy token value [] = ⊥
  LastsBy token value (binding ∷ rest) = Lasts token value binding ⊎ LastsBy token value rest

  add_token-Lasts :
      (binding : SecretBinding) (token_map : Dict Text Text) (token value : Text)
      → Dict.lookup token (add_token binding token_map) ≡ some value
      → (Dict.lookup token token_map ≡ some value) ⊎ Lasts token value binding
  unfolding add_token
  add_token-Lasts binding token_map token value e = elim (Option-cases binding.expires_at) [
    | inr (expiry, x) ↦ inl (ground arith)
    | inl x ↦
        ground
          (arith, Dict.lookup-insert token binding.virtual_token (token_value binding) token_map)
  ]

  token_map_loop-LastsBy :
      (bindings : List SecretBinding) (token_map : Dict Text Text) (token value : Text)
      → Dict.lookup token (token_map_loop bindings token_map) ≡ some value
      → (Dict.lookup token token_map ≡ some value) ⊎ LastsBy token value bindings
  unfolding token_map_loop
  token_map_loop-LastsBy [] token_map token value e = inl e
  token_map_loop-LastsBy (binding ∷ rest) token_map token value e =
      elim (token_map_loop-LastsBy rest (add_token binding token_map) token value e) [
        | inr later ↦ inr (inr later)
        | inl now ↦ elim (add_token-Lasts binding token_map token value now) [
          | inl before ↦ inl before
          | inr this ↦ inr (inl this)
        ]
      ]

  -- A token that resolves without a grant is the token of a binding that never expires, and it
  -- resolves to that binding's secret, which is not empty.
  pub build_token_map-LastsBy :
      (bindings : List SecretBinding) (token value : Text)
      → Dict.lookup token (build_token_map bindings) ≡ some value
      → LastsBy token value bindings
  unfolding build_token_map
  build_token_map-LastsBy bindings token value e =
      elim (token_map_loop-LastsBy bindings [] token value e) [
        | inl old ↦ absurd (ground (arith, Dict.lookup-nil {V = Text} token))
        | inr found ↦ found
      ]
