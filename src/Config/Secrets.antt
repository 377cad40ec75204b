-- ===== src/Config/Secrets.antt =====
-- agentsecure/core/config.py: `_parse_secrets` and `_parse_secret_aliases`.
use agentsecure_community.Base.{
  ℕ, ◌≡◌, true, false, not, Option, none, some, List, [], ◌∷◌, ◌++◌, arith, contains,
}
use agentsecure_community.Base.Lists.{All}
use agentsecure_community.Base.Text.{Text, lit, text_eq, is_empty, strip}
use agentsecure_community.Base.Dict
use agentsecure_community.Base.Dict.{Dict}
use agentsecure_community.Base.Exec.{
  Result, ok, raised, config_error, type_error, lookup_error, ◌>>=◌,
}
use agentsecure_community.Base.Json.{
  Json, boolean, text, array, object, nil, entries, members, truthy, get_or, iterate, Python, str,
  to_time, get_str, strs,
}
use agentsecure_community.Model.{SecretBinding, ProjectSecretAlias}
use agentsecure_community.Config.Values.{refuse, bind-ok}

-- `item[key]`: a text that the dictionary may lack.
abbrev required : Text → Dict Text Json → Result Json
required key item = elim (Dict.lookup key item) [
  | none ↦ raised (lookup_error key)
  | some value ↦ ok value
]

-- `item["env_name"]` of a value that is no dictionary.
abbrev as_item : Json → Result (Dict Text Json)
as_item (object fields) = ok (entries fields)
as_item _ = raised (type_error (lit "env_name"))

-- An alias of a project has a name and one of the two modes.
abbrev pub IsNamed : ProjectSecretAlias → Type 0
IsNamed a =
    (is_empty a.alias_id ≡ false) × (contains (lit "deny" ∷ lit "virtualize" ∷ []) a.mode ≡ true)

module _ (py : Python) where
  -- `float(item["expires_at"]) if "expires_at" in item else None`
  unfoldable pub expiry_of : Dict Text Json → Result (Option ℕ)
  expiry_of item = elim (Dict.lookup (lit "expires_at") item) [
    | none ↦ ok none
    | some value ↦ to_time py value >>= λ seconds. ok (some seconds)
  ]

  unfoldable pub secret_of : Dict Text Json → Result SecretBinding
  unfolding expiry_of
  secret_of item = required (lit "env_name") item >>= λ env_name.
      required (lit "virtual_token") item >>= λ virtual_token. expiry_of item >>= λ expires_at.
      strs py (get_or (lit "approved_hosts") (array nil) item) >>= λ approved_hosts. ok (record {
        env_name = str py env_name;
        virtual_token = str py virtual_token;
        real_secret_env = get_str py (lit "real_secret_env") [] item;
        real_secret_ref = get_str py (lit "real_secret_ref") [] item;
        inject_as = get_str py (lit "inject_as") (lit "authorization_bearer") item;
        provider = get_str py (lit "provider") (lit "custom") item;
        expires_at = expires_at;
        alias_id = get_str py (lit "alias_id") [] item;
        approved_hosts = approved_hosts;
      })

  -- A loop that makes one value of each item.
  unfoldable pub each : {V : Type 0} → (Json → Result V) → List Json → Result (List V)
  each parse_one [] = ok []
  each parse_one (item ∷ rest) =
      parse_one item >>= λ parsed. each parse_one rest >>= λ later. ok (parsed ∷ later)

  unfoldable pub parse_secrets : Json → Result (List SecretBinding)
  unfolding each secret_of
  parse_secrets values = iterate values >>= λ items. each (λ item. as_item item >>= secret_of) items

  unfoldable pub alias_of : Dict Text Json → Result ProjectSecretAlias
  alias_of item =
      let alias_id =
        strip (str py (get_or (lit "alias_id") (get_or (lit "alias") (text []) item) item)) in
      let mode = get_str py (lit "mode") (lit "virtualize") item in
      refuse (is_empty alias_id) (lit "secret_aliases.alias_id is required") (
        refuse (not (contains (lit "deny" ∷ lit "virtualize" ∷ []) mode))
          (lit "secret_aliases." ++ alias_id ++ lit ".mode must be deny or virtualize")
          (strs py (get_or (lit "approved_hosts") (array nil) item) >>= λ approved_hosts.
            ok (record {
              alias_id = alias_id;
              env_name = get_str py (lit "env_name") [] item;
              provider = get_str py (lit "provider") [] item;
              inject_as = get_str py (lit "inject_as") (lit "authorization_bearer") item;
              approved_hosts = approved_hosts;
              required = truthy (get_or (lit "required") (boolean true) item);
              mode = mode;
            })))

  unfoldable pub parse_secret_alias : Json → Result ProjectSecretAlias
  unfolding alias_of
  parse_secret_alias (object fields) = alias_of (entries fields)
  parse_secret_alias _ = raised (config_error (lit "secret_aliases entries must be JSON objects"))

  unfoldable pub parse_secret_aliases : Json → Result (List ProjectSecretAlias)
  unfolding each parse_secret_alias
  parse_secret_aliases (array items) = each parse_secret_alias (members items)
  parse_secret_aliases _ = raised (config_error (lit "secret_aliases must be a list"))

  alias_of-IsNamed :
      (item : Dict Text Json) (a : ProjectSecretAlias) → alias_of item ≡ ok a → IsNamed a
  unfolding alias_of
  alias_of-IsNamed item a h = (ground arith, ground arith)

  parse_secret_alias-IsNamed :
      (value : Json) (a : ProjectSecretAlias) → parse_secret_alias value ≡ ok a → IsNamed a
  unfolding parse_secret_alias
  parse_secret_alias-IsNamed (object fields) a h = alias_of-IsNamed (entries fields) a h
  parse_secret_alias-IsNamed _ a h = cc

  each-All :
      {V : Type 0} (P : V → Type 0) (parse_one : Json → Result V)
      → ((value : Json) (v : V) → parse_one value ≡ ok v → P v)
      → (items : List Json) (parsed : List V) → each parse_one items ≡ ok parsed
      → All P parsed
  unfolding each
  each-All P parse_one step [] parsed h = let same : parsed ≡ [] = cc h in rw same tt
  each-All P parse_one step (item ∷ items) parsed h =
      let (first, here, h1) = bind-ok (parse_one item) _ parsed h in
      let (later, there, built) = bind-ok (each parse_one items) _ parsed h1 in
      let same : parsed ≡ first ∷ later = cc built in
      rw same (step item first here, each-All P parse_one step items later there)

  pub parse_secret_aliases-IsNamed :
      (value : Json) (aliases : List ProjectSecretAlias)
      → parse_secret_aliases value ≡ ok aliases
      → All IsNamed aliases
  unfolding parse_secret_aliases
  parse_secret_aliases-IsNamed (array items) aliases h =
      each-All IsNamed parse_secret_alias parse_secret_alias-IsNamed (members items) aliases h
  parse_secret_aliases-IsNamed _ aliases h = cc
