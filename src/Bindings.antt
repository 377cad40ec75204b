-- ===== src/Bindings.antt =====
-- agentsecure/core/runtime_bindings.py: the bindings of a run, as a variable of its environment.
-- Parameters: `json.dumps` and `json.loads` (`none` is its ValueError).
pub mod RoundTrip
use agentsecure_community.Base.{
  ℕ, Bool, true, false, Option, none, some, List, [], ◌∷◌, if◌then◌else◌,
}
use agentsecure_community.Base.Int.{pos}
use agentsecure_community.Base.Text.{Text, lit, text_eq, is_empty}
use agentsecure_community.Base.Dict
use agentsecure_community.Base.Dict.{Dict}
use agentsecure_community.Base.Exec.{Result, ok, raised, ◌>>=◌}
use agentsecure_community.Base.Json.{
  Json, null, number, text, array, object, Items, nil, item, field, end, entries, members, get_or,
  Python, to_time, get_str, strs,
}
use agentsecure_community.Model.{SecretBinding}

abbrev pub texts : List Text → Items
texts [] = nil
texts (t ∷ ts) = item (text t) (texts ts)

abbrev pub time_json : Option ℕ → Json
time_json none = null
time_json (some seconds) = number (pos seconds)

-- A member of the payload of `serialize_runtime_bindings`, its fields in the order in which they
-- are written (`sort_keys=True`).
abbrev pub binding_json : SecretBinding → Json
binding_json b = object (
    field (lit "alias_id") (text b.alias_id) (
      field (lit "approved_hosts") (array (texts b.approved_hosts)) (
        field (lit "env_name") (text b.env_name) (
          field (lit "expires_at") (time_json b.expires_at) (
            field (lit "inject_as") (text b.inject_as) (
              field (lit "provider") (text b.provider) (
                field (lit "real_secret_env") (text b.real_secret_env) (
                  field (lit "real_secret_ref") (text b.real_secret_ref)
                    (field (lit "virtual_token") (text b.virtual_token) end)))))))))

abbrev pub payload : List SecretBinding → Items
payload [] = nil
payload (b ∷ bindings) = item (binding_json b) (payload bindings)

unfoldable pub serialize_runtime_bindings : (Json → Text) → List SecretBinding → Text
serialize_runtime_bindings dumps bindings = dumps (array (payload bindings))

module _ (py : Python) where
  abbrev or_never : Result ℕ → Option ℕ
  or_never (raised error) = none
  or_never (ok seconds) = some seconds

  -- `_optional_float`
  abbrev pub optional_float : Json → Option ℕ
  optional_float value = or_never (to_time py value)

  unfoldable pub binding_of : Dict Text Json → Result SecretBinding
  binding_of d = strs py (get_or (lit "approved_hosts") (array nil) d) >>= λ approved_hosts.
      ok (record {
        env_name = get_str py (lit "env_name") [] d;
        virtual_token = get_str py (lit "virtual_token") [] d;
        real_secret_ref = get_str py (lit "real_secret_ref") [] d;
        real_secret_env = get_str py (lit "real_secret_env") [] d;
        inject_as = get_str py (lit "inject_as") (lit "authorization_bearer") d;
        provider = get_str py (lit "provider") (lit "custom") d;
        expires_at = optional_float (get_or (lit "expires_at") null d);
        alias_id = get_str py (lit "alias_id") [] d;
        approved_hosts = approved_hosts;
      })

  -- The loop over the members; one that is no object is passed over.
  unfoldable pub bindings_of : List Json → Result (List SecretBinding)
  unfolding binding_of
  bindings_of [] = ok []
  bindings_of (object fields ∷ rest) =
      binding_of (entries fields) >>= λ b. bindings_of rest >>= λ later. ok (b ∷ later)
  bindings_of (_ ∷ rest) = bindings_of rest

  abbrev loaded : Option Json → Result (List SecretBinding)
  loaded (some (array items)) = bindings_of (members items)
  loaded _ = ok []

  -- `runtime_bindings_from_environment`, on the text of the variable.
  unfoldable pub runtime_bindings_from_environment :
      (Text → Option Json) → Text → Result (List SecretBinding)
  unfolding bindings_of
  runtime_bindings_from_environment loads raw = if is_empty raw then ok [] else loaded (loads raw)
