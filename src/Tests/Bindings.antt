-- ===== src/Tests/Bindings.antt =====
-- core/runtime_bindings.py at a concrete binding.
use agentsecure_community.Base.{
  ℕ, zero, suc, ◌≡◌, refl, true, false, Option, none, some, [], ◌∷◌, ◌++◌,
}
use agentsecure_community.Base.Computing.{computing}
use agentsecure_community.Base.Int.{pos, negsuc}
use agentsecure_community.Base.Lists.{length}
use agentsecure_community.Base.Text.{Text, lit, take_text, drop_text}
use agentsecure_community.Base.Exec.{ok}
use agentsecure_community.Base.Json.{
  Json, null, boolean, number, text, array, object, Items, nil, item, Fields, field, end, Python,
}
use agentsecure_community.Model.{SecretBinding}
use agentsecure_community.Bindings.{
  payload, serialize_runtime_bindings, runtime_bindings_from_environment,
}
use agentsecure_community.Bindings.RoundTrip.{
  runtime_bindings_from_environment-serialize_runtime_bindings,
}

abbrev py : Python
py = record { show = λ value. lit "?"; parse_int = λ t. none; parse_float = λ t. none }

abbrev binding : SecretBinding
binding = record {
  env_name = lit "KEY";
  virtual_token = lit "virt_1";
  real_secret_env = [];
  real_secret_ref = lit "local:key";
  inject_as = lit "authorization_bearer";
  provider = lit "openai";
  expires_at = some 60;
  alias_id = lit "openai";
  approved_hosts = lit "api.openai.com" ∷ [];
}

-- A code for JSON values: a tag, a length where one is needed, and the parts; decoded on fuel.
abbrev mutual
  encode : Json → Text → Text
  encode null rest = 0 ∷ rest
  encode (boolean false) rest = 1 ∷ rest
  encode (boolean true) rest = 2 ∷ rest
  encode (number (pos n)) rest = 3 ∷ n ∷ rest
  encode (number (negsuc n)) rest = 4 ∷ n ∷ rest
  encode (text t) rest = 5 ∷ length t ∷ (t ++ rest)
  encode (array items) rest = 6 ∷ encode_items items rest
  encode (object fields) rest = 7 ∷ encode_fields fields rest

  encode_items : Items → Text → Text
  encode_items nil rest = 0 ∷ rest
  encode_items (item value items) rest = 1 ∷ encode value (encode_items items rest)

  encode_fields : Fields → Text → Text
  encode_fields end rest = 0 ∷ rest
  encode_fields (field key value fields) rest =
      1 ∷ length key ∷ (key ++ encode value (encode_fields fields rest))

abbrev with_items : Option (Items × Text) → Option (Json × Text)
with_items none = none
with_items (some (items, rest)) = some (array items, rest)

abbrev with_fields : Option (Fields × Text) → Option (Json × Text)
with_fields none = none
with_fields (some (fields, rest)) = some (object fields, rest)

abbrev with_item : Json → Option (Items × Text) → Option (Items × Text)
with_item value none = none
with_item value (some (items, rest)) = some (item value items, rest)

abbrev with_field : Text → Json → Option (Fields × Text) → Option (Fields × Text)
with_field key value none = none
with_field key value (some (fields, rest)) = some (field key value fields, rest)

abbrev mutual
  decode : ℕ → Text → Option (Json × Text)
  decode zero code = none
  decode (suc fuel) (zero ∷ rest) = some (null, rest)
  decode (suc fuel) ((suc zero) ∷ rest) = some (boolean false, rest)
  decode (suc fuel) ((suc (suc zero)) ∷ rest) = some (boolean true, rest)
  decode (suc fuel) ((suc (suc (suc zero))) ∷ n ∷ rest) = some (number (pos n), rest)
  decode (suc fuel) ((suc (suc (suc (suc zero)))) ∷ n ∷ rest) = some (number (negsuc n), rest)
  decode (suc fuel) ((suc (suc (suc (suc (suc zero))))) ∷ n ∷ rest) =
      some (text (take_text n rest), drop_text n rest)
  decode (suc fuel) ((suc (suc (suc (suc (suc (suc zero)))))) ∷ rest) =
      with_items (decode_items fuel rest)
  decode (suc fuel) ((suc (suc (suc (suc (suc (suc (suc zero))))))) ∷ rest) =
      with_fields (decode_fields fuel rest)
  decode (suc fuel) _ = none

  decode_items : ℕ → Text → Option (Items × Text)
  decode_items zero code = none
  decode_items (suc fuel) (zero ∷ rest) = some (nil, rest)
  decode_items (suc fuel) ((suc zero) ∷ rest) = elim (decode fuel rest) [
    | none ↦ none
    | some (value, later) ↦ with_item value (decode_items fuel later)
  ]
  decode_items (suc fuel) _ = none

  decode_fields : ℕ → Text → Option (Fields × Text)
  decode_fields zero code = none
  decode_fields (suc fuel) (zero ∷ rest) = some (end, rest)
  decode_fields (suc fuel) ((suc zero) ∷ n ∷ rest) = elim (decode fuel (drop_text n rest)) [
    | none ↦ none
    | some (value, later) ↦ with_field (take_text n rest) value (decode_fields fuel later)
  ]
  decode_fields (suc fuel) _ = none

abbrev dumps : Json → Text
dumps value = encode value []

abbrev whole : Option (Json × Text) → Option Json
whole (some (value, [])) = some value
whole _ = none

abbrev loads : Text → Option Json
loads code = whole (decode 64 code)

read_back : loads (dumps (array (payload (binding ∷ [])))) ≡ some (array (payload (binding ∷ [])))
unfolding computing
read_back = refl

runtime_bindings_from_environment-serialize_runtime_bindings_example :
    runtime_bindings_from_environment py loads (serialize_runtime_bindings dumps (binding ∷ []))
    ≡ ok (binding ∷ [])
runtime_bindings_from_environment-serialize_runtime_bindings_example =
    runtime_bindings_from_environment-serialize_runtime_bindings py dumps loads (binding ∷ [])
      read_back refl
