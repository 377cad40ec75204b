-- ===== src/Bindings/RoundTrip.antt =====
-- agentsecure/core/runtime_bindings.py: what is written for a run is what it reads.
use agentsecure_community.Base.{ℕ, ◌≡◌, refl, ap, false, Option, none, some, List, [], ◌∷◌, map}
use agentsecure_community.Base.Computing.{computing}
use agentsecure_community.Base.Text.{Text, text_eq, is_empty}
use agentsecure_community.Base.Exec.{ok}
use agentsecure_community.Base.Json.{Json, array, members, get_or, Python, str}
use agentsecure_community.Model.{SecretBinding}
use agentsecure_community.Bindings.{
  texts, time_json, optional_float, binding_json, payload, serialize_runtime_bindings, binding_of,
  bindings_of, runtime_bindings_from_environment,
}

module _ (py : Python) where
  read_texts : (ts : List Text) → map (str py) (members (texts ts)) ≡ ts
  read_texts [] = refl
  read_texts (t ∷ ts) = ap (λ r. t ∷ r) (read_texts ts)

  read_time : (time : Option ℕ) → optional_float py (time_json time) ≡ time
  read_time none = refl
  read_time (some seconds) = refl

  read_member :
      (b : SecretBinding) (rest : List Json) (later : List SecretBinding)
      → bindings_of py rest ≡ ok later
      → bindings_of py (binding_json b ∷ rest) ≡ ok (b ∷ later)
  unfolding bindings_of binding_of get_or computing
  read_member b rest later h = rw (h, read_texts b.approved_hosts, read_time b.expires_at) refl

  read_payload :
      (bindings : List SecretBinding) → bindings_of py (members (payload bindings)) ≡ ok bindings
  unfolding bindings_of
  read_payload [] = refl
  read_payload (b ∷ bindings) =
      read_member b (members (payload bindings)) bindings (read_payload bindings)

  -- The bindings that are written into the environment of a run are the bindings that it reads
  -- there, if `json.loads` gives back the value that `json.dumps` wrote, and that was not written as
  -- the empty text.
  pub runtime_bindings_from_environment-serialize_runtime_bindings :
      (dumps : Json → Text) (loads : Text → Option Json) (bindings : List SecretBinding)
      → loads (dumps (array (payload bindings))) ≡ some (array (payload bindings))
      → is_empty (dumps (array (payload bindings))) ≡ false
      → runtime_bindings_from_environment py loads (serialize_runtime_bindings dumps bindings)
        ≡ ok bindings
  unfolding runtime_bindings_from_environment serialize_runtime_bindings
  runtime_bindings_from_environment-serialize_runtime_bindings dumps loads bindings undone filled =
      rw (filled, undone) (read_payload bindings)
