-- ===== src/Mesh/Redaction.antt =====
-- agentsecure/mesh/service.py: what of a text and of a resource the mesh keeps.
use agentsecure_community.Base.{
  ℕ, zero, suc, Bool, true, false, not, ◌&&◌, ◌||◌, Option, none, some, List, [], ◌∷◌, ◌++◌, map,
  contains, nat_eq, nat_beq, if◌then◌else◌,
}
use agentsecure_community.Base.Lists.{any, length}
use agentsecure_community.Base.Text.{
  Text, lit, text_eq, is_empty, lower, strip, is_space, in_range, starts_with, has_sub, drop_text,
  take_text,
}
use agentsecure_community.Base.Exec.{Result, ok, raised, value_error}
use agentsecure_community.Mesh.{Scalar, ResourceValue, Resource}

abbrev pub is_word_char : ℕ → Bool
is_word_char c = in_range 97 122 c || in_range 48 57 c || nat_beq c b'_'

-- The prefixes of `(sk|pk|ghp|gho|github_pat|xox[baprs])`.
abbrev pub key_prefixes : List Text
key_prefixes =
    lit "sk"
    ∷ lit "pk"
    ∷ lit "ghp"
    ∷ lit "gho"
    ∷ lit "github_pat"
    ∷ lit "xoxb"
    ∷ lit "xoxa"
    ∷ lit "xoxp"
    ∷ lit "xoxr"
    ∷ lit "xoxs"
    ∷ []

-- `[a-z0-9_]{16,}`, with the number of characters that are still to come.
abbrev pub has_run : ℕ → Text → Bool
has_run zero s = true
has_run (suc n) [] = false
has_run (suc n) (c ∷ s) = is_word_char c && has_run n s

-- `-?`; a dash is no character of the run behind it.
abbrev pub skip_dash : Text → Text
skip_dash [] = []
skip_dash (c ∷ s) = if nat_beq c b'-' then s else c ∷ s

unfoldable pub key_at : Text → Bool
key_at s =
    any (λ prefix. starts_with s prefix && has_run 16 (skip_dash (drop_text (length prefix) s)))
      key_prefixes

-- `re.search` of the pattern behind `\b`: a key starts where no word character stands before it.
unfoldable pub key_from : Bool → Text → Bool
unfolding key_at
key_from in_word [] = false
key_from in_word (c ∷ s) =
    let later = key_from (is_word_char c) s in (not in_word && key_at (c ∷ s)) || later

-- `_looks_secret_text`
unfoldable pub looks_secret_text : Text → Bool
unfolding key_from
looks_secret_text value =
    let text = strip value in
    let lowered = lower text in
    not (is_empty text)
    && (contains text 10
        || has_sub lowered (lit "-----begin")
        || has_sub lowered (lit "authorization:")
        || has_sub lowered (lit "cookie:")
        || has_sub lowered (lit "password=")
        || has_sub lowered (lit "token=")
        || has_sub lowered (lit "api_key=")
        || key_from false lowered)

-- Each run of white space becomes one blank.
unfoldable pub squeeze : Text → Text
squeeze [] = []
squeeze (c ∷ s) =
    let rest = squeeze s in
    if is_space c then (if starts_with rest (lit " ") then rest else 32 ∷ rest) else c ∷ rest

abbrev pub redacted : Text
redacted = lit "[redacted]"

-- `_text_summary`; `" ".join(value.split())` is the squeezed text without blanks at its ends.
unfoldable pub text_summary : Text → Text
unfolding squeeze looks_secret_text
text_summary value =
    let text = strip (squeeze value) in
    if is_empty text
    then []
    else if contains text b'=' || looks_secret_text text
    then redacted
    else take_text 120 text

-- The texts of `_safe_scalar`.
abbrev safe_text : Text → Text
safe_text value =
    let text = strip value in
    if contains text 10 || contains text b'=' then redacted else take_text 300 text

-- `_safe_scalar`
unfoldable pub safe_scalar : Scalar → Scalar
safe_scalar Scalar.null = Scalar.null
safe_scalar (Scalar.flag b) = Scalar.flag b
safe_scalar (Scalar.number n) = Scalar.number n
safe_scalar (Scalar.text value) = Scalar.text (safe_text value)
safe_scalar (Scalar.shown value) = Scalar.text (safe_text value)

abbrev pub safe_resource_keys : List Text
safe_resource_keys =
    lit "action"
    ∷ lit "environment"
    ∷ lit "id"
    ∷ lit "path"
    ∷ lit "provider"
    ∷ lit "repo"
    ∷ lit "team"
    ∷ lit "type"
    ∷ []

-- `items[:n]`
abbrev pub take_scalars : ℕ → List Scalar → List Scalar
take_scalars zero items = []
take_scalars (suc n) [] = []
take_scalars (suc n) (item ∷ items) = item ∷ take_scalars n items

-- The value that is kept under a key, if it is kept.
unfoldable pub safe_value : ResourceValue → Option ResourceValue
unfolding safe_scalar
safe_value (ResourceValue.scalar value) = some (ResourceValue.scalar (safe_scalar value))
safe_value (ResourceValue.scalars items) =
    some (ResourceValue.scalars (map safe_scalar (take_scalars 20 items)))
safe_value (ResourceValue.nested fields) = none

abbrev pub keep_value : Text → Option ResourceValue → Resource → Resource
keep_value key none safe = safe
keep_value key (some value) safe = (key, value) ∷ safe

-- `_safe_resource`
unfoldable pub safe_resource : Resource → Resource
unfolding safe_value
safe_resource [] = []
safe_resource ((key, value) ∷ rest) =
    let safe = safe_resource rest in
    if contains safe_resource_keys key then keep_value key (safe_value value) safe else safe

-- `_required_id`
unfoldable pub required_id : Text → Text → Result Text
required_id value name =
    let text = strip value in
    if is_empty text then raised (value_error (name ++ lit " is required")) else ok text
