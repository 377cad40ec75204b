-- ===== src/Policy/Validation.antt =====
-- agentsecure/core/policy_validation.py: what a change of the policy may not hold.
-- Parameter: whether `urlsplit` finds a password in a text (not where it raises a ValueError).
use agentsecure_community.Base.{
  ℕ, zero, suc, Bool, true, false, not, ◌&&◌, ◌||◌, none, some, List, [], ◌∷◌, ◌++◌, ◌==◌, nat_eq,
  nat_beq, contains, if◌then◌else◌,
}
use agentsecure_community.Base.Lists.{length, any, keep}
use agentsecure_community.Base.Text.{
  Text, lit, text_eq, lower, strip, is_space, in_range, starts_with, ends_with, has_sub, drop_text,
}
use agentsecure_community.Base.Dict
use agentsecure_community.Base.Dict.{Dict}
use agentsecure_community.Base.Exec.{Result, ok, raised, Error, value_error, ◌>>=◌}
use agentsecure_community.Base.Json.{Json, null, text, array, object, entries, members}
use agentsecure_community.Broker.{sorted_names}

abbrev pub env_policy_fields : List Text
env_policy_fields =
    lit "mode"
    ∷ lit "access"
    ∷ lit "environment"
    ∷ lit "risk"
    ∷ lit "approved_hosts"
    ∷ lit "reason"
    ∷ lit "capability"
    ∷ []

abbrev pub capability_fields : List Text
capability_fields =
    lit "type"
    ∷ lit "expose_as"
    ∷ lit "target_host"
    ∷ lit "target_port"
    ∷ lit "access"
    ∷ lit "database"
    ∷ lit "local_host"
    ∷ lit "local_port"
    ∷ []

abbrev pub raw_secret_field_names : List Text
raw_secret_field_names =
    lit "secret"
    ∷ lit "secrets"
    ∷ lit "real_secret"
    ∷ lit "real_value"
    ∷ lit "password"
    ∷ lit "token"
    ∷ lit "api_key"
    ∷ lit "private_key"
    ∷ lit "connection_string"
    ∷ lit "value"
    ∷ []

-- `[^\s/@]`
abbrev is_login_char : ℕ → Bool
is_login_char c = not (is_space c || nat_beq c b'/' || nat_beq c b'@')

-- `[^\s/@]*@`
abbrev ends_login : Text → Bool
ends_login [] = false
ends_login (c ∷ s) = let rest = ends_login s in nat_beq c b'@' || (is_login_char c && rest)

-- `[^\s/@]+@`
abbrev has_password : Text → Bool
has_password [] = false
has_password (c ∷ s) = is_login_char c && ends_login s

-- `[^\s/@]*:[^\s/@]+@`
abbrev after_user : Text → Bool
after_user [] = false
after_user (c ∷ s) =
    let rest = after_user s in (nat_beq c b':' && has_password s) || (is_login_char c && rest)

-- `[^\s/@]+:[^\s/@]+@`
abbrev has_login : Text → Bool
has_login [] = false
has_login (c ∷ s) = is_login_char c && after_user s

-- `\w`, for ASCII.
abbrev is_word : ℕ → Bool
is_word c = in_range 97 122 c || in_range 65 90 c || in_range 48 57 c || nat_beq c b'_'

abbrev differs : Bool → Bool → Bool
differs true b = not b
differs false b = b

abbrev word_ahead : Text → Bool
word_ahead [] = false
word_ahead (c ∷ s) = is_word c

-- `[A-Za-z0-9_-]{n,}\b`, behind a character that is a word character or not.
abbrev has_key : ℕ → Bool → Text → Bool
has_key zero in_word [] = in_word
has_key (suc n) in_word [] = false
has_key zero in_word (c ∷ s) =
    let rest = has_key zero (is_word c) s in
    differs in_word (is_word c) || ((is_word c || nat_beq c b'-') && rest)
has_key (suc n) in_word (c ∷ s) =
    let rest = has_key n (is_word c) s in (is_word c || nat_beq c b'-') && rest

-- `[^-]*PRIVATE KEY-----`
abbrev has_pem : Text → Bool
has_pem [] = false
has_pem (c ∷ s) =
    let rest = has_pem s in
    starts_with (c ∷ s) (lit "PRIVATE KEY-----") || (not (nat_beq c b'-') && rest)

-- `SECRET_VALUE_RE` at a place of a text, behind a word character or not.
unfoldable pub secret_at : Bool → Text → Bool
secret_at in_word s =
    (starts_with s (lit "://") && has_login (drop_text 3 s))
    || (not in_word && starts_with s (lit "sk-") && has_key 8 false (drop_text 3 s))
    || (starts_with s (lit "-----BEGIN ") && has_pem (drop_text 11 s))

-- `SECRET_VALUE_RE.search`
unfoldable pub secret_from : Bool → Text → Bool
unfolding secret_at
secret_from in_word [] = false
secret_from in_word (c ∷ s) =
    let later = secret_from (is_word c) s in secret_at in_word (c ∷ s) || later

-- `looks_like_raw_secret_field`
unfoldable pub looks_like_raw_secret_field : Text → Bool
looks_like_raw_secret_field name =
    let normalized = lower (strip name) in
    contains raw_secret_field_names normalized || ends_with normalized (lit "_secret")

abbrev unlisted : List Text → Dict Text Json → List Text
unlisted allowed d = sorted_names (keep (λ name. not (contains allowed name)) (Dict.keys d))

-- The first of the fields that are not allowed.
abbrev refuse_first : Text → Text → List Text → Result (Unit {0})
refuse_first secret other [] = ok tt
refuse_first secret other (name ∷ names) =
    if looks_like_raw_secret_field name
    then raised (value_error secret)
    else raised (value_error (other ++ name))

-- `validate_fields`
unfoldable pub validate_fields : Text → Dict Text Json → List Text → Result (Unit {0})
unfolding looks_like_raw_secret_field
validate_fields path value allowed =
    refuse_first (path ++ lit " must not include raw secrets")
      (lit "unsupported " ++ path ++ lit " field: ") (unlisted allowed value)

abbrev refuse_any : List Text → Result (Unit {0})
refuse_any [] = ok tt
refuse_any (name ∷ names) =
    if any looks_like_raw_secret_field (name ∷ names)
    then raised (value_error (lit "policy mutation payload must not include raw secrets"))
    else raised (value_error (lit "unsupported policy mutation field: " ++ name))

abbrev not_object : Error
not_object = value_error (lit "policy mutation payload must be a JSON object")

abbrev of_policy : Json → Result (Dict Text Json)
of_policy (object fields) =
    refuse_any (unlisted (lit "env_policy" ∷ lit "capabilities" ∷ []) (entries fields)) >>= λ done.
    ok (entries fields)
of_policy _ = raised not_object

-- `extract_policy_payload`
unfoldable pub extract_policy_payload : Json → Result (Dict Text Json)
unfolding looks_like_raw_secret_field
extract_policy_payload null = ok []
extract_policy_payload (object fields) = elim (Dict.lookup (lit "policy") (entries fields)) [
  | none ↦ of_policy (object fields)
  | some policy ↦
      if not (length (entries fields) == 1)
      then raised
          (value_error (lit "policy mutation payload must not mix policy with other fields"))
      else of_policy policy
]
extract_policy_payload _ = raised not_object

module _ (url_password : Text → Bool) where
  -- `looks_like_raw_secret_value`
  unfoldable pub looks_like_raw_secret_value : Text → Bool
  unfolding secret_from
  looks_like_raw_secret_value value =
      secret_from false value || (has_sub value (lit "://") && url_password value)

  abbrev pub refuse_text : Text → Text → Result (Unit {0})
  refuse_text path item =
      if ends_with path (lit ".target_host")
        && (has_sub item (lit "://") || has_sub item (lit "/") || has_sub item (lit "@"))
      then raised (value_error (path ++ lit " must be a host name, not a URL or credential"))
      else if looks_like_raw_secret_value item
      then raised (value_error (path ++ lit " must not include raw secrets"))
      else ok tt

  abbrev pub refuse_items : Text → List Json → Result (Unit {0})
  refuse_items path [] = ok tt
  refuse_items path (text item ∷ items) = refuse_text path item >>= λ done. refuse_items path items
  refuse_items path (_ ∷ items) = refuse_items path items

  -- `reject_raw_secret_value`
  unfoldable pub reject_raw_secret_value : Text → Json → Result (Unit {0})
  unfolding looks_like_raw_secret_value
  reject_raw_secret_value path (array items) = refuse_items path (members items)
  reject_raw_secret_value path value = refuse_items path (value ∷ [])
