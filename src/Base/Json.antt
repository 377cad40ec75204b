-- ===== src/Base/Json.antt =====
-- JSON values, as `json.load` returns them, and what Python does with them. Numbers are integers.
use Prim.Native.Nat.{ℕ}
use mathlib.Core.Path.{◌≡◌, refl, ap}
use mathlib.Core.Bool.{Bool, true, false, not}
use mathlib.Core.Option.{Option, none, some}
use mathlib.Core.List.{List, [], ◌∷◌, map}
use agentsecure_community.Base.Equality.{nat_beq}
use agentsecure_community.Base.Int.{ℤ, pos, negsuc, pos_part}
use agentsecure_community.Base.Text.{Text, lit, text_eq, is_empty}
use agentsecure_community.Base.Dict
use agentsecure_community.Base.Dict.{Dict}
use agentsecure_community.Base.Exec.{Result, ok, raised, type_error, attribute_error, value_error}

mutual
  pub data Json : Type 0 where
    null : Json
    boolean : Bool → Json
    number : ℤ → Json
    text : Text → Json
    array : Items → Json
    object : Fields → Json

  pub data Items : Type 0 where
    nil : Items
    item : Json → Items → Items

  pub data Fields : Type 0 where
    end : Fields
    field : Text → Json → Fields → Fields

-- A list as its members, and an object as a dictionary.
abbrev pub members : Items → List Json
members nil = []
members (item value rest) = value ∷ members rest

abbrev pub entries : Fields → Dict Text Json
entries end = []
entries (field key value rest) = (key, value) ∷ entries rest

-- `bool(value)`
abbrev pub truthy : Json → Bool
truthy null = false
truthy (boolean b) = b
truthy (number (pos n)) = not (nat_beq n 0)
truthy (number (negsuc n)) = true
truthy (text t) = not (is_empty t)
truthy (array nil) = false
truthy (array (item _ _)) = true
truthy (object end) = false
truthy (object (field _ _ _)) = true

-- `d.get(key, default)` on a dictionary.
unfoldable pub get_or : Text → Json → Dict Text Json → Json
get_or key default d = elim (Dict.lookup key d) [ none ↦ default | some value ↦ value ]

-- The dictionary that a value is; another value has no method `get`.
abbrev pub as_dict : Json → Result (Dict Text Json)
as_dict (object fields) = ok (entries fields)
as_dict null = raised (attribute_error (lit "get"))
as_dict (boolean b) = raised (attribute_error (lit "get"))
as_dict (number n) = raised (attribute_error (lit "get"))
as_dict (text t) = raised (attribute_error (lit "get"))
as_dict (array items) = raised (attribute_error (lit "get"))

abbrev letters : Text → List Json
letters [] = []
letters (c ∷ s) = text (c ∷ []) ∷ letters s

abbrev key_values : Fields → List Json
key_values end = []
key_values (field key value rest) = text key ∷ key_values rest

-- What `for item in value` goes through.
abbrev pub iterate : Json → Result (List Json)
iterate (array items) = ok (members items)
iterate (object fields) = ok (key_values fields)
iterate (text t) = ok (letters t)
iterate null = raised (type_error (lit "not iterable"))
iterate (boolean b) = raised (type_error (lit "not iterable"))
iterate (number n) = raised (type_error (lit "not iterable"))

-- What the program takes from Python: `str` of a value that is no string, and `int` and `float` of
-- a string, with `none` for a ValueError.
pub record Python : Type 0 where
  pub show : Json → Text
  pub parse_int : Text → Option ℤ
  pub parse_float : Text → Option ℕ

module _ (py : Python) where
  -- `str(value)`
  abbrev pub str : Json → Text
  str (text t) = t
  str null = py.show null
  str (boolean b) = py.show (boolean b)
  str (number n) = py.show (number n)
  str (array items) = py.show (array items)
  str (object fields) = py.show (object fields)

  -- `int(value)`, with `none` for a TypeError or a ValueError.
  abbrev pub to_int : Json → Option ℤ
  to_int (number n) = some n
  to_int (boolean true) = some (pos 1)
  to_int (boolean false) = some (pos 0)
  to_int (text t) = py.parse_int t
  to_int null = none
  to_int (array items) = none
  to_int (object fields) = none

  -- `float(value)` of a time; a time before the epoch counts as the epoch.
  abbrev pub to_time : Json → Result ℕ
  to_time (number n) = ok (pos_part n)
  to_time (boolean true) = ok 1
  to_time (boolean false) = ok 0
  to_time (text t) = elim (py.parse_float t) [
    | none ↦ raised (value_error (lit "could not convert string to float"))
    | some seconds ↦ ok seconds
  ]
  to_time null = raised (type_error (lit "float"))
  to_time (array items) = raised (type_error (lit "float"))
  to_time (object fields) = raised (type_error (lit "float"))

  -- `str(d.get(key, default))`
  abbrev pub get_str : Text → Text → Dict Text Json → Text
  get_str key default d = str (get_or key (text default) d)

  -- `[str(item) for item in value]`
  abbrev pub strs : Json → Result (List Text)
  strs value = elim (iterate value) [ raised error ↦ raised error | ok items ↦ ok (map str items) ]

-- A dictionary as an object.
unfoldable pub to_fields : Dict Text Json → Fields
to_fields [] = end
to_fields ((key, value) ∷ rest) = field key value (to_fields rest)

pub entries-to_fields : (d : Dict Text Json) → entries (to_fields d) ≡ d
unfolding to_fields
entries-to_fields [] = refl
entries-to_fields ((key, value) ∷ rest) = ap (λ r. (key, value) ∷ r) (entries-to_fields rest)
