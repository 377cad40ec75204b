-- ===== src/Base/Exec.antt =====
-- Methods that change a store and may raise: what was written before a `raise` stays written, so
-- the state comes back beside the error too.
use mathlib.Core.Path.{◌≡◌, refl}
use mathlib.Core.Logic.{◌⊎◌, inl, inr}
use agentsecure_community.Base.Text.{Text}

-- The exception classes of the program, each with its message. `unicode_error`
-- is the UnicodeEncodeError of a text that has no UTF-8 form.
pub data Error : Type 0 where
  value_error duration_error alias_error key_error broker_error config_error mcp_error :
      Text → Error
  unicode_error : Error
  type_error attribute_error lookup_error : Text → Error

-- What a call gives: its value, or the exception that it raised.
pub data Result {ℓ} (Value : Type ℓ) : Type ℓ where
  raised : Error → Result Value
  ok : Value → Result Value

-- The next call runs on the value of the first, if that did not raise.
infixl 10 ◌>>=◌
abbrev pub ◌>>=◌ {ℓ κ} :
    {First : Type ℓ} {Next : Type κ} → Result First → (First → Result Next) → Result Next
raised error >>= next = raised error
ok value >>= next = next value

-- To split on a computed result and keep the equation.
pub Result-cases {ℓ} :
    {Value : Type ℓ} (r : Result Value)
    → ((error : Error) × (r ≡ raised error)) ⊎ ((value : Value) × (r ≡ ok value))
Result-cases (raised error) = inl (error, refl)
Result-cases (ok value) = inr (value, refl)

pub ok_injective {ℓ} : {Value : Type ℓ} (a b : Value) → ok a ≡ ok b → a ≡ b
ok_injective a b h = cc h
