-- ===== src/Base/Digits.antt =====
-- The fuel of `decimal` is enough.
use Prim.Native.Nat.{ℕ, zero, suc, ◌+◌, ◌/◌, ◌%◌, ◌≤◌}
use mathlib.Core.Path.{◌≡◌, refl}
use mathlib.Core.List.{◌∷◌}
use native.Mathlib.Omega.{arith}
use agentsecure_community.Base.Text.{Text, digits_before}

-- Any fuel above the number gives the same digits.
digits_before_fuel :
    (f g n : ℕ) (s : Text) → n ≤ f → n ≤ g → digits_before (suc f) n s ≡ digits_before (suc g) n s
digits_before_fuel zero zero n s a b = refl
digits_before_fuel zero (suc g) n s a b = ground arith
digits_before_fuel (suc f) zero n s a b = ground arith
digits_before_fuel (suc f) (suc g) n s a b =
    ground (arith, digits_before_fuel f g (n / 10) ((b'0' + n % 10) ∷ s))
