-- ===== src/Duration/Format.antt =====
-- The texts that `parse_duration_seconds` reads, and the number each stands for.
use agentsecure_community.Base.{ℕ, ◌+◌, ◌-◌, ◌*◌, ◌≤◌, ◌≡◌, ◌⊎◌, true, some, [], ◌∷◌, ◌++◌}
use agentsecure_community.Base.Lists.{All}
use agentsecure_community.Base.Text.{Text, strip, lower}
use agentsecure_community.Duration.{is_digit, unit_seconds, default_ttl_seconds, max_ttl_seconds}

abbrev pub AreDigits : Text → Type 0
AreDigits = All (λ c. is_digit c ≡ true)

-- The decimal value of digits that follow the number `n`.
abbrev pub decimal_value : ℕ → Text → ℕ
decimal_value n [] = n
decimal_value n (c ∷ s) = decimal_value (n * 10 + (c - 48)) s

-- A duration: at least one digit, and a unit behind the digits.
pub data Denotes : Text → ℕ → Type 0 where
  duration :
      (first : ℕ) (digits unit : Text) (multiplier : ℕ)
      → AreDigits (first ∷ digits)
      → unit_seconds unit ≡ some multiplier
      → Denotes ((first ∷ digits) ++ unit) (decimal_value 0 (first ∷ digits) * multiplier)

module _ (value : Text) (seconds : ℕ) where
  -- The two ways to a duration.
  abbrev pub Accepts : Type 0
  Accepts =
      ((lower (strip value) ≡ []) × (seconds ≡ default_ttl_seconds))
      ⊎ (Denotes (lower (strip value)) seconds × (1 ≤ seconds) × (seconds ≤ max_ttl_seconds))
