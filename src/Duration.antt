-- ===== src/Duration.antt =====
-- agentsecure/core/time.py: time-to-live texts such as `90`, `15m` or `2h`, in seconds.
-- Texts are of ASCII characters: the digits of other scripts, which `\d` and `int` also know, are not
-- modelled, nor the ValueError of `int` for more than 4300 digits.
pub mod Format
use agentsecure_community.Base.{
  ℕ, zero, suc, ◌+◌, ◌-◌, ◌*◌, ◌≤◌, ◌<◌, ◌≡◌, refl, Bool, true, false, Option, none, some, List, [],
  ◌∷◌, ◌++◌, arith, ltb, nat_beq, if◌then◌else◌,
}
use agentsecure_community.Base.Text.{Text, lit, in_range, strip, lower, is_empty}
use agentsecure_community.Base.Exec.{Error, Result, ok, raised, duration_error}

abbrev pub default_ttl_seconds : ℕ
default_ttl_seconds = 7200

abbrev pub max_ttl_seconds : ℕ
max_ttl_seconds = 86400

abbrev pub is_digit : ℕ → Bool
is_digit c = in_range 48 57 c

-- The group `(\d+)`: the number read so far, whether a digit was read, and the text that is left.
unfoldable pub scan_number : ℕ → Bool → Text → Option (ℕ × Text)
scan_number n seen [] = if seen then some (n, []) else none
scan_number n seen (c ∷ s) =
    let rest = scan_number (n * 10 + (c - 48)) true s in
    if is_digit c then rest else if seen then some (n, c ∷ s) else none

-- The group `([smhd]?)$`, as the unit's multiplier.
unfoldable pub unit_seconds : Text → Option ℕ
unit_seconds [] = some 1
unit_seconds (c ∷ []) =
    if nat_beq c b's'
    then some 1
    else if nat_beq c b'm'
    then some 60
    else if nat_beq c b'h'
    then some 3600
    else if nat_beq c b'd'
    then some 86400
    else none
unit_seconds (c ∷ d ∷ s) = none

-- `re.match(r"^(\d+)([smhd]?)$", text)` and the product of its groups.
unfoldable pub match_duration : Text → Option ℕ
unfolding scan_number unit_seconds
match_duration text = elim (scan_number 0 false text) [
  | none ↦ none
  | some (amount, rest) ↦ elim (unit_seconds rest) [
    | none ↦ none
    | some multiplier ↦ some (amount * multiplier)
  ]
]

unfoldable pub check_seconds : ℕ → Result ℕ
check_seconds seconds =
    if nat_beq seconds 0
    then raised (duration_error (lit "duration must be positive"))
    else if ltb max_ttl_seconds seconds
    then raised (duration_error (lit "duration exceeds max TTL of 24h"))
    else ok seconds

unfoldable pub parse_duration_seconds : Text → Result ℕ
unfolding match_duration check_seconds
parse_duration_seconds value =
    let text = lower (strip value) in
    if is_empty text then ok default_ttl_seconds else elim (match_duration text) [
      | none ↦ raised (duration_error (lit "invalid duration: " ++ value))
      | some seconds ↦ check_seconds seconds
    ]

-- A time-to-live that is accepted lies between one second and 24 hours.
pub parse_duration_seconds_bounds :
    (value : Text) {seconds : ℕ}
    → parse_duration_seconds value ≡ ok seconds
    → (1 ≤ seconds) × (seconds ≤ max_ttl_seconds)
unfolding parse_duration_seconds
parse_duration_seconds_bounds value h = ground arith
