-- ===== src/Base/Text.antt =====
-- Python's `str` as the list of its code points. Letters and white space are those of ASCII.
use Prim.Native.Char.{code}
use Prim.Native.Nat.{ℕ, zero, suc, ◌+◌, ◌-◌, ◌/◌, ◌%◌}
use Prim.Native.String.{String}
use mathlib.Core.Path.{◌≡◌, refl, ap}
use mathlib.Core.Logic.{dite}
use mathlib.Core.Bool.{Bool, true, false, ◌&&◌, ◌||◌, Bool-discrete}
use mathlib.Core.List.{List, [], ◌∷◌, ◌++◌, map}
use native.Mathlib.Omega.{arith}
use agentsecure_community.Base.Lists.{length}
use agentsecure_community.Base.Equality.{Eq, ◌==◌, leb, nat_beq, if◌then◌else◌}

abbrev pub Text : Type 0
Text = List ℕ

-- A literal of the source.
unfoldable pub lit : String → Text
lit String.[] = []
lit (String.◌∷◌ c s) = code c ∷ lit s

unfoldable pub text_beq : Text → Text → Bool
text_beq [] [] = true
text_beq [] (_ ∷ _) = false
text_beq (_ ∷ _) [] = false
text_beq (c ∷ s) (d ∷ t) = nat_beq c d && text_beq s t

pub text_beq_refl : (s : Text) → text_beq s s ≡ true
unfolding text_beq
text_beq_refl [] = refl
text_beq_refl (c ∷ s) = ground (arith, text_beq_refl s)

pub text_beq_sound : (s t : Text) → text_beq s t ≡ true → s ≡ t
unfolding text_beq
text_beq_sound [] [] h = refl
text_beq_sound [] (_ ∷ _) h = cc
text_beq_sound (_ ∷ _) [] h = cc
text_beq_sound (c ∷ s) (d ∷ t) h = ground (arith, text_beq_sound s t)

pub text_beq_complete : (s t : Text) → s ≡ t → text_beq s t ≡ true
text_beq_complete s t p = rw (← p) (text_beq_refl s)

-- Shut in proofs: a split on `s == t` gives the equation or its negation.
instance unfoldable pub text_eq : Eq Text
unfolding text_beq
text_eq = record {
  dec = λ s t.
      dite (Bool-discrete (text_beq s t) true) (λ same. yes (text_beq_sound s t same))
        (λ differ. no (λ p. differ (text_beq_complete s t p)));
}

-- `not s`
abbrev pub is_empty : Text → Bool
is_empty [] = true
is_empty (_ ∷ _) = false

-- `a or b`
abbrev pub or_text : Text → Text → Text
or_text [] b = b
or_text (c ∷ s) b = c ∷ s

abbrev pub in_range : ℕ → ℕ → ℕ → Bool
in_range lo hi c = leb lo c && leb c hi

unfoldable pub lower_char : ℕ → ℕ
lower_char c = if in_range 65 90 c then c + 32 else c

unfoldable pub upper_char : ℕ → ℕ
upper_char c = if in_range 97 122 c then c - 32 else c

unfoldable pub lower : Text → Text
unfolding lower_char
lower = map lower_char

unfoldable pub upper : Text → Text
unfolding upper_char
upper = map upper_char

abbrev pub is_space : ℕ → Bool
is_space c = in_range 28 32 c || in_range 9 13 c

abbrev pub is_dot : ℕ → Bool
is_dot c = nat_beq c b'.'

unfoldable pub lstrip : (ℕ → Bool) → Text → Text
lstrip p [] = []
lstrip p (c ∷ s) = let rest = lstrip p s in if p c then rest else c ∷ s

unfoldable pub rstrip : (ℕ → Bool) → Text → Text
rstrip p [] = []
rstrip p (c ∷ s) = let rest = rstrip p s in if is_empty rest && p c then [] else c ∷ rest

-- `s.strip()`
unfoldable pub strip : Text → Text
unfolding lstrip rstrip
strip s = rstrip is_space (lstrip is_space s)

-- `host.lower().rstrip(".")`
unfoldable pub normal_host : Text → Text
unfolding lower rstrip
normal_host s = rstrip is_dot (lower s)

-- `s.startswith(prefix)`
unfoldable pub starts_with : Text → Text → Bool
starts_with s [] = true
starts_with [] (_ ∷ _) = false
starts_with (c ∷ s) (d ∷ prefix) = nat_beq c d && starts_with s prefix

-- `s.endswith(suffix)`
unfoldable pub ends_with : Text → Text → Bool
ends_with [] suffix = suffix == []
ends_with (c ∷ s) suffix = suffix == c ∷ s || ends_with s suffix

-- `s[n:]`
abbrev pub drop_text : ℕ → Text → Text
drop_text zero s = s
drop_text (suc n) [] = []
drop_text (suc n) (_ ∷ s) = drop_text n s

-- `s[:n]`
abbrev pub take_text : ℕ → Text → Text
take_text zero s = []
take_text (suc n) [] = []
take_text (suc n) (c ∷ s) = c ∷ take_text n s

-- What stands before a boundary, and what stands behind it.
pub take-append : (s t : Text) (n : ℕ) → length s ≡ n → take_text n (s ++ t) ≡ s
take-append [] t zero e = refl
take-append [] t (suc n) e = absurd (omega (arith, e))
take-append (c ∷ s) t zero e = absurd (omega (arith, e))
take-append (c ∷ s) t (suc n) e = ap (λ r. c ∷ r) (take-append s t n (omega (arith, e)))

pub drop-append : (s t : Text) (n : ℕ) → length s ≡ n → drop_text n (s ++ t) ≡ t
drop-append [] t zero e = refl
drop-append [] t (suc n) e = absurd (omega (arith, e))
drop-append (c ∷ s) t zero e = absurd (omega (arith, e))
drop-append (c ∷ s) t (suc n) e = drop-append s t n (omega (arith, e))

-- `sub in s`
unfoldable pub has_sub : Text → Text → Bool
unfolding starts_with
has_sub [] sub = is_empty sub
has_sub (c ∷ s) sub = starts_with (c ∷ s) sub || has_sub s sub

-- `text.split(":", 1)[1]`, for a text that has the character.
unfoldable pub after_char : ℕ → Text → Text
after_char d [] = []
after_char d (c ∷ s) = let rest = after_char d s in if nat_beq c d then s else rest

abbrev has_slash : Text → Bool
has_slash [] = false
has_slash (c ∷ s) = nat_beq c b'/' || has_slash s

-- `os.path.basename(s)`: what stands behind the last slash.
unfoldable pub basename : Text → Text
basename [] = []
basename (c ∷ s) = let rest = basename s in if has_slash (c ∷ s) then rest else c ∷ s

-- `value.lower().replace("-", "_")`, character by character.
abbrev dash_to_underscore : ℕ → ℕ
dash_to_underscore c = if nat_beq c b'-' then b'_' else c

abbrev is_slug_char : ℕ → Bool
is_slug_char c = in_range 97 122 c || in_range 48 57 c || nat_beq c b'_'

keep_slug : Text → Text
keep_slug [] = []
keep_slug (c ∷ s) =
    let d = dash_to_underscore (lower_char c) in
    let rest = keep_slug s in if is_slug_char d then d ∷ rest else rest

-- `_slug` of core/key_service.py and of core/secret_aliases.py.
unfoldable pub slug : Text → Text
unfolding keep_slug lower_char lit
slug value = or_text (keep_slug value) (lit "custom")

-- `s[:-1]`
abbrev pub drop_last : Text → Text
drop_last [] = []
drop_last (c ∷ []) = []
drop_last (c ∷ d ∷ s) = c ∷ drop_last (d ∷ s)

-- The decimal digits of a number in front of a text; a number has fewer digits than its successor.
abbrev pub digits_before : ℕ → ℕ → Text → Text
digits_before zero n s = s
digits_before (suc fuel) n s =
    let digits = (b'0' + n % 10) ∷ s in
    let more = digits_before fuel (n / 10) digits in if leb n 9 then digits else more

-- `str(n)`
unfoldable pub decimal : ℕ → Text
decimal n = digits_before (suc n) n []

-- `s <= t`, by code points.
abbrev pub text_leb : Text → Text → Bool
text_leb [] t = true
text_leb (c ∷ s) [] = false
text_leb (c ∷ s) (d ∷ t) = let rest = text_leb s t in if nat_beq c d then rest else leb c d
