-- ===== src/Mesh/Policy/Words.antt =====
-- agentsecure/mesh/service.py: what `re.search` of `(?<![a-z0-9])marker(?![a-z0-9])` finds.
use agentsecure_community.Base.{
  ℕ, ◌≡◌, refl, ap, ◌↔◌, Bool, true, false, not, ◌&&◌, ◌||◌, [], ◌∷◌, ◌++◌, arith, inl, inr,
  Bool-cases,
}
use agentsecure_community.Base.Lists.{length}
use agentsecure_community.Base.Text.{Text, text_eq, in_range, starts_with, drop_text, drop-append}
use agentsecure_community.Mesh.Policy.{is_letter_or_digit, starts_in_word, has_word}

-- No letter or digit ends the text; the flag is the answer for the empty text.
abbrev pub EndsFree : Bool → Text → Type 0
EndsFree inside [] = inside ≡ false
EndsFree inside (c ∷ s) = EndsFree (in_range 97 122 c || in_range 48 57 c) s

-- No letter or digit starts the text.
abbrev pub StartsFree : Text → Type 0
StartsFree [] = Unit
StartsFree (c ∷ s) = (in_range 97 122 c || in_range 48 57 c) ≡ false

-- The marker stands in the text as a word.
abbrev pub StandsIn : Text → Bool → Text → Type 0
StandsIn marker inside text =
    (before : Text) × (after : Text) × (text ≡ before ++ (marker ++ after))
    × EndsFree inside before
    × StartsFree after

starts-append : (marker after : Text) → starts_with (marker ++ after) marker ≡ true
unfolding starts_with
starts-append [] [] = refl
starts-append [] (c ∷ after) = refl
starts-append (c ∷ marker) after = ground (arith, starts-append marker after)

starts_with_split :
    (s marker : Text) → starts_with s marker ≡ true → s ≡ marker ++ drop_text (length marker) s
unfolding starts_with
starts_with_split s [] h = refl
starts_with_split [] (d ∷ marker) h = cc
starts_with_split (c ∷ s) (d ∷ marker) h = ground (arith, starts_with_split s marker (ground arith))

free_start : (s : Text) → starts_in_word s ≡ false → StartsFree s
free_start [] h = tt
free_start (c ∷ s) h = h

start_free : (s : Text) → StartsFree s → starts_in_word s ≡ false
start_free [] h = refl
start_free (c ∷ s) h = h

has_word-StandsIn :
    (m : ℕ) (marker : Text) (inside : Bool) (text : Text)
    → has_word (m ∷ marker) inside text ≡ true
    → StandsIn (m ∷ marker) inside text
unfolding has_word
has_word-StandsIn m marker inside [] h = cc
has_word-StandsIn m marker inside (c ∷ s) h =
    let rest = drop_text (length marker) s in
    elim (Bool-cases
      (not inside && starts_with (c ∷ s) (m ∷ marker) && not (starts_in_word rest))) [
        | inl e ↦ (
          [],
          rest,
          starts_with_split (c ∷ s) (m ∷ marker) (ground arith),
          ground arith,
          free_start rest (ground arith),
        )
        | inr e ↦
            let (before, after, split, ends, starts) =
              has_word-StandsIn m marker (is_letter_or_digit c) s (ground arith) in
            (c ∷ before, after, ap (λ t. c ∷ t) split, ends, starts)
      ]

stands_has_word :
    (m : ℕ) (marker : Text) (inside : Bool) (before after : Text)
    → EndsFree inside before
    → StartsFree after
    → has_word (m ∷ marker) inside (before ++ (m ∷ (marker ++ after))) ≡ true
unfolding has_word
stands_has_word m marker inside [] after ends starts =
    rw
      (
        has_word,
        ends,
        starts-append (m ∷ marker) after,
        drop-append marker after (length marker) refl,
        start_free after starts,
      )
      refl
stands_has_word m marker inside (c ∷ before) after ends starts =
    ground (arith, stands_has_word m marker (is_letter_or_digit c) before after ends starts)

pub StandsIn-has_word :
    (m : ℕ) (marker text : Text)
    → (has_word (m ∷ marker) false text ≡ true) ↔ StandsIn (m ∷ marker) false text
StandsIn-has_word m marker text = (
  has_word-StandsIn m marker false text,
  λ (before, after, split, ends, starts).
      rw split (stands_has_word m marker false before after ends starts),
)
