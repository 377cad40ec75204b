-- ===== src/Guard/Splicing.antt =====
-- agentsecure/guard/sanitizer.py: taking a denied value out can put another one together.
use agentsecure_community.Base.{
  ℕ, zero, ◌-◌, ◌≡◌, refl, ap, ◌∙◌, true, false, [], ◌∷◌, ◌++◌, ◌==◌, nat_eq, contains, arith,
}
use agentsecure_community.Base.Lists.{length}
use agentsecure_community.Base.Text.{Text, starts_with}
use agentsecure_community.Guard.{
  replace_from, replace, insert_longer, longest_first, remove_denied_env_lines, drop_denied,
  replace_all, SecretReplacementMap, sanitize_text,
}
use agentsecure_community.Guard.Replacing.{replace_hit, replace_miss}

starts_self : (w r : Text) → starts_with (w ++ r) w ≡ true
unfolding starts_with
starts_self [] [] = refl
starts_self [] (c ∷ r) = refl
starts_self (c ∷ w) r = ground (arith, starts_self w r)

replace_skipped :
    (old new w r : Text) → replace_from old new (length w) (w ++ r) ≡ replace_from old new zero r
unfolding replace_from
replace_skipped old new [] r = refl
replace_skipped old new (c ∷ w) r = replace_skipped old new w r

starts_foreign : (c d : ℕ) (s t : Text) → (d == c) ≡ false → starts_with (d ∷ s) (c ∷ t) ≡ false
unfolding starts_with
starts_foreign c d s t h = ground arith

-- After the first character, which is not the second of the value, the value does not begin.
starts_late :
    (c d : ℕ) (s t : Text) → (c == d) ≡ false → starts_with (c ∷ c ∷ s) (c ∷ d ∷ t) ≡ false
unfolding starts_with
starts_late c d s t h = ground arith

-- A text without the first character of the value stays as it is.
replace_foreign :
    (c : ℕ) (old new s : Text) → contains s c ≡ false → replace_from (c ∷ old) new zero s ≡ s
unfolding replace_from
replace_foreign c old new [] h = refl
replace_foreign c old new (d ∷ s) h =
    replace_miss (c ∷ old) new d s (starts_foreign c d s old (ground arith))
    ∙ ap (λ r. d ∷ r) (replace_foreign c old new s (ground arith))

-- A map that denies one value, and knows no other.
abbrev pub denying : Text → SecretReplacementMap
denying value = record { replacements = []; denied_env_names = []; denied_values = value ∷ [] }

-- With one value denied and nothing else to hide, a value of two characters or more whose first
-- character does not come again in it: a text that has the value written into itself, behind that
-- first character, is shown as the value itself. The value is taken out once, and what stands
-- around it comes together to the same value.
pub sanitize_text-splices :
    (c d : ℕ) (w : Text)
    → contains (d ∷ w) c ≡ false
    → sanitize_text (denying (c ∷ d ∷ w)) (c ∷ ((c ∷ d ∷ w) ++ (d ∷ w))) ≡ c ∷ d ∷ w
unfolding sanitize_text longest_first insert_longer remove_denied_env_lines drop_denied replace_all
    replace
sanitize_text-splices c d w h =
    let old = c ∷ d ∷ w in
    let behind : length old - 1 ≡ length (d ∷ w) = omega arith in
    replace_miss old [] c (old ++ (d ∷ w)) (starts_late c d _ w (ground arith))
    ∙ ap (λ r. c ∷ r)
        (replace_hit old [] c ((d ∷ w) ++ (d ∷ w)) (starts_self old (d ∷ w))
          ∙ ap (λ n. replace_from old [] n ((d ∷ w) ++ (d ∷ w))) behind
          ∙ replace_skipped old [] (d ∷ w) (d ∷ w)
          ∙ replace_foreign c (d ∷ w) [] (d ∷ w) h)
