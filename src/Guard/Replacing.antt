-- ===== src/Guard/Replacing.antt =====
-- agentsecure/guard/sanitizer.py: which occurrences a replacement leaves in a text.
use agentsecure_community.Base.{
  ℕ, zero, suc, ◌-◌, ◌≡◌, refl, Bool, true, false, ◌&&◌, ◌||◌, [], ◌∷◌, ◌++◌, nat_eq, nat_beq,
  subst, arith, inl, inr, Bool-cases,
}
use agentsecure_community.Base.Lists.{length}
use agentsecure_community.Base.Text.{Text, text_eq, is_empty, starts_with, has_sub}
use agentsecure_community.Guard.{replace_from}

-- One of the texts starts with the other.
abbrev pub compatible : Text → Text → Bool
compatible [] t = true
compatible (c ∷ s) [] = true
compatible (c ∷ s) (d ∷ t) = nat_beq c d && compatible s t

-- An end of the first text, which is not empty, is compatible with the second.
abbrev pub meets : Text → Text → Bool
meets [] t = false
meets (c ∷ s) t = compatible (c ∷ s) t || meets s t

-- No occurrence of the first text can reach into the second where that is put into a text.
pub record IsClear (old new : Text) : Type 0 where
  pub filled : is_empty old ≡ false
  pub left : meets old new ≡ false
  pub right : meets new old ≡ false

starts-compatible : (new r t : Text) → starts_with (new ++ r) t ≡ true → compatible t new ≡ true
unfolding starts_with
starts-compatible new r [] h = refl
starts-compatible [] r (d ∷ t) h = refl
starts-compatible (c ∷ new) r (d ∷ t) h = ground (arith, starts-compatible new r t)

compatible-sym : (s t : Text) → compatible s t ≡ compatible t s
compatible-sym [] [] = refl
compatible-sym [] (d ∷ t) = refl
compatible-sym (c ∷ s) [] = refl
compatible-sym (c ∷ s) (d ∷ t) = ground (arith, compatible-sym s t)

module _ (old new : Text) (c : ℕ) (s : Text) where
  pub replace_hit :
      starts_with (c ∷ s) old ≡ true
      → replace_from old new zero (c ∷ s) ≡ new ++ replace_from old new (length old - 1) s
  unfolding replace_from
  replace_hit e = rw (replace_from, e) refl

  pub replace_miss :
      starts_with (c ∷ s) old ≡ false
      → replace_from old new zero (c ∷ s) ≡ c ∷ replace_from old new zero s
  unfolding replace_from
  replace_miss e = rw (replace_from, e) refl

-- What a replaced text starts with, if it cannot reach into the new text, the text started with.
starts-replace_from :
    (old new s t : Text)
    → meets t new ≡ false
    → starts_with (replace_from old new zero s) t ≡ true
    → starts_with s t ≡ true
unfolding starts_with replace_from
starts-replace_from old new s [] clear h = refl
starts-replace_from old new [] (d ∷ t) clear h = cc
starts-replace_from old new (c ∷ s) (d ∷ t) clear h = elim (Bool-cases (starts_with (c ∷ s) old)) [
  | inl e ↦
      let at : starts_with (new ++ replace_from old new (length old - 1) s) (d ∷ t) ≡ true =
        subst (λ r. starts_with r (d ∷ t) ≡ true) (replace_hit old new c s e) h in
      absurd (ground (arith, starts-compatible new _ (d ∷ t) at))
  | inr e ↦
      let at : starts_with (c ∷ replace_from old new zero s) (d ∷ t) ≡ true =
        subst (λ r. starts_with r (d ∷ t) ≡ true) (replace_miss old new c s e) h in
      ground (arith, starts-replace_from old new s t)
]

has_sub-append :
    (new r x : Text) → meets new x ≡ false → has_sub r x ≡ false → has_sub (new ++ r) x ≡ false
unfolding has_sub
has_sub-append [] r x clear h = h
has_sub-append (c ∷ new) r x clear h =
    ground
      (arith, has_sub-append new r x, starts-compatible (c ∷ new) r x, compatible-sym (c ∷ new) x)

has_sub_tail : (c : ℕ) (s x : Text) → has_sub (c ∷ s) x ≡ false → has_sub s x ≡ false
unfolding has_sub
has_sub_tail c s x h = ground arith

-- A character that is kept, in front of a replaced text, begins no occurrence that was not there.
kept_free :
    (old new : Text) (c : ℕ) (s x : Text)
    → IsClear x new
    → starts_with (c ∷ s) x ≡ false
    → has_sub (replace_from old new zero s) x ≡ false
    → has_sub (c ∷ replace_from old new zero s) x ≡ false
unfolding has_sub starts_with
kept_free old new c s [] clear h behind = absurd (cc clear.filled)
kept_free old new c s (d ∷ x) clear h behind =
    let left = clear.left in ground (arith, starts-replace_from old new s x)

kept_absent :
    (old new : Text) (c : ℕ) (s x : Text)
    → IsClear x new
    → has_sub (c ∷ s) x ≡ false
    → has_sub (replace_from old new zero s) x ≡ false
    → has_sub (c ∷ replace_from old new zero s) x ≡ false
unfolding has_sub
kept_absent old new c s x clear h behind = kept_free old new c s x clear (ground arith) behind

-- A text that does not occur before a replacement, and is clear of the new text, does not occur
-- after it.
pub replace_from-absent :
    (old new x : Text) (skip : ℕ) (s : Text)
    → IsClear x new
    → has_sub s x ≡ false
    → has_sub (replace_from old new skip s) x ≡ false
unfolding replace_from has_sub
replace_from-absent old new x skip [] clear h = h
replace_from-absent old new x (suc skip) (c ∷ s) clear h =
    replace_from-absent old new x skip s clear (has_sub_tail c s x h)
replace_from-absent old new x zero (c ∷ s) clear h = elim (Bool-cases (starts_with (c ∷ s) old)) [
  | inl e ↦ rw (replace_hit old new c s e) (
      has_sub-append new _ x clear.right
        (replace_from-absent old new x (length old - 1) s clear (has_sub_tail c s x h)))
  | inr e ↦ rw (replace_miss old new c s e) (
      kept_absent old new c s x clear h
        (replace_from-absent old new x zero s clear (has_sub_tail c s x h)))
]

-- The text that is replaced, if it is clear of the new text, occurs no more.
pub replace_from-gone :
    (old new : Text) (skip : ℕ) (s : Text)
    → IsClear old new
    → has_sub (replace_from old new skip s) old ≡ false
unfolding replace_from has_sub
replace_from-gone old new skip [] clear = clear.filled
replace_from-gone old new (suc skip) (c ∷ s) clear = replace_from-gone old new skip s clear
replace_from-gone old new zero (c ∷ s) clear = elim (Bool-cases (starts_with (c ∷ s) old)) [
  | inl e ↦
      rw (replace_hit old new c s e)
        (has_sub-append new _ old clear.right (replace_from-gone old new (length old - 1) s clear))
  | inr e ↦
      rw (replace_miss old new c s e)
        (kept_free old new c s old clear e (replace_from-gone old new zero s clear))
]
