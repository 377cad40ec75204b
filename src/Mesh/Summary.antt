-- ===== src/Mesh/Summary.antt =====
-- agentsecure/mesh/service.py: what a summary can hold.
use agentsecure_community.Base.{
  ℕ, zero, suc, ◌≤◌, ◌≡◌, refl, inl, inr, false, ◌||◌, [], ◌∷◌, arith, contains, nat_eq, Bool-cases,
}
use agentsecure_community.Base.Lists.{length}
use agentsecure_community.Base.Text.{Text, lit, strip, take_text, is_empty}
use agentsecure_community.Mesh.Redaction.{redacted, squeeze, looks_secret_text, text_summary}

contains-take_text :
    (n c : ℕ) (s : Text) → contains s c ≡ false → contains (take_text n s) c ≡ false
contains-take_text zero c s h = refl
contains-take_text (suc n) c [] h = refl
contains-take_text (suc n) c (d ∷ s) h = ground (arith, contains-take_text n c s)

length-take_text : (n : ℕ) (s : Text) → length (take_text n s) ≤ n
length-take_text zero s = omega arith
length-take_text (suc n) [] = omega arith
length-take_text (suc n) (c ∷ s) = omega (arith, length-take_text n s)

redacted_lem : (contains redacted b'=' ≡ false) × (length redacted ≤ 120)
unfolding lit nat_eq
redacted_lem = (refl, omega arith)

-- A summary has at most 120 characters and no `=`, so no assignment of a value to a name.
pub text_summary_bounds :
    (value : Text)
    → (contains (text_summary value) b'=' ≡ false) × (length (text_summary value) ≤ 120)
unfolding text_summary
text_summary_bounds value =
    let text = strip (squeeze value) in
    elim (Bool-cases (is_empty text)) [
      | inl e ↦ rw e (refl, omega arith)
      | inr e ↦ elim (Bool-cases (contains text b'=' || looks_secret_text text)) [
        | inl f ↦ rw (e, f) redacted_lem
        | inr f ↦
            rw (e, f) (contains-take_text 120 b'=' text (ground arith), length-take_text 120 text)
      ]
    ]
