-- ===== src/Guard/Hiding.antt =====
-- agentsecure/guard/sanitizer.py: the secrets that have a text in their place occur no more.
use agentsecure_community.Base.{
  ◌≡◌, ◌⊎◌, inl, inr, Bool, true, false, List, [], ◌∷◌, some, arith, ltb, if◌then◌else◌,
}
use agentsecure_community.Base.Lists.{length, All, All-map}
use agentsecure_community.Base.Text.{Text, text_eq, has_sub}
use agentsecure_community.Base.Dict
use agentsecure_community.Base.Dict.{Dict}
use agentsecure_community.Guard.{
  replace, insert_longer, longest_first, real_of, replace_all, drop_denied, remove_denied_env_lines,
  SecretReplacementMap, sanitize_text,
}
use agentsecure_community.Guard.Replacing.{IsClear, replace_from-absent, replace_from-gone}

module _ {A : Type 0} (key : A → Text) (P : A → Type 0) where
  All-insert_longer : (a : A) (xs : List A) → P a → All P xs → All P (insert_longer key a xs)
  unfolding insert_longer
  All-insert_longer a [] p h = (p, tt)
  All-insert_longer a (b ∷ xs) p h = ground (arith, All-insert_longer a xs p h.1)

  All-if : (t : Bool) (xs ys : List A) → All P (if t then xs else ys) → All P xs ⊎ All P ys
  All-if true xs ys h = inl h
  All-if false xs ys h = inr h

  insert_longer-All : (a : A) (xs : List A) → All P (insert_longer key a xs) → P a × All P xs
  unfolding insert_longer
  insert_longer-All a [] h = h
  insert_longer-All a (b ∷ xs) h =
      elim (All-if (ltb (length (key a)) (length (key b))) (b ∷ insert_longer key a xs) (a ∷ b ∷ xs)
        h) [
          | inl (q, later) ↦ let (p, rest) = insert_longer-All a xs later in (p, (q, rest))
          | inr all ↦ all
        ]

  All-longest_first : (xs : List A) → All P xs → All P (longest_first key xs)
  unfolding longest_first
  All-longest_first [] h = tt
  All-longest_first (a ∷ xs) (p, h) =
      All-insert_longer a (longest_first key xs) p (All-longest_first xs h)

  longest_first-All : (xs : List A) → All P (longest_first key xs) → All P xs
  unfolding longest_first
  longest_first-All [] h = tt
  longest_first-All (a ∷ xs) h =
      let (p, rest) = insert_longer-All a (longest_first key xs) h in (p, longest_first-All xs rest)

-- No real value of the one list can reach into a text of the other.
abbrev pub AreClear : Dict Text Text → Dict Text Text → Type 0
AreClear items others = All (λ a. All (λ b. IsClear a.0 b.1) others) items

replace_all-absent :
    (x : Text) (items : Dict Text Text) (s : Text)
    → All (λ b. IsClear x b.1) items
    → has_sub s x ≡ false
    → has_sub (replace_all items s) x ≡ false
unfolding replace_all replace
replace_all-absent x [] s clear h = h
replace_all-absent x ((old, new) ∷ items) s (here, clear) h =
    replace_all-absent x items (replace old new s) clear (replace_from-absent old new x 0 s here h)

pub replace_all-hides :
    (items : Dict Text Text) (s : Text)
    → AreClear items items
    → All (λ a. has_sub (replace_all items s) a.0 ≡ false) items
unfolding replace_all replace
replace_all-hides [] s clear = tt
replace_all-hides ((old, new) ∷ items) s ((here, others), clear) = (
  replace_all-absent old items (replace old new s) others (replace_from-gone old new 0 s here),
  replace_all-hides items (replace old new s) (All-map (λ a h. h.1) items clear),
)

All-lookup :
    (P : Text × Text → Type 0) (d : Dict Text Text) (k v : Text)
    → All P d
    → Dict.lookup k d ≡ some v
    → P (k, v)
All-lookup P [] k v h e = absurd (cc (e, Dict.lookup-nil k))
All-lookup P ((j, w) ∷ d) k v (here, h) e = elim (text_eq.dec k j) [
  | yes same ↦
      let found : v ≡ w = ground (arith, e, Dict.lookup-cons k j w d) in rw (same, found) here
  | no differ ↦ All-lookup P d k v h (ground (arith, e, Dict.lookup-cons k j w d))
]

-- Where no real value can reach into the texts that take the place of real values, no real value
-- that has such a text occurs in what is shown, whatever the text was and whatever is denied.
pub sanitize_text-hides :
    (map : SecretReplacementMap) (value real_value virtual_value : Text)
    → AreClear map.replacements map.replacements
    → Dict.lookup real_value map.replacements ≡ some virtual_value
    → has_sub (sanitize_text map value) real_value ≡ false
unfolding sanitize_text
sanitize_text-hides map value real_value virtual_value clear e =
    let items = longest_first real_of map.replacements in
    let sorted_clear : AreClear items items =
      All-longest_first real_of (λ a. All (λ b. IsClear a.0 b.1) items) map.replacements
        (All-map (λ a h. All-longest_first real_of (λ b. IsClear a.0 b.1) map.replacements h)
          map.replacements clear) in
    let text =
      drop_denied (longest_first (λ text. text) map.denied_values)
        (remove_denied_env_lines map.denied_env_names value) in
    All-lookup (λ a. has_sub (replace_all items text) a.0 ≡ false) map.replacements real_value
      virtual_value
      (longest_first-All real_of (λ a. has_sub (replace_all items text) a.0 ≡ false)
        map.replacements (replace_all-hides items text sorted_clear))
      e
