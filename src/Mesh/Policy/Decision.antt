-- ===== src/Mesh/Policy/Decision.antt =====
-- agentsecure/mesh/service.py: what the local policy between agents allows.
use agentsecure_community.Base.{
  ℕ, ◌≡◌, ◌↔◌, refl, true, false, List, [], ◌∷◌, ◌++◌, arith, contains, inl, inr, Bool-cases,
}
use agentsecure_community.Base.Lists.{any, All}
use agentsecure_community.Base.Text.{Text, lit, text_eq, is_empty, lower}
use agentsecure_community.Mesh.{Resource}
use agentsecure_community.Mesh.Policy.{
  AgentPolicy, policy_hint, resource_requires_approval, has_any, has_word,
}
use agentsecure_community.Mesh.Policy.Words.{StandsIn, StandsIn-has_word}

-- The words that ask for a human.
abbrev pub sensitive : List Text
sensitive =
    lit "deploy"
    ∷ lit "production"
    ∷ lit "prod"
    ∷ lit "secret"
    ∷ lit "staging"
    ∷ lit "migration"
    ∷ lit "risky"
    ∷ lit "infrastructure"
    ∷ lit "api_contract"
    ∷ []

word_free :
    (m : ℕ) (marker text : Text)
    → has_word (m ∷ marker) false text ≡ false
    → ¬ StandsIn (m ∷ marker) false text
word_free m marker text h stands = cc (h, (StandsIn-has_word m marker text).1 stands)

free_word :
    (m : ℕ) (marker text : Text)
    → ¬ StandsIn (m ∷ marker) false text
    → has_word (m ∷ marker) false text ≡ false
free_word m marker text h = elim (Bool-cases (has_word (m ∷ marker) false text)) [
  | inl e ↦ absurd (h ((StandsIn-has_word m marker text).0 e))
  | inr e ↦ e
]

-- Markers that are not empty.
abbrev AreWords : List Text → Type 0
AreWords = All (λ marker. is_empty marker ≡ false)

words_free :
    (text : Text) (markers : List Text)
    → AreWords markers
    → any (λ marker. has_word marker false text) markers ≡ false
      ↔ All (λ marker. ¬ StandsIn marker false text) markers
unfolding any
words_free text [] w = (λ h. tt, λ h. refl)
words_free text ([] ∷ markers) w = absurd (cc w.0)
words_free text ((m ∷ marker) ∷ markers) w = (
  λ h. (word_free m marker text (ground arith), (words_free text markers w.1).0 (ground arith)),
  λ (h, k).
      let free = free_word m marker text h in
      let rest = (words_free text markers w.1).1 k in ground arith,
)

requires-free :
    (dumps : Resource → Text) (action : Text) (resource : Resource)
    → resource_requires_approval dumps action resource ≡ false
      ↔ All
          (λ marker. ¬ StandsIn marker false (lower (action ++ lit " " ++ dumps resource)))
          sensitive
unfolding resource_requires_approval lit
requires-free dumps action resource =
    words_free (lower (action ++ lit " " ++ dumps resource)) sensitive
      (refl, (refl, (refl, (refl, (refl, (refl, (refl, (refl, (refl, tt)))))))))

module _ (dumps : Resource → Text) (policy : AgentPolicy) (action : Text) (resource : Resource)
    (target : Text) where
  -- The action and the dump of the resource, in lower case.
  abbrev pub searched : Text
  searched = lower (action ++ lit " " ++ dumps resource)

  -- The policy does not deny the action, a message goes to a listed agent where agents are listed,
  -- the policy asks for no human, and no sensitive word stands in the action or in the dump of the
  -- resource without a letter or digit next to it.
  abbrev pub IsAllowed : Type 0
  IsAllowed =
      (contains policy.cannot action ≡ false)
      × ((action ≡ lit "send_message")
          → (is_empty target ≡ false)
          → (has_any policy.can_message ≡ true)
          → contains policy.can_message target ≡ true)
      × (contains policy.requires_human_for action ≡ false)
      × All (λ marker. ¬ StandsIn marker false searched) sensitive

  -- The policy hint allows an action exactly if the policy does not deny it, a message with a
  -- target goes to a listed agent where agents are listed, the policy asks for no human, and none
  -- of the nine sensitive words stands, in any case of its letters, in the action or in the dump of
  -- the resource with no letter or digit next to it.
  pub policy_hint-IsAllowed :
      ((policy_hint dumps policy action resource target).allowed ≡ true) ↔ IsAllowed
  unfolding policy_hint
  policy_hint-IsAllowed = (
    λ h. (
      ground arith,
      (λ a b c. ground arith),
      ground arith,
      (requires-free dumps action resource).0 (ground arith),
    ),
    λ (a, b, c, d). let free = (requires-free dumps action resource).1 d in ground arith,
  )
