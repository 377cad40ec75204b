-- ===== src/Network/Hosts.antt =====
-- `_matches_any` of implementations/policy.py against a description of what a pattern covers.
use agentsecure_community.Base.{
  ◌≡◌, refl, ap, ◌≢◌, ◌↔◌, ◌⊎◌, inl, inr, true, false, not, ◌&&◌, List, [], ◌∷◌, ◌++◌, arith, ◌==◌,
  Bool-cases,
}
use agentsecure_community.Base.Lists.{length, length-append}
use agentsecure_community.Base.Text.{Text, lit, text_eq, normal_host, starts_with, ends_with}
use agentsecure_community.Network.{covers, matches_any}

-- `host` lies below `domain`: a text (of any length) and a dot stand in front of it.
abbrev pub IsBelow : Text → Text → Type 0
IsBelow host domain = (front : Text) × (host ≡ front ++ (b'.' ∷ domain))

-- What a pattern covers, once it is normalised: `*.domain` all that lies below `domain`, any other
-- pattern itself.
abbrev pub Covers : Text → Text → Type 0
Covers pattern host =
    ((domain : Text) × (pattern ≡ b'*' ∷ b'.' ∷ domain) × IsBelow host domain)
    ⊎ ((starts_with pattern (lit "*.") ≡ false) × (host ≡ pattern))

-- Some pattern of the list covers the host.
abbrev pub CoveredBy : Text → List Text → Type 0
CoveredBy host [] = ⊥
CoveredBy host (pattern ∷ patterns) = Covers (normal_host pattern) host ⊎ CoveredBy host patterns

ends_with_sound :
    (s suffix : Text) → ends_with s suffix ≡ true → (front : Text) × (s ≡ front ++ suffix)
unfolding ends_with
ends_with_sound [] suffix h = ([], ground arith)
ends_with_sound (c ∷ s) suffix h = elim (Bool-cases (suffix == c ∷ s)) [
  | inl e ↦ ([], ground arith)
  | inr e ↦
      let (front, p) = ends_with_sound s suffix (ground arith) in (c ∷ front, ap (λ t. c ∷ t) p)
]

ends_with-append : (front suffix : Text) → ends_with (front ++ suffix) suffix ≡ true
unfolding ends_with
ends_with-append [] [] = ground arith
ends_with-append [] (c ∷ s) = ground arith
ends_with-append (c ∷ front) suffix = ground (arith, ends_with-append front suffix)

star_dot :
    (s : Text) → starts_with s (lit "*.") ≡ true → (domain : Text) × (s ≡ b'*' ∷ b'.' ∷ domain)
unfolding starts_with lit
star_dot [] h = cc
star_dot (c ∷ []) h = absurd (ground arith)
star_dot (c ∷ d ∷ s) h = (s, ground arith)

covers_star :
    (host domain : Text)
    → covers host (b'*' ∷ b'.' ∷ domain) ≡ (ends_with host (b'.' ∷ domain) && not (host == domain))
unfolding covers starts_with lit
covers_star host domain = refl

-- What ends in a dot and the domain is longer than the domain.
below_ne : (front domain : Text) → front ++ (b'.' ∷ domain) ≢ domain
below_ne front domain p = omega (arith, length-append front (b'.' ∷ domain), ap length p)

pub covers_sound : (host pattern : Text) → covers host pattern ≡ true → Covers pattern host
covers_sound host pattern h = elim (Bool-cases (starts_with pattern (lit "*."))) [
  | inr plain ↦ inr (plain, unfold covers in ground arith)
  | inl star ↦
      let (domain, e) = star_dot pattern star in
      inl
        (domain, e, ends_with_sound host (b'.' ∷ domain) (ground (arith, covers_star host domain)))
]

pub covers_complete : (host pattern : Text) → Covers pattern host → covers host pattern ≡ true
covers_complete host pattern (inl (domain, e, (front, p))) =
    ground (
      arith,
      covers_star host domain,
      below_ne front domain,
      ends_with-append front (b'.' ∷ domain),
    )
covers_complete host pattern (inr (plain, p)) = unfold covers in ground arith

matches_any_sound :
    (host : Text) (patterns : List Text)
    → matches_any host patterns ≡ true
    → CoveredBy host patterns
unfolding matches_any
matches_any_sound host [] h = cc
matches_any_sound host (pattern ∷ patterns) h =
    elim (Bool-cases (covers host (normal_host pattern))) [
      | inl e ↦ inl (covers_sound host (normal_host pattern) e)
      | inr e ↦ inr (matches_any_sound host patterns (ground arith))
    ]

matches_any_complete :
    (host : Text) (patterns : List Text)
    → CoveredBy host patterns
    → matches_any host patterns ≡ true
unfolding matches_any
matches_any_complete host [] h = absurd h
matches_any_complete host (pattern ∷ patterns) (inl h) =
    ground (arith, covers_complete host (normal_host pattern) h)
matches_any_complete host (pattern ∷ patterns) (inr h) =
    ground (arith, matches_any_complete host patterns h)

-- A host passes the pattern list exactly if some normalised pattern covers it: a pattern `*.domain`
-- covers the hosts that end in `.domain`, and any other pattern the host equal to it.
pub matches_any-CoveredBy :
    (host : Text) (patterns : List Text)
    → (matches_any host patterns ≡ true) ↔ CoveredBy host patterns
matches_any-CoveredBy host patterns =
    (matches_any_sound host patterns, matches_any_complete host patterns)
