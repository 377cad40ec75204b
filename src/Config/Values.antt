-- ===== src/Config/Values.antt =====
-- agentsecure/core/config.py: what the parsers of the sections share.
use agentsecure_community.Base.{
  ℕ, Bool, true, false, ◌||◌, ◌&&◌, Option, none, some, [], ◌∷◌, nat_eq, ◌==◌, ◌≡◌, refl, arith,
}
use agentsecure_community.Base.Int.{ℤ, pos, negsuc}
use agentsecure_community.Base.Text.{Text, text_eq}
use agentsecure_community.Base.Dict
use agentsecure_community.Base.Dict.{Dict}
use agentsecure_community.Base.Exec.{Result, ok, raised, config_error, ◌>>=◌}
use agentsecure_community.Base.Json.{Json}
use agentsecure_community.Broker.{is_valid_port}

-- What `urlsplit` finds; `none` for `port` is the ValueError of that property.
pub record Url : Type 0 where
  pub scheme : Text
  pub hostname : Text
  pub port : Option (Option ℕ)

-- `is_valid_port(port, allow_zero)` of core/capabilities.py.
abbrev pub is_port : Bool → ℤ → Bool
is_port allow_zero (pos n) = (allow_zero && n == 0) || is_valid_port n
is_port allow_zero (negsuc n) = false

-- A number that has passed such a test.
abbrev pub nat_of : ℤ → ℕ
nat_of (pos n) = n
nat_of (negsuc n) = 0

-- `int(value)` under `except (TypeError, ValueError)`.
abbrev pub int_or : Text → Option ℤ → Result ℤ
int_or message none = raised (config_error message)
int_or message (some n) = ok n

-- `if problem: raise ConfigError(message)`, and what comes behind it.
abbrev pub refuse {ℓ} : {A : Type ℓ} → Bool → Text → Result A → Result A
refuse true message rest = raised (config_error message)
refuse false message rest = rest

pub refuse-ok {ℓ} :
    {A : Type ℓ} (problem : Bool) (message : Text) (rest : Result A) (a : A)
    → refuse problem message rest ≡ ok a
    → (problem ≡ false) × (rest ≡ ok a)
refuse-ok true message rest a h = cc
refuse-ok false message rest a h = (refl, h)

pub bind-ok {ℓ κ} :
    {A : Type ℓ} {B : Type κ} (first : Result A) (next : A → Result B) (b : B)
    → (first >>= next) ≡ ok b
    → (a : A) × (first ≡ ok a) × (next a ≡ ok b)
bind-ok (raised error) next b h = cc
bind-ok (ok a) next b h = (a, refl, h)

-- Each entry of the dictionary keeps the law.
abbrev pub Holds {κ} : {V : Type 0} → (Text → V → Type κ) → Dict Text V → Type κ
Holds P d = (k : Text) (v : _) → Dict.lookup k d ≡ some v → P k v

pub Holds-insert {κ} :
    {V : Type 0} (P : Text → V → Type κ) (key : Text) (value : V) (d : Dict Text V)
    → P key value
    → Holds P d
    → Holds P (Dict.insert key value d)
Holds-insert P key value d new old k v h = elim (text_eq.dec k key) [
  | yes same ↦
      let found : v ≡ value = ground (arith, h, Dict.lookup-insert k key value d) in
      rw (same, found) new
  | no differ ↦ old k v (ground (arith, h, Dict.lookup-insert k key value d))
]

pub Holds-nil {κ} : {V : Type 0} (P : Text → V → Type κ) → Holds P []
Holds-nil P k v h = absurd (cc (h, Dict.lookup-nil k))

module _ {V : Type 0} (key : Text → Text) (parse_one : Text → Json → Result V) where
  -- The loop over the items of a JSON object that fills a dictionary.
  unfoldable pub parse_entries : Dict Text Json → Dict Text V → Result (Dict Text V)
  parse_entries [] done = ok done
  parse_entries ((name, value) ∷ rest) done =
      parse_one name value >>= λ parsed. parse_entries rest (Dict.insert (key name) parsed done)

  pub parse_entries-Holds {κ} :
      (P : Text → V → Type κ)
      → ((name : Text) (value : Json) (v : V) → parse_one name value ≡ ok v → P (key name) v)
      → (items : Dict Text Json) (done result : Dict Text V) → parse_entries items done ≡ ok result
      → Holds P done
      → Holds P result
  unfolding parse_entries
  parse_entries-Holds P step [] done result h old =
      let same : done ≡ result = cc h in rw (← same) old
  parse_entries-Holds P step ((name, value) ∷ rest) done result h old =
      let (parsed, here, later) = bind-ok (parse_one name value) _ result h in
      parse_entries-Holds P step rest (Dict.insert (key name) parsed done) result later
        (Holds-insert P (key name) parsed done (step name value parsed here) old)
