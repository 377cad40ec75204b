-- ===== src/Broker/Parts.antt =====
-- agentsecure/core/capabilities.py: the hosts that count as local, and the path of a URL.
use agentsecure_community.Base.{
  ◌≡◌, refl, ◌⊎◌, inl, inr, true, false, ◌&&◌, Option, none, some, [], ◌∷◌, ◌++◌, ◌==◌,
  if◌then◌else◌, arith, nat_eq, Bool-cases,
}
use agentsecure_community.Base.Text.{
  Text, lit, text_eq, is_empty, strip, lstrip, starts_with, ends_with, drop_text, drop_last,
}
use agentsecure_community.Network.{Ip}
use agentsecure_community.Broker.{is_loopback_host, loops_back, slashed, is_slash, path_of}

-- The host is localhost, or the address that it names, in brackets or not, is a loopback address.
abbrev pub IsLoopback : (Text → Option Ip) → Text → Type 0
IsLoopback ip_address given =
    (strip given ≡ lit "localhost")
    ⊎ ((ip : Ip) × (ip_address (
            if starts_with (strip given) (lit "[") && ends_with (strip given) (lit "]")
            then drop_last (drop_text 1 (strip given))
            else strip given)
          ≡ some ip)
        × (ip.is_loopback ≡ true))

loops_back-some :
    (ip_address : Text → Option Ip) (found : Option Ip)
    → loops_back ip_address found ≡ true
    → (ip : Ip) × (found ≡ some ip) × (ip.is_loopback ≡ true)
loops_back-some ip_address none h = cc
loops_back-some ip_address (some ip) h = (ip, refl, h)

pub is_loopback_host-IsLoopback :
    (ip_address : Text → Option Ip) (host : Text)
    → is_loopback_host ip_address host ≡ true
    → IsLoopback ip_address host
unfolding is_loopback_host
is_loopback_host-IsLoopback ip_address host h = elim (Bool-cases (strip host == lit "localhost")) [
  | inl e ↦ inl (ground arith)
  | inr e ↦ inr (loops_back-some ip_address _ (ground arith))
]

pub IsLoopback-is_loopback_host :
    (ip_address : Text → Option Ip) (host : Text)
    → IsLoopback ip_address host
    → is_loopback_host ip_address host ≡ true
unfolding is_loopback_host text_eq lit
IsLoopback-is_loopback_host ip_address host (inl e) = rw (is_loopback_host, e) refl
IsLoopback-is_loopback_host ip_address host (inr (ip, e, h)) =
    rw (is_loopback_host, e, h) (ground arith)

slashed-some :
    (found : Option Text) (path : Text)
    → slashed found ≡ some path
    → (quoted : Text) × (found ≡ some quoted) × (path ≡ lit "/" ++ quoted)
slashed-some none path h = absurd (cc h)
slashed-some (some quoted) path h = (quoted, refl, cc h)

slashed-none : (found : Option Text) → slashed found ≡ none → found ≡ none
slashed-none none h = refl
slashed-none (some quoted) h = absurd (cc h)

module _ (ip_address : Text → Option Ip) (url_path : Text → Option Text)
    (quote : Text → Option Text) where
  -- The path is empty without a database, and else a slash and the quoted database.
  abbrev pub IsPath : Text → Text → Type 0
  IsPath database path =
      ((is_empty database ≡ true) × (path ≡ []))
      ⊎ ((is_empty database ≡ false)
          × ((quoted : Text) × (quote (lstrip is_slash database) ≡ some quoted)
              × (path ≡ lit "/" ++ quoted)))

  pub path_of-IsPath :
      (database path : Text)
      → path_of ip_address url_path quote database ≡ some path
      → IsPath database path
  unfolding path_of
  path_of-IsPath [] path h = inl (refl, cc h)
  path_of-IsPath (c ∷ s) path h = inr (refl, slashed-some _ path h)

  pub IsPath-path_of :
      (database path : Text)
      → IsPath database path
      → path_of ip_address url_path quote database ≡ some path
  unfolding path_of
  IsPath-path_of database path (inl (e, f)) = rw (path_of, e, f) refl
  IsPath-path_of database path (inr (e, (quoted, q, f))) = rw (path_of, e, q, f) refl

  pub no_path :
      (database : Text)
      → path_of ip_address url_path quote database ≡ none
      → quote (lstrip is_slash database) ≡ none
  unfolding path_of
  no_path [] h = absurd (cc h)
  no_path (c ∷ s) h = slashed-none _ h
