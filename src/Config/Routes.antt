-- ===== src/Config/Routes.antt =====
-- agentsecure/core/config.py: what the providers of a proxy that is read satisfy.
use agentsecure_community.Base.{
  zero, suc, map, ◌≡◌, true, false, Option, some, List, [], ◌∷◌, ◌++◌, arith, contains, inl, inr,
  Option-cases,
}
use agentsecure_community.Base.Int.{pos}
use agentsecure_community.Base.Lists.{All, All-split, All-map}
use agentsecure_community.Base.Text.{Text, lit, text_eq, is_empty, strip}
use agentsecure_community.Base.Dict
use agentsecure_community.Base.Dict.{Dict}
use agentsecure_community.Base.Exec.{Result, ok}
use agentsecure_community.Base.Json.{
  str, Json, null, boolean, number, text, array, nil, object, end, field, entries, get_or, Python,
}
use agentsecure_community.Model.{ProviderProxyProvider, ProviderProxyConfig}
use agentsecure_community.Config.Values.{
  Url, refuse-ok, bind-ok, parse_entries, parse_entries-Holds, Holds, Holds-nil,
}
use agentsecure_community.Config.Providers.{
  is_env_name, blocked, overlap, bare_path, check_path, validate_paths, provider_of, parse_provider,
  providers_of, proxy_of, parse_provider_proxy, draft, check_names, check_route, list_of,
  validate_env_name,
}

-- A name that may be set in the environment of a run.
abbrev pub IsFreeName : Text → Type 0
IsFreeName name = (is_env_name name ≡ true) × (contains blocked name ≡ false)

-- An upstream that is reached by HTTPS.
abbrev pub IsSecure : Option Url → Type 0
IsSecure parsed =
    (url : Url) × (parsed ≡ some url) × (url.scheme ≡ lit "https") × (is_empty url.hostname ≡ false)

pub record IsRoutable (urlsplit : Text → Option Url) (p : ProviderProxyProvider) : Type 0 where
  pub key_name : IsFreeName p.env_name
  pub url_name : IsFreeName p.base_url_env
  pub secure : IsSecure (urlsplit p.upstream)
  pub bearer : p.inject_as ≡ lit "authorization_bearer"

-- No two of the local paths overlap.
abbrev pub AreApart : List ProviderProxyProvider → Type 0
AreApart [] = Unit
AreApart (p ∷ providers) =
    All (λ q. overlap (bare_path q) (bare_path p) ≡ false) providers × AreApart providers

abbrev Clears : List ProviderProxyProvider → ProviderProxyProvider → Type 0
Clears paths p = All (λ q. overlap (bare_path p) (bare_path q) ≡ false) paths

validate_env_name-IsFreeName {ℓ} :
    {A : Type ℓ} (path name : Text) (rest : Result A) (a : A)
    → validate_env_name path name rest ≡ ok a
    → IsFreeName name × (rest ≡ ok a)
unfolding validate_env_name
validate_env_name-IsFreeName path name rest a h = ground arith

check_path-Clears :
    (p : ProviderProxyProvider) (paths : List ProviderProxyProvider) (path : Text)
    → check_path p paths ≡ ok path
    → Clears paths p
unfolding check_path
check_path-Clears p [] path h = tt
check_path-Clears p (q ∷ paths) path h = ground (arith, check_path-Clears p paths path)

validate_paths-AreApart :
    (paths providers result : List ProviderProxyProvider)
    → validate_paths paths providers ≡ ok result
    → All (Clears paths) providers × AreApart providers
unfolding validate_paths
validate_paths-AreApart paths [] result h = (tt, tt)
validate_paths-AreApart paths (p ∷ providers) result h =
    let (path, checked, later) = bind-ok (check_path p paths) _ result h in
    let (clear, apart) = validate_paths-AreApart (paths ++ (p ∷ [])) providers result later in
    (
      (
        check_path-Clears p paths path checked,
        All-map (λ q h. (All-split _ paths (p ∷ []) h).0) providers clear,
      ),
      (All-map (λ q h. (All-split _ paths (p ∷ []) h).1.0) providers clear, apart),
    )

-- What is known of the providers of a proxy.
abbrev pub AreServed : (Text → Option Url) → Dict Text ProviderProxyProvider → Type 0
AreServed urlsplit providers =
    Holds (λ name p. IsRoutable urlsplit p) providers × AreApart (Dict.values providers)

module _ (py : Python) (urlsplit : Text → Option Url) where
  check_names-IsFreeName {ℓ} :
      {A : Type ℓ} (p : ProviderProxyProvider) (rest : Result A) (a : A)
      → check_names py urlsplit p rest ≡ ok a
      → IsFreeName p.env_name × IsFreeName p.base_url_env × (rest ≡ ok a)
  unfolding check_names
  check_names-IsFreeName p rest a h =
      let (named, h1) = refuse-ok (is_empty p.name) _ _ a h in
      let (key_name, h2) = validate_env_name-IsFreeName _ p.env_name _ a h1 in
      let (url_name, h3) = validate_env_name-IsFreeName _ p.base_url_env _ a h2 in
      (key_name, url_name, h3)

  check_route-IsSecure {ℓ} :
      {A : Type ℓ} (p : ProviderProxyProvider) (rest : Result A) (a : A)
      → check_route py urlsplit p rest ≡ ok a
      → IsSecure (urlsplit p.upstream) × (p.inject_as ≡ lit "authorization_bearer") × (rest ≡ ok a)
  unfolding check_route
  check_route-IsSecure p rest a h = elim (Option-cases (urlsplit p.upstream)) [
    | inl e ↦ absurd (ground arith)
    | inr (url, e) ↦ ((url, e, ground arith, ground arith), ground arith, ground arith)
  ]

  provider_of-IsRoutable :
      (name : Text) (data' : Dict Text Json) (p : ProviderProxyProvider)
      → provider_of py urlsplit name data' ≡ ok p
      → IsRoutable urlsplit p
  unfolding provider_of
  provider_of-IsRoutable name data' p h =
      let (key_name, url_name, h1) = check_names-IsFreeName (draft py urlsplit name data') _ p h in
      let (secure, bearer, h2) = check_route-IsSecure (draft py urlsplit name data') _ p h1 in
      let (paths, listed, built) =
        bind-ok (list_of _ (get_or (lit "allow_paths") (array nil) data')) _ p h2 in
      let same : record (draft py urlsplit name data') { allow_paths = map (str py) paths } ≡ p =
        cc built in
      rw (← same)
        (record { key_name = key_name; url_name = url_name; secure = secure; bearer = bearer })

  parse_provider-IsRoutable :
      (name : Text) (value : Json) (p : ProviderProxyProvider)
      → parse_provider py urlsplit name value ≡ ok p
      → IsRoutable urlsplit p
  unfolding parse_provider
  parse_provider-IsRoutable name (object fields) p h =
      provider_of-IsRoutable name (entries fields) p h
  parse_provider-IsRoutable name _ p h = cc

  providers_of-AreServed :
      (value : Json) (providers : Dict Text ProviderProxyProvider)
      → providers_of py urlsplit value ≡ ok providers
      → AreServed urlsplit providers
  unfolding providers_of
  providers_of-AreServed (object fields) providers h =
      let (parsed, read, checked) =
        bind-ok (parse_entries strip (parse_provider py urlsplit) (entries fields) []) _ providers
          h in
      let (paths, apart, same) =
        bind-ok (validate_paths [] (Dict.values parsed)) _ providers checked in
      let equal : parsed ≡ providers = cc same in
      rw (← equal) (
        parse_entries-Holds strip (parse_provider py urlsplit) (λ name p. IsRoutable urlsplit p)
            parse_provider-IsRoutable (entries fields) [] parsed read
            (Holds-nil (λ name p. IsRoutable urlsplit p)),
        (validate_paths-AreApart [] (Dict.values parsed) paths apart).1,
      )
  providers_of-AreServed _ providers h = cc

  proxy_of-AreServed :
      (data' : Dict Text Json) (proxy : ProviderProxyConfig)
      → proxy_of py urlsplit data' ≡ ok proxy
      → AreServed urlsplit proxy.providers
  unfolding proxy_of
  proxy_of-AreServed data' proxy h =
      let (providers, read, built) =
        bind-ok (providers_of py urlsplit (get_or (lit "providers") (object end) data')) _ proxy
          h in
      let same : proxy.providers ≡ providers = cc built in
      rw same (providers_of-AreServed _ providers read)

  nil-AreServed : AreServed urlsplit []
  unfolding Dict.values
  nil-AreServed = (Holds-nil (λ name p. IsRoutable urlsplit p), tt)

  by_default :
      (proxy : ProviderProxyConfig)
      → ok (record { enabled = false; providers = [] }) ≡ ok proxy
      → AreServed urlsplit proxy.providers
  by_default proxy h = let same : proxy.providers ≡ [] = cc h in rw same nil-AreServed

  pub parse_provider_proxy-AreServed :
      (value : Json) (proxy : ProviderProxyConfig)
      → parse_provider_proxy py urlsplit value ≡ ok proxy
      → AreServed urlsplit proxy.providers
  unfolding parse_provider_proxy
  parse_provider_proxy-AreServed (object end) proxy h = by_default proxy h
  parse_provider_proxy-AreServed (object (field key value rest)) proxy h =
      proxy_of-AreServed (entries (field key value rest)) proxy h
  parse_provider_proxy-AreServed (array nil) proxy h = by_default proxy h
  parse_provider_proxy-AreServed null proxy h = by_default proxy h
  parse_provider_proxy-AreServed (boolean false) proxy h = by_default proxy h
  parse_provider_proxy-AreServed (text []) proxy h = by_default proxy h
  parse_provider_proxy-AreServed (number (pos zero)) proxy h = by_default proxy h
  parse_provider_proxy-AreServed (number (pos (suc n))) proxy h = absurd (ground arith)
  parse_provider_proxy-AreServed _ proxy h = cc
