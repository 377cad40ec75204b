-- ===== src/Config/Providers.antt =====
-- agentsecure/core/config.py: `_parse_provider_proxy`.
use agentsecure_community.Base.{
  ℕ, Bool, true, false, not, ◌&&◌, ◌||◌, Option, none, some, List, [], ◌∷◌, ◌++◌, ◌==◌, contains,
  map, nat_eq, if◌then◌else◌,
}
use agentsecure_community.Base.Text.{
  Text, lit, text_eq, is_empty, in_range, strip, lstrip, rstrip, starts_with,
}
use agentsecure_community.Base.Dict
use agentsecure_community.Base.Dict.{Dict}
use agentsecure_community.Base.Exec.{Result, ok, raised, config_error, value_error, ◌>>=◌}
use agentsecure_community.Base.Json.{
  Json, boolean, array, object, nil, end, entries, members, truthy, get_or, Python, str, get_str,
}
use agentsecure_community.Model.{ProviderProxyProvider, ProviderProxyConfig}
use agentsecure_community.Broker.{is_slash, is_valid_port}
use agentsecure_community.Config.Values.{Url, refuse, parse_entries}

abbrev is_word_start : ℕ → Bool
is_word_start c = in_range 65 90 c || c == b'_'

abbrev are_word : Text → Bool
are_word [] = true
are_word (c ∷ s) = (is_word_start c || in_range 48 57 c) && are_word s

-- `re.match(r"^[A-Z_][A-Z0-9_]*$", value)`; the value is stripped, so that no line
-- break stands behind the end that `$` matches.
unfoldable pub is_env_name : Text → Bool
is_env_name [] = false
is_env_name (c ∷ s) = is_word_start c && are_word s

abbrev pub blocked : List Text
blocked =
    lit "PATH"
    ∷ lit "HOME"
    ∷ lit "SHELL"
    ∷ lit "PYTHONPATH"
    ∷ lit "HTTP_PROXY"
    ∷ lit "HTTPS_PROXY"
    ∷ lit "http_proxy"
    ∷ lit "https_proxy"
    ∷ lit "NO_PROXY"
    ∷ lit "no_proxy"
    ∷ []

abbrev pub at_provider : Text → Text → Text
at_provider name problem = lit "provider_proxy.providers." ++ name ++ problem

-- `_validate_env_name`, in front of what comes behind it.
unfoldable pub validate_env_name {ℓ} : {A : Type ℓ} → Text → Text → Result A → Result A
unfolding is_env_name
validate_env_name path value rest = refuse (is_empty value) (path ++ lit " is required") (
    refuse (not (is_env_name value)) (path ++ lit " must be an uppercase environment variable name")
      (refuse (contains blocked value)
        (path ++ lit " must not override critical process environment") rest))

abbrev validate_port {ℓ} : {A : Type ℓ} → Text → Option (Option ℕ) → Result A → Result A
validate_port path none rest = raised (config_error (path ++ lit " port is invalid"))
validate_port path (some none) rest = rest
validate_port path (some (some port)) rest =
    refuse (not (is_valid_port port)) (path ++ lit " port must be between 1 and 65535") rest

-- `_validate_upstream`, in front of what comes behind it.
abbrev pub validate_upstream {ℓ} : {A : Type ℓ} → Text → Option Url → Result A → Result A
validate_upstream path none rest = raised (value_error (lit "urlsplit"))
validate_upstream path (some parsed) rest =
    refuse (not (parsed.scheme == lit "https") || is_empty parsed.hostname)
      (path ++ lit " must be an https URL with a host") (validate_port path parsed.port rest)

-- What two local paths must not do.
unfoldable pub overlap : Text → Text → Bool
overlap a b = a == b || starts_with a (b ++ lit "/") || starts_with b (a ++ lit "/")

abbrev pub bare_path : ProviderProxyProvider → Text
bare_path provider = rstrip is_slash provider.local_path

abbrev pub at_overlap : Text → Text → Text
at_overlap name existing =
    lit "provider_proxy.providers."
    ++ name
    ++ lit ".local_path overlaps with provider_proxy.providers."
    ++ existing
    ++ lit ".local_path"

-- The inner loop of `_validate_provider_proxy_paths`, over the providers so far.
unfoldable pub check_path : ProviderProxyProvider → List ProviderProxyProvider → Result Text
unfolding overlap
check_path provider [] = ok (bare_path provider)
check_path provider (existing ∷ paths) =
    refuse (overlap (bare_path provider) (bare_path existing))
      (at_overlap provider.name existing.name) (check_path provider paths)

-- `_validate_provider_proxy_paths`, from the providers so far.
unfoldable pub validate_paths :
    List ProviderProxyProvider → List ProviderProxyProvider → Result (List ProviderProxyProvider)
unfolding check_path
validate_paths paths [] = ok paths
validate_paths paths (provider ∷ providers) =
    check_path provider paths >>= λ path. validate_paths (paths ++ (provider ∷ [])) providers

-- A value that must be a list.
abbrev pub list_of : Text → Json → Result (List Json)
list_of message (array items) = ok (members items)
list_of message _ = raised (config_error message)

module _ (py : Python) (urlsplit : Text → Option Url) where
  -- What the body of the loop reads, before the list of paths.
  abbrev pub draft : Text → Dict Text Json → ProviderProxyProvider
  draft name data' = record {
    name = strip name;
    env_name = strip (get_str py (lit "env_name") [] data');
    base_url_env = strip (get_str py (lit "base_url_env") [] data');
    upstream = rstrip is_slash (strip (get_str py (lit "upstream") [] data'));
    local_path =
        b'/' ∷ rstrip is_slash (lstrip is_slash (strip (get_str py (lit "local_path") [] data')));
    inject_as = get_str py (lit "inject_as") (lit "authorization_bearer") data';
    allow_paths = [];
  }

  -- The validation of the names, and that of the route, each in front of what comes behind it.
  unfoldable pub check_names {ℓ} : {A : Type ℓ} → ProviderProxyProvider → Result A → Result A
  unfolding validate_env_name
  check_names p rest = refuse (is_empty p.name) (lit "provider_proxy provider name is required") (
      validate_env_name (at_provider p.name (lit ".env_name")) p.env_name
        (validate_env_name (at_provider p.name (lit ".base_url_env")) p.base_url_env rest))

  unfoldable pub check_route {ℓ} : {A : Type ℓ} → ProviderProxyProvider → Result A → Result A
  check_route p rest =
      validate_upstream (at_provider p.name (lit ".upstream")) (urlsplit p.upstream) (
        refuse (p.local_path == lit "/") (at_provider p.name (lit ".local_path is required")) (
          refuse (not (p.inject_as == lit "authorization_bearer"))
            (at_provider p.name (lit ".inject_as must be authorization_bearer")) rest))

  -- The body of the loop, on the dictionary that the entry is.
  unfoldable pub provider_of : Text → Dict Text Json → Result ProviderProxyProvider
  unfolding check_names check_route
  provider_of name data' =
      let p = draft name data' in
      check_names p (
        check_route p (
          list_of (at_provider p.name (lit ".allow_paths must be a list"))
            (get_or (lit "allow_paths") (array nil) data')
          >>= λ paths. ok (record p { allow_paths = map (str py) paths })))

  unfoldable pub parse_provider : Text → Json → Result ProviderProxyProvider
  unfolding provider_of
  parse_provider name (object fields) = provider_of name (entries fields)
  parse_provider name _ = raised (config_error (at_provider name (lit " must be a JSON object")))

  -- `_parse_provider_proxy` on the dictionary of the providers.
  unfoldable pub providers_of : Json → Result (Dict Text ProviderProxyProvider)
  unfolding parse_provider validate_paths
  providers_of (object fields) =
      parse_entries strip parse_provider (entries fields) [] >>= λ providers.
      validate_paths [] (Dict.values providers) >>= λ paths. ok providers
  providers_of _ = raised (config_error (lit "provider_proxy.providers must be a JSON object"))

  unfoldable pub proxy_of : Dict Text Json → Result ProviderProxyConfig
  unfolding providers_of
  proxy_of data' = providers_of (get_or (lit "providers") (object end) data') >>= λ providers.
      ok (record {
        enabled = truthy (get_or (lit "enabled") (boolean false) data');
        providers = providers;
      })

  -- `_parse_provider_proxy`; a value that counts as false is the default.
  unfoldable pub parse_provider_proxy : Json → Result ProviderProxyConfig
  unfolding proxy_of
  parse_provider_proxy (object fields) =
      if truthy (object fields)
      then proxy_of (entries fields)
      else ok (record { enabled = false; providers = [] })
  parse_provider_proxy value =
      if truthy value
      then raised (config_error (lit "provider_proxy must be a JSON object"))
      else ok (record { enabled = false; providers = [] })
