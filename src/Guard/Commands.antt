-- ===== src/Guard/Commands.antt =====
-- agentsecure/guard/network.py: the network commands that carry credentials are checked before they
-- run. Parameters: those of the policy engine (Network), and `urlsplit` (`none` is its ValueError).
pub mod Checked
use agentsecure_community.Base.{
  ℕ, ◌≡◌, refl, ap, sym, ◌∙◌, ◌⊎◌, inl, inr, Bool, true, false, not, ◌&&◌, ◌||◌, Option, none, some,
  List, [], ◌∷◌, ◌++◌, ◌==◌, contains, arith, if◌then◌else◌, Bool-cases, Option-cases,
}
use agentsecure_community.Base.Lists.{any, keep, All}
use agentsecure_community.Base.Text.{
  Text, lit, text_eq, lower, is_empty, or_text, starts_with, has_sub,
}
use agentsecure_community.Base.Event.{Log, emit, text, number, flag}
use agentsecure_community.Base.Exec.{Result, ok, raised, value_error, Result-cases}
use agentsecure_community.Model.{Destination, PolicyDecision, NetworkPolicy}
use agentsecure_community.Network.{Ip, validate, evaluate_network}
use agentsecure_community.Broker.{or_port}
use agentsecure_community.Config.Values.{Url}

pub record GuardedNetworkDecision : Type 0 where
  pub allowed : Bool
  pub reason : Text
  pub host : Text
  pub port : ℕ
  pub rule_id : Text

abbrev pub network_tools : List Text
network_tools = lit "curl" ∷ lit "wget" ∷ []

abbrev pub markers : List Text
markers =
    lit "authorization:"
    ∷ lit "x-api-key:"
    ∷ lit "api-key:"
    ∷ lit "apikey:"
    ∷ lit "openai-api-key:"
    ∷ lit "anthropic-api-key:"
    ∷ lit "api_key="
    ∷ lit "apikey="
    ∷ lit "access_token="
    ∷ lit "auth_token="
    ∷ lit "token="
    ∷ []

-- `" ".join(args)`
abbrev join_args : List Text → Text
join_args [] = []
join_args (arg ∷ []) = arg
join_args (arg ∷ next ∷ args) = arg ++ (32 ∷ join_args (next ∷ args))

unfoldable pub has_visible_credentials : List Text → Bool
has_visible_credentials args =
    let joined = lower (join_args args) in
    has_sub joined (lit "virt_") || any (λ marker. has_sub joined marker) markers

abbrev pub is_url : Text → Bool
is_url arg = starts_with (lower arg) (lit "http://") || starts_with (lower arg) (lit "https://")

-- `_urls`
abbrev pub urls : List Text → List Text
urls = keep is_url

abbrev has_urls : List Text → Bool
has_urls [] = false
has_urls (url ∷ rest) = true

unfoldable pub should_proxy : Text → List Text → Bool
unfolding has_visible_credentials
should_proxy tool args =
    contains network_tools tool && has_visible_credentials args && has_urls (urls args)

abbrev port_or : Option ℕ → Text → ℕ
port_or none scheme = if scheme == lit "https" then 443 else 80
port_or (some port) scheme = or_port port (if scheme == lit "https" then 443 else 80)

abbrev port_of_url : Text → Text → Option (Option ℕ) → Result (Option Destination)
port_of_url scheme host none = raised (value_error (lit "port"))
port_of_url scheme host (some port) = ok (
    some (record {
      scheme = scheme;
      host = host;
      port = port_or port scheme;
      credentials_present = true;
    }))

-- The destination of a URL, or none for a URL without a host.
abbrev destination_in : Option Url → Result (Option Destination)
destination_in none = raised (value_error (lit "urlsplit"))
destination_in (some url) =
    if is_empty url.hostname
    then ok none
    else port_of_url (or_text url.scheme (lit "http")) url.hostname url.port

abbrev or_no_rule : Option Text → Text
or_no_rule none = []
or_no_rule (some rule_id) = rule_id

module _ (ip_address : Text → Option Ip) (getaddrinfo : Text → Option (List Text))
    (urlsplit : Text → Option Url) (policy : NetworkPolicy) (session_id : Text) where
  abbrev pub destination_of : Text → Result (Option Destination)
  destination_of url = destination_in (urlsplit url)

  abbrev pub decide : Destination → Log → PolicyDecision × Log
  decide = evaluate_network ip_address getaddrinfo policy

  abbrev blocked_log : Text → Destination → PolicyDecision → Log → Log
  blocked_log tool d decision log = emit log (lit "guarded_network_command_blocked") (
      (lit "tool", text tool)
      ∷ (lit "session_id", text session_id)
      ∷ (lit "host", text d.host)
      ∷ (lit "port", number d.port)
      ∷ (lit "allowed", flag false)
      ∷ (lit "credentials_present", flag true)
      ∷ (lit "reason", text decision.reason)
      ∷ [])

  -- The loop of `validate`.
  unfoldable pub validate_urls :
      Text → List Text → Log → Result (Option GuardedNetworkDecision) × Log
  validate_urls tool [] log = (ok none, log)
  validate_urls tool (url ∷ rest) log = elim (destination_of url) [
    | raised error ↦ (raised error, log)
    | ok none ↦ validate_urls tool rest log
    | ok (some d) ↦
        let decision = (decide d log).0 in
        let decided = (decide d log).1 in
        elim decision.allowed [
          | true ↦ validate_urls tool rest decided
          | false ↦ (
            ok (
                some (record {
                  allowed = false;
                  reason = decision.reason;
                  host = d.host;
                  port = d.port;
                  rule_id = or_no_rule decision.rule_id;
                })),
            blocked_log tool d decision decided,
          )
        ]
  ]

  -- `GuardedNetworkCommandPolicy.validate`
  unfoldable pub validate_command :
      Text → List Text → Log → Result (Option GuardedNetworkDecision) × Log
  unfolding has_visible_credentials validate_urls
  validate_command tool args log =
      if not (contains network_tools tool)
      then (ok none, log)
      else if not (has_visible_credentials args)
      then (ok none, log)
      else validate_urls tool (urls args) log
