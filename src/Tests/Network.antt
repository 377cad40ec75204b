-- ===== src/Tests/Network.antt =====
-- implementations/policy.py at concrete hosts and commands.
use agentsecure_community.Base.{
  ◌≡◌, refl, inr, true, false, Option, none, some, List, [], ◌∷◌, nat_eq, ◌==◌, if◌then◌else◌,
}
use agentsecure_community.Base.Computing.{computing}
use agentsecure_community.Base.Text.{Text, lit, text_eq}
use agentsecure_community.Model.{Destination, NetworkPolicy}
use agentsecure_community.Network.{Ip, matches_any, validate}
use agentsecure_community.Network.Decisions.{IsPermitted, validate-IsPermitted}
use agentsecure_community.Network.Process.{evaluate_process, evaluate_process-allowed}

abbrev hosts : List Text
hosts = lit "api.openai.com" ∷ lit "*.Example.com." ∷ []

below_covered : matches_any (lit "a.b.example.com") hosts ≡ true
unfolding matches_any computing
below_covered = refl

bare_domain_not_covered : matches_any (lit "example.com") hosts ≡ false
unfolding matches_any computing
bare_domain_not_covered = refl

suffix_not_covered : matches_any (lit "badexample.com") hosts ≡ false
unfolding matches_any computing
suffix_not_covered = refl

abbrev policy : NetworkPolicy
policy = record {
  allow_domains = hosts;
  deny_domains = lit "bad.example.com" ∷ [];
  allow_ports = 80 ∷ 443 ∷ [];
  deny_ip_literals = true;
  deny_private_networks = true;
}

abbrev public_ip : Ip
public_ip = record {
  is_private = false;
  is_loopback = false;
  is_link_local = false;
  is_multicast = false;
}

-- One address parses, and every host resolves to it.
abbrev addresses : Text → Option Ip
addresses host = if host == lit "1.2.3.4" then some public_ip else none

abbrev resolver : Text → Option (List Text)
resolver host = some (lit "1.2.3.4" ∷ [])

abbrev to_openai : Destination
to_openai = record {
  scheme = lit "https";
  host = lit "API.openai.com.";
  port = 443;
  credentials_present = true;
}

openai_allowed : (validate addresses resolver policy to_openai).allowed ≡ true
unfolding validate matches_any computing
openai_allowed = refl

port_denied : (validate addresses resolver policy (record to_openai { port = 22 })).allowed ≡ false
unfolding validate matches_any computing
port_denied = refl

denied_host :
    (validate addresses resolver policy (record to_openai { host = lit "bad.example.com" })).allowed
    ≡ false
unfolding validate matches_any computing
denied_host = refl

validate-IsPermitted_example : IsPermitted addresses resolver policy to_openai
validate-IsPermitted_example =
    (validate-IsPermitted addresses resolver policy to_openai).0 openai_allowed

abbrev argv : List Text
argv = lit "/usr/bin/git" ∷ lit "push" ∷ []

evaluate_process-allowed_example :
    (evaluate_process (lit "git" ∷ []) argv (lit ".") []).0.allowed ≡ true
unfolding computing
evaluate_process-allowed_example =
    (evaluate_process-allowed (lit "git" ∷ []) argv (lit ".") []).1
      (lit "/usr/bin/git", lit "push" ∷ [], refl, inr (inr refl))
