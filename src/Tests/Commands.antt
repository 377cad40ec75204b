-- ===== src/Tests/Commands.antt =====
-- guard/network.py at concrete commands.
use agentsecure_community.Base.{
  ◌≡◌, refl, true, Option, none, some, List, [], ◌∷◌, nat_eq, contains,
}
use agentsecure_community.Base.Computing.{computing}
use agentsecure_community.Base.Lists.{All}
use agentsecure_community.Base.Text.{Text, lit, text_eq}
use agentsecure_community.Base.Exec.{ok}
use agentsecure_community.Model.{NetworkPolicy}
use agentsecure_community.Network.{
  Ip, covers, matches_any, is_ip_literal, is_private_address, resolves_to_private_ip, validate,
  evaluate_network,
}
use agentsecure_community.Config.Values.{Url}
use agentsecure_community.Guard.Commands.{
  network_tools, has_visible_credentials, urls, validate_urls, validate_command,
}
use agentsecure_community.Guard.Commands.Checked.{IsLet, validate_command-IsLet}
use agentsecure_community.Guard.Commands.Checked.{IsLet, validate_command-IsLet}

abbrev no_address : Text → Option Ip
no_address host = none

abbrev nobody : Text → Option (List Text)
nobody host = some []

abbrev api_url : Text → Option Url
api_url url = some (record { scheme = lit "https"; hostname = lit "api.dev"; port = some none })

abbrev policy : NetworkPolicy
policy = record {
  allow_domains = lit "api.dev" ∷ [];
  deny_domains = [];
  allow_ports = 443 ∷ [];
  deny_ip_literals = true;
  deny_private_networks = true;
}

abbrev args : List Text
args = lit "-H" ∷ lit "Authorization: virt_1" ∷ lit "https://api.dev/v1" ∷ []

curl_known : contains network_tools (lit "curl") ≡ true
unfolding computing
curl_known = refl

token_visible : has_visible_credentials args ≡ true
unfolding has_visible_credentials computing
token_visible = refl

curl_passes :
    (validate_command no_address nobody api_url policy [] (lit "curl") args []).0 ≡ ok none
unfolding validate_command validate_urls has_visible_credentials evaluate_network validate covers
    matches_any is_ip_literal is_private_address resolves_to_private_ip computing
curl_passes = refl

validate_command-IsLet_example : All (IsLet no_address nobody api_url policy []) (urls args)
validate_command-IsLet_example =
    validate_command-IsLet no_address nobody api_url policy [] (lit "curl") args [] curl_known
      token_visible curl_passes
