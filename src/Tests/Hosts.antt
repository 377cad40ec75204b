-- ===== src/Tests/Hosts.antt =====
-- `_merge_network_allow_domains` of core/secret_aliases.py at one project.
use agentsecure_community.Base.{◌≡◌, refl, true, false, none, some, List, [], ◌∷◌, contains}
use agentsecure_community.Base.Computing.{computing}
use agentsecure_community.Base.Text.{Text, lit, text_eq, strip, is_empty, starts_with, normal_host}
use agentsecure_community.Network.{matches_any}
use agentsecure_community.Aliases.Hosts.{
  NetworkSection, merge_host, merge_hosts, listed_domains, merge_network_allow_domains,
}
use agentsecure_community.Aliases.Hosts.Allowed.{merge_network_allow_domains-matches_any}

abbrev section : NetworkSection
section = record {
  allow_domains = some (lit "api.openai.com" ∷ []);
  allow_ports = none;
  deny_ip_literals = some false;
  deny_private_networks = none;
}

abbrev hosts : List Text
hosts = lit "API.OpenAI.com." ∷ lit " api.stripe.com" ∷ lit " " ∷ []

merged :
    (merge_network_allow_domains hosts section).allow_domains
    ≡ some (lit "api.openai.com" ∷ lit "api.stripe.com" ∷ [])
unfolding merge_network_allow_domains merge_hosts merge_host computing
merged = refl

stripe_given : contains hosts (lit " api.stripe.com") ≡ true
unfolding computing
stripe_given = refl

stripe_not_blank : is_empty (strip (lit " api.stripe.com")) ≡ false
unfolding computing
stripe_not_blank = refl

stripe_no_wildcard : starts_with (normal_host (strip (lit " api.stripe.com"))) (lit "*.") ≡ false
unfolding computing
stripe_no_wildcard = refl

merge_network_allow_domains-matches_any_example :
    matches_any
      (normal_host (strip (lit " api.stripe.com")))
      (listed_domains (merge_network_allow_domains hosts section).allow_domains)
    ≡ true
merge_network_allow_domains-matches_any_example =
    merge_network_allow_domains-matches_any hosts (lit " api.stripe.com") section stripe_given
      stripe_not_blank stripe_no_wildcard
