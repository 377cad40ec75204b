-- ===== src/Tests/Policy.antt =====
-- core/policy_mutation.py at a concrete change.
use agentsecure_community.Base.{◌≡◌, ◌≤◌, ◌⊎◌, refl, true, false, Option, none, some, [], ◌∷◌}
use agentsecure_community.Base.Computing.{computing}
use agentsecure_community.Base.Lists.{length}
use agentsecure_community.Base.Text.{Text, lit, text_eq}
use agentsecure_community.Base.Dict
use agentsecure_community.Base.Dict.{Dict}
use agentsecure_community.Base.Exec.{unicode_error, ok, raised, Error, value_error}
use agentsecure_community.Base.Json.{Json, text, object, field, end, get_or, to_fields, Python}
use agentsecure_community.Model.{mode_deny, default_rule, AgentSecureConfig, config_of}
use agentsecure_community.Network.{Ip}
use agentsecure_community.Broker.{is_loopback_host, insert_name, sorted_names}
use agentsecure_community.Broker.Allocator.{
  broker_names, referenced, assign_ports, assign_local_ports,
}
use agentsecure_community.Config.{
  gateway_of, parse_gateway, runtime_of, parse_secret_runtime, network_of, parse, load_data,
}
use agentsecure_community.Config.Values.{Url, parse_entries}
use agentsecure_community.Config.Capabilities.{parse_capabilities}
use agentsecure_community.Config.Rules.{mode_of, rule_of, parse_rule, parse_env_policy}
use agentsecure_community.Config.Providers.{parse_provider_proxy}
use agentsecure_community.Config.Secrets.{each, parse_secrets, parse_secret_aliases}
use agentsecure_community.Config.WellFormed.{IsWellFormed}
use agentsecure_community.Policy.Validation.{
  secret_at, secret_from, looks_like_raw_secret_field, looks_like_raw_secret_value, validate_fields,
  extract_policy_payload, reject_raw_secret_value,
}
use agentsecure_community.Policy.{
  Mutation, Response, rule_field, merge_fields, merge_entries, merge_section, merge_env_policy,
  merge_capabilities, load_raw_config, build_mutation, plans_of, response, apply_built, apply_local,
}
use agentsecure_community.Policy.Applying.{apply_local-IsWellFormed, apply_local-raises}
use agentsecure_community.Policy.Screening.{IsScreened, build_mutation-IsScreened}

abbrev py : Python
py = record { show = λ value. lit "?"; parse_int = λ t. none; parse_float = λ t. none }

abbrev no_address : Text → Option Ip
no_address host = none

abbrev no_url : Text → Option Url
no_url t = none

-- Tells one section from two.
abbrev shape : Json → Text
shape (object (field key value end)) = []
shape _ = 1 ∷ []

abbrev gateway_json : Json
gateway_json = object (field (lit "host") (text (lit "localhost")) end)

abbrev file : Option Json
file = some (object (field (lit "gateway") gateway_json end))

abbrev rules_json : Json
rules_json = object (field (lit "ROOT") (object (field (lit "mode") (text (lit "deny")) end)) end)

abbrev payload : Json
payload = object (field (lit "env_policy") rules_json end)

abbrev next_json : Json
next_json = object (field (lit "gateway") gateway_json (field (lit "env_policy") rules_json end))

abbrev next : AgentSecureConfig
next = record (config_of ((lit "ROOT", record default_rule { mode = mode_deny }) ∷ []) []) {
  gateway = record { host = lit "localhost"; port = 8765 };
}

abbrev answer : Response
answer = record { changed = true; applied = true; config = next; broker_endpoint_plans = [] }

abbrev built : Mutation
built = record {
  next_config = (lit "gateway", gateway_json) ∷ (lit "env_policy", rules_json) ∷ [];
  config = next;
  changed = true;
}

change_builds :
    build_mutation py no_address no_url (λ url. none) some (λ s. false) shape file payload
    ≡ ok built
unfolding build_mutation load_raw_config extract_policy_payload merge_env_policy merge_capabilities
    merge_section merge_entries merge_fields rule_field reject_raw_secret_value validate_fields
    looks_like_raw_secret_value looks_like_raw_secret_field secret_at secret_from sorted_names
    insert_name assign_local_ports assign_ports referenced broker_names load_data parse
    parse_gateway gateway_of parse_secret_runtime runtime_of network_of parse_entries
    parse_capabilities mode_of rule_of parse_rule parse_env_policy parse_provider_proxy
    parse_secrets parse_secret_aliases each get_or to_fields is_loopback_host computing
change_builds = refl

change_applies :
    apply_local py no_address no_url (λ url. none) some (λ s. false) shape file payload
    ≡ (some next_json, ok answer)
unfolding apply_local apply_built response plans_of to_fields sorted_names insert_name computing
change_applies = rw (apply_local, change_builds) refl

build_mutation-IsScreened_example :
    (mutation : Dict Text Json) × (extract_policy_payload payload ≡ ok mutation)
    × IsScreened (λ s. false) mutation
build_mutation-IsScreened_example =
    build_mutation-IsScreened py no_address no_url (λ url. none) some (λ s. false) shape file
      payload built change_builds

apply_local-IsWellFormed_example :
    ((true ≡ false) × (some next_json ≡ file))
    ⊎ ((raw : Json) × (true ≡ true)
        × (some next_json ≡ some raw)
        × (load_data py no_address no_url raw ≡ ok next)
        × IsWellFormed no_address no_url next)
apply_local-IsWellFormed_example =
    apply_local-IsWellFormed py no_address no_url (λ url. none) some (λ s. false) shape file payload
      (some next_json) answer change_applies

abbrev refusal : Error
refusal = value_error (lit "policy mutation payload must be a JSON object")

bad_fails :
    build_mutation py no_address no_url (λ url. none) some (λ s. false) shape file (text [])
    ≡ raised refusal
unfolding build_mutation load_raw_config extract_policy_payload computing
bad_fails = refl

bad_raises :
    apply_local py no_address no_url (λ url. none) some (λ s. false) shape file (text [])
    ≡ (file, raised refusal)
unfolding apply_local apply_built
bad_raises = rw (apply_local, bad_fails) refl

nothing_built :
    (m : Mutation)
    → build_mutation py no_address no_url (λ url. none) some (λ s. false) shape file (text [])
      ≡ ok m
    → length (Dict.keys m.config.capabilities) ≤ 50103
nothing_built m e = absurd (cc (bad_fails, e))

apply_local-raises_example :
    (file ≡ file) ⊎ ((refusal ≡ unicode_error) × ((t : Text) × (some t ≡ none)))
apply_local-raises_example =
    apply_local-raises py no_address no_url (λ url. none) some (λ s. false) shape file (text [])
      file refusal nothing_built bad_raises

-- A raw secret is refused as the text of a field, and passes inside an object: the text of the
-- whole object is written.
key_refused :
    rule_field py
      (λ s. false)
      (lit "env_policy.K.reason")
      (lit "reason")
      (text (lit "sk-live-12345"))
    ≡ raised (value_error (lit "env_policy.K.reason must not include raw secrets"))
unfolding rule_field reject_raw_secret_value looks_like_raw_secret_value secret_from secret_at
    computing
key_refused = refl

nested_key_passes :
    rule_field py
      (λ s. false)
      (lit "env_policy.K.reason")
      (lit "reason")
      (object (field (lit "note") (text (lit "sk-live-12345")) end))
    ≡ ok (text (py.show (object (field (lit "note") (text (lit "sk-live-12345")) end))))
unfolding rule_field reject_raw_secret_value computing
nested_key_passes = refl
