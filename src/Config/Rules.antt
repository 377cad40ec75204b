-- ===== src/Config/Rules.antt =====
-- agentsecure/core/config.py: `_parse_env_policy`.
use agentsecure_community.Base.{
  ◌≡◌, Bool, true, false, not, ◌&&◌, none, some, [], ◌++◌, ◌==◌, arith, if◌then◌else◌,
}
use agentsecure_community.Base.Text.{Text, lit, text_eq, is_empty}
use agentsecure_community.Base.Dict
use agentsecure_community.Base.Dict.{Dict}
use agentsecure_community.Base.Exec.{Result, ok, raised, config_error, ◌>>=◌}
use agentsecure_community.Base.Json.{
  Json, array, nil, object, entries, get_or, Python, get_str, strs,
}
use agentsecure_community.Model.{
  Mode, mode_deny, mode_virtualize, mode_broker, EnvKeyPolicy, EnvPolicy, Capability,
}
use agentsecure_community.Broker.{is_broker}
use agentsecure_community.Config.Values.{refuse, parse_entries}

abbrev pub about_rule : Text → Text → Text
about_rule env_name problem = lit "env_policy." ++ env_name ++ problem

-- The mode that a rule's text names.
unfoldable pub mode_of : Text → Text → Result Mode
mode_of env_name mode =
    if mode == lit "deny"
    then ok mode_deny
    else if mode == lit "virtualize"
    then ok mode_virtualize
    else if mode == lit "broker"
    then ok mode_broker
    else raised
        (config_error (about_rule env_name (lit ".mode must be deny, virtualize, or broker")))

abbrev pub is_declared : Dict Text Capability → Text → Bool
is_declared capabilities name = elim (Dict.lookup name capabilities) [
  | none ↦ false
  | some _ ↦ true
]

-- A rule in broker mode names a capability that is declared.
abbrev pub IsServed : Dict Text Capability → EnvKeyPolicy → Type 0
IsServed capabilities rule =
    rule.mode ≡ mode_broker
    → (is_empty rule.capability ≡ false) × (is_declared capabilities rule.capability ≡ true)

module _ (py : Python) (capabilities : Dict Text Capability) where
  -- The body of the loop, on the dictionary that the entry is.
  unfoldable pub rule_of : Text → Dict Text Json → Result EnvKeyPolicy
  unfolding mode_of
  rule_of env_name data' =
      let capability = get_str py (lit "capability") [] data' in
      mode_of env_name (get_str py (lit "mode") (lit "virtualize") data') >>= λ mode.
      refuse (is_broker mode && is_empty capability)
        (about_rule env_name (lit ".capability is required for broker mode"))
        (refuse (is_broker mode && not (is_declared capabilities capability))
          (about_rule env_name (lit ".capability must reference a configured capability"))
          (strs py (get_or (lit "approved_hosts") (array nil) data') >>= λ approved_hosts.
            ok (record {
              mode = mode;
              access = get_str py (lit "access") [] data';
              environment = get_str py (lit "environment") [] data';
              risk = get_str py (lit "risk") [] data';
              approved_hosts = approved_hosts;
              reason = get_str py (lit "reason") [] data';
              capability = capability;
            })))

  unfoldable pub parse_rule : Text → Json → Result EnvKeyPolicy
  unfolding rule_of
  parse_rule env_name (object fields) = rule_of env_name (entries fields)
  parse_rule env_name _ = raised (config_error (about_rule env_name (lit " must be a JSON object")))

  unfoldable pub parse_env_policy : Json → Result EnvPolicy
  unfolding parse_rule
  parse_env_policy (object fields) = parse_entries (λ name. name) parse_rule (entries fields) []
  parse_env_policy _ = raised (config_error (lit "env_policy must be a JSON object"))

  rule_of-IsServed :
      (env_name : Text) (data' : Dict Text Json) (rule : EnvKeyPolicy)
      → rule_of env_name data' ≡ ok rule
      → IsServed capabilities rule
  unfolding rule_of
  rule_of-IsServed env_name data' rule h is_brokered = ground arith

  pub parse_rule-IsServed :
      (env_name : Text) (value : Json) (rule : EnvKeyPolicy)
      → parse_rule env_name value ≡ ok rule
      → IsServed capabilities rule
  unfolding parse_rule
  parse_rule-IsServed env_name (object fields) rule h =
      rule_of-IsServed env_name (entries fields) rule h
  parse_rule-IsServed env_name _ rule h = cc
