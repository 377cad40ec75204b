-- ===== src/Guard.antt =====
-- agentsecure/guard/sanitizer.py: the text that an agent is shown, without the real secrets.
-- Parameters: the two secret stores, which the vault has for bindings of an alias, the environment
-- of the process, and those of the broker URLs.
pub mod Replacing
pub mod Hiding
pub mod Splicing
pub mod Rewriter
pub mod Commands
use agentsecure_community.Base.{
  ℕ, zero, suc, ◌+◌, ◌-◌, Bool, true, false, not, ◌&&◌, ◌||◌, Option, none, some, List, [], ◌∷◌,
  ◌++◌, ◌==◌, nat_eq, ltb, contains, if◌then◌else◌,
}
use agentsecure_community.Base.Lists.{length, keep}
use agentsecure_community.Base.Text.{
  Text, lit, text_eq, is_empty, strip, starts_with, after_char, drop_text,
}
use agentsecure_community.Base.Dict
use agentsecure_community.Base.Dict.{Dict}
use agentsecure_community.Base.Exec.{Result, ok, raised, ◌>>=◌}
use agentsecure_community.Model.{
  Mode, mode_deny, mode_virtualize, mode_broker, SecretBinding, EnvKeyPolicy, rule_for,
  AgentSecureConfig,
}
use agentsecure_community.Network.{Ip}
use agentsecure_community.Broker.{broker_url_for_env}

-- `text.replace(old, new)` behind a number of characters that are replaced already, for a text
-- `old` that is not empty.
unfoldable pub replace_from : Text → Text → ℕ → Text → Text
replace_from old new skip [] = []
replace_from old new (suc skip) (c ∷ s) = replace_from old new skip s
replace_from old new zero (c ∷ s) = elim (starts_with (c ∷ s) old) [
  | true ↦ new ++ replace_from old new (length old - 1) s
  | false ↦ c ∷ replace_from old new zero s
]

unfoldable pub replace : Text → Text → Text → Text
unfolding replace_from
replace old new s = replace_from old new zero s

-- The characters that end a line for `splitlines`.
abbrev is_break : ℕ → Bool
is_break c = contains (10 ∷ 11 ∷ 12 ∷ 13 ∷ 28 ∷ 29 ∷ 30 ∷ 133 ∷ 8232 ∷ 8233 ∷ []) c

abbrev glue : ℕ → List Text → List Text
glue c [] = (c ∷ []) ∷ []
glue c (line ∷ lines) = (c ∷ line) ∷ lines

-- `text.splitlines(True)`; a carriage return and a line feed end one line together.
unfoldable pub split_lines : Text → List Text
split_lines [] = []
split_lines (c ∷ s) =
    let lines = split_lines s in
    if is_break c && not (c == 13 && starts_with s (10 ∷ []))
    then (c ∷ []) ∷ lines
    else glue c lines

-- `"".join(lines)`
abbrev pub join : List Text → Text
join [] = []
join (line ∷ lines) = line ++ join lines

-- `text.split("=", 1)[0]`, with `none` for a text without that character.
abbrev pub before_equals : Text → Option Text
before_equals [] = none
before_equals (c ∷ s) =
    let rest = before_equals s in
    if c == b'=' then some [] else elim rest [ none ↦ none | some name ↦ some (c ∷ name) ]

-- `name[len("export "):].strip()` where the name starts so.
abbrev without_export : Text → Text
without_export name = if starts_with name (lit "export ") then strip (drop_text 7 name) else name

abbrev or_no_name : Text → Option Text
or_no_name name = if is_empty name then none else some name

abbrev named_by : Option Text → Option Text
named_by none = none
named_by (some name) = or_no_name (without_export (strip name))

-- `_parse_env_assignment_name`
unfoldable pub parse_env_assignment_name : Text → Option Text
parse_env_assignment_name line =
    let stripped = strip line in
    if starts_with stripped (lit "#") then none else named_by (before_equals stripped)

pub record SecretReplacementMap : Type 0 where
  pub replacements : Dict Text Text
  pub denied_env_names : List Text
  pub denied_values : List Text

abbrev names_denied : List Text → Option Text → Bool
names_denied names none = false
names_denied names (some name) = contains names name

-- `_remove_denied_env_lines`
unfoldable pub remove_denied_env_lines : List Text → Text → Text
unfolding parse_env_assignment_name split_lines
remove_denied_env_lines [] value = value
remove_denied_env_lines (name ∷ names) value = join (
    keep (λ line. not (names_denied (name ∷ names) (parse_env_assignment_name line)))
      (split_lines value))

-- `sorted(..., key=len, reverse=True)`
unfoldable pub insert_longer : {A : Type 0} → (A → Text) → A → List A → List A
insert_longer key a [] = a ∷ []
insert_longer key a (b ∷ rest) =
    let later = insert_longer key a rest in
    if ltb (length (key a)) (length (key b)) then b ∷ later else a ∷ b ∷ rest

unfoldable pub longest_first : {A : Type 0} → (A → Text) → List A → List A
unfolding insert_longer
longest_first key [] = []
longest_first key (a ∷ rest) = insert_longer key a (longest_first key rest)

-- The two loops of `sanitize_text`.
unfoldable pub drop_denied : List Text → Text → Text
unfolding replace
drop_denied [] text = text
drop_denied (value ∷ values) text = drop_denied values (replace value [] text)

unfoldable pub replace_all : Dict Text Text → Text → Text
unfolding replace
replace_all [] text = text
replace_all ((real_value, virtual_value) ∷ rest) text =
    replace_all rest (replace real_value virtual_value text)

abbrev pub real_of : Text × Text → Text
real_of item = item.0

unfoldable pub sanitize_text : SecretReplacementMap → Text → Text
unfolding remove_denied_env_lines longest_first drop_denied replace_all
sanitize_text map value = replace_all (longest_first real_of map.replacements) (
    drop_denied (longest_first (λ text. text) map.denied_values)
      (remove_denied_env_lines map.denied_env_names value))

-- The names that the policy denies.
unfoldable pub denied_names : Dict Text EnvKeyPolicy → List Text
denied_names [] = []
denied_names ((env_name, rule) ∷ rules) =
    let rest = denied_names rules in
    elim rule.mode [ mode_deny ↦ env_name ∷ rest | mode_virtualize ↦ rest | mode_broker ↦ rest ]

module _ (ip_address : Text → Option Ip) (url_path : Text → Option Text)
    (quote : Text → Option Text) (secret_get vault_get : Text → Option Text)
    (environ : Text → Option Text) where
  abbrev or_blank : Option Text → Text
  or_blank none = []
  or_blank (some text) = text

  abbrev stored : Text → Text → Text
  stored alias_id secret_id =
      or_blank (if is_empty alias_id then secret_get secret_id else vault_get secret_id)

  -- `_real_value`, with the store that the loop picks.
  unfoldable pub real_value_of : SecretBinding → Text
  real_value_of binding =
      if starts_with binding.real_secret_ref (lit "local:")
      then stored binding.alias_id (after_char b':' binding.real_secret_ref)
      else if is_empty binding.real_secret_env
      then []
      else or_blank (environ binding.real_secret_env)

  -- The body of the loop of `from_config_path`.
  unfoldable pub add_value :
      AgentSecureConfig → SecretReplacementMap → SecretBinding → Text → Result SecretReplacementMap
  add_value config map binding [] = ok map
  add_value config map binding (c ∷ real) =
      elim (rule_for config.env_policy binding.env_name).mode [
        | mode_deny ↦ ok (record map {
          denied_values =
              if contains map.denied_values (c ∷ real)
              then map.denied_values
              else (c ∷ real) ∷ map.denied_values;
        })
        | mode_broker ↦
            broker_url_for_env ip_address url_path quote config binding.env_name (c ∷ real)
            >>= λ url.
                ok (record map { replacements = Dict.insert (c ∷ real) url map.replacements })
        | mode_virtualize ↦ ok (record map {
          replacements = Dict.insert (c ∷ real) binding.virtual_token map.replacements;
        })
      ]

  unfoldable pub add_values :
      AgentSecureConfig → SecretReplacementMap → List SecretBinding → Result SecretReplacementMap
  unfolding add_value real_value_of
  add_values config map [] = ok map
  add_values config map (binding ∷ bindings) =
      add_value config map binding (real_value_of binding) >>= λ added.
      add_values config added bindings

  -- `from_config_path`, with the configuration that it loads and the bindings of the run.
  unfoldable pub from_config : AgentSecureConfig → List SecretBinding → Result SecretReplacementMap
  unfolding add_values denied_names
  from_config config runtime_bindings =
      add_values config
        (record {
          replacements = [];
          denied_env_names = denied_names config.env_policy;
          denied_values = [];
        })
        (config.secrets ++ runtime_bindings)
