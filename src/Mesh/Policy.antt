-- ===== src/Mesh/Policy.antt =====
-- agentsecure/mesh/service.py: `get_policy_hint`, the local policy between agents.
pub mod Words
pub mod Decision
use agentsecure_community.Base.{
  ℕ, Bool, true, false, not, ◌&&◌, ◌||◌, Option, none, some, List, [], ◌∷◌, ◌++◌, ◌==◌, contains,
  if◌then◌else◌,
}
use agentsecure_community.Base.Lists.{any, length}
use agentsecure_community.Base.Text.{
  Text, lit, text_eq, is_empty, lower, in_range, starts_with, drop_text,
}
use agentsecure_community.Base.Dict
use agentsecure_community.Base.Dict.{Dict}
use agentsecure_community.Base.Exec.{Result, ok, ◌>>=◌}
use agentsecure_community.Mesh.{Resource}
use agentsecure_community.Mesh.Redaction.{safe_resource, required_id}

-- `mesh.agents.<agent>` of the configuration.
pub record AgentPolicy : Type 0 where
  pub cannot : List Text
  pub can_message : List Text
  pub requires_human_for : List Text

abbrev no_policy : AgentPolicy
no_policy = record { cannot = []; can_message = []; requires_human_for = [] }

unfoldable pub policy_of : Dict Text AgentPolicy → Text → AgentPolicy
policy_of agents agent_id = elim (Dict.lookup agent_id agents) [
  | none ↦ no_policy
  | some policy ↦ policy
]

abbrev pub sensitive_action_markers : List Text
sensitive_action_markers =
    lit "deploy"
    ∷ lit "production"
    ∷ lit "prod"
    ∷ lit "secret"
    ∷ lit "staging"
    ∷ lit "migration"
    ∷ lit "risky"
    ∷ lit "infrastructure"
    ∷ lit "api_contract"
    ∷ []

abbrev pub is_letter_or_digit : ℕ → Bool
is_letter_or_digit c = in_range 97 122 c || in_range 48 57 c

abbrev pub starts_in_word : Text → Bool
starts_in_word [] = false
starts_in_word (c ∷ s) = is_letter_or_digit c

-- `re.search` of `(?<![a-z0-9])marker(?![a-z0-9])`, behind a character in a word or not.
unfoldable pub has_word : Text → Bool → Text → Bool
has_word marker in_word [] = false
has_word marker in_word (c ∷ s) =
    let later = has_word marker (is_letter_or_digit c) s in
    (not in_word
      && starts_with (c ∷ s) marker
      && not (starts_in_word (drop_text (length marker) (c ∷ s))))
    || later

-- `_hint`; `blocked` is the negation of `allowed`.
pub record Hint : Type 0 where
  pub allowed : Bool
  pub reason : Text
  pub action : Text
  pub resource : Resource
  pub allowed_next_step : Text

abbrev pub hint : Bool → Text → Text → Resource → Hint
hint allowed reason action resource = record {
  allowed = allowed;
  reason = reason;
  action = action;
  resource = safe_resource resource;
  allowed_next_step = if allowed then [] else lit "call agentsecure.request_approval";
}

abbrev pub has_any : List Text → Bool
has_any [] = false
has_any (_ ∷ _) = true

module _ (dumps : Resource → Text) where
  unfoldable pub resource_requires_approval : Text → Resource → Bool
  unfolding has_word
  resource_requires_approval action resource =
      let text = lower (action ++ lit " " ++ dumps resource) in
      any (λ marker. has_word marker false text) sensitive_action_markers

  -- The tests of `get_policy_hint`, on the policy of the agent.
  unfoldable pub policy_hint : AgentPolicy → Text → Resource → Text → Hint
  policy_hint policy action resource target =
      if contains policy.cannot action
      then hint false (lit "action is denied by local mesh policy") action resource
      else if action == lit "send_message"
          && not (is_empty target)
          && has_any policy.can_message
          && not (contains policy.can_message target)
      then hint false (lit "agent is not allowed to message " ++ target) action resource
      else if contains policy.requires_human_for action
          || resource_requires_approval action resource
      then hint false (lit "action requires human approval") action resource
      else hint true (lit "allowed by local mesh policy") action resource

  unfoldable pub get_policy_hint :
      Dict Text AgentPolicy → Text → Text → Resource → Text → Result Hint
  unfolding policy_hint
  get_policy_hint agents agent_id action resource target =
      required_id agent_id (lit "agent_id") >>= λ agent_id'.
      required_id action (lit "action") >>= λ action'.
      ok (policy_hint (policy_of agents agent_id') action' resource target)
