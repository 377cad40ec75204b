-- ===== src/Mesh/Agents.antt =====
-- agentsecure/mesh/service.py: the agents of the mesh, for a project outside the cloud.
use agentsecure_community.Base.{ℕ, ◌≡◌, none, some, List, [], ◌∷◌, ◌++◌, arith, ◌==◌, if◌then◌else◌}
use agentsecure_community.Base.Text.{Text, lit, text_eq, is_empty, or_text, text_leb}
use agentsecure_community.Base.Dict
use agentsecure_community.Base.Dict.{Dict}
use agentsecure_community.Base.Exec.{Result, ok, raised}
use agentsecure_community.Mesh.{saved}
use agentsecure_community.Mesh.Saved.{lookup-saved-insert}
use agentsecure_community.Mesh.Redaction.{required_id}

pub record AgentIdentity : Type 0 where
  pub agent_id : Text
  pub name : Text
  pub type : Text
  pub team : Text
  pub workspace : Text
  pub trust_level : Text
  pub allowed_scopes : List Text
  pub owner : Text
  pub last_seen_at : ℕ

-- The stored agents, and the identities that were recorded as `mesh.agent_registered`.
pub record Agents : Type 0 where
  pub agents : Dict Text AgentIdentity
  pub registered : List AgentIdentity

abbrev pub new_identity :
    Text → Text → Text → Text → Text → Text → List Text → Text → ℕ → AgentIdentity
new_identity agent_id name agent_type team workspace trust_level allowed_scopes owner now = record {
  agent_id = agent_id;
  name = or_text name agent_id;
  type = or_text agent_type (lit "coding_agent");
  team = team;
  workspace = or_text workspace (lit "local");
  trust_level = or_text trust_level (lit "local");
  allowed_scopes = allowed_scopes;
  owner = owner;
  last_seen_at = now;
}

unfoldable pub register_agent :
    Text
    → Text
    → Text
    → Text
    → Text
    → Text
    → List Text
    → Text
    → ℕ
    → Agents
    → Result AgentIdentity × Agents
register_agent agent_id name agent_type team workspace trust_level allowed_scopes owner now s =
    elim (required_id agent_id (lit "agent_id")) [
      | raised error ↦ (raised error, s)
      | ok id ↦
          (let identity =
              new_identity id name agent_type team workspace trust_level allowed_scopes owner now in
            (
              ok identity,
              record {
                agents = saved (Dict.insert id identity s.agents);
                registered = s.registered ++ (identity ∷ []);
              },
            ))
    ]

-- `sorted(agents, key=agent_id)`
unfoldable pub insert_agent : AgentIdentity → List AgentIdentity → List AgentIdentity
insert_agent agent [] = agent ∷ []
insert_agent agent (other ∷ rest) =
    let later = insert_agent agent rest in
    if text_leb agent.agent_id other.agent_id then agent ∷ other ∷ rest else other ∷ later

unfoldable pub sorted_agents : List AgentIdentity → List AgentIdentity
unfolding insert_agent
sorted_agents [] = []
sorted_agents (agent ∷ rest) = insert_agent agent (sorted_agents rest)

-- What `identity` returns.
pub data Identity : Type 0 where
  missing : Text → Identity
  exists : AgentIdentity → Identity
  all_agents : List AgentIdentity → Identity

unfoldable pub identity : Agents → Text → Identity
unfolding sorted_agents
identity s agent_id =
    if is_empty agent_id
    then all_agents (sorted_agents (Dict.values s.agents))
    else elim (Dict.lookup agent_id s.agents) [
      | none ↦ missing agent_id
      | some agent ↦ exists agent
    ]

-- An agent that was registered under an id that is not blank is found under it, with the defaults
-- filled in, and every other agent is found as before.
pub identity-register_agent :
    (agent_id name agent_type team workspace trust_level : Text) (allowed_scopes : List Text)
    (owner : Text) (now : ℕ) (s : Agents) (c : ℕ) (other : Text)
    → required_id agent_id (lit "agent_id") ≡ ok agent_id
    → identity
        (register_agent agent_id name agent_type team workspace trust_level allowed_scopes owner now
          s).1
        (c ∷ other)
      ≡ (if c ∷ other == agent_id
          then exists (
              new_identity agent_id name agent_type team workspace trust_level allowed_scopes owner
                now)
          else identity s (c ∷ other))
unfolding identity register_agent
identity-register_agent agent_id name agent_type team workspace trust_level allowed_scopes owner now
      s c other e =
    ground (
      arith,
      lookup-saved-insert (c ∷ other) agent_id
          (new_identity agent_id name agent_type team workspace trust_level allowed_scopes owner
            now)
          s.agents,
    )
