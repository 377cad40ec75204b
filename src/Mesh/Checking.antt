-- ===== src/Mesh/Checking.antt =====
-- agentsecure/mesh/service.py: `check_messages` and the approvals that wait for an agent, for a
-- project outside the cloud.
use agentsecure_community.Base.{
  ℕ, suc, ◌≡◌, refl, Bool, false, ◌&&◌, Option, none, some, List, [], ◌∷◌, ◌++◌, arith, ◌==◌,
  if◌then◌else◌,
}
use agentsecure_community.Base.Lists.{length, keep}
use agentsecure_community.Base.Text.{Text, lit, text_eq, is_empty, decimal}
use agentsecure_community.Base.Dict
use agentsecure_community.Base.Dict.{Dict}
use agentsecure_community.Base.Exec.{Result, ok, ◌>>=◌}
use agentsecure_community.Mesh.{MeshMessage, ApprovalRequest, MeshState}
use agentsecure_community.Mesh.Redaction.{required_id}
use agentsecure_community.Mesh.Messages.{is_listed, insert_message, newest_first, list_messages}
use agentsecure_community.Mesh.Messages.Listing.{listed}
use agentsecure_community.Mesh.Approvals.{
  approval_matches_approver, insert_approval, newest_approvals,
}
use agentsecure_community.Mesh.Agents.{AgentIdentity}

pub record Check : Type 0 where
  pub agent_id : Text
  pub unread_count : ℕ
  pub pending_approval_count : ℕ
  pub notice : Text

-- The ids that an agent approves as: its own, and that of its team if it has one.
abbrev pub approver_ids : Text → Option AgentIdentity → List Text
approver_ids agent_id none = agent_id ∷ []
approver_ids agent_id (some agent) =
    if is_empty agent.team then agent_id ∷ [] else agent_id ∷ agent.team ∷ []

abbrev pub waits_for : List Text → ApprovalRequest → Bool
waits_for ids approval = approval.status == lit "pending" && approval_matches_approver approval ids

module _ (agents : Dict Text AgentIdentity) (state : MeshState) where
  -- `_pending_approvals_for_agent`
  unfoldable pub pending_approvals : Text → List ApprovalRequest
  pending_approvals agent_id = newest_approvals (
      keep (waits_for (approver_ids agent_id (Dict.lookup agent_id agents)))
        (Dict.values state.approvals))

  abbrev pub checked : Text → List MeshMessage → Check
  checked agent_id messages = record {
    agent_id = agent_id;
    unread_count = length messages;
    pending_approval_count = length (pending_approvals agent_id);
    notice =
        lit "You have "
        ++ decimal (length messages)
        ++ lit
            " new AgentSecure message(s). Call agentsecure.list_messages or agentsecure.read_message.";
  }

  unfoldable pub check_messages : Text → Result Check
  check_messages agent_id = required_id agent_id (lit "agent_id") >>= λ agent.
      list_messages state agent false >>= λ messages. ok (checked agent messages)

  length-insert_message :
      (message : MeshMessage) (messages : List MeshMessage)
      → length (insert_message message messages) ≡ suc (length messages)
  unfolding insert_message
  length-insert_message message [] = refl
  length-insert_message message (other ∷ rest) = ground (arith, length-insert_message message rest)

  length-newest_first :
      (messages : List MeshMessage) → length (newest_first messages) ≡ length messages
  unfolding newest_first
  length-newest_first [] = refl
  length-newest_first (message ∷ rest) =
      ground (arith, length-newest_first rest, length-insert_message message (newest_first rest))

  length-insert_approval :
      (approval : ApprovalRequest) (approvals : List ApprovalRequest)
      → length (insert_approval approval approvals) ≡ suc (length approvals)
  unfolding insert_approval
  length-insert_approval approval [] = refl
  length-insert_approval approval (other ∷ rest) =
      ground (arith, length-insert_approval approval rest)

  length-newest_approvals :
      (approvals : List ApprovalRequest) → length (newest_approvals approvals) ≡ length approvals
  unfolding newest_approvals
  length-newest_approvals [] = refl
  length-newest_approvals (approval ∷ rest) =
      ground (
        arith,
        length-newest_approvals rest,
        length-insert_approval approval (newest_approvals rest),
      )

  -- For an agent whose id has no blanks at its ends, the check succeeds and counts the stored
  -- messages to the agent that it has not read, and the stored approvals that are pending and whose
  -- approver it or its team is.
  pub check_messages_counts :
      (agent_id : Text)
      → required_id agent_id (lit "agent_id") ≡ ok agent_id
      → (check : Check) × (check_messages agent_id ≡ ok check)
        × (check.unread_count
            ≡ length (keep (is_listed agent_id false) (Dict.values state.messages)))
        × (check.pending_approval_count
            ≡ length (
                keep
                  (waits_for (approver_ids agent_id (Dict.lookup agent_id agents)))
                  (Dict.values state.approvals)))
  unfolding check_messages pending_approvals
  check_messages_counts agent_id e = (
    checked agent_id (newest_first (keep (is_listed agent_id false) (Dict.values state.messages))),
    rw (e, listed state agent_id agent_id false e) refl,
    length-newest_first _,
    length-newest_approvals _,
  )
