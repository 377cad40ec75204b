-- ===== src/Mesh/Approvals.antt =====
-- agentsecure/mesh/service.py: requests for the approval of an action, and their decision.
pub mod Deciding
use agentsecure_community.Base.{
  ℕ, Bool, true, false, not, ◌&&◌, ◌||◌, Option, none, some, List, [], ◌∷◌, ◌++◌, ◌==◌, contains,
  leb, if◌then◌else◌,
}
use agentsecure_community.Base.Lists.{keep}
use agentsecure_community.Base.Text.{Text, lit, text_eq, is_empty, or_text, strip, lower, has_sub}
use agentsecure_community.Base.Dict
use agentsecure_community.Base.Dict.{Dict}
use agentsecure_community.Base.Exec.{Result, ok, raised, value_error}
use agentsecure_community.Mesh.{
  Scalar, ResourceValue, Resource, ApprovalRequest, MeshState, approval_requested, approval_decided,
  MeshRun, saved,
}
use agentsecure_community.Mesh.Redaction.{required_id, redacted, text_summary, safe_resource}

-- What a human decides.
pub data Decision : Type 0 where
  approve deny comment : Decision

abbrev pub decision_text : Decision → Text
decision_text approve = lit "approve"
decision_text deny = lit "deny"
decision_text comment = lit "comment"

-- `_normalize_decision`
unfoldable pub normalize_decision : Text → Result Decision
normalize_decision decision =
    let normalized = lower (strip decision) in
    if contains (lit "approved" ∷ lit "approve" ∷ lit "allow" ∷ lit "yes" ∷ []) normalized
    then ok approve
    else if contains (lit "rejected" ∷ lit "reject" ∷ lit "deny" ∷ lit "denied" ∷ lit "no" ∷ [])
        normalized
    then ok deny
    else if contains (lit "comment" ∷ lit "needs_info" ∷ lit "request_more_info" ∷ []) normalized
    then ok comment
    else raised (value_error (lit "decision must be approve, reject, or comment"))

-- The status that a decision leaves.
abbrev pub decided_status : Decision → Text
decided_status approve = lit "approved"
decided_status deny = lit "denied"
decided_status comment = lit "needs_info"

-- One round of the loop in `_approval_matches_approver`.
abbrev pub key_matches : Dict Text Text → List Text → Text → Bool
key_matches required approver_ids key = elim (Dict.lookup key required) [
  | none ↦ false
  | some value ↦ contains approver_ids value
]

-- `_approval_matches_approver`
unfoldable pub approval_matches_approver : ApprovalRequest → List Text → Bool
approval_matches_approver approval approver_ids =
    key_matches approval.required_approver approver_ids (lit "id")
    || key_matches approval.required_approver approver_ids (lit "agent_id")
    || key_matches approval.required_approver approver_ids (lit "team")

-- `approvals.sort(key=created_at, reverse=True)`
unfoldable pub insert_approval : ApprovalRequest → List ApprovalRequest → List ApprovalRequest
insert_approval approval [] = approval ∷ []
insert_approval approval (other ∷ rest) =
    let later = insert_approval approval rest in
    if leb other.created_at approval.created_at then approval ∷ other ∷ rest else other ∷ later

unfoldable pub newest_approvals : List ApprovalRequest → List ApprovalRequest
unfolding insert_approval
newest_approvals [] = []
newest_approvals (approval ∷ rest) = insert_approval approval (newest_approvals rest)

-- `list_approvals`
unfoldable pub list_approvals : MeshState → Text → Text → List ApprovalRequest
unfolding newest_approvals approval_matches_approver
list_approvals state status approver = newest_approvals (
    keep
      (λ approval.
        (is_empty status || approval.status == status)
        && (is_empty approver || approval_matches_approver approval (approver ∷ [])))
      (Dict.values state.approvals))

-- `get_approval_status`
unfoldable pub get_approval_status : MeshState → Text → Result ApprovalRequest
get_approval_status state approval_id = elim (required_id approval_id (lit "approval_id")) [
  | raised error ↦ raised error
  | ok id ↦ elim (Dict.lookup id state.approvals) [
    | none ↦ raised (value_error (lit "approval not found: " ++ id))
    | some approval ↦ ok approval
  ]
]

module _ (sha256 : Text → Text) where
  -- `resource.get("team")`; a team that is no text is taken for none.
  abbrev pub team_of : Resource → Text
  team_of resource = elim (Dict.lookup (lit "team") resource) [
    | some (ResourceValue.scalar (Scalar.text team)) ↦ team
    | _ ↦ []
  ]

  -- `_required_approver`
  unfoldable pub required_approver : Text → Resource → Dict Text Text
  required_approver action resource =
      if not (is_empty (team_of resource))
      then (lit "type", lit "team") ∷ (lit "id", team_of resource) ∷ []
      else if has_sub action (lit "security") || has_sub action (lit "secret")
      then (lit "type", lit "team") ∷ (lit "id", lit "security") ∷ []
      else (lit "type", lit "human") ∷ (lit "id", lit "local-owner") ∷ []

  -- `required_approver or self._required_approver(action, resource)`
  abbrev pub approver_of : Dict Text Text → Text → Resource → Dict Text Text
  approver_of [] action resource = required_approver action resource
  approver_of (entry ∷ rest) action resource = entry ∷ rest

  -- What `resolve_approval` writes into the approval.
  abbrev pub decided : ApprovalRequest → Decision → Text → Text → ℕ → ApprovalRequest
  decided approval decision reason decided_by now = record approval {
    status = decided_status decision;
    decision = decision_text decision;
    decision_reason = if is_empty reason then [] else redacted;
    decision_reason_sha256 = if is_empty reason then [] else sha256 reason;
    decision_reason_summary = text_summary reason;
    decided_by = or_text decided_by (lit "human");
    decided_at = now;
  }

  abbrev pub store_approval : Text → ApprovalRequest → MeshState → MeshState
  store_approval approval_id approval state = record state {
    approvals = saved (Dict.insert approval_id approval state.approvals);
  }

  -- `resolve_approval` behind its checks of the id and the decision.
  unfoldable pub resolve_found :
      Text
      → Decision
      → Text
      → Text
      → ℕ
      → MeshRun
      → Option ApprovalRequest
      → Result ApprovalRequest × MeshRun
  resolve_found approval_id decision reason decided_by now s none =
      (raised (value_error (lit "approval not found: " ++ approval_id)), s)
  resolve_found approval_id decision reason decided_by now s (some approval) =
      let after = decided approval decision reason decided_by now in
      (
        ok after,
        record {
          state = store_approval approval_id after s.state;
          log =
              s.log
              ++ (approval_decided (record after { resource = safe_resource after.resource }) ∷ []);
        },
      )

  unfoldable pub resolve_approval :
      Text → Text → Text → Text → ℕ → MeshRun → Result ApprovalRequest × MeshRun
  unfolding resolve_found
  resolve_approval approval_id decision reason decided_by now s =
      elim (required_id approval_id (lit "approval_id")) [
        | raised error ↦ (raised error, s)
        | ok id ↦ elim (normalize_decision decision) [
          | raised error ↦ (raised error, s)
          | ok normalized ↦
              resolve_found id normalized reason decided_by now s (Dict.lookup id s.state.approvals)
        ]
      ]

  -- The request that is stored; an approver that is given replaces the one of the policy.
  abbrev pub new_approval :
      Text → Text → Resource → Text → Dict Text Text → Text → ℕ → ApprovalRequest
  new_approval requested_by action resource reason approver approval_id now = record {
    approval_id = approval_id;
    requested_by = requested_by;
    action = action;
    resource = safe_resource resource;
    reason = redacted;
    reason_sha256 = if is_empty reason then [] else sha256 reason;
    reason_summary = text_summary reason;
    status = lit "pending";
    required_approver = approver;
    decision = [];
    decision_reason = [];
    decision_reason_sha256 = [];
    decision_reason_summary = [];
    decided_by = [];
    created_at = now;
    decided_at = 0;
    content_redacted = true;
  }

  -- `request_approval`, with the approver that is given or an empty dictionary, and a fresh id.
  unfoldable pub request_approval :
      Text
      → Text
      → Resource
      → Text
      → Dict Text Text
      → Text
      → ℕ
      → MeshRun
      → Result ApprovalRequest × MeshRun
  unfolding required_approver
  request_approval requested_by action resource reason given approval_id now s =
      elim (required_id requested_by (lit "requested_by")) [
        | raised error ↦ (raised error, s)
        | ok requester ↦ elim (required_id action (lit "action")) [
          | raised error ↦ (raised error, s)
          | ok wanted ↦
              (let approval =
                  new_approval requester wanted resource reason (approver_of given wanted resource)
                    approval_id now in
                (
                  ok approval,
                  record {
                    state = store_approval approval_id approval s.state;
                    log =
                        s.log
                        ++ (approval_requested
                              (record approval { resource = safe_resource approval.resource })
                            ∷ []);
                  },
                ))
        ]
      ]
