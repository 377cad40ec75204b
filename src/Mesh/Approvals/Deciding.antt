-- ===== src/Mesh/Approvals/Deciding.antt =====
-- agentsecure/mesh/service.py: what a decision leaves, and what a later look at it shows.
use agentsecure_community.Base.{
  ℕ, ◌≡◌, refl, ◌⊎◌, inl, inr, true, Option, none, some, [], ◌∷◌, arith, contains, ◌==◌,
  if◌then◌else◌,
}
use agentsecure_community.Base.Text.{Text, lit, text_eq, is_empty, or_text, strip, lower}
use agentsecure_community.Base.Dict
use agentsecure_community.Base.Dict.{Dict}
use agentsecure_community.Base.Exec.{Result-cases, ok}
use agentsecure_community.Mesh.{ApprovalRequest, MeshRun}
use agentsecure_community.Mesh.Saved.{lookup-saved-insert}
use agentsecure_community.Mesh.Redaction.{required_id}
use agentsecure_community.Mesh.Approvals.{
  Decision, approve, deny, comment, normalize_decision, decided_status, decision_text, decided,
  get_approval_status, resolve_found, resolve_approval,
}

-- What each known word of a decision leaves as status and as decision.
abbrev pub Means : Text → Text → Text → Type 0
Means word status decision =
    ((contains (lit "approved" ∷ lit "approve" ∷ lit "allow" ∷ lit "yes" ∷ []) word ≡ true)
      × (status ≡ lit "approved")
      × (decision ≡ lit "approve"))
    ⊎ ((contains (lit "rejected" ∷ lit "reject" ∷ lit "deny" ∷ lit "denied" ∷ lit "no" ∷ []) word
          ≡ true)
        × (status ≡ lit "denied")
        × (decision ≡ lit "deny"))
    ⊎ ((contains (lit "comment" ∷ lit "needs_info" ∷ lit "request_more_info" ∷ []) word ≡ true)
        × (status ≡ lit "needs_info")
        × (decision ≡ lit "comment"))

-- The request itself is as it was.
abbrev pub Keeps : ApprovalRequest → ApprovalRequest → Type 0
Keeps old new =
    (new.approval_id ≡ old.approval_id)
    × (new.requested_by ≡ old.requested_by)
    × (new.action ≡ old.action)
    × (new.resource ≡ old.resource)
    × (new.reason ≡ old.reason)
    × (new.reason_sha256 ≡ old.reason_sha256)
    × (new.reason_summary ≡ old.reason_summary)
    × (new.required_approver ≡ old.required_approver)
    × (new.created_at ≡ old.created_at)
    × (new.content_redacted ≡ old.content_redacted)

-- Who decided, and when.
abbrev pub IsSigned : Text → ℕ → ApprovalRequest → Type 0
IsSigned decided_by now new =
    (new.decided_by ≡ (if is_empty decided_by then lit "human" else decided_by))
    × (new.decided_at ≡ now)

normalized-Means :
    (decision : Text) (normalized : Decision)
    → normalize_decision decision ≡ ok normalized
    → Means (lower (strip decision)) (decided_status normalized) (decision_text normalized)
unfolding normalize_decision
normalized-Means decision approve h = inl (ground arith, refl, refl)
normalized-Means decision deny h = inr (inl (ground arith, refl, refl))
normalized-Means decision comment h = inr (inr (ground arith, refl, refl))

signed_by :
    (decided_by : Text)
    → or_text decided_by (lit "human") ≡ (if is_empty decided_by then lit "human" else decided_by)
signed_by [] = refl
signed_by (c ∷ s) = refl

module _ (sha256 : Text → Text) (approval_id decision reason decided_by : Text) (now : ℕ)
    (s t : MeshRun) (approval : ApprovalRequest) where
  -- The approval is the stored request with the status and the decision of the word, signed, and is
  -- what is stored; the other approvals and the messages are as they were.
  pub record IsDecided (id : Text) (old : ApprovalRequest) : Type 0 where
    pub known : required_id approval_id (lit "approval_id") ≡ ok id
    pub found : Dict.lookup id s.state.approvals ≡ some old
    pub means : Means (lower (strip decision)) approval.status approval.decision
    pub kept : Keeps old approval
    pub signed : IsSigned decided_by now approval
    pub stored :
        (other : Text)
        → Dict.lookup other t.state.approvals
          ≡ (if other == id then some approval else Dict.lookup other s.state.approvals)
    pub messages : t.state.messages ≡ s.state.messages

  resolve_found_lem :
      (id : Text) (normalized : Decision) (found : Option ApprovalRequest)
      → resolve_found sha256 id normalized reason decided_by now s found ≡ (ok approval, t)
      → (old : ApprovalRequest) × (found ≡ some old)
        × (decided sha256 old normalized reason decided_by now ≡ approval)
        × ((other : Text)
            → Dict.lookup other t.state.approvals
              ≡ (if other == id then some approval else Dict.lookup other s.state.approvals))
        × (t.state.messages ≡ s.state.messages)
  unfolding resolve_found
  resolve_found_lem id normalized none h = absurd (ground arith)
  resolve_found_lem id normalized (some old) h = (
    old,
    refl,
    cc,
    (λ other. ground (
      arith,
      lookup-saved-insert other id (decided sha256 old normalized reason decided_by now)
          s.state.approvals,
    )),
    cc,
  )

  resolve_approval_ids :
      resolve_approval sha256 approval_id decision reason decided_by now s ≡ (ok approval, t)
      → (id : Text) × (normalized : Decision) × (required_id approval_id (lit "approval_id")
          ≡ ok id)
        × (normalize_decision decision ≡ ok normalized)
        × (resolve_found sha256 id normalized reason decided_by now s
              (Dict.lookup id s.state.approvals)
            ≡ (ok approval, t))
  unfolding resolve_approval
  resolve_approval_ids h = elim (Result-cases (required_id approval_id (lit "approval_id"))) [
    | inl (error, e) ↦ absurd (ground arith)
    | inr (id, e) ↦ elim (Result-cases (normalize_decision decision)) [
      | inl (error, f) ↦ absurd (ground arith)
      | inr (normalized, f) ↦ (id, normalized, e, f, ground arith)
    ]
  ]

  -- A decision that is taken is for a stored request and in one of the known words: the approval
  -- gets the status and the decision of that word, who decided and when, keeps the request itself,
  -- and is what is stored and what is found when its status is asked for afterwards. The other
  -- approvals and the messages are as they were.
  pub resolve_approval-IsDecided :
      resolve_approval sha256 approval_id decision reason decided_by now s ≡ (ok approval, t)
      → ((id : Text) × (old : ApprovalRequest) × IsDecided id old)
        × (get_approval_status t.state approval_id ≡ ok approval)
  unfolding get_approval_status
  resolve_approval-IsDecided h =
      let (id, normalized, e, f, r) = resolve_approval_ids h in
      let (old, found, after, stored, messages) = resolve_found_lem id normalized _ r in
      (
        (
          id,
          old,
          record {
            known = e;
            found = found;
            means = rw (← after) (normalized-Means decision normalized f);
            kept = rw (← after) (refl, refl, refl, refl, refl, refl, refl, refl, refl, refl);
            signed = rw (← after) (signed_by decided_by, refl);
            stored = stored;
            messages = messages;
          },
        ),
        ground (arith, stored id),
      )
