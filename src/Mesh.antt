-- ===== src/Mesh.antt =====
-- agentsecure/mesh/models.py and agentsecure/mesh/store.py: the records of the mesh, and its state.
-- The service is modelled for a project that is not enrolled in the cloud. Times are natural
-- numbers; `time.time`, `uuid4`, `sha256` and `json.dumps` are parameters.
pub mod Redaction
pub mod Summary
pub mod Launch
pub mod Agents
pub mod Checking
pub mod Policy
pub mod Messages
pub mod Approvals
pub mod Saved
use agentsecure_community.Base.{ℕ, Bool, true, false, List, [], ◌∷◌, ◌==◌, if◌then◌else◌}
use agentsecure_community.Base.Text.{Text, text_leb}
use agentsecure_community.Base.Dict.{Dict}
use agentsecure_community.Base.Json.{Fields}

-- A value of a resource that is no list and no object.
pub data Scalar : Type 0 where
  null : Scalar
  flag : Bool → Scalar
  number : ℕ → Scalar
  text : Text → Scalar
  -- An object or a list in a list, as `str` shows it.
  shown : Text → Scalar

pub data ResourceValue : Type 0 where
  scalar : Scalar → ResourceValue
  scalars : List Scalar → ResourceValue
  nested : Fields → ResourceValue

abbrev pub Resource : Type 0
Resource = Dict Text ResourceValue

-- `MeshMessage.to_dict()` with the keys that `send_message` adds.
pub record MeshMessage : Type 0 where
  pub message_id : Text
  pub from_agent : Text
  pub to : Text
  pub type : Text
  pub subject : Text
  pub body : Text
  pub resource : Resource
  pub status : Text
  pub thread_id : Text
  pub reply_to : Text
  pub created_at : ℕ
  pub read_at : ℕ
  pub body_sha256 : Text
  pub body_summary : Text
  pub content_redacted : Bool

-- `ApprovalRequest.to_dict()` with the keys that `request_approval` and `resolve_approval` add.
pub record ApprovalRequest : Type 0 where
  pub approval_id : Text
  pub requested_by : Text
  pub action : Text
  pub resource : Resource
  pub reason : Text
  pub reason_sha256 : Text
  pub reason_summary : Text
  pub status : Text
  pub required_approver : Dict Text Text
  pub decision : Text
  pub decision_reason : Text
  pub decision_reason_sha256 : Text
  pub decision_reason_summary : Text
  pub decided_by : Text
  pub created_at : ℕ
  pub decided_at : ℕ
  pub content_redacted : Bool

-- The parts of the state that messages and approvals use.
pub record MeshState : Type 0 where
  pub messages : Dict Text MeshMessage
  pub approvals : Dict Text ApprovalRequest

-- `json.dump(state, sort_keys=True)` and the load behind it leave the keys in order.
unfoldable pub insert_entry {ℓ} : {V : Type ℓ} → Text → V → Dict Text V → Dict Text V
insert_entry key value [] = (key, value) ∷ []
insert_entry key value ((other, found) ∷ rest) =
    let later = insert_entry key value rest in
    if text_leb key other then (key, value) ∷ (other, found) ∷ rest else (other, found) ∷ later

unfoldable pub saved {ℓ} : {V : Type ℓ} → Dict Text V → Dict Text V
unfolding insert_entry
saved [] = []
saved ((key, value) ∷ rest) = insert_entry key value (saved rest)

-- What a refused action records.
pub record PolicyDenial : Type 0 where
  pub agent_id : Text
  pub action : Text
  pub resource : Resource
  pub reason : Text
  pub reason_sha256 : Text
  pub reason_summary : Text
  pub allowed_next_step : Text

-- What the service hands to the audit logger, by event type.
pub data MeshEvent : Type 0 where
  message_sent : MeshMessage → MeshEvent
  message_read : (message_id reader : Text) → MeshEvent
  policy_denied : PolicyDenial → MeshEvent
  approval_requested : ApprovalRequest → MeshEvent
  approval_decided : ApprovalRequest → MeshEvent

pub record MeshRun : Type 0 where
  pub state : MeshState
  pub log : List MeshEvent
