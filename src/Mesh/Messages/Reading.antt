-- ===== src/Mesh/Messages/Reading.antt =====
-- agentsecure/mesh/service.py: who reads a message, and what reading it again does.
use agentsecure_community.Base.{
  ℕ, ◌≡◌, ◌⊎◌, false, refl, ◌∙◌, inl, inr, ◌==◌, Bool-cases, Option, none, some, arith,
}
use agentsecure_community.Base.Text.{Text, lit, text_eq}
use agentsecure_community.Base.Dict
use agentsecure_community.Base.Exec.{Result-cases, ok}
use agentsecure_community.Mesh.{MeshMessage, MeshRun}
use agentsecure_community.Mesh.Saved.{lookup-saved-insert}
use agentsecure_community.Mesh.Redaction.{required_id}
use agentsecure_community.Mesh.Messages.{read_found, read_message}

-- What holds when a message was read: it is the agent's, it is marked as read, and so is the
-- stored one.
abbrev pub WasRead : Text → Text → MeshMessage → MeshRun → Type 0
WasRead id agent message t =
    (message.to ≡ agent)
    × (message.status ≡ lit "read")
    × (Dict.lookup id t.state.messages ≡ some message)

read_found_lem :
    (id agent : Text) (now : ℕ) (s : MeshRun) (found : Option MeshMessage) (message : MeshMessage)
    (t : MeshRun)
    → Dict.lookup id s.state.messages ≡ found
    → read_found id agent now s found ≡ (ok message, t)
    → WasRead id agent message t
unfolding read_found
read_found_lem id agent now s none message t e h = absurd (ground arith)
read_found_lem id agent now s (some old) message t e h = ground (
  arith,
  lookup-saved-insert id id (record old { status = lit "read"; read_at = now }) s.state.messages,
)

read_message_ids :
    (message_id agent_id : Text) (now : ℕ) (s : MeshRun) (message : MeshMessage) (t : MeshRun)
    → read_message message_id agent_id now s ≡ (ok message, t)
    → (id : Text) × (agent : Text) × (required_id message_id (lit "message_id") ≡ ok id)
      × (required_id agent_id (lit "agent_id") ≡ ok agent)
      × (read_found id agent now s (Dict.lookup id s.state.messages) ≡ (ok message, t))
unfolding read_message
read_message_ids message_id agent_id now s message t h =
    elim (Result-cases (required_id message_id (lit "message_id"))) [
      | inl (error, e) ↦ absurd (ground arith)
      | inr (id, e) ↦ elim (Result-cases (required_id agent_id (lit "agent_id"))) [
        | inl (error, f) ↦ absurd (ground arith)
        | inr (agent, f) ↦ (id, agent, e, f, ground arith)
      ]
    ]

ids_read_message :
    (message_id agent_id : Text) (now : ℕ) (s : MeshRun) (id agent : Text)
    → required_id message_id (lit "message_id") ≡ ok id
    → required_id agent_id (lit "agent_id") ≡ ok agent
    → read_message message_id agent_id now s
      ≡ read_found id agent now s (Dict.lookup id s.state.messages)
unfolding read_message
ids_read_message message_id agent_id now s id agent e f = ground arith

read_found_again :
    (id agent : Text) (now : ℕ) (message : MeshMessage) (t : MeshRun)
    → WasRead id agent message t
    → read_found id agent now t (Dict.lookup id t.state.messages) ≡ (ok message, t)
unfolding read_found
read_found_again id agent now message t (to, status, stored) = rw stored (ground arith)

-- A message that is read is addressed to the reader, and it and its stored copy are then marked as
-- read. Reading it again, at any time, gives the same message and changes neither the state nor
-- the log.
pub read_message_once :
    (message_id agent_id : Text) (now later : ℕ) (s : MeshRun) (message : MeshMessage) (t : MeshRun)
    → read_message message_id agent_id now s ≡ (ok message, t)
    → ((id : Text) × (agent : Text) × (required_id message_id (lit "message_id") ≡ ok id)
        × (required_id agent_id (lit "agent_id") ≡ ok agent)
        × WasRead id agent message t)
      × (read_message message_id agent_id later t ≡ (ok message, t))
read_message_once message_id agent_id now later s message t h =
    let (id, agent, e, f, r) = read_message_ids message_id agent_id now s message t h in
    let was = read_found_lem id agent now s (Dict.lookup id s.state.messages) message t refl r in
    (
      (id, agent, e, f, was),
      ids_read_message message_id agent_id later t id agent e f
          ∙ read_found_again id agent later message t was,
    )

-- The message that is read is the stored one, or the stored one marked as read; the state differs
-- at most in that message.
abbrev pub IsRead : Text → MeshMessage → ℕ → MeshRun → MeshRun → Type 0
IsRead id message now s t =
    ((stored : MeshMessage) × (Dict.lookup id s.state.messages ≡ some stored)
      × ((message ≡ stored) ⊎ (message ≡ record stored { status = lit "read"; read_at = now })))
    × (t.state.approvals ≡ s.state.approvals)
    × ((other : Text)
        → other == id ≡ false
        → Dict.lookup other t.state.messages ≡ Dict.lookup other s.state.messages)

read_found-IsRead :
    (id agent : Text) (now : ℕ) (s : MeshRun) (found : Option MeshMessage) (message : MeshMessage)
    (t : MeshRun)
    → Dict.lookup id s.state.messages ≡ found
    → read_found id agent now s found ≡ (ok message, t)
    → IsRead id message now s t
unfolding read_found
read_found-IsRead id agent now s none message t e h = absurd (ground arith)
read_found-IsRead id agent now s (some old) message t e h = elim (Bool-cases (old.to == agent)) [
  | inr f ↦ absurd (ground arith)
  | inl f ↦ elim (Bool-cases (old.status == lit "read")) [
    | inl g ↦ ((old, e, inl ground arith), ground arith, λ other ne. ground arith)
    | inr g ↦ (
      (old, e, inr ground arith),
      ground arith,
      λ other ne. ground (
        arith,
        ne,
        lookup-saved-insert other id (record old { status = lit "read"; read_at = now })
            s.state.messages,
      ),
    )
  ]
]

pub read_message-IsRead :
    (message_id agent_id : Text) (now : ℕ) (s : MeshRun) (message : MeshMessage) (t : MeshRun)
    → read_message message_id agent_id now s ≡ (ok message, t)
    → (id : Text) × (agent : Text) × (required_id message_id (lit "message_id") ≡ ok id)
      × (required_id agent_id (lit "agent_id") ≡ ok agent)
      × WasRead id agent message t
      × IsRead id message now s t
read_message-IsRead message_id agent_id now s message t h =
    let (id, agent, e, f, r) = read_message_ids message_id agent_id now s message t h in
    (
      id,
      agent,
      e,
      f,
      read_found_lem id agent now s (Dict.lookup id s.state.messages) message t refl r,
      read_found-IsRead id agent now s (Dict.lookup id s.state.messages) message t refl r,
    )
