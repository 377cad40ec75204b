-- ===== src/Mesh/Messages/Sending.antt =====
-- agentsecure/mesh/service.py: what sending a message leaves behind.
use agentsecure_community.Base.{
  ℕ, ◌≡◌, refl, subst, sym, inl, inr, true, false, some, [], arith, contains, ◌==◌, if◌then◌else◌,
  Bool-cases,
}
use agentsecure_community.Base.Text.{Text, lit, text_eq, is_empty, or_text}
use agentsecure_community.Base.Dict
use agentsecure_community.Base.Dict.{Dict}
use agentsecure_community.Base.Exec.{Result, ok, raised}
use agentsecure_community.Mesh.{Resource, MeshMessage, MeshRun}
use agentsecure_community.Mesh.Saved.{lookup-saved-insert}
use agentsecure_community.Mesh.Redaction.{required_id, text_summary, safe_resource}
use agentsecure_community.Mesh.Policy.{AgentPolicy, Hint, get_policy_hint}
use agentsecure_community.Mesh.Messages.{
  Sent, blocked, sent, text_hash, new_message, message_types, send_checked, send_message,
}

module _ (dumps : Resource → Text) (sha256 : Text → Text) (agents : Dict Text AgentPolicy)
    (from_agent to type subject body : Text) (resource : Resource) (reply_to message_id : Text)
    (now : ℕ) (s : MeshRun) where
  abbrev checked : Text → Text → Text → Result Hint → Result Sent × MeshRun
  checked sender receiver kind =
      send_checked dumps sha256 agents sender receiver kind subject body resource reply_to
        message_id now s

  -- The message is stored with the ids of the two agents and its type, as unread, and with
  -- nothing of its body but a digest and a summary; the others are as they were.
  abbrev pub IsStored : Text → Text → Text → MeshMessage → MeshRun → Type 0
  IsStored sender receiver kind message t =
      (message.message_id ≡ message_id)
      × (message.from_agent ≡ sender)
      × (message.to ≡ receiver)
      × (message.type ≡ kind)
      × (message.subject ≡ text_summary subject)
      × (message.body ≡ lit "[redacted]")
      × (message.body_sha256 ≡ (if is_empty body then [] else sha256 body))
      × (message.body_summary ≡ text_summary body)
      × (message.resource ≡ safe_resource resource)
      × (message.reply_to ≡ reply_to)
      × (message.created_at ≡ now)
      × (message.status ≡ lit "unread")
      × ((id : Text)
          → Dict.lookup id t.state.messages
            ≡ (if id == message_id then some message else Dict.lookup id s.state.messages))

  -- What a call leaves, by what it returns.
  abbrev pub IsLeft : Text → Text → Text → Result Hint → Result Sent × MeshRun → Type 0
  IsLeft sender receiver kind policy (raised error, t) = t ≡ s
  IsLeft sender receiver kind policy (ok (blocked denied), t) =
      (t.state ≡ s.state) × ((hint : Hint) × (policy ≡ ok hint) × (hint.allowed ≡ false))
  IsLeft sender receiver kind policy (ok (sent message), t) =
      IsStored sender receiver kind message t
      × ((hint : Hint) × (policy ≡ ok hint) × (hint.allowed ≡ true))

  send_checked-IsLeft :
      (sender receiver kind : Text) (policy : Result Hint)
      → IsLeft sender receiver kind policy (checked sender receiver kind policy)
  unfolding send_checked
  send_checked-IsLeft sender receiver kind (raised error) = refl
  send_checked-IsLeft sender receiver kind (ok hint) = elim (Bool-cases hint.allowed) [
    | inl e ↦ rw e (
      (
        refl,
        refl,
        refl,
        refl,
        refl,
        refl,
        refl,
        refl,
        refl,
        refl,
        refl,
        refl,
        λ id.
            lookup-saved-insert id message_id
              (new_message dumps sha256 agents sender receiver kind subject body resource reply_to
                message_id now s.state.messages)
              s.state.messages,
      ),
      (record hint { allowed = true }, refl, refl),
    )
    | inr e ↦ rw e (refl, (record hint { allowed = false }, refl, refl))
  ]

  sends :
      (sender receiver : Text)
      → required_id from_agent (lit "from_agent") ≡ ok sender
      → required_id to (lit "to") ≡ ok receiver
      → contains message_types (or_text type (lit "question")) ≡ true
      → send_message dumps sha256 agents from_agent to type subject body resource reply_to
          message_id now s
        ≡ checked sender receiver
            (or_text type (lit "question"))
            (get_policy_hint dumps agents sender (lit "send_message") resource receiver)
  unfolding send_message
  sends sender receiver f r k = ground arith

  -- A message of a known type between agents whose ids are not blank is sent only if the local
  -- policy allows it. It is then stored under its id as unread, from the one agent to the other,
  -- with the type (`question` if none is given), the summary of the subject, the resource as
  -- `_safe_resource` leaves it, and of the body only the digest and the summary; the other messages stay as they
  -- were. If the policy blocks it, or the policy raises, no message is stored.
  pub send_message-IsLeft :
      (sender receiver : Text)
      → required_id from_agent (lit "from_agent") ≡ ok sender
      → required_id to (lit "to") ≡ ok receiver
      → contains message_types (or_text type (lit "question")) ≡ true
      → IsLeft sender receiver
          (or_text type (lit "question"))
          (get_policy_hint dumps agents sender (lit "send_message") resource receiver)
          (send_message dumps sha256 agents from_agent to type subject body resource reply_to
            message_id now s)
  send_message-IsLeft sender receiver f r k =
      subst
        (IsLeft sender receiver (or_text type (lit "question"))
          (get_policy_hint dumps agents sender (lit "send_message") resource receiver))
        (sym (sends sender receiver f r k))
        (send_checked-IsLeft sender receiver (or_text type (lit "question")) _)

module _ (dumps : Resource → Text) (sha256 : Text → Text) (agents : Dict Text AgentPolicy)
    (from_agent to type subject : Text) (resource : Resource) (reply_to message_id : Text) (now : ℕ)
    (s : MeshRun) where
  -- Of the body, only its digest and its summary leave the call: with another body that has the
  -- same digest and the same summary, the result, the state and the log are the same.
  pub send_message_body :
      (body other : Text)
      → text_hash dumps sha256 agents body ≡ text_hash dumps sha256 agents other
      → text_summary body ≡ text_summary other
      → send_message dumps sha256 agents from_agent to type subject body resource reply_to
          message_id now s
        ≡ send_message dumps sha256 agents from_agent to type subject other resource reply_to
            message_id now s
  unfolding send_message
  send_message_body body other h m = ground arith
