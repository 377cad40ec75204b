-- ===== src/Mesh/Messages/Replying.antt =====
-- agentsecure/mesh/service.py: `reply_message`, for a project outside the cloud.
use agentsecure_community.Base.{ℕ, ◌≡◌, refl, ◌++◌}
use agentsecure_community.Base.Text.{Text, lit}
use agentsecure_community.Base.Dict.{Dict}
use agentsecure_community.Base.Exec.{Result, ok, raised}
use agentsecure_community.Mesh.{Resource, MeshMessage, MeshRun}
use agentsecure_community.Mesh.Redaction.{required_id}
use agentsecure_community.Mesh.Policy.{AgentPolicy}
use agentsecure_community.Mesh.Messages.{Sent, read_message, send_message}
use agentsecure_community.Mesh.Messages.Reading.{WasRead, IsRead, read_message-IsRead}

module _ (dumps : Resource → Text) (sha256 : Text → Text) (agents : Dict Text AgentPolicy)
    (message_id from_agent body : Text) (reply_id : Text) (read_time now : ℕ) where
  -- The call of `send_message` for the message that was read.
  abbrev pub reply_to : MeshMessage → MeshRun → Result Sent × MeshRun
  reply_to original s =
      send_message dumps sha256 agents from_agent original.from_agent (lit "reply")
        (lit "Re: " ++ original.subject) body original.resource message_id reply_id now s

  unfoldable pub reply_read : Result MeshMessage × MeshRun → Result Sent × MeshRun
  reply_read (raised error, s) = (raised error, s)
  reply_read (ok original, s) = reply_to original s

  unfoldable pub reply_message : MeshRun → Result Sent × MeshRun
  unfolding reply_read
  reply_message s = reply_read (read_message message_id from_agent read_time s)

  replied :
      (read : Result MeshMessage × MeshRun) (s t : MeshRun) (answer : Sent)
      → read_message message_id from_agent read_time s ≡ read
      → reply_read read ≡ (ok answer, t)
      → (original : MeshMessage) × (s' : MeshRun) × (read_message message_id from_agent read_time s
          ≡ (ok original, s'))
        × (reply_to original s' ≡ (ok answer, t))
  unfolding reply_read
  replied (raised error, s') s t answer e h = cc
  replied (ok original, s') s t answer e h = (original, s', e, h)

  -- Only the agent that a message is addressed to answers it. The message is the one stored under
  -- the id that the call names; it is marked as read, and nothing else of the state changes before
  -- the answer is sent. What the call leaves is then what `send_message` leaves for a reply, from
  -- that agent to the sender of the message, with its subject behind `Re: ` and its resource.
  pub reply_message-WasRead :
      (s t : MeshRun) (answer : Sent)
      → reply_message s ≡ (ok answer, t)
      → (original : MeshMessage) × (s' : MeshRun) × (id : Text) × (agent : Text) × (required_id
            message_id
            (lit "message_id")
          ≡ ok id)
        × (required_id from_agent (lit "agent_id") ≡ ok agent)
        × WasRead id agent original s'
        × IsRead id original read_time s s'
        × (send_message dumps sha256 agents from_agent original.from_agent
              (lit "reply")
              (lit "Re: " ++ original.subject)
              body
              original.resource
              message_id
              reply_id
              now
              s'
            ≡ (ok answer, t))
  unfolding reply_message
  reply_message-WasRead s t answer h =
      let (original, s', r, sends) =
        replied (read_message message_id from_agent read_time s) s t answer refl h in
      let (id, agent, named, known, was, read) =
        read_message-IsRead message_id from_agent read_time s original s' r in
      (original, s', id, agent, named, known, was, read, sends)
