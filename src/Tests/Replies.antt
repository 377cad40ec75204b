-- ===== src/Tests/Replies.antt =====
-- mesh/service.py: a registered agent that answers a message.
use agentsecure_community.Base.{◌≡◌, refl, [], ◌∷◌, ◌++◌}
use agentsecure_community.Base.Computing.{computing}
use agentsecure_community.Base.Text.{Text, lit, text_eq}
use agentsecure_community.Base.Dict.{Dict}
use agentsecure_community.Base.Exec.{Result, ok}
use agentsecure_community.Mesh.{Resource, MeshMessage, MeshRun, insert_entry, saved}
use agentsecure_community.Mesh.Redaction.{
  key_at, key_from, looks_secret_text, squeeze, text_summary, safe_resource, required_id,
}
use agentsecure_community.Mesh.Policy.{
  AgentPolicy, policy_of, has_word, resource_requires_approval, policy_hint, get_policy_hint,
}
use agentsecure_community.Mesh.Messages.{
  Sent, sent, new_message, thread_of, read_found, read_message, send_checked, send_message,
}
use agentsecure_community.Mesh.Messages.Reading.{WasRead, IsRead}
use agentsecure_community.Mesh.Messages.Replying.{reply_read, reply_message, reply_message-WasRead}
use agentsecure_community.Mesh.Agents.{Agents}

abbrev nobody : Agents
nobody = record { agents = []; registered = [] }

bob_id : required_id (lit "bob") (lit "agent_id") ≡ ok (lit "bob")
unfolding required_id computing
bob_id = refl

abbrev dumps : Resource → Text
dumps _ = []

abbrev sha256 : Text → Text
sha256 _ = lit "digest"

abbrev no_policies : Dict Text AgentPolicy
no_policies = []

abbrev greeting : MeshMessage
greeting =
    new_message dumps sha256 no_policies (lit "alice") (lit "bob") (lit "question") (lit "Hi")
      (lit "hello") [] [] (lit "msg_1") 7 []

abbrev delivered : MeshRun
delivered = record {
  state = record { messages = (lit "msg_1", greeting) ∷ []; approvals = [] };
  log = [];
}

abbrev replying : Result Sent × MeshRun
replying =
    reply_message dumps sha256 no_policies (lit "msg_1") (lit "bob") (lit "yes") (lit "msg_2") 8 9
      delivered

abbrev answer : MeshMessage
answer =
    new_message dumps sha256 no_policies (lit "bob") (lit "alice") (lit "reply") (lit "Re: Hi")
      (lit "yes") [] (lit "msg_1") (lit "msg_2") 9 ((lit "msg_1", greeting) ∷ [])

was_answered : replying ≡ (ok (sent answer), replying.1)
unfolding reply_message reply_read read_message read_found send_message send_checked get_policy_hint
    policy_of policy_hint resource_requires_approval has_word required_id saved insert_entry
    thread_of text_summary looks_secret_text key_from key_at squeeze safe_resource computing
was_answered = refl

reply_message-WasRead_example :
    (original : MeshMessage) × (s' : MeshRun) × (id : Text) × (agent : Text) × (required_id
        (lit "msg_1")
        (lit "message_id")
      ≡ ok id)
    × (required_id (lit "bob") (lit "agent_id") ≡ ok agent)
    × WasRead id agent original s'
    × IsRead id original 8 delivered s'
    × (send_message dumps sha256 no_policies
          (lit "bob")
          original.from_agent
          (lit "reply")
          (lit "Re: " ++ original.subject)
          (lit "yes")
          original.resource
          (lit "msg_1")
          (lit "msg_2")
          9
          s'
        ≡ (ok (sent answer), replying.1))
reply_message-WasRead_example =
    reply_message-WasRead dumps sha256 no_policies (lit "msg_1") (lit "bob") (lit "yes")
      (lit "msg_2") 8 9 delivered replying.1 (sent answer) was_answered
