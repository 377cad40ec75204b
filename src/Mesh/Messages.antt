-- ===== src/Mesh/Messages.antt =====
-- agentsecure/mesh/service.py: messages between agents, for a project outside the cloud.
pub mod Reading
pub mod Listing
pub mod Sending
pub mod Replying
use agentsecure_community.Base.{
  ℕ, Bool, true, false, not, ◌&&◌, Option, none, some, List, [], ◌∷◌, ◌++◌, ◌==◌, contains, leb,
  if◌then◌else◌,
}
use agentsecure_community.Base.Lists.{keep}
use agentsecure_community.Base.Text.{Text, lit, text_eq, is_empty, or_text}
use agentsecure_community.Base.Dict
use agentsecure_community.Base.Dict.{Dict}
use agentsecure_community.Base.Exec.{Result, ok, raised, value_error}
use agentsecure_community.Mesh.{
  Resource, MeshMessage, MeshState, PolicyDenial, MeshEvent, message_sent, message_read,
  policy_denied, MeshRun, saved,
}
use agentsecure_community.Mesh.Redaction.{required_id, redacted, text_summary, safe_resource}
use agentsecure_community.Mesh.Policy.{AgentPolicy, Hint, get_policy_hint}

abbrev pub message_types : List Text
message_types =
    lit "question"
    ∷ lit "reply"
    ∷ lit "approval_request"
    ∷ lit "approval_decision"
    ∷ lit "policy_denial"
    ∷ lit "system_notice"
    ∷ lit "ownership_request"
    ∷ lit "resource_comment"
    ∷ lit "task_handoff"
    ∷ []

-- One round of the loop in `list_messages`.
unfoldable pub is_listed : Text → Bool → MeshMessage → Bool
is_listed agent_id include_read message =
    message.to == agent_id && not (not include_read && message.status == lit "read")

-- `messages.sort(key=created_at, reverse=True)`, which keeps the order of messages of one time.
unfoldable pub insert_message : MeshMessage → List MeshMessage → List MeshMessage
insert_message message [] = message ∷ []
insert_message message (other ∷ rest) =
    let later = insert_message message rest in
    if leb other.created_at message.created_at then message ∷ other ∷ rest else other ∷ later

unfoldable pub newest_first : List MeshMessage → List MeshMessage
unfolding insert_message
newest_first [] = []
newest_first (message ∷ rest) = insert_message message (newest_first rest)

unfoldable pub list_messages : MeshState → Text → Bool → Result (List MeshMessage)
unfolding is_listed newest_first
list_messages state agent_id include_read = elim (required_id agent_id (lit "agent_id")) [
  | raised error ↦ raised error
  | ok agent ↦ ok (newest_first (keep (is_listed agent include_read) (Dict.values state.messages)))
]

-- The part of `read_message` that has the message.
unfoldable pub read_found :
    Text → Text → ℕ → MeshRun → Option MeshMessage → Result MeshMessage × MeshRun
read_found message_id agent_id now s none =
    (raised (value_error (lit "message not found: " ++ message_id)), s)
read_found message_id agent_id now s (some message) =
    if not (message.to == agent_id)
    then (
      raised
          (value_error (lit "message " ++ message_id ++ lit " is not addressed to " ++ agent_id)),
      s,
    )
    else if not (message.status == lit "read")
    then (let read = record message { status = lit "read"; read_at = now } in
        (
          ok read,
          record {
            state = record s.state {
              messages = saved (Dict.insert message_id read s.state.messages);
            };
            log = s.log ++ (message_read message_id message.to ∷ []);
          },
        ))
    else (ok message, s)

unfoldable pub read_message : Text → Text → ℕ → MeshRun → Result MeshMessage × MeshRun
unfolding read_found
read_message message_id agent_id now s = elim (required_id message_id (lit "message_id")) [
  | raised error ↦ (raised error, s)
  | ok id ↦ elim (required_id agent_id (lit "agent_id")) [
    | raised error ↦ (raised error, s)
    | ok agent ↦ read_found id agent now s (Dict.lookup id s.state.messages)
  ]
]

-- What `send_message` returns.
pub data Sent : Type 0 where
  blocked : PolicyDenial → Sent
  sent : MeshMessage → Sent

module _ (dumps : Resource → Text) (sha256 : Text → Text) (agents : Dict Text AgentPolicy) where
  -- `_text_hash`
  abbrev pub text_hash : Text → Text
  text_hash value = if is_empty value then [] else sha256 value

  -- The thread of a message: that of the message it answers, if that has one.
  unfoldable pub thread_of : Dict Text MeshMessage → Text → Text → Text
  thread_of messages message_id reply_to =
      if is_empty reply_to then message_id else elim (Dict.lookup reply_to messages) [
        | none ↦ reply_to
        | some original ↦ or_text original.thread_id reply_to
      ]

  -- `_policy_denial`: the result has the reason, and the audit record its digest and its summary.
  abbrev pub denial : Text → Resource → Hint → PolicyDenial
  denial agent_id resource policy = record {
    agent_id = agent_id;
    action = lit "send_message";
    resource = safe_resource resource;
    reason = policy.reason;
    reason_sha256 = [];
    reason_summary = [];
    allowed_next_step = policy.allowed_next_step;
  }

  abbrev pub recorded_denial : PolicyDenial → PolicyDenial
  recorded_denial d = record d {
    resource = safe_resource d.resource;
    reason = redacted;
    reason_sha256 = text_hash d.reason;
    reason_summary = text_summary d.reason;
  }

  -- The message that is stored.
  abbrev pub new_message :
      Text
      → Text
      → Text
      → Text
      → Text
      → Resource
      → Text
      → Text
      → ℕ
      → Dict Text MeshMessage
      → MeshMessage
  new_message from_agent to type subject body resource reply_to message_id now messages = record {
    message_id = message_id;
    from_agent = from_agent;
    to = to;
    type = type;
    subject = text_summary subject;
    body = redacted;
    resource = safe_resource resource;
    status = lit "unread";
    thread_id = or_text (thread_of messages message_id reply_to) message_id;
    reply_to = reply_to;
    created_at = now;
    read_at = 0;
    body_sha256 = text_hash body;
    body_summary = text_summary body;
    content_redacted = true;
  }

  -- `send_message` behind its checks of ids and type.
  unfoldable pub send_checked :
      Text
      → Text
      → Text
      → Text
      → Text
      → Resource
      → Text
      → Text
      → ℕ
      → MeshRun
      → Result Hint
      → Result Sent × MeshRun
  send_checked from_agent to type subject body resource reply_to message_id now s (raised error) =
      (raised error, s)
  send_checked from_agent to type subject body resource reply_to message_id now s (ok policy) =
      if not policy.allowed
      then (let denied = denial from_agent resource policy in
          (
            ok (blocked denied),
            record s { log = s.log ++ (policy_denied (recorded_denial denied) ∷ []) },
          ))
      else (let message =
            new_message from_agent to type subject body resource reply_to message_id now
              s.state.messages in
          (
            ok (sent message),
            record {
              state = record s.state {
                messages = saved (Dict.insert message_id message s.state.messages);
              };
              log =
                  s.log
                  ++ (message_sent (record message { resource = safe_resource message.resource })
                      ∷ []);
            },
          ))

  -- `send_message`; the fresh id has the form `msg_` and 16 hexadecimal digits.
  unfoldable pub send_message :
      Text
      → Text
      → Text
      → Text
      → Text
      → Resource
      → Text
      → Text
      → ℕ
      → MeshRun
      → Result Sent × MeshRun
  unfolding send_checked
  send_message from_agent to message_type subject body resource reply_to message_id now s =
      elim (required_id from_agent (lit "from_agent")) [
        | raised error ↦ (raised error, s)
        | ok sender ↦ elim (required_id to (lit "to")) [
          | raised error ↦ (raised error, s)
          | ok receiver ↦
              (let type = or_text message_type (lit "question") in
                if not (contains message_types type)
                then (raised (value_error (lit "unsupported mesh message type: " ++ type)), s)
                else send_checked sender receiver type subject body resource reply_to message_id now
                    s (get_policy_hint dumps agents sender (lit "send_message") resource receiver))
        ]
      ]
