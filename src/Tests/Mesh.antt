-- ===== src/Tests/Mesh.antt =====
-- mesh/service.py at two agents, one message and one approval.
use agentsecure_community.Base.{◌≡◌, ◌↔◌, refl, true, false, List, [], ◌∷◌, contains, nat_eq}
use agentsecure_community.Base.Computing.{computing}
use agentsecure_community.Base.Text.{Text, lit, text_eq}
use agentsecure_community.Base.Dict
use agentsecure_community.Base.Dict.{Dict}
use agentsecure_community.Base.Exec.{Result, ok}
use agentsecure_community.Mesh.{
  Scalar, ResourceValue, Resource, MeshMessage, ApprovalRequest, MeshRun, insert_entry, saved,
}
use agentsecure_community.Mesh.Redaction.{
  key_at, key_from, looks_secret_text, squeeze, text_summary, safe_scalar, safe_value,
  safe_resource, required_id,
}
use agentsecure_community.Mesh.Policy.{
  AgentPolicy, policy_of, has_word, resource_requires_approval, policy_hint, get_policy_hint,
}
use agentsecure_community.Mesh.Policy.Decision.{IsAllowed, policy_hint-IsAllowed}
use agentsecure_community.Mesh.Messages.{
  Sent, sent, message_types, text_hash, new_message, list_messages, read_found, read_message,
  send_checked, send_message,
}
use agentsecure_community.Mesh.Messages.Reading.{WasRead, read_message_once}
use agentsecure_community.Mesh.Messages.Listing.{In, IsFor, list_messages-IsFor}
use agentsecure_community.Mesh.Messages.Sending.{IsLeft, send_message-IsLeft}
use agentsecure_community.Mesh.Approvals.{
  approve, decided, normalize_decision, get_approval_status, resolve_found, resolve_approval,
  new_approval, required_approver, request_approval,
}
use agentsecure_community.Mesh.Approvals.Deciding.{IsDecided, resolve_approval-IsDecided}

key_is_secret : looks_secret_text (lit "use sk-abcdefghij0123456789 now") ≡ true
unfolding looks_secret_text key_from key_at computing
key_is_secret = refl

short_key_is_not : looks_secret_text (lit "task-abcdefghij0123456789") ≡ false
unfolding looks_secret_text key_from key_at computing
short_key_is_not = refl

summary_of_key : text_summary (lit "OPENAI_API_KEY = abc") ≡ lit "[redacted]"
unfolding text_summary looks_secret_text key_from key_at squeeze computing
summary_of_key = refl

summary_of_text : text_summary (lit "  please   review ") ≡ lit "please review"
unfolding text_summary looks_secret_text key_from key_at squeeze computing
summary_of_text = refl

abbrev resource : Resource
resource =
    (lit "path", ResourceValue.scalar (Scalar.text (lit "src/a.py")))
    ∷ (lit "token", ResourceValue.scalar (Scalar.text (lit "abc")))
    ∷ []

only_path :
    safe_resource resource
    ≡ ((lit "path", ResourceValue.scalar (Scalar.text (lit "src/a.py"))) ∷ [])
unfolding safe_resource safe_value safe_scalar computing
only_path = refl

abbrev dumps : Resource → Text
dumps _ = lit "src/a.py"

abbrev sha256 : Text → Text
sha256 text = lit "digest"

abbrev policy : AgentPolicy
policy = record {
  cannot = lit "delete" ∷ [];
  can_message = lit "bob" ∷ [];
  requires_human_for = [];
}

abbrev agents : Dict Text AgentPolicy
agents = (lit "alice", policy) ∷ []

prod_needs_human : (policy_hint dumps policy (lit "deploy to prod") [] []).allowed ≡ false
unfolding policy_hint resource_requires_approval has_word computing
prod_needs_human = refl

product_does_not : (policy_hint dumps policy (lit "read product page") [] []).allowed ≡ true
unfolding policy_hint resource_requires_approval has_word computing
product_does_not = refl

to_bob : (policy_hint dumps policy (lit "send_message") resource (lit "bob")).allowed ≡ true
unfolding policy_hint resource_requires_approval has_word computing
to_bob = refl

policy_hint-IsAllowed_example : IsAllowed dumps policy (lit "send_message") resource (lit "bob")
policy_hint-IsAllowed_example =
    (policy_hint-IsAllowed dumps policy (lit "send_message") resource (lit "bob")).0 to_bob

abbrev empty : MeshRun
empty = record { state = record { messages = []; approvals = [] }; log = [] }

abbrev greeting : MeshMessage
greeting =
    new_message dumps sha256 agents (lit "alice") (lit "bob") (lit "question") (lit "Hi")
      (lit "hello") resource [] (lit "msg_1") 7 []

abbrev sending : Text → Result Sent × MeshRun
sending body =
    send_message dumps sha256 agents (lit "alice") (lit "bob") [] (lit "Hi") body resource []
      (lit "msg_1") 7 empty

was_sent : (sending (lit "hello")).0 ≡ ok (sent greeting)
unfolding send_message send_checked get_policy_hint policy_of policy_hint resource_requires_approval
    has_word required_id computing
was_sent = refl

was_stored :
    (sending (lit "hello")).1.state
    ≡ record { messages = (lit "msg_1", greeting) ∷ []; approvals = [] }
unfolding send_message send_checked get_policy_hint policy_of policy_hint resource_requires_approval
    has_word required_id saved insert_entry computing
was_stored = refl

alice_id : required_id (lit "alice") (lit "from_agent") ≡ ok (lit "alice")
unfolding required_id computing
alice_id = refl

bob_id : required_id (lit "bob") (lit "to") ≡ ok (lit "bob")
unfolding required_id computing
bob_id = refl

question_known : contains message_types (lit "question") ≡ true
unfolding computing
question_known = refl

send_message-IsLeft_example :
    IsLeft dumps sha256 agents
      (lit "alice")
      (lit "bob")
      []
      (lit "Hi")
      (lit "hello")
      resource
      []
      (lit "msg_1")
      7
      empty
      (lit "alice")
      (lit "bob")
      (lit "question")
      (get_policy_hint dumps agents (lit "alice") (lit "send_message") resource (lit "bob"))
      (sending (lit "hello"))
send_message-IsLeft_example =
    send_message-IsLeft dumps sha256 agents (lit "alice") (lit "bob") [] (lit "Hi") (lit "hello")
      resource [] (lit "msg_1") 7 empty (lit "alice") (lit "bob") alice_id bob_id question_known

same_digest :
    text_hash dumps sha256 agents (lit "hello") ≡ text_hash dumps sha256 agents (lit " hello ")
unfolding computing
same_digest = refl

same_summary : text_summary (lit "hello") ≡ text_summary (lit " hello ")
unfolding text_summary looks_secret_text key_from key_at squeeze computing
same_summary = refl

abbrev delivered : MeshRun
delivered = record empty {
  state = record { messages = (lit "msg_1", greeting) ∷ []; approvals = [] };
}

bob_reads : required_id (lit "bob") (lit "agent_id") ≡ ok (lit "bob")
unfolding required_id computing
bob_reads = refl

list_messages-IsFor_example :
    (shown : List MeshMessage) × (list_messages delivered.state (lit "bob") false ≡ ok shown)
    × (In greeting shown
        ↔ (In greeting (Dict.values delivered.state.messages) × IsFor (lit "bob") false greeting))
list_messages-IsFor_example =
    list_messages-IsFor delivered.state (lit "bob") (lit "bob") false greeting bob_reads

abbrev read_greeting : MeshMessage
read_greeting = record greeting { status = lit "read"; read_at = 9 }

abbrev reading : Result MeshMessage × MeshRun
reading = read_message (lit "msg_1") (lit "bob") 9 delivered

was_read : reading ≡ (ok read_greeting, reading.1)
unfolding read_message read_found required_id computing
was_read = refl

read_message_once_example :
    ((id : Text) × (agent : Text) × (required_id (lit "msg_1") (lit "message_id") ≡ ok id)
      × (required_id (lit "bob") (lit "agent_id") ≡ ok agent)
      × WasRead id agent read_greeting reading.1)
    × (read_message (lit "msg_1") (lit "bob") 12 reading.1 ≡ (ok read_greeting, reading.1))
read_message_once_example =
    read_message_once (lit "msg_1") (lit "bob") 9 12 delivered read_greeting reading.1 was_read

abbrev wish : ApprovalRequest
wish =
    new_approval sha256 (lit "alice") (lit "deploy") resource (lit "release")
      (required_approver sha256 (lit "deploy") resource) (lit "apr_1") 3

abbrev requesting : Result ApprovalRequest × MeshRun
requesting =
    request_approval sha256 (lit "alice") (lit "deploy") resource (lit "release") [] (lit "apr_1") 3
      empty

abbrev wished : MeshRun
wished = record empty { state = record { messages = []; approvals = (lit "apr_1", wish) ∷ [] } }

abbrev deciding : Result ApprovalRequest × MeshRun
deciding = resolve_approval sha256 (lit "apr_1") (lit " Yes") [] [] 5 wished

was_decided : deciding ≡ (ok (decided sha256 wish approve [] [] 5), deciding.1)
unfolding resolve_approval resolve_found normalize_decision required_id computing
was_decided = refl

resolve_approval-IsDecided_example :
    ((id : Text) × (old : ApprovalRequest) × IsDecided sha256
        (lit "apr_1")
        (lit " Yes")
        []
        []
        5
        wished
        deciding.1
        (decided sha256 wish approve [] [] 5)
        id
        old)
    × (get_approval_status deciding.1.state (lit "apr_1")
        ≡ ok (decided sha256 wish approve [] [] 5))
resolve_approval-IsDecided_example =
    resolve_approval-IsDecided sha256 (lit "apr_1") (lit " Yes") [] [] 5 wished deciding.1
      (decided sha256 wish approve [] [] 5) was_decided
