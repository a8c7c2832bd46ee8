-- ===== src/Tests/Calls.antt =====
-- The theorems about the client, with
-- concrete parameters.
use embkv.Base.{
  ℕ, zero, suc, ◌≡◌, refl, ap, Bool, true, false, none, some, List, [], ◌∷◌, ◌++◌, arith, Returns,
  ◌>>=◌, if◌then◌else◌, ◌==◌,
}
use embkv.Base.Map.{lookup}
use embkv.Proto.{Bytes, Message, Content, ClientResponse, KvOperation}
use embkv.Head.{client_node}
use embkv.Head.Framing.{head, frame, length-head}
use embkv.Pipeline.{MessageCodec}
use embkv.Transport.{Transport, client_at, client_cb, send_to_client}
use embkv.Transport.Session.{readable}
use embkv.Transport.Clients.{Delivers, send_to_client-frame}
use embkv.Client.{Client, request_message, client_request, put_operation, read_cb}
use embkv.Client.Requests.{request_as, request-frame, request-Delivers}
use embkv.Client.Replies.{Prints, send_to_client-Prints}
use embkv.Client.Stored.{apply-entry_for, entry_for}
use embkv.Client.Answered.{Executed, call-answered}
use embkv.Node.Client.{handle_client_request}
use embkv.Node.Apply.{apply_to_state_machine}
use embkv.Status.{Role}
use embkv.Store.{get, apply, services}
use embkv.Node.{RaftNode}
use embkv.Tests.Wire.{lists, pipe, none_waiting, answers}
use embkv.Tests.Parts.{Rows, rows, numbers, numbers-IsUtf8}
use embkv.Tests.Cluster.{fresh}

-- Requests and replies as lists of numbers, behind the id of the sender.
unfoldable pub write_content : Content → Bytes
write_content (Content.client_request r) = 0 ∷ r.request_id ∷ r.command
write_content (Content.client_response r) =
    1 ∷ r.request_id ∷ r.leader_hint ∷ (if r.success then 1 else 0) ∷ r.value
write_content other = []

unfoldable pub read_reply : Bytes → Content
read_reply (id ∷ hint ∷ success ∷ value) = Content.client_response (record {
  request_id = id;
  leader_hint = hint;
  success = success == 1;
  value = value;
  error = none;
})
read_reply other = Content.content_not_set

unfoldable pub read_content : Bytes → Content
read_content (zero ∷ id ∷ command) =
    Content.client_request (record { request_id = id; command = command })
read_content (suc k ∷ rest) = read_reply rest
read_content other = Content.content_not_set

unfoldable pub parse_words : Bytes → Bool × Message
parse_words [] = (false, record { cluster_id = 0; node_id = 0; content = Content.content_not_set })
parse_words (id ∷ rest) =
    (true, record { cluster_id = 0; node_id = id; content = read_content rest })

abbrev pub words : MessageCodec
words = record {
  serialize_message = λ m. m.node_id ∷ write_content m.content;
  parse_message = parse_words;
}

abbrev pub operation : KvOperation → Bytes
operation o = o.key ++ o.value

-- Client 4, connected to server 1.
abbrev pub client : Bytes → Client (Bytes × Bytes)
client incoming = record {
  is_running = true;
  id = 4;
  stream = some (incoming, []);
  stream_no = 0;
  watched = some 0;
  endpoints = (1, record { ip = []; port = 8082 }) ∷ [];
  request_id = 3;
  head_buf = head client_node 1;
  buf = [];
  printed = [];
  joined = false;
  ended = false;
}

-- A server with one session of a client, or none.
abbrev pub server :
    List (ℕ × (Bytes × Bytes)) → Transport (Bytes × Bytes) (List Bytes) (List Message)
server clients = record {
  node_id = 1;
  peers = [];
  clients = clients;
  to_raftnode_deser_queue = none_waiting;
  to_pipeline_deser_queue = none_waiting;
  client_buf = [];
}

abbrev put_message : Message
put_message = request_as 4 3 (5 ∷ 6 ∷ [])

abbrev session : Bytes × Bytes
session = (frame (words.serialize_message put_message) ++ 3 ∷ [], [])

request-Delivers_example :
    Returns
      (Delivers pipe words
        (lists Bytes)
        (lists Message)
        answers
        1
        put_message
        (3 ∷ [])
        (server ((1, session) ∷ [])))
      (client_cb pipe words
        (lists Bytes)
        (lists Message)
        answers
        1
        readable
        (server ((1, session) ∷ [])))
unfolding client_at lookup write_content parse_words read_content
request-Delivers_example =
    request-Delivers pipe words (lists Bytes) (lists Message) operation answers
      (put_operation (5 ∷ []) (6 ∷ [])) (client []) ([], [])
      (request-frame pipe words (lists Bytes) (lists Message) operation answers
        (put_operation (5 ∷ []) (6 ∷ [])) (client []) ([], []) refl refl).0
      session 1 (3 ∷ []) (server ((1, session) ∷ [])) (refl, refl) (omega arith, omega arith, refl)
      (request-frame pipe words (lists Bytes) (lists Message) operation answers
        (put_operation (5 ∷ []) (6 ∷ [])) (client []) ([], []) refl refl).1
      refl
      (ap (λ l. l ++ 3 ∷ [])
        (request-frame pipe words (lists Bytes) (lists Message) operation answers
          (put_operation (5 ∷ []) (6 ∷ [])) (client []) ([], []) refl refl).2)

abbrev node : RaftNode Rows
node =
    let f = fresh 1 in
    record {
      config = f.config;
      st = f.st;
      log = f.log;
      requests = f.requests;
      peers = f.peers;
      state_machine = [];
      election_start = f.election_start;
      out = [];
    }

apply-entry_for_example :
    get rows
      (5 ∷ [])
      (apply rows numbers
        (entry_for pipe words answers rows numbers
          (put_operation (5 ∷ []) (6 ∷ []))
          (client [])
          node)
        []).1
    ≡ some (6 ∷ [])
apply-entry_for_example =
    (apply-entry_for pipe words answers rows numbers (5 ∷ []) (6 ∷ []) (client []) node []
      ((omega arith, tt), numbers-IsUtf8 (5 ∷ [])) ((omega arith, tt), numbers-IsUtf8 (6 ∷ []))).0

abbrev pub success : ClientResponse
success = record { request_id = 3; leader_hint = 1; success = true; value = 6 ∷ []; error = none }

abbrev pub reply_message : ClientResponse → Message
reply_message r = record { cluster_id = 0; node_id = 1; content = Content.client_response r }

-- The server has a session for client 4, at which nothing has been written yet.
abbrev sends :
    (s : Bytes × Bytes) × (client_at 4 (
        send_to_client pipe words
          (lists Bytes)
          (lists Message)
          answers
          4
          (reply_message success)
          (server ((4, ([], [])) ∷ [])))
      ≡ some s)
    × (s.1 ≡ [] ++ frame (words.serialize_message (reply_message success)))
unfolding client_at lookup
sends =
    send_to_client-frame pipe words (lists Bytes) (lists Message) answers 4 (reply_message success)
      ([], []) (server ((4, ([], [])) ∷ [])) refl

abbrev waits : Client (Bytes × Bytes)
waits = client (frame (words.serialize_message (reply_message success)) ++ 3 ∷ [])

send_to_client-Prints_example :
    Returns (λ d. Prints [] success d.printed) (read_cb pipe words operation answers readable waits)
unfolding client_at lookup write_content parse_words read_content read_reply
send_to_client-Prints_example =
    send_to_client-Prints pipe words operation answers (lists Bytes) (lists Message) 4
      (reply_message success) success (3 ∷ [])
      (frame (words.serialize_message (reply_message success)) ++ 3 ∷ [], []) ([], []) sends.0
      (server ((4, ([], [])) ∷ [])) waits (omega arith, omega arith, refl) (refl, refl)
      (refl, length-head client_node 1 (omega arith)) refl sends.1 (ap (λ l. l ++ 3 ∷ []) sends.2)

abbrev leading : RaftNode Rows
leading = record node { st = record node.st { role = Role.leader } }

call-answered_example :
    Returns
      (Executed pipe words answers rows numbers
        (put_operation (5 ∷ []) (6 ∷ []))
        (client [])
        leading)
      (handle_client_request
          (services rows numbers)
          leading
          (request_message pipe words numbers.serialize_operation answers
            (put_operation (5 ∷ []) (6 ∷ []))
            (client []))
          (client_request pipe words numbers.serialize_operation answers
            (put_operation (5 ∷ []) (6 ∷ []))
            (client []))
        >>= λ m. apply_to_state_machine (services rows numbers) 1 m)
unfolding lookup
call-answered_example =
    call-answered pipe words answers rows numbers (put_operation (5 ∷ []) (6 ∷ [])) (client [])
      leading (record { from_start = refl; last = refl; numbered = tt }) (omega arith) refl refl
      refl (numbers-IsUtf8 (5 ∷ [])) (numbers-IsUtf8 (6 ∷ []))
