-- ===== src/Client.antt =====
-- embkv/include/client/client.h and embkv/src/client/client.cpp: the client program's connection to a
-- server. Its thread and its libev loop are not modelled: the callback and the calls are.
pub mod Requests
pub mod Replies
pub mod Redirects
pub mod Restart
pub mod Stored
pub mod Answered
use embkv.Base.{
  ℕ, suc, ◌*◌, Bool, true, false, ◌||◌, not, Option, none, some, List, [], ◌∷◌, ◌++◌, add64, length,
  drop, take, ltb, ◌==◌, if◌then◌else◌, Result, ok, fault, bad_deref, bad_index, ◌>>=◌,
}
use embkv.Base.Map.{Map, lookup}
use embkv.Base.Octets.{swap64}
use embkv.Proto.{Bytes, Message, Content, ClientRequest, ClientResponse, KvOperation, OperationType}
use embkv.Head.{Header, header, serialize, deserialize, client_node, no_flags}
use embkv.Stream.{Connection, read_exact, write_exact}
use embkv.Head.Framing.{header_size}
use embkv.Pipeline.{IoEvents, MessageCodec}

-- RaftNodeInfo
pub record NodeInfo : Type 0 where
  pub ip : Bytes
  pub port : ℕ

-- What the callback prints of a reply.
pub data Output : Type 0 where
  print_value : Bytes → Output
  print_success : ℕ → Output

-- `stream` is none for the descriptor -1; `stream_no` tells the streams that stream_ has held apart, by
-- their number. `watched` is the number of the stream whose descriptor the read watcher is started on:
-- event_loop sets it up. `head_buf` is the header
-- buffer of the loop's thread, `buf` the buffer of read_cb. `ended` says that a callback has ended
-- the loop, with ev_break, `joined` that the thread pool has been waited for. The fields leader_id_ and requests_ are used nowhere.
pub record Client (C : Type 0) : Type 0 where
  pub is_running : Bool
  pub id : ℕ
  pub stream : Option C
  pub stream_no : ℕ
  pub watched : Option ℕ
  pub endpoints : Map NodeInfo
  pub request_id : ℕ
  pub head_buf : Bytes
  pub buf : Bytes
  pub printed : List Output
  pub joined : Bool
  pub ended : Bool

-- sizeof(buf) in read_cb
abbrev pub read_buf_size : ℕ
read_buf_size = 10 * 1024

-- msg.mutable_client_response(), which is empty where the message holds something else.
abbrev pub client_response_of : Content → ClientResponse
client_response_of (Content.client_response r) = r
client_response_of _ = record {
  request_id = 0;
  leader_hint = 0;
  success = false;
  value = [];
  error = none;
}

-- The lines that are printed of a successful reply.
abbrev pub outputs : ClientResponse → List Output
outputs r =
    if length r.value == 0
    then Output.print_success r.request_id ∷ []
    else Output.print_value r.value ∷ Output.print_success r.request_id ∷ []

-- The operations that the three calls send; get and del leave the value empty.
abbrev pub put_operation : Bytes → Bytes → KvOperation
put_operation key value = record { op_type = OperationType.put; key = key; value = value }

abbrev pub get_operation : Bytes → KvOperation
get_operation key = record { op_type = OperationType.get; key = key; value = [] }

abbrev pub del_operation : Bytes → KvOperation
del_operation key = record { op_type = OperationType.delete; key = key; value = [] }

-- `dial` is SocketAddr::parse and TcpStream::connect, as in the transport; `serialize_operation` is the
-- generated encoder of an operation.
module _ {C : Type 0} (conn : Connection C) (codec : MessageCodec)
    (serialize_operation : KvOperation → Bytes) (dial : Bytes → ℕ → Option C) where
  -- The greeting, with the id of the server, is written where the header is valid.
  abbrev greeted : ℕ → Option C → Option C
  greeted id none = none
  greeted id (some stream) =
      let (done, buffer) = serialize (header client_node (swap64 id)) [] in
      if done then some (write_exact conn buffer stream).1 else some stream

  unfoldable pub connect_to_server : ℕ → Client C → Option C
  connect_to_server id c = elim (lookup id c.endpoints) [
    | none ↦ none
    | some address ↦ greeted id (dial address.ip address.port)
  ]

  -- boost::asio::post(pool_, event_loop): `pool_starts` is whether a boost::asio::thread_pool starts what
  -- is posted to it, by whether it has been waited for. The loop watches the stream.
  abbrev pub post_event_loop : (Bool → Bool) → Client C → Client C
  post_event_loop pool_starts c =
      if pool_starts c.joined then record c { watched = some c.stream_no; ended = false } else c

  abbrev pub started : (Bool → Bool) → Option C → Client C → Client C
  started pool_starts none c = record c { stream = none; stream_no = suc c.stream_no }
  started pool_starts (some stream) c =
      record (post_event_loop pool_starts
        (record c { stream = some stream; stream_no = suc c.stream_no })) { is_running = true }

  unfoldable pub run : (Bool → Bool) → Client C → Client C
  unfolding connect_to_server
  run pool_starts c =
      if c.is_running || length c.endpoints == 0
      then c
      else started pool_starts (connect_to_server 0 c) c

  unfoldable pub stop : Client C → Client C
  stop c =
      if not c.is_running
      then c
      else record c { is_running = false; watched = none; joined = true; ended = true }

  -- The end of event_loop, after a callback has ended the loop.
  unfoldable pub leave_loop : Client C → Client C
  leave_loop c = record c { is_running = false; watched = none }

  abbrev pub client_request : KvOperation → Client C → ClientRequest
  client_request op c = record { request_id = c.request_id; command = serialize_operation op }

  abbrev pub request_message : KvOperation → Client C → Message
  request_message op c = record {
    cluster_id = 0;
    node_id = c.id;
    content = Content.client_request (client_request op c);
  }

  -- A header and the bytes of a message; a write to the descriptor -1 fails and writes nothing.
  abbrev pub send_bytes : Bytes → Option C → Option C
  send_bytes bytes none = none
  send_bytes bytes (some stream) =
      let (done, buffer) = serialize (header no_flags (swap64 (length bytes))) [] in
      some (write_exact conn bytes (write_exact conn buffer stream).1).1

  -- The body that the three calls share.
  unfoldable pub request : KvOperation → Client C → Client C
  request op c = if not c.is_running then c else record c {
    request_id = add64 c.request_id 1;
    stream = send_bytes (codec.serialize_message (request_message op c)) c.stream;
  }

  unfoldable pub put : Bytes → Bytes → Client C → Client C
  unfolding request
  put key value c = request (put_operation key value) c

  unfoldable pub get : Bytes → Client C → Client C
  unfolding request
  get key c = request (get_operation key) c

  unfoldable pub del : Bytes → Client C → Client C
  unfolding request
  del key c = request (del_operation key) c

  -- The stream is replaced by one to the leader that the reply names, and the watcher stays as it is;
  -- where there is none, the loop ends.
  abbrev pub redirected : ℕ → Option C → Client C → Client C
  redirected hint none c = record c { stream = none; stream_no = suc c.stream_no; ended = true }
  redirected hint (some stream) c = record c {
    stream = some stream;
    stream_no = suc c.stream_no;
    head_buf = (serialize (header client_node (swap64 hint)) c.head_buf).1;
  }

  unfoldable pub handle_response : ClientResponse → Client C → Client C
  unfolding connect_to_server
  handle_response r c =
      if r.success
      then record c { printed = c.printed ++ outputs r }
      else redirected r.leader_hint (connect_to_server r.leader_hint c) c

  -- read_cb behind the header.
  unfoldable pub read_reply : ℕ → C → Client C → Result (Client C)
  unfolding handle_response
  read_reply len stream c =
      let (body, rest) = read_exact conn len stream in
      if length body == 0
      then ok (record c { stream = some rest; ended = true })
      else if ltb read_buf_size len
      then fault bad_index
      else (let buf = body ++ drop (length body) c.buf in
          let (parsed, msg) = codec.parse_message (take len buf) in
          let next = record c { stream = some rest; buf = buf } in
          ok (if parsed then handle_response (client_response_of msg.content) next else next))

  -- `header->length` without a look at whether there is a header.
  abbrev pub read_known : Option Header → C → Client C → Result (Client C)
  read_known none stream c = fault bad_deref
  read_known (some h) stream c = read_reply h.length stream c

  -- A header that comes in part stands before the end of the one before in the buffer.
  abbrev pub read_from : Option C → Client C → Result (Client C)
  read_from none c = ok (record c { ended = true })
  read_from (some stream) c =
      let (bytes, rest) = read_exact conn header_size stream in
      if length bytes == 0
      then ok (record c { stream = some rest; ended = true })
      else (let buffer = bytes ++ drop (length bytes) c.head_buf in
          read_known (deserialize buffer) rest (record c { head_buf = buffer }))

  unfoldable pub read_cb : IoEvents → Client C → Result (Client C)
  unfolding read_reply
  read_cb revents c = if revents.read then read_from c.stream c else ok c
