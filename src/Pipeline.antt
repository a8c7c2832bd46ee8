-- ===== src/Pipeline.antt =====
-- embkv/include/raft/peer/pipeline.h and embkv/src/raft/peer/pipeline.cpp: the connection to a peer.
-- Its thread is not modelled: the callbacks, and what the loop makes of them, are.
pub mod Frame
pub mod Serves
pub mod Loop
use embkv.Base.{
  ℕ, ◌*◌, Bool, true, false, Option, none, some, List, [], ◌∷◌, ◌++◌, length, ltb, if◌then◌else◌,
}
use embkv.Base.Octets.{swap64}
use embkv.Proto.{Bytes, Message, Content, Priority}
use embkv.Head.{Header, header, serialize, deserialize, no_flags}
use embkv.Queue.{ConcurrentQueue, PriorityQueue, enqueue}
use embkv.Head.Framing.{header_size}
use embkv.Stream.{Connection, read_exact, write_exact}

-- The generated encoder and decoder of a message. The decoder returns whether it succeeded, and the
-- message as far as it got.
pub record MessageCodec : Type 0 where
  pub serialize_message : Message → Bytes
  pub parse_message : Bytes → Bool × Message

-- `ended` says that a callback has ended the loop, with ev_break.
pub record Pipeline (C S D : Type 0) : Type 0 where
  pub stream : C
  pub is_running : Bool
  pub from_ser_queue : S
  pub to_deser_queue : PriorityQueue D
  pub ended : Bool

-- The flags that libev hands to read_cb.
pub record IoEvents : Type 0 where
  pub read : Bool
  pub error : Bool

-- What libev calls back: the connection is ready, or the write timer fires.
pub data Callback : Type 0 where
  ready : IoEvents → Callback
  tick : Bool → Callback

-- sizeof(read_buf)
abbrev pub read_buf_size : ℕ
read_buf_size = 10 * 1024

-- The priority at which a message is queued, where it has a content.
abbrev pub priority_of : Content → Option Priority
priority_of (Content.request_vote_request r) = some Priority.critical
priority_of (Content.request_vote_response r) = some Priority.critical
priority_of (Content.append_entries_request r) = some Priority.high
priority_of (Content.append_entries_response r) = some Priority.high
priority_of (Content.snapshot_request r) = some Priority.high
priority_of (Content.snapshot_response r) = some Priority.high
priority_of (Content.client_request r) = some Priority.medium
priority_of (Content.client_response r) = some Priority.medium
priority_of Content.content_not_set = none

module _ {C S D : Type 0} (conn : Connection C) (codec : MessageCodec)
    (ser : ConcurrentQueue Bytes S) (deser : ConcurrentQueue Message D) where
  unfoldable pub run : C → Pipeline C S D → Pipeline C S D
  run stream p = if p.is_running then p else record p { is_running = true; stream = stream }

  -- The test is the other way round: a running pipeline is left alone.
  unfoldable pub stop : Pipeline C S D → Pipeline C S D
  stop p = if p.is_running then p else record p { stream = conn.close p.stream }

  abbrev pub queue_message : Message → Option Priority → PriorityQueue D → PriorityQueue D
  queue_message msg none q = q
  queue_message msg (some prio) q = (enqueue deser msg prio q).1

  -- The body of the message, once the header has been read.
  unfoldable pub read_body : ℕ → Pipeline C S D → Pipeline C S D
  read_body len p =
      if ltb read_buf_size len
      then record p { ended = true }
      else (let (body, stream) = read_exact conn len p.stream in
          let msg = (codec.parse_message body).1 in
          record p {
            stream = stream;
            to_deser_queue = queue_message msg (priority_of msg.content) p.to_deser_queue;
          })

  abbrev pub read_message : Option Header → Pipeline C S D → Pipeline C S D
  read_message none p = p
  read_message (some h) p = read_body h.length p

  unfoldable pub read_cb : IoEvents → Pipeline C S D → Pipeline C S D
  unfolding read_body
  read_cb revents p =
      if revents.read
      then (let (buffer, stream) = read_exact conn header_size p.stream in
          if ltb (length buffer) header_size
          then record p { stream = stream; ended = true }
          else read_message (deserialize buffer) (record p { stream = stream }))
      else p

  -- One message of the loop: its header and its bytes, where the header is valid.
  unfoldable pub write_message : Bytes → C → C
  write_message bytes stream =
      let (done, buffer) = serialize (header no_flags (swap64 (length bytes))) [] in
      if done then (write_exact conn bytes (write_exact conn buffer stream).1).1 else stream

  unfoldable pub write_all : List Bytes → C → C
  write_all [] stream = stream
  write_all (bytes ∷ rest) stream = write_all rest (write_message bytes stream)

  unfoldable pub handle_write_timeout : Bool → Pipeline C S D → Pipeline C S D
  handle_write_timeout timeout p =
      if timeout
      then (let (items, queue) = ser.try_dequeue_bulk 64 p.from_ser_queue in
          record p { from_ser_queue = queue; stream = write_all items p.stream })
      else p

  unfoldable pub call : Callback → Pipeline C S D → Pipeline C S D
  unfolding read_cb handle_write_timeout
  call (Callback.ready revents) p = read_cb revents p
  call (Callback.tick timeout) p = handle_write_timeout timeout p

  -- ev_run on the callbacks in the order of their calls, up to the one that ends the loop.
  unfoldable pub run_loop : List Callback → Pipeline C S D → Option (Pipeline C S D)
  unfolding call
  run_loop [] p = none
  run_loop (c ∷ cs) p =
      let rest = run_loop cs (call c p) in if (call c p).ended then some (call c p) else rest

  abbrev pub close_stream : Option (Pipeline C S D) → Option (Pipeline C S D)
  close_stream none = none
  close_stream (some p) = some (record p { stream = conn.close p.stream; is_running = false })

  -- `none` is a loop that goes on. A stream that is not valid leaves the pipeline running.
  unfoldable pub event_loop : (C → Bool) → List Callback → Pipeline C S D → Option (Pipeline C S D)
  unfolding run_loop
  event_loop is_valid callbacks p =
      if is_valid p.stream
      then close_stream (run_loop callbacks (record p { ended = false }))
      else some p
