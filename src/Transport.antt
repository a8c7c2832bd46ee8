-- ===== src/Transport.antt =====
-- embkv/src/raft/transport/transport.cpp, session_manager.cpp and embkv/include/raft/peer/peer.h: the
-- peers and clients of a node, and the callbacks that move messages between them and the node. The
-- threads and the watchers of the clients are not modelled.
pub mod Session
pub mod Clients
pub mod Moves
pub mod Loops
pub mod Rounds
pub mod Handshakes
use embkv.Base.{
  ℕ, ◌*◌, ◌≡◌, Bool, true, false, Option, none, some, List, [], ◌∷◌, ◌++◌, length, drop, take, map,
  ltb, ◌==◌, if◌then◌else◌, Result, ok, fault, bad_deref, bad_index,
}
use embkv.Base.Map.{Map, lookup, assign, emplace, erase}
use embkv.Base.Octets.{swap64}
use embkv.Proto.{Bytes, Message, Priority}
use embkv.Head.{Header, header, serialize, deserialize, raft_node, client_node, no_flags}
use embkv.Queue.{ConcurrentQueue, PriorityQueue, enqueue, enqueue_bulk, try_dequeue_bulk}
use embkv.Stream.{Connection, read_exact, write_exact}
use embkv.Head.Framing.{header_size}
use embkv.Pipeline.{Pipeline, IoEvents, MessageCodec, run}

pub record Peer (C S D : Type 0) : Type 0 where
  pub node_id : ℕ
  pub ip : Bytes
  pub port : ℕ
  pub connect_locked : Bool
  pub pipeline : Pipeline C S D

-- `clients` are the streams of the client sessions; `client_buf` is the buffer of client_cb.
pub record Transport (C S D : Type 0) : Type 0 where
  pub node_id : ℕ
  pub peers : Map (Peer C S D)
  pub clients : Map C
  pub to_raftnode_deser_queue : PriorityQueue D
  pub to_pipeline_deser_queue : PriorityQueue D
  pub client_buf : Bytes

-- sizeof(buf) in client_cb
abbrev pub client_buf_size : ℕ
client_buf_size = 10 * 1024

-- The queue of the bulk calls without a priority.
abbrev pub default_priority : Priority
default_priority = Priority.medium

module _ {C S D : Type 0} where
  unfoldable pub peer_at : ℕ → Transport C S D → Option (Peer C S D)
  peer_at id t = lookup id t.peers

  unfoldable pub add_peer : Peer C S D → Transport C S D → Transport C S D
  add_peer peer t = record t { peers = emplace peer.node_id peer t.peers }

  unfoldable pub remove_peer : ℕ → Transport C S D → Transport C S D
  remove_peer id t = record t { peers = erase id t.peers }

  unfoldable pub client_at : ℕ → Transport C S D → Option C
  client_at id t = lookup id t.clients

  -- A session that is there stays, and the new one is dropped.
  unfoldable pub add_client : ℕ → C → Transport C S D → Transport C S D
  add_client id stream t = record t { clients = emplace id stream t.clients }

  unfoldable pub remove_client : ℕ → Transport C S D → Transport C S D
  remove_client id t = record t { clients = erase id t.clients }

  unfoldable pub peer_clear : Transport C S D → Transport C S D
  peer_clear t = record t { peers = [] }

  unfoldable pub client_clear : Transport C S D → Transport C S D
  client_clear t = record t { clients = [] }

  -- What a callback has done to the stream of a client.
  abbrev pub with_client : ℕ → C → Transport C S D → Transport C S D
  with_client id stream t = record t { clients = assign id stream t.clients }

-- `dial` is SocketAddr::parse and TcpStream::connect, which ask the system: a stream to the address,
-- where there is one.
module _ {C S D : Type 0} (conn : Connection C) (codec : MessageCodec)
    (ser : ConcurrentQueue Bytes S) (deser : ConcurrentQueue Message D)
    (dial : Bytes → ℕ → Option C) where
  unfoldable pub send_to_client : ℕ → Message → Transport C S D → Transport C S D
  unfolding client_at
  send_to_client id msg t = elim (client_at id t) [
    | none ↦ t
    | some stream ↦
        let bytes = codec.serialize_message msg in
        let (done, buffer) = serialize (header no_flags (swap64 (length bytes))) [] in
        with_client id (write_exact conn bytes (write_exact conn buffer stream).1).1 t
  ]

  -- A connection that has named itself, by the flags and the length of its header.
  unfoldable pub greet : Header → C → Transport C S D → Transport C S D
  unfolding peer_at add_client run
  greet h stream t =
      if h.flags == raft_node
      then elim (peer_at h.length t) [
        | none ↦ t
        | some peer ↦ record t {
          peers =
              assign h.length
                (record peer { pipeline = run conn codec ser deser stream peer.pipeline }) t.peers;
        }
      ]
      else if h.flags == client_node
      then add_client h.length stream t
      else t

  abbrev pub greet_some : Option Header → C → Transport C S D → Transport C S D
  greet_some none stream t = t
  greet_some (some h) stream t = greet h stream t

  unfoldable pub handshake_cb : IoEvents → C → Transport C S D → Transport C S D
  unfolding greet
  handshake_cb revents stream t =
      if revents.error
      then t
      else if revents.read
      then (let (buffer, rest) = read_exact conn header_size stream in
          if ltb (length buffer) header_size then t else greet_some (deserialize buffer) rest t)
      else t

  -- client_cb behind the header. The message is parsed from the buffer, whose end keeps what earlier
  -- messages left. The Boolean says whether the watcher of the client stays.
  unfoldable pub client_body : ℕ → ℕ → C → Transport C S D → Result (Transport C S D × Bool)
  unfolding remove_client
  client_body id len stream t =
      let (body, rest) = read_exact conn len stream in
      if length body == 0
      then ok (remove_client id t, false)
      else if ltb client_buf_size len
      then fault bad_index
      else (let buf = body ++ drop (length body) t.client_buf in
          let (parsed, msg) = codec.parse_message (take len buf) in
          let next = with_client id rest (record t { client_buf = buf }) in
          ok (
            if parsed
                then record next {
                  to_raftnode_deser_queue =
                      (enqueue deser msg Priority.medium t.to_raftnode_deser_queue).1;
                }
                else next,
            true,
          ))

  -- `header->length` without a look at whether there is a header.
  abbrev pub client_message :
      ℕ → Option Header → C → Transport C S D → Result (Transport C S D × Bool)
  client_message id none stream t = fault bad_deref
  client_message id (some h) stream t = client_body id h.length stream t

  unfoldable pub client_cb : ℕ → IoEvents → Transport C S D → Result (Transport C S D × Bool)
  unfolding client_at remove_client client_body
  client_cb id revents t = elim (client_at id t) [
    | none ↦ ok (t, false)
    | some stream ↦
        if revents.read
        then (let (buffer, rest) = read_exact conn header_size stream in
            if ltb (length buffer) header_size
            then ok (remove_client id t, false)
            else client_message id (deserialize buffer) rest t)
        else ok (t, true)
  ]

  abbrev connected : ℕ → Option C → Peer C S D → Peer C S D
  connected node_id none peer = peer
  connected node_id (some stream) peer =
      let (done, buffer) = serialize (header raft_node (swap64 node_id)) [] in
      if done
      then record peer {
        pipeline = run conn codec ser deser (write_exact conn buffer stream).1 peer.pipeline;
      }
      else peer

  -- On the peer of the id. The lock is given back at the end.
  unfoldable pub try_connect_to_peer : ℕ → Peer C S D → Peer C S D
  unfolding run
  try_connect_to_peer node_id peer =
      if peer.connect_locked
      then peer
      else if peer.pipeline.is_running
      then peer
      else connected node_id (dial peer.ip peer.port) peer

  -- One round of the broadcast.
  unfoldable pub serve : ℕ → List Bytes → ℕ → Peer C S D → Peer C S D
  unfolding try_connect_to_peer
  serve node_id items id peer =
      if peer.pipeline.is_running
      then record peer {
        pipeline = record peer.pipeline {
          from_ser_queue = (ser.enqueue_bulk items peer.pipeline.from_ser_queue).1;
        };
      }
      else if ltb node_id id
      then try_connect_to_peer node_id peer
      else peer

  unfoldable pub serve_all : ℕ → List Bytes → Map (Peer C S D) → Map (Peer C S D)
  serve_all node_id items [] = []
  serve_all node_id items ((id, peer) ∷ rest) =
      (id, serve node_id items id peer) ∷ serve_all node_id items rest

  unfoldable pub handle_serialize_timeout : Bool → Transport C S D → Transport C S D
  unfolding try_dequeue_bulk
  handle_serialize_timeout timeout t =
      if timeout
      then (let (items, queue) = try_dequeue_bulk deser 64 t.to_pipeline_deser_queue in
          record t {
            to_pipeline_deser_queue = queue;
            peers =
                if ltb 0 (length items)
                then serve_all t.node_id (map codec.serialize_message items) t.peers
                else t.peers;
          })
      else t

  -- The loop over the peers, with the queue of the node.
  unfoldable pub collect_all :
      Map (Peer C S D) → PriorityQueue D → Map (Peer C S D) × PriorityQueue D
  collect_all [] queue = ([], queue)
  collect_all ((id, peer) ∷ rest) queue = elim peer.pipeline.is_running [
    | true ↦
        let (items, left) = try_dequeue_bulk deser 64 peer.pipeline.to_deser_queue in
        let (others, last) = collect_all rest (enqueue_bulk deser items default_priority queue).1 in
        (
          (id, record peer { pipeline = record peer.pipeline { to_deser_queue = left } }) ∷ others,
          last,
        )
    | false ↦ let (others, last) = collect_all rest queue in ((id, peer) ∷ others, last)
  ]

  unfoldable pub handle_receive_timeout : Bool → Transport C S D → Transport C S D
  unfolding collect_all
  handle_receive_timeout timeout t =
      if timeout
      then (let (peers, queue) = collect_all t.peers t.to_raftnode_deser_queue in
          record t { peers = peers; to_raftnode_deser_queue = queue })
      else t
