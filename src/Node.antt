-- ===== src/Node.antt =====
-- RaftNode of embkv/include/raft/node.h: the state of a node, and what its handlers do to the
-- outside. The handlers are in the modules below.
pub mod Speaks
pub mod Start
pub mod Apply
pub mod Vote
pub mod Append
pub mod Client
pub mod Timers
pub mod Run
pub mod Advance
pub mod Valid
use embkv.Base.{
  ℕ, Bool, false, List, [], ◌∷◌, ◌++◌, Option, none, some, ◌||◌, ◌==◌, if◌then◌else◌, length,
}
use embkv.Base.Map.{Map}
use embkv.Base.Sets.{contains}
use embkv.Proto.{Bytes, EntryMeta, ClientRequest, Content, Message, Priority}
use embkv.Status.{RaftStatus}
use embkv.Log.{RaftLog}

-- What a handler does beside changing the node's own fields: it enqueues a message for all peers, or
-- for one peer, sends a message to a client, or arms the election timer anew.
pub data Effect : Type 0 where
  to_pipelines : Message → Priority → Effect
  to_peer : ℕ → Message → Effect
  to_client : ℕ → Message → Effect
  reset_timer : Effect

pub record Config : Type 0 where
  pub cluster_id : ℕ
  pub node_id : ℕ

pub record Request : Type 0 where
  pub client_id : ℕ
  pub request_id : ℕ

abbrev pub default_request : Request
default_request = record { client_id = 0; request_id = 0 }

-- What the node calls: the state machine, and the encoder of a client request.
pub record Services (M : Type 0) : Type 0 where
  pub apply : EntryMeta → M → Option Bytes × M
  pub serialize_request : ClientRequest → Bytes

-- `peers` are the ids in the transport's session manager, in the order of its iteration.
-- `election_start` is the field `start` of the election timer's data.
pub record RaftNode (M : Type 0) : Type 0 where
  pub config : Config
  pub st : RaftStatus
  pub log : RaftLog
  pub requests : Map Request
  pub peers : List ℕ
  pub state_machine : M
  pub election_start : ℕ
  pub out : List Effect

-- The flags that libev hands to a callback.
pub record Revents : Type 0 where
  pub timeout : Bool
  pub error : Bool

module _ {M : Type 0} where
  abbrev pub emit : Effect → RaftNode M → RaftNode M
  emit e n = record n { out = n.out ++ e ∷ [] }

  abbrev pub with_status : RaftStatus → RaftNode M → RaftNode M
  with_status st n = record n { st = st }

  abbrev pub peer_count : RaftNode M → ℕ
  peer_count n = length n.peers

  -- A message of this node.
  abbrev pub message : RaftNode M → Content → Message
  message n c = record { cluster_id = n.config.cluster_id; node_id = n.config.node_id; content = c }

  -- leader_id(): 0 where none is known.
  unfoldable pub leader_id : RaftNode M → ℕ
  leader_id n = elim n.st.leader_id [ none ↦ 0 | some id ↦ id ]

  -- send_to_pipeline(id, msg)
  unfoldable pub send_to_pipeline : ℕ → Message → RaftNode M → RaftNode M
  unfolding contains
  send_to_pipeline id msg n = if contains id n.peers then emit (Effect.to_peer id msg) n else n
