-- ===== src/Proto.antt =====
-- rpc.proto: the messages of the protocol, as values. A `bytes` or `string` field is the list of its
-- bytes, and an `optional` field an `Option`.
use embkv.Base.{ℕ, Bool, Option, List, [], ◌∷◌}

abbrev pub Bytes : Type 0
Bytes = List ℕ

pub record EntryMeta : Type 0 where
  pub term : ℕ
  pub index : ℕ
  pub client_request : Bytes

pub record RequestVoteRequest : Type 0 where
  pub term : ℕ
  pub last_log_index : ℕ
  pub last_log_term : ℕ

pub record RequestVoteResponse : Type 0 where
  pub term : ℕ
  pub granted : Bool

pub record AppendEntriesRequest : Type 0 where
  pub term : ℕ
  pub prev_log_index : ℕ
  pub prev_log_term : ℕ
  pub entries : List EntryMeta
  pub leader_commit : ℕ
  pub is_heartbeat : Bool

pub record AppendEntriesResponse : Type 0 where
  pub term : ℕ
  pub success : Bool
  pub conflict_index : ℕ
  pub last_log_index : ℕ

pub record InstallSnapshotRequest : Type 0 where
  pub term : ℕ
  pub snapshot_index : ℕ
  pub snapshot_data : Bytes

pub record InstallSnapshotResponse : Type 0 where
  pub success : Bool

pub record ClientRequest : Type 0 where
  pub request_id : ℕ
  pub command : Bytes

pub record ClientResponse : Type 0 where
  pub request_id : ℕ
  pub leader_hint : ℕ
  pub success : Bool
  pub value : Bytes
  pub error : Option Bytes

-- The `oneof content` of a message, with the case in which it is not set.
pub data Content : Type 0 where
  request_vote_request : RequestVoteRequest → Content
  request_vote_response : RequestVoteResponse → Content
  append_entries_request : AppendEntriesRequest → Content
  append_entries_response : AppendEntriesResponse → Content
  snapshot_request : InstallSnapshotRequest → Content
  snapshot_response : InstallSnapshotResponse → Content
  client_request : ClientRequest → Content
  client_response : ClientResponse → Content
  content_not_set : Content

pub record Message : Type 0 where
  pub cluster_id : ℕ
  pub node_id : ℕ
  pub content : Content

-- An enum of proto3 is open: a message can carry a number that has no name.
pub data OperationType : Type 0 where
  put delete get : OperationType
  unknown : ℕ → OperationType

pub record KvOperation : Type 0 where
  pub op_type : OperationType
  pub key : Bytes
  pub value : Bytes

-- enum class Priority of priorityqueue.h, without its `Count`.
pub data Priority : Type 0 where
  critical high medium low : Priority

-- "Null" and "Not leader", the texts that the node sends.
abbrev pub null_text : Bytes
null_text = b'N' ∷ b'u' ∷ b'l' ∷ b'l' ∷ []

abbrev pub not_leader_text : Bytes
not_leader_text = b'N' ∷ b'o' ∷ b't' ∷ 32 ∷ b'l' ∷ b'e' ∷ b'a' ∷ b'd' ∷ b'e' ∷ b'r' ∷ []
