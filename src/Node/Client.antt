-- ===== src/Node/Client.antt =====
-- RaftNode::handle_client_request of embkv/src/raft/node.cpp, and the snapshot handlers, which are
-- empty.
pub mod Replicate
use embkv.Base.{
  ℕ, Bool, true, false, Option, none, some, List, [], ◌∷◌, add64, ◌==◌, if◌then◌else◌, Result, ok,
  ◌>>=◌,
}
use embkv.Base.Map.{emplace}
use embkv.Proto.{
  EntryMeta, AppendEntriesRequest, ClientRequest, ClientResponse, Content, Message, Priority,
  InstallSnapshotRequest, InstallSnapshotResponse, not_leader_text,
}
use embkv.Status.{Role, update_next_index, update_match_index}
use embkv.Log.{RaftLog, entry_at, append_entry}
use embkv.Node.{RaftNode, Services, Effect, emit, with_status, message, leader_id}

abbrev pub is_leader : Role → Bool
is_leader Role.leader = true
is_leader _ = false

abbrev pub not_leader_response : ℕ → ℕ → ClientResponse
not_leader_response request_id hint = record {
  request_id = request_id;
  leader_hint = hint;
  success = false;
  value = [];
  error = some not_leader_text;
}

module _ {M : Type 0} where
  -- The entry that the leader makes of a request.
  abbrev pub new_entry : Services M → RaftNode M → ClientRequest → EntryMeta
  new_entry s n req = record {
    term = n.st.current_term;
    index = add64 n.log.last_log_index 1;
    client_request = s.serialize_request req;
  }

  -- The node with the entry in its log and the request on record.
  unfoldable pub record_request : RaftNode M → ℕ → ℕ → EntryMeta → RaftNode M
  unfolding append_entry update_next_index update_match_index
  record_request n client_id request_id entry =
      let log = append_entry n.log entry in
      record n {
        log = log;
        st =
            update_match_index client_id log.last_log_index
              (update_next_index client_id (add64 log.last_log_index 1) n.st);
        requests =
            emplace log.last_log_index (record { client_id = client_id; request_id = request_id })
              n.requests;
      }

  abbrev pub append_request : RaftNode M → ℕ → ℕ → EntryMeta → AppendEntriesRequest
  append_request n prev_index prev_term entry = record {
    term = n.st.current_term;
    prev_log_index = prev_index;
    prev_log_term = prev_term;
    entries = entry ∷ [];
    leader_commit = n.st.commit_index;
    is_heartbeat = false;
  }

  abbrev pub send_append : RaftNode M → ℕ → ℕ → EntryMeta → RaftNode M
  send_append n prev_index prev_term entry =
      emit
        (Effect.to_pipelines
          (message n (Content.append_entries_request (append_request n prev_index prev_term entry)))
          Priority.medium)
        n

  -- The message for the peers, unless the entry before is missing.
  unfoldable pub broadcast_entry : RaftNode M → ℕ → EntryMeta → Result (RaftNode M)
  broadcast_entry n last_index entry =
      if last_index == 0
      then ok (send_append n last_index 0 entry)
      else (entry_at n.log last_index >>= elim [
        | none ↦ ok n
        | some last_entry ↦ ok (send_append n last_index last_entry.term entry)
      ])

  unfoldable pub handle_client_request :
      Services M → RaftNode M → Message → ClientRequest → Result (RaftNode M)
  unfolding record_request broadcast_entry leader_id
  handle_client_request s n msg req =
      if is_leader n.st.role
      then (let entry = new_entry s n req in
          broadcast_entry (record_request n msg.node_id req.request_id entry) n.log.last_log_index
            entry)
      else ok (
          emit
            (Effect.to_client msg.node_id (
              message n
                (Content.client_response (not_leader_response req.request_id (leader_id n)))))
            n)

  unfoldable pub handle_install_snapshot_request :
      RaftNode M → Message → InstallSnapshotRequest → RaftNode M
  handle_install_snapshot_request n msg req = n

  unfoldable pub handle_install_snapshot_response :
      RaftNode M → Message → InstallSnapshotResponse → RaftNode M
  handle_install_snapshot_response n msg res = n
