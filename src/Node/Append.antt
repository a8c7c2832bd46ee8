-- ===== src/Node/Append.antt =====
-- The replication of embkv/src/raft/node.cpp: the handlers of append-entries messages.
pub mod Follower
use embkv.Base.{
  ℕ, Bool, true, false, not, Option, none, some, List, [], add64, ltb, ◌==◌, if◌then◌else◌, Result,
  ok, ◌>>=◌,
}
use embkv.Proto.{EntryMeta, AppendEntriesRequest, AppendEntriesResponse, Content, Message, Priority}
use embkv.Status.{handle_higher_term, update_next_index, update_match_index}
use embkv.Log.{RaftLog, entry_at, append_all}
use embkv.Node.{RaftNode, Services, Effect, emit, with_status, message}
use embkv.Node.Apply.{apply_to_state_machine}
use embkv.Node.Vote.{is_stale, follow_term}

abbrev pub has_term : ℕ → Option EntryMeta → Bool
has_term term none = false
has_term term (some entry) = term == entry.term

-- The check that the entry before the new ones is there.
unfoldable pub prev_matches : RaftLog → AppendEntriesRequest → Result Bool
prev_matches log req =
    if req.prev_log_index == 0
    then ok true
    else (entry_at log req.prev_log_index >>= λ entry. ok (has_term req.prev_log_term entry))

abbrev pub reject_response : AppendEntriesRequest → RaftLog → AppendEntriesResponse
reject_response req log = record {
  term = req.term;
  success = false;
  conflict_index = req.prev_log_index;
  last_log_index = log.last_log_index;
}

abbrev pub accept_response : AppendEntriesRequest → RaftLog → AppendEntriesResponse
accept_response req log = record {
  term = req.term;
  success = true;
  conflict_index = 0;
  last_log_index = log.last_log_index;
}

module _ {M : Type 0} where
  abbrev pub reply : AppendEntriesResponse → RaftNode M → RaftNode M
  reply res n =
      emit (Effect.to_pipelines (message n (Content.append_entries_response res)) Priority.high) n

  -- The entries join the log behind its last one, or the request is refused.
  unfoldable pub finish_append : RaftNode M → AppendEntriesRequest → Bool → RaftNode M
  finish_append n req true =
      let log = append_all n.log req.entries in
      reply (accept_response req log) (record n { log = log })
  finish_append n req false = reply (reject_response req n.log) n

  -- The part of the handler behind the heartbeat's return.
  unfoldable pub append_entries : RaftNode M → AppendEntriesRequest → Result (RaftNode M)
  unfolding prev_matches finish_append
  append_entries n req = prev_matches n.log req >>= λ matched. ok (finish_append n req matched)

  abbrev pub hear_leader : ℕ → ℕ → RaftNode M → RaftNode M
  hear_leader leader now n =
      with_status (record n.st { last_heartbeat = now; leader_id = some leader }) n

  -- `if (leader_commit > commit_index()) apply_to_state_machine(leader_commit);`
  unfoldable pub follow_commit : Services M → ℕ → RaftNode M → Result (RaftNode M)
  unfolding apply_to_state_machine
  follow_commit s leader_commit n =
      if ltb n.st.commit_index leader_commit then apply_to_state_machine s leader_commit n else ok n

  -- `now` is the time that `current_ms()` reads.
  unfoldable pub receive_entries :
      ℕ → Message → AppendEntriesRequest → RaftNode M → Result (RaftNode M)
  unfolding append_entries
  receive_entries now msg req n =
      if req.is_heartbeat then ok (hear_leader msg.node_id now n) else append_entries n req

  unfoldable pub handle_append_entries_request :
      Services M → ℕ → RaftNode M → Message → AppendEntriesRequest → Result (RaftNode M)
  unfolding is_stale follow_term follow_commit receive_entries
  handle_append_entries_request s now n msg req =
      if is_stale n msg req.term
      then ok n
      else (follow_commit s req.leader_commit (follow_term req.term n)
          >>= receive_entries now msg req)

  unfoldable pub handle_append_entries_response :
      RaftNode M → Message → AppendEntriesResponse → RaftNode M
  unfolding is_stale handle_higher_term update_next_index update_match_index
  handle_append_entries_response n msg res =
      if is_stale n msg res.term
      then n
      else if ltb n.st.current_term res.term
      then with_status (handle_higher_term res.term n.st) n
      else if not res.success
      then with_status (update_next_index msg.node_id res.conflict_index n.st) n
      else with_status
          (update_match_index msg.node_id res.last_log_index
            (update_next_index msg.node_id (add64 res.last_log_index 1) n.st))
          n
