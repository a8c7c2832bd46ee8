-- ===== src/Node/Timers.antt =====
-- The timers of embkv/src/raft/node.cpp: the callbacks for elections, heartbeats, incoming messages
-- and the re-sending of log entries.
pub mod Sort
pub mod Order
use embkv.Base.{
  ℕ, zero, suc, ◌+◌, ◌-◌, ◌*◌, ◌/◌, Bool, true, false, Option, none, some, List, [], ◌∷◌, ◌++◌, map,
  length, get_elem?, add64, sub64, ltb, leb, ◌==◌, if◌then◌else◌, Result, ok, fault, bad_index,
  ◌>>=◌,
}
use embkv.Base.Map.{Map}
use embkv.Proto.{EntryMeta, AppendEntriesRequest, Content, Message, Priority}
use embkv.Log.{RaftLog, entry_at}
use embkv.Node.{
  RaftNode, Services, Effect, Revents, emit, with_status, message, peer_count, send_to_pipeline,
}
use embkv.Node.Apply.{apply_to_state_machine}
use embkv.Node.Vote.{start_election, handle_request_vote_request, handle_request_vote_response}
use embkv.Node.Append.{handle_append_entries_request, handle_append_entries_response}
use embkv.Node.Client.{
  is_leader, handle_client_request, handle_install_snapshot_request,
  handle_install_snapshot_response,
}
use Sort.{sort}

-- `values[index]` of the sorted values, with the wrap-around of the index.
unfoldable pub commit_candidate : ℕ → List ℕ → Result ℕ
unfolding sort
commit_candidate peers values =
    elim (get_elem? (sort values) (sub64 peers (length values / 2 + 1))) [
      | none ↦ fault bad_index
      | some value ↦ ok value
    ]

abbrev pub cons_some {ℓ} : {A : Type ℓ} → Option A → List A → List A
cons_some none es = es
cons_some (some e) es = e ∷ es

-- The loop from `index` on, with the number of its rounds.
unfoldable pub entries_from : RaftLog → ℕ → ℕ → Result (List EntryMeta)
entries_from log index zero = ok []
entries_from log index (suc rounds) = entry_at log index >>= λ entry.
    (entries_from log (index + 1) rounds >>= λ rest. ok (cons_some entry rest))

abbrev pub prev_term : Option EntryMeta → ℕ
prev_term none = 0
prev_term (some e) = e.term

module _ {M : Type 0} where
  -- The times are what `current_ms()` reads, in milliseconds.
  unfoldable pub handle_election_timeout : RaftNode M → Revents → ℕ → RaftNode M
  handle_election_timeout n revents now = emit Effect.reset_timer (
      if revents.error
      then n
      else if revents.timeout
      then record (if leb (sub64 now n.election_start) (sub64 now n.st.last_heartbeat)
          then start_election n
          else n) { election_start = now }
      else n)

  abbrev pub heartbeat_request : RaftNode M → AppendEntriesRequest
  heartbeat_request n = record {
    term = n.st.current_term;
    prev_log_index = 0;
    prev_log_term = 0;
    entries = [];
    leader_commit = n.st.commit_index;
    is_heartbeat = true;
  }

  unfoldable pub heartbeat : RaftNode M → RaftNode M
  heartbeat n =
      emit
        (Effect.to_pipelines (message n (Content.append_entries_request (heartbeat_request n)))
          Priority.critical)
        n

  abbrev pub match_values : RaftNode M → List ℕ
  match_values n = map (λ e. e.1) n.st.match_index

  -- `if (value > commit_index()) …`
  unfoldable pub commit : Services M → ℕ → RaftNode M → Result (RaftNode M)
  commit s value n =
      if ltb n.st.commit_index value
      then apply_to_state_machine s value (record n { st = record n.st { commit_index = value } })
      else ok n

  unfoldable pub lead : Services M → RaftNode M → List ℕ → Result (RaftNode M)
  unfolding commit_candidate commit heartbeat
  lead s n [] = ok n
  lead s n (v ∷ vs) = commit_candidate (peer_count n) (v ∷ vs) >>= λ value.
      (commit s value n >>= λ m. ok (heartbeat m))

  unfoldable pub handle_heartbeat_timeout : Services M → RaftNode M → Revents → Result (RaftNode M)
  unfolding lead
  handle_heartbeat_timeout s n revents =
      if revents.timeout
      then if is_leader n.st.role then lead s n (match_values n) else ok n
      else ok n

  -- One message of the batch; `now` is the time at which it is handled.
  unfoldable pub dispatch : Services M → ℕ → RaftNode M → Message → Content → Result (RaftNode M)
  dispatch s now n msg (Content.request_vote_request r) = ok (handle_request_vote_request n msg r)
  dispatch s now n msg (Content.request_vote_response r) = ok (handle_request_vote_response n msg r)
  dispatch s now n msg (Content.append_entries_request r) =
      handle_append_entries_request s now n msg r
  dispatch s now n msg (Content.append_entries_response r) =
      ok (handle_append_entries_response n msg r)
  dispatch s now n msg (Content.snapshot_request r) = ok (handle_install_snapshot_request n msg r)
  dispatch s now n msg (Content.snapshot_response r) = ok (handle_install_snapshot_response n msg r)
  dispatch s now n msg (Content.client_request r) = handle_client_request s n msg r
  dispatch s now n msg _ = ok n

  -- The loop over what `try_dequeue_bulk` handed out, each message with its time.
  unfoldable pub handle_all : Services M → RaftNode M → List (Message × ℕ) → Result (RaftNode M)
  unfolding dispatch
  handle_all s n [] = ok n
  handle_all s n ((msg, now) ∷ rest) = dispatch s now n msg msg.content >>= λ m. handle_all s m rest

  unfoldable pub handle_parse_timeout :
      Services M → RaftNode M → Revents → List (Message × ℕ) → Result (RaftNode M)
  unfolding handle_all
  handle_parse_timeout s n revents batch = if revents.timeout then handle_all s n batch else ok n

  abbrev pub reissue_request : RaftNode M → ℕ → ℕ → List EntryMeta → AppendEntriesRequest
  reissue_request n prev_index prev_term entries = record {
    term = n.st.current_term;
    prev_log_index = prev_index;
    prev_log_term = prev_term;
    entries = entries;
    leader_commit = n.st.commit_index;
    is_heartbeat = false;
  }

  unfoldable pub send_entries : RaftNode M → ℕ → ℕ → List EntryMeta → Result (RaftNode M)
  unfolding send_to_pipeline
  send_entries n id next [] = ok n
  send_entries n id next (e ∷ es) = entry_at n.log (sub64 next 1) >>= λ prev_entry. ok (
      send_to_pipeline id
        (message n (
          Content.append_entries_request
            (reissue_request n (sub64 next 1) (prev_term prev_entry) (e ∷ es))))
        n)

  -- One peer of the loop over `next_index_`. The rounds are those of `i <= last_log_index`, which
  -- ends for a last index below 2 ^ 64 - 1.
  unfoldable pub reissue_to : RaftNode M → ℕ → ℕ → Result (RaftNode M)
  unfolding entries_from send_entries
  reissue_to n id next =
      if leb next n.log.last_log_index
      then (entries_from n.log next (n.log.last_log_index + 1 - next) >>= send_entries n id next)
      else ok n

  unfoldable pub reissue_all : RaftNode M → Map ℕ → Result (RaftNode M)
  unfolding reissue_to
  reissue_all n [] = ok n
  reissue_all n ((id, next) ∷ rest) = reissue_to n id next >>= λ m. reissue_all m rest

  unfoldable pub handle_reissue_timeout : RaftNode M → Revents → Result (RaftNode M)
  unfolding reissue_all
  handle_reissue_timeout n revents =
      if revents.timeout
      then if is_leader n.st.role then reissue_all n n.st.next_index else ok n
      else ok n
