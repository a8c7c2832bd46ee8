-- ===== src/Node/Run/Grows/Timers.antt =====
-- The client requests, the timers, and whole runs: the log and the messages only grow.
use embkv.Base.{
  All, ℕ, ◌-◌, ◌+◌, refl, sym, Option, none, some, List, [], ◌∷◌, append-nil, arith, sub64, ok,
  Holds, ltb, leb, ◌==◌, Bool-cases, inl, inr, Returns, Returns-map, Returns-and,
}
use embkv.Base.Map.{Map}
use embkv.Base.Sets.{contains}
use embkv.Proto.{Message, Content, EntryMeta, ClientRequest}
use embkv.Log.{entry_at, append_entry}
use embkv.Node.{RaftNode, Services, Effect, Revents, send_to_pipeline, peer_count}
use embkv.Node.Vote.{start_election, stand, may_stand}
use embkv.Node.Client.{
  handle_client_request, record_request, broadcast_entry, new_entry, is_leader, send_append,
  handle_install_snapshot_request, handle_install_snapshot_response,
}
use embkv.Node.Timers.{
  handle_election_timeout, handle_heartbeat_timeout, handle_reissue_timeout, handle_parse_timeout,
  handle_all, dispatch, commit, lead, heartbeat, commit_candidate, match_values, entries_from,
  send_entries, reissue_to, reissue_all,
}
use embkv.Node.Speaks.{Holds-any, Holds-bind}
use embkv.Node.Valid.{IsValid}
use embkv.Node.Run.{Event, step, run, TermsFit}
use embkv.Node.Run.Safety.{run-IsValid, IsSoundEvent}
use embkv.Node.Run.Grows.{
  Extends, emit-More, same-More, append-More, vote_request-More, vote_response-More,
  append_response-More, apply-More, append_request-More,
}

module _ {M : Type 0} (s : Services M) (start : RaftNode M) where
  abbrev More : RaftNode M → Type 0
  More = Extends start

  sent_after-More :
      (n : RaftNode M) (last : ℕ) (entry : EntryMeta) (before : Option EntryMeta)
      → More n
      → Holds More (elim before [
        | none ↦ ok n
        | some last_entry ↦ ok (send_append n last last_entry.term entry)
      ])
  sent_after-More n last entry none v = v
  sent_after-More n last entry (some e) v = emit-More s start _ n v

  broadcast_entry-More :
      (n : RaftNode M) (last : ℕ) (entry : EntryMeta)
      → More n
      → Holds More (broadcast_entry n last entry)
  unfolding broadcast_entry
  broadcast_entry-More n last entry v = elim (Bool-cases (last == 0)) [
    | inl first ↦ rw (first, broadcast_entry) (emit-More s start _ n v)
    | inr later ↦
        rw (later, broadcast_entry)
          (Holds-bind (λ e. Unit {0}) More (entry_at n.log last) _ (Holds-any (entry_at n.log last))
            (λ e _. sent_after-More n last entry e v))
  ]

  record_request-More :
      (n : RaftNode M) (client request : ℕ) (entry : EntryMeta)
      → More n
      → More (record_request n client request entry)
  unfolding record_request append_entry
  record_request-More n client request entry v =
      same-More s start (record n { log = append_entry n.log entry }) _ refl refl
        (append-More s start n (append_entry n.log entry) (entry ∷ []) refl v)

  client_request-More :
      (n : RaftNode M) (msg : Message) (req : ClientRequest)
      → More n
      → Holds More (handle_client_request s n msg req)
  unfolding handle_client_request
  client_request-More n msg req v = elim (Bool-cases (is_leader n.st.role)) [
    | inl leads ↦
        rw (leads, handle_client_request)
          (broadcast_entry-More _ n.log.last_log_index (new_entry s n req)
            (record_request-More n msg.node_id req.request_id (new_entry s n req) v))
    | inr follows ↦ rw (follows, handle_client_request) (emit-More s start _ n v)
  ]

  dispatch-More :
      (now : ℕ) (n : RaftNode M) (msg : Message) (c : Content)
      → More n
      → Holds More (dispatch s now n msg c)
  unfolding dispatch
  dispatch-More now n msg (Content.request_vote_request r) v = vote_request-More s start n msg r v
  dispatch-More now n msg (Content.request_vote_response r) v = vote_response-More s start n msg r v
  dispatch-More now n msg (Content.append_entries_request r) v =
      append_request-More s start now n msg r v
  dispatch-More now n msg (Content.append_entries_response r) v =
      append_response-More s start n msg r v
  dispatch-More now n msg (Content.snapshot_request r) v =
      unfold handle_install_snapshot_request in v
  dispatch-More now n msg (Content.snapshot_response r) v =
      unfold handle_install_snapshot_response in v
  dispatch-More now n msg (Content.client_request r) v = client_request-More n msg r v
  dispatch-More now n msg _ v = v

  handle_all-More :
      (n : RaftNode M) (batch : List (Message × ℕ)) → More n → Holds More (handle_all s n batch)
  unfolding handle_all
  handle_all-More n [] v = v
  handle_all-More n ((msg, now) ∷ rest) v =
      Holds-bind More More (dispatch s now n msg msg.content) (λ m. handle_all s m rest)
        (dispatch-More now n msg msg.content v) (λ m q. handle_all-More m rest q)

  start_election-More : (n : RaftNode M) → More n → More (start_election n)
  unfolding start_election stand
  start_election-More n v = elim (Bool-cases (may_stand n.st.role)) [
    | inl stands ↦
        rw (stands, start_election) (emit-More s start _ _ (same-More s start n _ refl refl v))
    | inr leads ↦ rw (leads, start_election) v
  ]

  election-More :
      (n : RaftNode M) (revents : Revents) (now : ℕ)
      → More n
      → More (handle_election_timeout n revents now)
  unfolding handle_election_timeout
  election-More n revents now v =
      let stood =
        same-More s start (start_election n) (record (start_election n) { election_start = now })
          refl refl (start_election-More n v) in
      let waited = same-More s start n (record n { election_start = now }) refl refl v in
      emit-More s start Effect.reset_timer _ (elim (Bool-cases revents.error) [
        | inl failed ↦ rw failed v
        | inr fine ↦ elim (Bool-cases revents.timeout) [
          | inr idle ↦ rw (fine, idle) v
          | inl fired ↦
              elim (Bool-cases (leb (sub64 now n.election_start) (sub64 now n.st.last_heartbeat))) [
                | inl alone ↦ rw (fine, fired, alone) stood
                | inr led ↦ rw (fine, fired, led) waited
              ]
        ]
      ])

  commit-More : (n : RaftNode M) (value : ℕ) → More n → Holds More (commit s value n)
  unfolding commit
  commit-More n value v = elim (Bool-cases (ltb n.st.commit_index value)) [
    | inl more ↦ rw (more, commit) (apply-More s start value _ (same-More s start n _ refl refl v))
    | inr done ↦ rw (done, commit) v
  ]

  lead-More : (n : RaftNode M) (values : List ℕ) → More n → Holds More (lead s n values)
  unfolding lead heartbeat
  lead-More n [] v = v
  lead-More n (x ∷ xs) v =
      Holds-bind (λ value. Unit {0}) More (commit_candidate (peer_count n) (x ∷ xs)) _
        (Holds-any (commit_candidate (peer_count n) (x ∷ xs)))
        (λ value _.
          Holds-bind More More (commit s value n) _ (commit-More n value v)
            (λ m q. emit-More s start _ m q))

  heartbeat-More :
      (n : RaftNode M) (revents : Revents)
      → More n
      → Holds More (handle_heartbeat_timeout s n revents)
  unfolding handle_heartbeat_timeout
  heartbeat-More n revents v = let led = lead-More n (match_values n) v in ground arith

  send_entries-More :
      (n : RaftNode M) (id next : ℕ) (es : List EntryMeta)
      → More n
      → Holds More (send_entries n id next es)
  unfolding send_entries send_to_pipeline
  send_entries-More n id next [] v = v
  send_entries-More n id next (e ∷ es) v =
      Holds-bind (λ x. Unit {0}) More (entry_at n.log (sub64 next 1)) _
        (Holds-any (entry_at n.log (sub64 next 1)))
        (λ x _. elim (Bool-cases (contains id n.peers)) [
          | inl known ↦ rw known (emit-More s start _ n v)
          | inr unknown ↦ rw unknown v
        ])

  reissue_all-More :
      (n : RaftNode M) (next_index : Map ℕ) → More n → Holds More (reissue_all n next_index)
  unfolding reissue_all reissue_to
  reissue_all-More n [] v = v
  reissue_all-More n ((id, next) ∷ rest) v =
      Holds-bind More More (reissue_to n id next) (λ m. reissue_all m rest)
        (elim (Bool-cases (leb next n.log.last_log_index)) [
          | inr done ↦ rw (done, reissue_to) v
          | inl more ↦
              rw (more, reissue_to)
                (Holds-bind (λ es. Unit {0}) More
                  (entries_from n.log next (n.log.last_log_index + 1 - next))
                  (send_entries n id next)
                  (Holds-any (entries_from n.log next (n.log.last_log_index + 1 - next)))
                  (λ es _. send_entries-More n id next es v))
        ])
        (λ m q. reissue_all-More m rest q)

  reissue-More :
      (n : RaftNode M) (revents : Revents) → More n → Holds More (handle_reissue_timeout n revents)
  unfolding handle_reissue_timeout
  reissue-More n revents v = let sent = reissue_all-More n n.st.next_index v in ground arith

  step-More : (n : RaftNode M) (e : Event) → More n → Holds More (step s n e)
  unfolding step handle_parse_timeout
  step-More n (Event.election_timeout revents now) v = election-More n revents now v
  step-More n (Event.heartbeat_timeout revents) v = heartbeat-More n revents v
  step-More n (Event.parse_timeout revents batch) v =
      let all = handle_all-More n batch v in ground arith
  step-More n (Event.reissue_timeout revents) v = reissue-More n revents v

  run-More : (n : RaftNode M) (es : List Event) → More n → Holds More (run s n es)
  unfolding run
  run-More n [] v = v
  run-More n (e ∷ es) v =
      Holds-bind More More (step s n e) (λ m. run s m es) (step-More n e v) (λ m q. run-More m es q)

-- Over every sequence of callbacks of a valid node, where the messages are sound and no event finds the
-- node at the largest term: the log and the list of what the node has sent only grow at their ends, so
-- that no entry is ever removed or changed.
pub run-Extends :
    {M : Type 0} (s : Services M) (n : RaftNode M) (es : List Event)
    → IsValid n
    → All (IsSoundEvent n.peers) es
    → TermsFit s n es
    → Returns (Extends n) (run s n es)
run-Extends s n es v h f =
    Returns-map (λ m. IsValid m × Extends n m) (Extends n) (run s n es) (λ m q. q.1)
      (Returns-and IsValid (Extends n) (run s n es) (run-IsValid s n es v h f) (
        run-More s n n es (record {
          log = ([], sym (append-nil n.log.entries));
          out = ([], sym (append-nil n.out));
        })))
