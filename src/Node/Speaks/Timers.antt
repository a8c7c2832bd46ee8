-- ===== src/Node/Speaks/Timers.antt =====
-- The client requests and the timers, and what they say.
use embkv.Base.{
  ℕ, zero, suc, ◌+◌, ◌-◌, ◌≤◌, ◌<◌, Option, none, some, List, [], ◌∷◌, arith, u64_mod, sub64, All,
  get_elem?, bad_index, length, ◌/◌, ok, fault, Holds, ltb, leb, ◌==◌, Bool-cases, inl, inr,
}
use embkv.Base.Map.{Map}
use embkv.Base.Sets.{contains}
use embkv.Proto.{Message, EntryMeta, ClientRequest}
use embkv.Status.{update_next_index, update_match_index}
use embkv.Log.{RaftLog, entry_at, append_entry}
use embkv.Node.{RaftNode, Services, Effect, Revents, send_to_pipeline, peer_count}
use embkv.Node.Vote.{start_election, may_stand, stand}
use embkv.Node.Client.{
  handle_client_request, record_request, broadcast_entry, new_entry, is_leader, send_append,
}
use embkv.Node.Timers.{
  handle_election_timeout, handle_heartbeat_timeout, handle_reissue_timeout, commit, lead,
  heartbeat, commit_candidate, match_values, entries_from, cons_some, send_entries, reissue_to,
  reissue_all,
}
use embkv.Node.Timers.Sort.{sort, All-sort}
use embkv.Node.Speaks.{
  Speaks, All-append, EntryFits, EntriesFit, Promise, Holds-any, Holds-bind, emit-Speaks,
  status-Speaks,
}
use embkv.Node.Speaks.Handlers.{apply-Speaks, entry_at-fits}

found-All :
    (P : ℕ → Type 0) (values : List ℕ) (i : ℕ)
    → All P values
    → Holds P (elim (get_elem? values i) [ none ↦ fault bad_index | some value ↦ ok value ])
found-All P [] i f = tt
found-All P (x ∷ xs) zero f = f.0
found-All P (x ∷ xs) (suc i) f = found-All P xs i f.1

-- What the leader finds to commit is one of the match indices.
pub commit_candidate-All :
    (P : ℕ → Type 0) (peers : ℕ) (values : List ℕ)
    → All P values
    → Holds P (commit_candidate peers values)
unfolding commit_candidate
commit_candidate-All P peers values f =
    found-All P (sort values) (sub64 peers (length values / 2 + 1)) (All-sort P values f)

cons_some-fits :
    (P : EntryMeta → Type 0) (e : Option EntryMeta) (rest : List EntryMeta)
    → All P (cons_some e [])
    → All P rest
    → All P (cons_some e rest)
cons_some-fits P none rest f g = g
cons_some-fits P (some e) rest f g = (f.0, g)

entries_from-fits :
    (P : EntryMeta → Type 0) (log : RaftLog) (index rounds : ℕ)
    → All P log.entries
    → Holds (All P) (entries_from log index rounds)
unfolding entries_from
entries_from-fits P log index zero f = tt
entries_from-fits P log index (suc rounds) f =
    Holds-bind (λ e. All P (cons_some e [])) (All P) (entry_at log index) _
      (entry_at-fits P log index f)
      (λ e g.
        Holds-bind (All P) (All P) (entries_from log (index + 1) rounds) _
          (entries_from-fits P log (index + 1) rounds f) (λ rest h. cons_some-fits P e rest g h))

module _ {M : Type 0} (s : Services M) (p : Promise s) (bound : ℕ) (ps : List ℕ) where
  abbrev Fine : RaftNode M → Type 0
  Fine = Speaks s p bound ps

  -- An entry whose index is a 64-bit number, on record in the node.
  record_request-Speaks :
      (n : RaftNode M) (client request : ℕ) (entry : EntryMeta)
      → EntryFits s p entry
      → Fine n
      → Fine (record_request n client request entry)
  unfolding record_request append_entry update_next_index update_match_index
  record_request-Speaks n client request entry f v = record {
    same_peers = v.same_peers;
    named = v.named;
    term = v.term;
    commit_fits = v.commit_fits;
    last_fits = f.0;
    entries_fit = All-append (EntryFits s p) n.log.entries (entry ∷ []) v.entries_fit (f, tt);
    machine = v.machine;
    sent = v.sent;
  }

  sent_after-Speaks :
      (n : RaftNode M) (last : ℕ) (entry : EntryMeta) (before : Option EntryMeta)
      → EntryFits s p entry
      → Fine n
      → Holds Fine (elim before [
        | none ↦ ok n
        | some last_entry ↦ ok (send_append n last last_entry.term entry)
      ])
  sent_after-Speaks n last entry none f v = v
  sent_after-Speaks n last entry (some e) f v =
      emit-Speaks s p bound ps _ n (v.named, (v.term, v.commit_fits, (f, tt))) v

  broadcast_entry-Speaks :
      (n : RaftNode M) (last : ℕ) (entry : EntryMeta)
      → EntryFits s p entry
      → Fine n
      → Holds Fine (broadcast_entry n last entry)
  unfolding broadcast_entry
  broadcast_entry-Speaks n last entry f v = elim (Bool-cases (last == 0)) [
    | inl first ↦
        rw (first, broadcast_entry)
          (emit-Speaks s p bound ps _ n (v.named, (v.term, v.commit_fits, (f, tt))) v)
    | inr later ↦
        rw (later, broadcast_entry)
          (Holds-bind (λ e. Unit {0}) Fine (entry_at n.log last) _ (Holds-any (entry_at n.log last))
            (λ e _. sent_after-Speaks n last entry e f v))
  ]

  pub client_request-Speaks :
      (n : RaftNode M) (msg : Message) (req : ClientRequest)
      → p.Asked (s.serialize_request req)
      → Fine n
      → Holds Fine (handle_client_request s n msg req)
  unfolding handle_client_request
  client_request-Speaks n msg req f v = elim (Bool-cases (is_leader n.st.role)) [
    | inl leads ↦
        rw (leads, handle_client_request)
          (broadcast_entry-Speaks (record_request n msg.node_id req.request_id (new_entry s n req))
            n.log.last_log_index (new_entry s n req) (omega arith, f)
            (record_request-Speaks n msg.node_id req.request_id (new_entry s n req) (omega arith, f)
              v))
    | inr follows ↦ rw (follows, handle_client_request) (emit-Speaks s p bound ps _ n tt v)
  ]

  heartbeat-Speaks : (n : RaftNode M) → Fine n → Fine (heartbeat n)
  unfolding heartbeat
  heartbeat-Speaks n v = emit-Speaks s p bound ps _ n (v.named, (v.term, v.commit_fits, tt)) v

  commit-Speaks :
      (value : ℕ) (n : RaftNode M) → value < u64_mod → Fine n → Holds Fine (commit s value n)
  unfolding commit
  commit-Speaks value n f v = elim (Bool-cases (ltb n.st.commit_index value)) [
    | inl more ↦
        rw (more, commit)
          (apply-Speaks s p bound ps value _ f (status-Speaks s p bound ps _ n v.term f v))
    | inr done ↦ rw (done, commit) v
  ]

  lead-Speaks :
      (n : RaftNode M) (values : List ℕ)
      → All (λ v. v < u64_mod) values
      → Fine n
      → Holds Fine (lead s n values)
  unfolding lead
  lead-Speaks n [] f v = v
  lead-Speaks n (x ∷ xs) f v =
      Holds-bind (λ value. value < u64_mod) Fine (commit_candidate (peer_count n) (x ∷ xs)) _
        (commit_candidate-All (λ v. v < u64_mod) (peer_count n) (x ∷ xs) f)
        (λ value g.
          Holds-bind Fine Fine (commit s value n) _ (commit-Speaks value n g v)
            (λ m q. heartbeat-Speaks m q))

  pub heartbeat_timeout-Speaks :
      (n : RaftNode M) (revents : Revents)
      → All (λ v. v < u64_mod) (match_values n)
      → Fine n
      → Holds Fine (handle_heartbeat_timeout s n revents)
  unfolding handle_heartbeat_timeout
  heartbeat_timeout-Speaks n revents f v = elim (Bool-cases revents.timeout) [
    | inr idle ↦ rw (idle, handle_heartbeat_timeout) v
    | inl fired ↦ elim (Bool-cases (is_leader n.st.role)) [
      | inr follows ↦ rw (fired, follows, handle_heartbeat_timeout) v
      | inl leads ↦ rw (fired, leads, handle_heartbeat_timeout) (lead-Speaks n (match_values n) f v)
    ]
  ]

  start_election-Speaks :
      (n : RaftNode M) → suc n.st.current_term ≤ bound → Fine n → Fine (start_election n)
  unfolding start_election stand
  start_election-Speaks n f v = elim (Bool-cases (may_stand n.st.role)) [
    | inl stands ↦
        rw (stands, start_election)
          (emit-Speaks s p bound ps _ _ (v.named, omega arith)
            (status-Speaks s p bound ps _ n (omega arith) v.commit_fits v))
    | inr leads ↦ rw (leads, start_election) v
  ]

  -- An election goes on to the next term.
  pub election_timeout-Speaks :
      (n : RaftNode M) (revents : Revents) (now : ℕ)
      → suc n.st.current_term ≤ bound
      → Fine n
      → Fine (handle_election_timeout n revents now)
  unfolding handle_election_timeout
  election_timeout-Speaks n revents now f v =
      emit-Speaks s p bound ps Effect.reset_timer _ tt (ground (arith, start_election-Speaks n f v))

  send_entries-Speaks :
      (n : RaftNode M) (id next : ℕ) (es : List EntryMeta)
      → EntriesFit s p es
      → Fine n
      → Holds Fine (send_entries n id next es)
  unfolding send_entries send_to_pipeline
  send_entries-Speaks n id next [] f v = v
  send_entries-Speaks n id next (e ∷ es) f v =
      Holds-bind (λ x. Unit {0}) Fine (entry_at n.log (sub64 next 1)) _
        (Holds-any (entry_at n.log (sub64 next 1)))
        (λ x _. elim (Bool-cases (contains id n.peers)) [
          | inl known ↦
              rw known (emit-Speaks s p bound ps _ n (v.named, (v.term, v.commit_fits, f)) v)
          | inr unknown ↦ rw unknown v
        ])

  reissue_all-Speaks :
      (n : RaftNode M) (next_index : Map ℕ) → Fine n → Holds Fine (reissue_all n next_index)
  unfolding reissue_all reissue_to
  reissue_all-Speaks n [] v = v
  reissue_all-Speaks n ((id, next) ∷ rest) v =
      Holds-bind Fine Fine (reissue_to n id next) (λ m. reissue_all m rest)
        (elim (Bool-cases (leb next n.log.last_log_index)) [
          | inr done ↦ rw (done, reissue_to) v
          | inl more ↦
              rw (more, reissue_to)
                (Holds-bind (EntriesFit s p) Fine
                  (entries_from n.log next (n.log.last_log_index + 1 - next))
                  (send_entries n id next)
                  (entries_from-fits (EntryFits s p) n.log next (n.log.last_log_index + 1 - next)
                    v.entries_fit)
                  (λ es f. send_entries-Speaks n id next es f v))
        ])
        (λ m q. reissue_all-Speaks m rest q)

  pub reissue-Speaks :
      (n : RaftNode M) (revents : Revents) → Fine n → Holds Fine (handle_reissue_timeout n revents)
  unfolding handle_reissue_timeout
  reissue-Speaks n revents v = elim (Bool-cases revents.timeout) [
    | inr idle ↦ rw (idle, handle_reissue_timeout) v
    | inl fired ↦ elim (Bool-cases (is_leader n.st.role)) [
      | inr follows ↦ rw (fired, follows, handle_reissue_timeout) v
      | inl leads ↦
          rw (fired, leads, handle_reissue_timeout) (reissue_all-Speaks n n.st.next_index v)
    ]
  ]
