-- ===== src/Node/Valid/Leader.antt =====
-- The leader's callbacks from a valid node: client requests, heartbeats and the re-sending of
-- entries.
use embkv.Base.{
  ℕ, zero, suc, ◌+◌, ◌-◌, ◌/◌, ◌≤◌, ◌<◌, ◌≡◌, refl, subst, true, List, [], ◌∷◌, arith, u64_mod,
  add64, sub64, length, All, Returns, Returns-bind, Returns-map, inl, inr, Bool-cases, ltb, leb,
  map, length-map, get_elem?-some, All-get_elem?,
}
use embkv.Base.Sets.{contains, Subset, Subset-length-le}
use embkv.Base.Map.{Map, keys}
use embkv.Proto.{Message, ClientRequest, EntryMeta}
use embkv.Status.{Role, update_next_index, update_match_index}
use embkv.Log.{RaftLog, entry_at, append_entry}
use embkv.Node.{RaftNode, Services, Revents, Effect, peer_count, send_to_pipeline}
use embkv.Node.Apply.{apply_to_state_machine}
use embkv.Node.Apply.Loop.{entry_at-Returns}
use embkv.Node.Client.{is_leader, new_entry, record_request, broadcast_entry, handle_client_request}
use embkv.Node.Timers.{
  commit_candidate, commit, lead, heartbeat, match_values, handle_heartbeat_timeout, entries_from,
  send_entries, reissue_to, reissue_all, handle_reissue_timeout,
}
use embkv.Node.Timers.Sort.{sort, count_ge, length-sort, sort_rank, All-sort}
use embkv.Node.Advance.{KeepsVote-refl}
use embkv.Node.Valid.{IsValid, Tracks-assign}
use embkv.Node.Valid.Moves.{Moves, Moves-refl, Moves-trans, Moves-bind, apply-Moves, emit-Moves}

module _ {M : Type 0} where
  record_request-Moves :
      (s : Services M) (n : RaftNode M) (client request : ℕ) (req : ClientRequest)
      → IsValid n
      → contains client n.peers ≡ true
      → Moves n (record_request n client request (new_entry s n req))
  unfolding record_request append_entry update_match_index update_next_index
  record_request-Moves s n client request req v c = ground (
    arith,
    KeepsVote-refl n.st.voted_for,
    Tracks-assign n.peers n.st (record_request n client request (new_entry s n req)).st client
        (add64 n.log.last_log_index 1) v.tracks c (omega arith) refl refl,
  )

  broadcast_entry-Moves :
      (n : RaftNode M) (last : ℕ) (e : EntryMeta)
      → IsValid n
      → Returns (Moves n) (broadcast_entry n last e)
  unfolding broadcast_entry
  broadcast_entry-Moves n last e v =
      ground (arith, KeepsVote-refl n.st.voted_for, entry_at-Returns n.log last v.from_start)

  pub client_request-Moves :
      (s : Services M) (n : RaftNode M) (msg : Message) (req : ClientRequest)
      → IsValid n
      → contains msg.node_id n.peers ≡ true
      → Returns (Moves n) (handle_client_request s n msg req)
  unfolding handle_client_request
  client_request-Moves s n msg req v c = elim (Bool-cases (is_leader n.st.role)) [
    | inl leads ↦
        rw (leads, handle_client_request)
          (let h = record_request-Moves s n msg.node_id req.request_id req v c in
            Returns-map (Moves _) (Moves n) _ (λ m q. Moves-trans n _ m h q)
              (broadcast_entry-Moves _ n.log.last_log_index (new_entry s n req) h.valid))
    | inr follows ↦ rw (follows, handle_client_request) (emit-Moves _ n v)
  ]

-- What the value chosen by the sorted match indices means: it is on a majority, and no larger one is.
pub record IsMajority (values : List ℕ) (v : ℕ) : Type 0 where
  pub enough : length values / 2 + 1 ≤ count_ge v values
  pub largest : count_ge (suc v) values < length values / 2 + 1

pub commit_candidate-IsMajority :
    (values : List ℕ)
    → 0 < length values
    → length values < u64_mod
    → All (λ v. v < u64_mod) values
    → Returns (λ v. IsMajority values v × (v < u64_mod)) (commit_candidate (length values) values)
unfolding commit_candidate
commit_candidate-IsMajority values filled small fit =
    let at : ℕ = sub64 (length values) (length values / 2 + 1) in
    let place : at ≡ length values - (length values / 2 + 1) = omega arith in
    let (v, e) = get_elem?-some (sort values) at (omega (arith, length-sort values)) in
    let rank = sort_rank at v values e in
    rw (e, commit_candidate)
      (
        record { enough = omega arith; largest = omega arith },
        All-get_elem? (λ v. v < u64_mod) (sort values) at v (All-sort _ values fit) e,
      )

pub match_values-fit :
    (ps : List ℕ) (m : Map ℕ)
    → All (λ e. (contains e.0 ps ≡ true) × (e.1 < u64_mod)) m
    → All (λ v. v < u64_mod) (map (λ e. e.1) m)
match_values-fit ps [] h = tt
match_values-fit ps (e ∷ m) h = (h.0.1, match_values-fit ps m h.1)

keys-Subset :
    (ps : List ℕ) (m : Map ℕ)
    → All (λ e. (contains e.0 ps ≡ true) × (e.1 < u64_mod)) m
    → Subset (keys m) ps
keys-Subset ps [] h = tt
keys-Subset ps (e ∷ m) h = (h.0.0, keys-Subset ps m h.1)

is_leader-eq : (r : Role) → is_leader r ≡ true → r ≡ Role.leader
is_leader-eq r h = ground arith

entries_from-Returns :
    (log : RaftLog) (index rounds : ℕ)
    → log.start_index ≡ 0
    → Returns (λ es. Unit {0}) (entries_from log index rounds)
unfolding entries_from
entries_from-Returns log index zero h = tt
entries_from-Returns log index (suc rounds) h =
    Returns-bind (λ e. Unit {0}) (λ es. Unit {0}) (entry_at log index) _
      (entry_at-Returns log index h)
      (λ e _.
        Returns-bind (λ es. Unit {0}) (λ es. Unit {0}) (entries_from log (index + 1) rounds) _
          (entries_from-Returns log (index + 1) rounds h) (λ es _. tt))

module _ {M : Type 0} where
  -- A valid leader has one match index for each peer.
  pub length-match_values :
      (n : RaftNode M)
      → IsValid n
      → n.st.role ≡ Role.leader
      → length (match_values n) ≡ length n.peers
  length-match_values n v l =
      let m = n.st.match_index in
      omega (
        arith,
        length-map m (λ (e : ℕ × ℕ). e.1),
        length-map m (λ (e : ℕ × ℕ). e.0),
        Subset-length-le (keys m) n.peers v.tracks.keys_distinct
            (keys-Subset n.peers m v.tracks.known),
        Subset-length-le n.peers (keys m) v.peers_distinct (v.tracks.covered l),
      )

  -- Setting the commit index first makes no difference: applying sets it again.
  apply-set_commit :
      (s : Services M) (k : ℕ) (n : RaftNode M)
      → apply_to_state_machine s k n
        ≡ apply_to_state_machine s k (record n { st = record n.st { commit_index = k } })
  unfolding apply_to_state_machine
  apply-set_commit s k n = refl

  commit-Moves :
      (s : Services M) (value : ℕ) (n : RaftNode M)
      → IsValid n
      → value < u64_mod
      → Returns (Moves n) (commit s value n)
  unfolding commit
  commit-Moves s value n v f = elim (Bool-cases (ltb n.st.commit_index value)) [
    | inl more ↦
        rw (more, commit)
          (subst (Returns (Moves n)) (apply-set_commit s value n)
            (apply-Moves s value n v (ground arith) f))
    | inr done ↦ rw (done, commit) (Moves-refl n v)
  ]

  pub commit_candidate-fits :
      (n : RaftNode M) (values : List ℕ)
      → IsValid n
      → length values ≡ peer_count n
      → All (λ v. v < u64_mod) values
      → Returns (λ v. IsMajority values v × (v < u64_mod)) (commit_candidate (peer_count n) values)
  commit_candidate-fits n values v e f = rw (← e) (
      commit_candidate-IsMajority values (omega (arith, v.some_peer)) (omega (arith, v.peers_fit))
        f)

  -- What a heartbeat does for the commit index: it moves only to an index that a majority holds.
  lead-Moves :
      (s : Services M) (n : RaftNode M) (values : List ℕ)
      → IsValid n
      → length values ≡ peer_count n
      → All (λ v. v < u64_mod) values
      → Returns (Moves n) (lead s n values)
  unfolding lead
  lead-Moves s n [] v e f = Moves-refl n v
  lead-Moves s n (x ∷ xs) v e f =
      Returns-bind (λ value. IsMajority (x ∷ xs) value × (value < u64_mod)) (Moves n)
        (commit_candidate (peer_count n) (x ∷ xs)) _ (commit_candidate-fits n (x ∷ xs) v e f)
        (λ value p.
          Moves-bind n (commit s value n) _ (commit-Moves s value n v p.1)
            (λ m q. unfold heartbeat in emit-Moves _ m q.valid))

  pub heartbeat-Moves :
      (s : Services M) (n : RaftNode M) (revents : Revents)
      → IsValid n
      → Returns (Moves n) (handle_heartbeat_timeout s n revents)
  unfolding handle_heartbeat_timeout
  heartbeat-Moves s n revents v = elim (Bool-cases revents.timeout) [
    | inr idle ↦ rw (idle, handle_heartbeat_timeout) (Moves-refl n v)
    | inl fired ↦ elim (Bool-cases (is_leader n.st.role)) [
      | inr follows ↦ rw (fired, follows, handle_heartbeat_timeout) (Moves-refl n v)
      | inl leads ↦
          rw (fired, leads, handle_heartbeat_timeout)
            (lead-Moves s n (match_values n) v
              (length-match_values n v (is_leader-eq n.st.role leads))
              (match_values-fit n.peers n.st.match_index v.tracks.known))
    ]
  ]

  send_to_pipeline-Moves :
      (id : ℕ) (msg : Message) (n : RaftNode M) → IsValid n → Moves n (send_to_pipeline id msg n)
  unfolding send_to_pipeline
  send_to_pipeline-Moves id msg n v =
      ground (arith, emit-Moves (Effect.to_peer id msg) n v, Moves-refl n v)

  send_entries-Moves :
      (n : RaftNode M) (id next : ℕ) (es : List EntryMeta)
      → IsValid n
      → Returns (Moves n) (send_entries n id next es)
  unfolding send_entries
  send_entries-Moves n id next [] v = Moves-refl n v
  send_entries-Moves n id next (e ∷ es) v =
      Returns-bind (λ x. Unit {0}) (Moves n) (entry_at n.log (sub64 next 1)) _
        (entry_at-Returns n.log (sub64 next 1) v.from_start)
        (λ x _. send_to_pipeline-Moves id _ n v)

  reissue_to-Moves :
      (n : RaftNode M) (id next : ℕ) → IsValid n → Returns (Moves n) (reissue_to n id next)
  unfolding reissue_to
  reissue_to-Moves n id next v = elim (Bool-cases (leb next n.log.last_log_index)) [
    | inl behind ↦
        rw (behind, reissue_to)
          (Returns-bind (λ es. Unit {0}) (Moves n) _ (send_entries n id next)
            (entries_from-Returns n.log next (n.log.last_log_index + 1 - next) v.from_start)
            (λ es _. send_entries-Moves n id next es v))
    | inr done ↦ rw (done, reissue_to) (Moves-refl n v)
  ]

  reissue_all-Moves :
      (n : RaftNode M) (targets : Map ℕ) → IsValid n → Returns (Moves n) (reissue_all n targets)
  unfolding reissue_all
  reissue_all-Moves n [] v = Moves-refl n v
  reissue_all-Moves n ((id, next) ∷ rest) v =
      Moves-bind n (reissue_to n id next) (λ m. reissue_all m rest) (reissue_to-Moves n id next v)
        (λ m q. reissue_all-Moves m rest q.valid)

  pub reissue-Moves :
      (n : RaftNode M) (revents : Revents)
      → IsValid n
      → Returns (Moves n) (handle_reissue_timeout n revents)
  unfolding handle_reissue_timeout
  reissue-Moves n revents v = elim (Bool-cases revents.timeout) [
    | inr idle ↦ rw (idle, handle_reissue_timeout) (Moves-refl n v)
    | inl fired ↦ elim (Bool-cases (is_leader n.st.role)) [
      | inr follows ↦ rw (fired, follows, handle_reissue_timeout) (Moves-refl n v)
      | inl leads ↦
          rw (fired, leads, handle_reissue_timeout) (reissue_all-Moves n n.st.next_index v)
    ]
  ]
