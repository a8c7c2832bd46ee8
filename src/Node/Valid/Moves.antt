-- ===== src/Node/Valid/Moves.antt =====
-- The handlers that can fail: from a valid node they return one, and nothing goes back.
use embkv.Base.{
  ℕ, ◌≤◌, ◌<◌, ◌≡◌, refl, sym, ap, subst, Bool, true, false, List, [], ◌∷◌, arith, Result, u64_mod,
  length, All, Returns, Returns-bind, Returns-map, inl, inr, Bool-cases, ltb, ◌>>=◌, ◌==◌,
}
use embkv.Proto.{Message, AppendEntriesRequest, EntryMeta}
use embkv.Log.{RaftLog, entry_at, append_all, append_entry}
use embkv.Log.Contiguous.{entries-append_all}
use embkv.Node.{RaftNode, Services, Effect, emit}
use embkv.Node.Apply.{apply_to_state_machine}
use embkv.Node.Apply.Loop.{Reaches, entry_at-Returns, apply_to_state_machine-Reaches}
use embkv.Node.Vote.{is_stale, follow_term}
use embkv.Node.Append.{
  follow_commit, append_entries, prev_matches, receive_entries, finish_append,
  handle_append_entries_request, hear_leader,
}
use embkv.Node.Advance.{Advances, Advances-refl, Advances-trans, KeepsVote, KeepsVote-refl}
use embkv.Node.Valid.{IsValid, Tracks-same}

-- What every callback does: it keeps the invariant, the peers and the name of the node, and nothing
-- in the status goes back.
pub record Moves {M : Type 0} (n m : RaftNode M) : Type 0 where
  pub valid : IsValid m
  pub advances : Advances n.st m.st
  pub same_peers : m.peers ≡ n.peers

abbrev pub IndicesFit : List EntryMeta → Type 0
IndicesFit = All (λ e. e.index < u64_mod)

pub last-append_all :
    (log : RaftLog) (es : List EntryMeta)
    → log.last_log_index < u64_mod
    → IndicesFit es
    → (append_all log es).last_log_index < u64_mod
unfolding append_all append_entry
last-append_all log [] f h = f
last-append_all log (e ∷ es) f h = last-append_all (append_entry log e) es h.0 h.1

prev_matches-Returns :
    (log : RaftLog) (req : AppendEntriesRequest)
    → log.start_index ≡ 0
    → Returns (λ b. Unit {0}) (prev_matches log req)
unfolding prev_matches
prev_matches-Returns log req h = elim (Bool-cases (req.prev_log_index == 0)) [
  | inl first ↦ rw (first, prev_matches) tt
  | inr later ↦
      rw (later, prev_matches)
        (Returns-bind (λ e. Unit {0}) (λ b. Unit {0}) (entry_at log req.prev_log_index) _
          (entry_at-Returns log req.prev_log_index h) (λ e _. tt))
]

module _ {M : Type 0} where
  pub Moves-refl : (n : RaftNode M) → IsValid n → Moves n n
  Moves-refl n v = record { valid = v; advances = Advances-refl n.st; same_peers = refl }

  pub Moves-trans : (a b c : RaftNode M) → Moves a b → Moves b c → Moves a c
  Moves-trans a b c h k = record {
    valid = k.valid;
    advances = Advances-trans a.st b.st c.st h.advances k.advances;
    same_peers = cc;
  }

  -- The two halves of a handler.
  pub Moves-bind :
      (a : RaftNode M) (m : Result (RaftNode M)) (f : RaftNode M → Result (RaftNode M))
      → Returns (Moves a) m
      → ((b : RaftNode M) → Moves a b → Returns (Moves b) (f b))
      → Returns (Moves a) (m >>= f)
  Moves-bind a m f h k =
      Returns-bind (Moves a) (Moves a) m f h
        (λ b p. Returns-map (Moves b) (Moves a) (f b) (λ c q. Moves-trans a b c p q) (k b p))

  Reaches-Moves :
      (s : Services M) (k : ℕ) (n m : RaftNode M)
      → IsValid n
      → n.st.commit_index ≤ k
      → k < u64_mod
      → Reaches s k (record n { st = record n.st { commit_index = k } }) m
      → Moves n m
  Reaches-Moves s k n m v le f (a, r) = record {
    valid = record {
      from_start = cc (v.from_start, ap (λ (l : RaftLog). l.start_index) a.log_same);
      synced = cc (r, a.commit_same);
      commit_fits = omega (arith, a.commit_same);
      last_fits = omega (arith, v.last_fits, ap (λ (l : RaftLog). l.last_log_index) a.log_same);
      some_peer = omega (arith, v.some_peer, ap (λ (l : List ℕ). length l) a.peers_same);
      peers_fit = omega (arith, v.peers_fit, ap (λ (l : List ℕ). length l) a.peers_same);
      peers_distinct = rw a.peers_same v.peers_distinct;
      tracks = rw a.peers_same (Tracks-same n.peers n.st m.st v.tracks a.match_same a.role_same);
    };
    advances = record {
      term = omega (arith, a.term_same);
      vote =
          λ _. subst (KeepsVote n.st.voted_for) (sym a.vote_same) (KeepsVote-refl n.st.voted_for);
      commit = omega (arith, a.commit_same);
      applied = omega (arith, v.synced, r);
    };
    same_peers = a.peers_same;
  }

  pub apply-Moves :
      (s : Services M) (k : ℕ) (n : RaftNode M)
      → IsValid n
      → n.st.commit_index ≤ k
      → k < u64_mod
      → Returns (Moves n) (apply_to_state_machine s k n)
  apply-Moves s k n v le f =
      Returns-map (Reaches s k _) (Moves n) (apply_to_state_machine s k n)
        (λ m r. Reaches-Moves s k n m v le f r)
        (apply_to_state_machine-Reaches s k n v.from_start f (omega (arith, v.synced)))

  pub follow_commit-Moves :
      (s : Services M) (k : ℕ) (n : RaftNode M)
      → IsValid n
      → k < u64_mod
      → Returns (Moves n) (follow_commit s k n)
  unfolding follow_commit
  follow_commit-Moves s k n v f = elim (Bool-cases (ltb n.st.commit_index k)) [
    | inl more ↦ rw (more, follow_commit) (apply-Moves s k n v (ground arith) f)
    | inr done ↦ rw (done, follow_commit) (Moves-refl n v)
  ]

  follow_term-Moves : (term : ℕ) (n : RaftNode M) → IsValid n → Moves n (follow_term term n)
  unfolding follow_term
  follow_term-Moves term n v = ground (arith, KeepsVote-refl n.st.voted_for)

  pub emit-Moves : (e : Effect) (n : RaftNode M) → IsValid n → Moves n (emit e n)
  emit-Moves e n v = ground (arith, KeepsVote-refl n.st.voted_for)

  hear_leader-Moves :
      (leader now : ℕ) (n : RaftNode M) → IsValid n → Moves n (hear_leader leader now n)
  hear_leader-Moves leader now n v = ground (arith, KeepsVote-refl n.st.voted_for)

  finish_append-Moves :
      (n : RaftNode M) (req : AppendEntriesRequest) (matched : Bool)
      → IsValid n
      → IndicesFit req.entries
      → Moves n (finish_append n req matched)
  unfolding finish_append
  finish_append-Moves n req false v f = ground (arith, KeepsVote-refl n.st.voted_for)
  finish_append-Moves n req true v f = ground (
    arith,
    KeepsVote-refl n.st.voted_for,
    last-append_all n.log req.entries v.last_fits f,
    entries-append_all n.log req.entries,
  )

  receive_entries-Moves :
      (now : ℕ) (msg : Message) (req : AppendEntriesRequest) (n : RaftNode M)
      → IsValid n
      → IndicesFit req.entries
      → Returns (Moves n) (receive_entries now msg req n)
  unfolding receive_entries append_entries
  receive_entries-Moves now msg req n v f = elim (Bool-cases req.is_heartbeat) [
    | inl beat ↦ rw (beat, receive_entries) (hear_leader-Moves msg.node_id now n v)
    | inr data_ ↦
        rw (data_, receive_entries)
          (Returns-bind (λ b. Unit {0}) (Moves n) (prev_matches n.log req) _
            (prev_matches-Returns n.log req v.from_start) (λ b _. finish_append-Moves n req b v f))
  ]

  pub append_request-Moves :
      (s : Services M) (now : ℕ) (n : RaftNode M) (msg : Message) (req : AppendEntriesRequest)
      → IsValid n
      → req.leader_commit < u64_mod
      → IndicesFit req.entries
      → Returns (Moves n) (handle_append_entries_request s now n msg req)
  unfolding handle_append_entries_request
  append_request-Moves s now n msg req v f g = elim (Bool-cases (is_stale n msg req.term)) [
    | inl stale ↦ rw (stale, handle_append_entries_request) (Moves-refl n v)
    | inr fresh ↦
        rw (fresh, handle_append_entries_request)
          (let h = follow_term-Moves req.term n v in
            Moves-bind n (follow_commit s req.leader_commit (follow_term req.term n))
              (receive_entries now msg req)
              (Returns-map (Moves (follow_term req.term n)) (Moves n) _
                (λ m q. Moves-trans n _ m h q)
                (follow_commit-Moves s req.leader_commit (follow_term req.term n) h.valid f))
              (λ m q. receive_entries-Moves now msg req m q.valid g))
  ]
