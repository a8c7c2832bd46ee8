-- ===== src/Node/Run/Safety.antt =====
-- Whole runs of a node.
use embkv.Base.{
  ℕ, suc, ◌≤◌, ◌<◌, ◌≡◌, true, List, [], ◌∷◌, arith, u64_mod, All, Returns, Returns-bind,
  Returns-map, Returns-and, inl, inr, ◌⊎◌, Bool-cases,
}
use native.Mathlib.Decide.{dec_lt}
use embkv.Base.Sets.{contains}
use embkv.Proto.{Message, Content}
use embkv.Status.{RaftStatus}
use embkv.Node.{RaftNode, Services, Revents}
use embkv.Node.Vote.{start_election, handle_request_vote_request, handle_request_vote_response}
use embkv.Node.Append.{handle_append_entries_response}
use embkv.Node.Client.{handle_install_snapshot_request, handle_install_snapshot_response}
use embkv.Node.Timers.{handle_election_timeout, handle_parse_timeout, handle_all, dispatch}
use embkv.Node.Advance.{
  Advances, KeepsVote-refl, KeepsVote, vote_request-Advances, vote_response-Advances,
  append_response-Advances, election-Advances,
}
use embkv.Node.Valid.{IsValid}
use embkv.Node.Valid.Keep.{
  vote_request-IsValid, vote_response-IsValid, append_response-IsValid, election-IsValid,
}
use embkv.Node.Valid.Moves.{
  Moves, Moves-refl, Moves-trans, Moves-bind, IndicesFit, append_request-Moves,
}
use embkv.Node.Valid.Leader.{client_request-Moves, heartbeat-Moves, reissue-Moves}
use embkv.Node.Run.{Event, step, run, TermsFit}

-- A message that a node can count on: its 64-bit fields are such, and what changes the book-keeping
-- of the peers comes from one of them.
abbrev pub IsSound : List ℕ → ℕ → Content → Type 0
IsSound ps id (Content.append_entries_request r) =
    (r.leader_commit < u64_mod) × IndicesFit r.entries
IsSound ps id (Content.append_entries_response r) =
    (contains id ps ≡ true) × (r.last_log_index < u64_mod)
IsSound ps id (Content.client_request r) = contains id ps ≡ true
IsSound ps id _ = Unit {0}

abbrev pub AllSound : List ℕ → List (Message × ℕ) → Type 0
AllSound ps = All (λ b. IsSound ps b.0.node_id b.0.content)

abbrev pub IsSoundEvent : List ℕ → Event → Type 0
IsSoundEvent ps (Event.parse_timeout revents batch) = AllSound ps batch
IsSoundEvent ps _ = Unit {0}

-- A later status: a larger term, or the same one with the vote that was cast in it.
abbrev pub NeverBack : RaftStatus → RaftStatus → Type 0
NeverBack a b =
    ((a.current_term < b.current_term)
      ⊎ ((b.current_term ≡ a.current_term) × KeepsVote a.voted_for b.voted_for))
    × (a.commit_index ≤ b.commit_index)
    × (a.last_applied ≤ b.last_applied)

Advances-NeverBack : (a b : RaftStatus) → Advances a b → NeverBack a b
Advances-NeverBack a b h = elim (dec_lt a.current_term b.current_term) [
  | yes more ↦ (inl more, h.commit, h.applied)
  | no same ↦ (inr (omega (arith, h.term), h.vote (omega (arith, h.term))), h.commit, h.applied)
]

module _ {M : Type 0} where
  dispatch-Moves :
      (s : Services M) (now : ℕ) (n : RaftNode M) (msg : Message) (c : Content)
      → IsValid n
      → IsSound n.peers msg.node_id c
      → Returns (Moves n) (dispatch s now n msg c)
  unfolding dispatch
  dispatch-Moves s now n msg (Content.request_vote_request r) v h = record {
    valid = vote_request-IsValid n v msg r;
    advances = vote_request-Advances n msg r;
    same_peers = unfold handle_request_vote_request in ground arith;
  }
  dispatch-Moves s now n msg (Content.request_vote_response r) v h = record {
    valid = vote_response-IsValid n v msg r;
    advances = vote_response-Advances n msg r;
    same_peers = unfold handle_request_vote_response in ground arith;
  }
  dispatch-Moves s now n msg (Content.append_entries_request r) v h =
      append_request-Moves s now n msg r v h.0 h.1
  dispatch-Moves s now n msg (Content.append_entries_response r) v h = record {
    valid = append_response-IsValid n v msg r h.0 h.1;
    advances = append_response-Advances n msg r;
    same_peers = unfold handle_append_entries_response in ground arith;
  }
  dispatch-Moves s now n msg (Content.snapshot_request r) v h =
      unfold handle_install_snapshot_request in Moves-refl n v
  dispatch-Moves s now n msg (Content.snapshot_response r) v h =
      unfold handle_install_snapshot_response in Moves-refl n v
  dispatch-Moves s now n msg (Content.client_request r) v h = client_request-Moves s n msg r v h
  dispatch-Moves s now n msg _ v h = Moves-refl n v

  handle_all-Moves :
      (s : Services M) (n : RaftNode M) (batch : List (Message × ℕ))
      → IsValid n
      → AllSound n.peers batch
      → Returns (Moves n) (handle_all s n batch)
  unfolding handle_all
  handle_all-Moves s n [] v h = Moves-refl n v
  handle_all-Moves s n ((msg, now) ∷ rest) v h =
      Moves-bind n (dispatch s now n msg msg.content) (λ m. handle_all s m rest)
        (dispatch-Moves s now n msg msg.content v h.0)
        (λ m q. handle_all-Moves s m rest q.valid (rw q.same_peers h.1))

  start_election-Moves :
      (n : RaftNode M) → IsValid n → suc n.st.current_term < u64_mod → Moves n (start_election n)
  start_election-Moves n v f = record {
    valid = election-IsValid n v;
    advances = election-Advances n f;
    same_peers = unfold start_election in ground arith;
  }

  election_timeout-Moves :
      (n : RaftNode M) (revents : Revents) (now : ℕ)
      → IsValid n
      → suc n.st.current_term < u64_mod
      → Moves n (handle_election_timeout n revents now)
  unfolding handle_election_timeout
  election_timeout-Moves n revents now v f =
      ground (arith, KeepsVote-refl n.st.voted_for, start_election-Moves n v f)

  pub step-Moves :
      (s : Services M) (n : RaftNode M) (e : Event)
      → IsValid n
      → IsSoundEvent n.peers e
      → suc n.st.current_term < u64_mod
      → Returns (Moves n) (step s n e)
  unfolding step handle_parse_timeout
  step-Moves s n (Event.election_timeout revents now) v h f =
      election_timeout-Moves n revents now v f
  step-Moves s n (Event.heartbeat_timeout revents) v h f = heartbeat-Moves s n revents v
  step-Moves s n (Event.parse_timeout revents batch) v h f = elim (Bool-cases revents.timeout) [
    | inl fired ↦ rw (fired, handle_parse_timeout) (handle_all-Moves s n batch v h)
    | inr idle ↦ rw (idle, handle_parse_timeout) (Moves-refl n v)
  ]
  step-Moves s n (Event.reissue_timeout revents) v h f = reissue-Moves n revents v

  run-Moves :
      (s : Services M) (n : RaftNode M) (es : List Event)
      → IsValid n
      → All (IsSoundEvent n.peers) es
      → TermsFit s n es
      → Returns (Moves n) (run s n es)
  unfolding run
  run-Moves s n [] v h f = Moves-refl n v
  run-Moves s n (e ∷ es) v h f =
      Returns-bind (λ m. Moves n m × TermsFit s m es) (Moves n) (step s n e) (λ m. run s m es)
        (Returns-and (Moves n) (λ m. TermsFit s m es) (step s n e) (step-Moves s n e v h.0 f.0) f.1)
        (λ m q.
          Returns-map (Moves m) (Moves n) (run s m es) (λ x p. Moves-trans n m x q.0 p)
            (run-Moves s m es q.0.valid (rw q.0.same_peers h.1) q.1))

  -- From a valid node every sequence of callbacks ends in a valid node, without a fault: where the
  -- messages are sound and no election starts at the largest term.
  pub run-IsValid :
      (s : Services M) (n : RaftNode M) (es : List Event)
      → IsValid n
      → All (IsSoundEvent n.peers) es
      → TermsFit s n es
      → Returns IsValid (run s n es)
  run-IsValid s n es v h f =
      Returns-map (Moves n) IsValid (run s n es) (λ m q. q.valid) (run-Moves s n es v h f)

  pub run-Advances :
      (s : Services M) (n : RaftNode M) (es : List Event)
      → IsValid n
      → All (IsSoundEvent n.peers) es
      → TermsFit s n es
      → Returns (λ m. Advances n.st m.st) (run s n es)
  run-Advances s n es v h f =
      Returns-map (Moves n) (λ m. Advances n.st m.st) (run s n es) (λ m q. q.advances)
        (run-Moves s n es v h f)

  -- Over every sequence of callbacks of a valid node, where the messages are sound and no election
  -- starts at the largest term, the term, the commit index and the last applied index never go back,
  -- and as long as the term stays a vote that was cast stays.
  pub run-NeverBack :
      (s : Services M) (n : RaftNode M) (es : List Event)
      → IsValid n
      → All (IsSoundEvent n.peers) es
      → TermsFit s n es
      → Returns (λ m. NeverBack n.st m.st) (run s n es)
  run-NeverBack s n es v h f =
      Returns-map (λ m. Advances n.st m.st) (λ m. NeverBack n.st m.st) (run s n es)
        (λ m a. Advances-NeverBack n.st m.st a) (run-Advances s n es v h f)
