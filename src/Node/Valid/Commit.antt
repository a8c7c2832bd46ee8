-- ===== src/Node/Valid/Commit.antt =====
-- The commit rule of the leader.
use Prim.Native.Nat.{max}
use embkv.Base.{
  ℕ, ◌<◌, ◌≡◌, refl, ◌∙◌, true, List, [], ◌∷◌, arith, u64_mod, length, All, Returns, Returns-bind,
  Returns-map, Bool-cases, inl, inr, ltb,
}
use embkv.Status.{Role}
use embkv.Node.{RaftNode, Services, Revents, peer_count}
use embkv.Node.Apply.Loop.{Reaches, apply_to_state_machine-Reaches}
use embkv.Node.Client.{is_leader}
use embkv.Node.Timers.{
  commit, commit_candidate, lead, heartbeat, match_values, handle_heartbeat_timeout,
}
use embkv.Node.Valid.{IsValid}
use embkv.Node.Valid.Leader.{
  IsMajority, commit_candidate-fits, length-match_values, match_values-fit,
}

module _ {M : Type 0} where
  -- The commit index and the last applied index of a node.
  abbrev Done : ℕ → RaftNode M → Type 0
  Done k m = (m.st.commit_index ≡ k) × (m.st.last_applied ≡ k)

  commit-Done :
      (s : Services M) (value : ℕ) (n : RaftNode M)
      → IsValid n
      → value < u64_mod
      → Returns (Done (max n.st.commit_index value)) (commit s value n)
  unfolding commit
  commit-Done s value n v f = elim (Bool-cases (ltb n.st.commit_index value)) [
    | inr done ↦ rw (done, commit) (ground (arith, v.synced))
    | inl more ↦
        rw (more, commit)
          (Returns-map (Reaches s value _) (Done (max n.st.commit_index value)) _
            (λ m q. (q.0.commit_same ∙ ground arith, q.1 ∙ ground arith))
            (apply_to_state_machine-Reaches s value _ v.from_start f (ground (arith, v.synced))))
  ]

  -- What the heartbeat of a leader commits: the larger of the old commit index and of the largest
  -- index that a majority of the peers holds.
  abbrev pub CommitsMajority : RaftNode M → RaftNode M → Type 0
  CommitsMajority n m =
      (v : ℕ) × IsMajority (match_values n) v
      × (m.st.commit_index ≡ max n.st.commit_index v)
      × (m.st.last_applied ≡ m.st.commit_index)

  lead-commits :
      (s : Services M) (n : RaftNode M) (values : List ℕ)
      → IsValid n
      → values ≡ match_values n
      → length values ≡ peer_count n
      → All (λ v. v < u64_mod) values
      → Returns (CommitsMajority n) (lead s n values)
  unfolding lead heartbeat
  lead-commits s n [] v e l f = absurd (omega (arith, v.some_peer))
  lead-commits s n (x ∷ xs) v e l f =
      Returns-bind (λ value. IsMajority (x ∷ xs) value × (value < u64_mod)) (CommitsMajority n)
        (commit_candidate (peer_count n) (x ∷ xs)) _ (commit_candidate-fits n (x ∷ xs) v l f)
        (λ value p.
          Returns-bind (Done (max n.st.commit_index value)) (CommitsMajority n) (commit s value n) _
            (commit-Done s value n v p.1) (λ m d. (value, rw (← e) p.0, d.0, omega (arith, d))))

  -- When the heartbeat timer of a valid leader fires, the leader commits and applies up to the
  -- larger of its commit index and the largest index that a majority of the entries of its own
  -- table of match indices has reached.
  pub heartbeat-CommitsMajority :
      (s : Services M) (n : RaftNode M) (revents : Revents)
      → IsValid n
      → n.st.role ≡ Role.leader
      → revents.timeout ≡ true
      → Returns (CommitsMajority n) (handle_heartbeat_timeout s n revents)
  unfolding handle_heartbeat_timeout
  heartbeat-CommitsMajority s n revents v leads fired =
      let leader : is_leader n.st.role ≡ true = ground arith in
      rw (fired, leader, handle_heartbeat_timeout)
        (lead-commits s n (match_values n) v refl (length-match_values n v leads)
          (match_values-fit n.peers n.st.match_index v.tracks.known))
