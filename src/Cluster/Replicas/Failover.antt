-- ===== src/Cluster/Replicas/Failover.antt =====
-- What the winner of an election among nodes with the same log replicates.
use embkv.Base.{
  map, ℕ, suc, ◌+◌, ◌/◌, ◌≤◌, ◌<◌, ◌≡◌, refl, sym, ap, ◌∙◌, true, List, [], ◌∷◌, ◌++◌, arith, subst,
  add64, u64_mod, length, Returns, All, ◌>>=◌,
}
use embkv.Log.{RaftLog}
use embkv.Log.Contiguous.{IsContiguous}
use embkv.Node.{RaftNode, Services, peer_count}
use embkv.Node.Vote.{start_election, may_stand}
use embkv.Node.Apply.Replay.{Replays}
use embkv.Node.Timers.{match_values}
use embkv.Node.Valid.{IsValid}
use embkv.Node.Valid.Keep.{vote_request-IsValid, vote_response-IsValid, election-IsValid}
use embkv.Cluster.Replicas.{Act, exchange_all}
use embkv.Cluster.Replicas.Leader.{Leading}
use embkv.Cluster.Replicas.Pair.{ActsFit, Follows, Same}
use embkv.Cluster.Replicas.Agree.{exchange_all-Same}
use embkv.Cluster.Replicas.Vote.{
  assign_all-values, Voted, vote_request-Voted, Stood, start_election-Stood, Won, vote_response-Won,
}
use embkv.Cluster.Replicas.Elect.{
  elect, ask, asking, grant, granting, voter_of, winner_of, Votes, newest, elect-heard,
}

module _ {M : Type 0} (s : Services M) (first : M) where
  -- A node that may stand for election, and another one of its cluster with the same log, no later
  -- term and no larger commit index, each with what it has applied of that log.
  pub record Twins (n f : RaftNode M) : Type 0 where
    pub valid : IsValid n
    pub valid_too : IsValid f
    pub free : may_stand n.st.role ≡ true
    pub contiguous : IsContiguous n.log
    pub replays : Replays s first n
    pub replays_too : Replays s first f
    pub matched : All (λ v. v ≤ length n.log.entries) (match_values n)
    pub log_same : f.log ≡ n.log
    pub same_cluster : f.config.cluster_id ≡ n.config.cluster_id
    pub term : f.st.current_term ≤ n.st.current_term
    pub commit : f.st.commit_index ≤ n.st.commit_index

  Replays-same :
      (n m : RaftNode M)
      → m.log ≡ n.log
      → m.st.last_applied ≡ n.st.last_applied
      → m.state_machine ≡ n.state_machine
      → Replays s first n
      → Replays s first m
  Replays-same n m log applied machine r = record {
    within = rw (log, applied) r.within;
    machine = rw (log, applied, machine) r.machine;
  }

  winner-Leading :
      (n f m : RaftNode M)
      → Twins n f
      → Stood n m
      → (l : RaftNode M) → Won m l
      → IsValid l
      → Leading s first l
  winner-Leading n f m t st l w v = record {
    valid = v;
    leads = w.leads;
    contiguous = rw (w.log_same, st.log_same) t.contiguous;
    replays =
        Replays-same n l (w.log_same ∙ st.log_same) (w.applied_same ∙ st.applied_same)
          (w.machine_same ∙ st.machine_same) t.replays;
    matched =
        rw (w.log_same, st.log_same, w.match_is, st.match_same, st.commit_same)
          (assign_all-values (λ x. x ≤ length n.log.entries) m.peers n.st.commit_index
            n.st.match_index (omega (arith, t.valid.synced, t.replays.within)) t.matched);
  }

  voter-Follows :
      (n f m l g : RaftNode M)
      → Twins n f
      → Stood n m
      → Won m l
      → Voted f (add64 n.st.current_term 1) g
      → IsValid g
      → Follows s first l g
  voter-Follows n f m l g t st w vo v = record {
    valid = v;
    log_same = vo.log_same ∙ t.log_same ∙ sym (w.log_same ∙ st.log_same);
    same_cluster =
        ap (λ c. c.cluster_id) vo.config_same
        ∙ t.same_cluster
        ∙ ap (λ c. c.cluster_id) (sym (w.config_same ∙ st.config_same));
    term = omega (arith, vo.term_is, w.term_same, st.term_is);
    commit = omega (arith, vo.commit_same, w.commit_same, st.commit_same, t.commit);
    replays = Replays-same f g vo.log_same vo.applied_same vo.machine_same t.replays_too;
  }

  Twins-Votes : (n f : RaftNode M) → suc n.st.current_term < u64_mod → Twins n f → Votes s n f
  Twins-Votes n f room t =
      let term : add64 n.st.current_term 1 ≡ suc n.st.current_term = omega arith in
      vote_request-Voted f (asking s n) (ask s n) (sym t.same_cluster) (omega (arith, term, t.term))
        (newest s n f t.log_same)

  voters-Follows :
      (n m l : RaftNode M) (fs : List (RaftNode M))
      → suc n.st.current_term < u64_mod
      → Stood n m
      → Won m l
      → All (Twins n) fs
      → All (Follows s first l) (map (voter_of s n) fs)
  voters-Follows n m l [] room st w h = tt
  voters-Follows n m l (f ∷ fs) room st w (t, ts) = (
    voter-Follows n f m l (voter_of s n f) t st w (Twins-Votes n f room t)
        (vote_request-IsValid f t.valid_too (asking s n) (ask s n)),
    voters-Follows n m l fs room st w ts,
  )

  -- Given a valid node, and one or more other valid nodes of its cluster, of at most three
  -- peers, all with the same contiguous log of fewer than 2 ^ 64 entries, where the first may
  -- stand for election, has a next term below 2 ^ 64 and no match index behind its log's end,
  -- the others have no later term and no larger commit index, and each state machine is what
  -- the node's applied entries make of the same first one. The first stands, the others hear
  -- that, and the first hears the answer of one of them. Then it handles any sequence of
  -- requests (under the id of a peer, as long as the log has fewer than 2 ^ 64 entries),
  -- replies (of a peer, of no later term, with a last index of at most its own) and
  -- heartbeats, each message that it enqueues for its peers being handled by each of the
  -- others at once: every handler returns, and after one more heartbeat each of the others has
  -- the first one's log, term, commit index and state machine, which is what the committed
  -- entries of the log, each once and in order, make of the first one.
  pub elect-Same :
      (n f : RaftNode M) (fs : List (RaftNode M)) (acts : List (Act × ℕ)) (now later : ℕ)
      → All (Twins n) (f ∷ fs)
      → peer_count n / 2 + 1 ≤ 2
      → suc n.st.current_term < u64_mod
      → length n.log.entries < u64_mod
      → ActsFit n.peers (suc n.st.current_term) (length n.log.entries) acts
      → Returns
          (λ p. All (λ g. Same s first (p.0, g)) p.1)
          (elect s now n f fs >>= λ p. exchange_all s p.0 p.1 (acts ++ (Act.heartbeat, later) ∷ []))
  elect-Same n f fs acts now later ts few room small h =
      let t = ts.0 in
      let stood = start_election n in
      let st = start_election-Stood n t.free in
      let term : add64 n.st.current_term 1 ≡ suc n.st.current_term = omega arith in
      let w =
        vote_response-Won stood (granting s n f) (grant s n)
          (t.same_cluster ∙ ap (λ c. c.cluster_id) (sym st.config_same)) (sym st.term_is) refl
          (omega (arith, few, ap (λ (l : List ℕ). length l) st.peers_same, st.votes)) in
      let v =
        vote_response-IsValid stood (election-IsValid n t.valid) (granting s n f) (grant s n) in
      let leader = winner_of s n f in
      let log : leader.log ≡ n.log = w.log_same ∙ st.log_same in
      rw (elect-heard s now n f fs st (Twins-Votes n f room t)) (
        exchange_all-Same s first leader (map (voter_of s n) (f ∷ fs)) acts later
          (omega (arith, small, ap (λ (l : RaftLog). length l.entries) log))
          (winner-Leading n f stood t st leader w v)
          (voters-Follows n stood leader (f ∷ fs) room st w ts)
          (subst (λ ps. ActsFit ps leader.st.current_term (length leader.log.entries) acts)
            (sym (w.peers_same ∙ st.peers_same))
            (subst (λ k. ActsFit n.peers k (length leader.log.entries) acts)
              (sym (w.term_same ∙ st.term_is ∙ term))
              (subst
                (λ (l : RaftLog). ActsFit n.peers (suc n.st.current_term) (length l.entries) acts)
                (sym log) h))))
