-- ===== src/Cluster/Replicas/Heartbeat.antt =====
-- The leader when its heartbeat timer fires.
use embkv.Base.{
  ℕ, ◌≤◌, ◌<◌, ◌≡◌, refl, sym, ap, ◌∙◌, subst, true, List, [], ◌∷◌, ◌++◌, append-nil, arith,
  u64_mod, length, Returns, Returns-and, Returns-both, Returns-bind, Returns-map, Bool-cases, inl,
  inr, ltb, All,
}
use embkv.Proto.{Content, Priority}
use embkv.Log.Contiguous.{Fits, IsContiguous}
use embkv.Node.{RaftNode, Services, Effect, message, peer_count}
use embkv.Node.Apply.{apply_to_state_machine}
use embkv.Node.Apply.Replay.{Replays, apply-Replays}
use embkv.Node.Client.{is_leader}
use embkv.Node.Timers.{
  handle_heartbeat_timeout, lead, commit, heartbeat, heartbeat_request, commit_candidate,
  match_values,
}
use embkv.Node.Valid.{IsValid}
use embkv.Node.Valid.Moves.{Moves}
use embkv.Node.Valid.Leader.{
  heartbeat-Moves, commit_candidate-fits, length-match_values, match_values-fit, IsMajority,
}
use embkv.Node.Speaks.Timers.{commit_candidate-All}
use embkv.Cluster.Replicas.{fired}
use embkv.Cluster.Replicas.Leader.{Leading}
use embkv.Cluster.Replicas.Answers.{IsLocal, Answered, commit-Answered}

module _ {M : Type 0} (s : Services M) (first : M) where
  -- The commit index may grow, and all up to it is applied.
  pub record Commits (n m : RaftNode M) : Type 0 where
    pub replays : Replays s first m
    pub log_same : m.log ≡ n.log
    pub term_same : m.st.current_term ≡ n.st.current_term
    pub role_same : m.st.role ≡ n.st.role
    pub match_same : m.st.match_index ≡ n.st.match_index
    pub config_same : m.config ≡ n.config
    pub forward : n.st.commit_index ≤ m.st.commit_index

  commit-Commits :
      (value : ℕ) (n : RaftNode M)
      → Fits n.log
      → n.st.last_applied ≡ n.st.commit_index
      → value ≤ length n.log.entries
      → Replays s first n
      → Returns (Commits n) (commit s value n)
  unfolding commit
  commit-Commits value n fits synced within r =
      let set : RaftNode M = record n { st = record n.st { commit_index = value } } in
      elim (Bool-cases (ltb n.st.commit_index value)) [
        | inr done ↦
            rw (done, commit)
              (record {
                replays = r;
                log_same = refl;
                term_same = refl;
                role_same = refl;
                match_same = refl;
                config_same = refl;
                forward = omega arith;
              })
        | inl more ↦
            rw (more, commit)
              (Returns-map _ (Commits n) (apply_to_state_machine s value set)
                (λ m q. record {
                  replays = q.0;
                  log_same = q.1.0.log_same;
                  term_same = q.1.0.term_same;
                  role_same = q.1.0.role_same;
                  match_same = q.1.0.match_same;
                  config_same = q.1.0.config_same;
                  forward =
                      (let lt : n.st.commit_index < value = ground arith in
                        omega (arith, lt, q.1.0.commit_same));
                })
                (apply-Replays s first value set fits
                  (let lt : n.st.commit_index < value = ground arith in omega (arith, lt, synced))
                  within (record { within = r.within; machine = r.machine })))
      ]

  -- The leader's log is as it was, and behind the replies to clients it enqueues a heartbeat.
  pub record Beats (n m : RaftNode M) : Type 0 where
    pub commits : Commits n m
    pub answers : List Effect
    pub for_clients : All IsLocal answers
    pub sent :
        m.out
        ≡ (n.out ++ answers)
          ++ Effect.to_pipelines
              (message n (Content.append_entries_request (heartbeat_request m)))
              Priority.critical
            ∷ []

  heartbeat-Beats : (n m : RaftNode M) → Commits n m → Answered s n.out m → Beats n (heartbeat m)
  unfolding heartbeat
  heartbeat-Beats n m c (es, out, h) = record {
    commits = record {
      replays = record { within = c.replays.within; machine = c.replays.machine };
      log_same = c.log_same;
      term_same = c.term_same;
      role_same = c.role_same;
      match_same = c.match_same;
      config_same = c.config_same;
      forward = c.forward;
    };
    answers = es;
    for_clients = h;
    sent = rw (out, c.config_same) refl;
  }

  lead-Beats :
      (n : RaftNode M) (values : List ℕ)
      → IsValid n
      → length values ≡ peer_count n
      → All (λ v. v < u64_mod) values
      → All (λ v. v ≤ length n.log.entries) values
      → Fits n.log
      → Replays s first n
      → Returns (Beats n) (lead s n values)
  unfolding lead
  lead-Beats n [] v l f w fits r = absurd (omega (arith, v.some_peer))
  lead-Beats n (x ∷ xs) v l f w fits r =
      let peers = peer_count n in
      Returns-bind
        (λ value. (IsMajority (x ∷ xs) value × (value < u64_mod)) × (value ≤ length n.log.entries))
        (Beats n) (commit_candidate peers (x ∷ xs)) _
        (Returns-and _ (λ value. value ≤ length n.log.entries) (commit_candidate peers (x ∷ xs))
          (commit_candidate-fits n (x ∷ xs) v l f)
          (commit_candidate-All (λ v. v ≤ length n.log.entries) peers (x ∷ xs) w))
        (λ value p.
          Returns-bind (λ m. Commits n m × Answered s n.out m) (Beats n) (commit s value n) _
            (Returns-and (Commits n) (Answered s n.out) (commit s value n)
              (commit-Commits value n fits v.synced p.1 r)
              (commit-Answered s n.out value n ([], sym (append-nil n.out), tt)))
            (λ m q. heartbeat-Beats n m q.0 q.1))

  pub heartbeat_timeout-Beats :
      (n : RaftNode M)
      → length n.log.entries < u64_mod
      → Leading s first n
      → Returns
          (λ m. Leading s first m × Beats n m × (m.peers ≡ n.peers))
          (handle_heartbeat_timeout s n fired)
  unfolding handle_heartbeat_timeout
  heartbeat_timeout-Beats n small l =
      let v : IsValid n = l.valid in
      let leader : is_leader n.st.role ≡ true = ap is_leader l.leads in
      let beats : Returns (Beats n) (handle_heartbeat_timeout s n fired) =
        rw (leader, handle_heartbeat_timeout)
          (lead-Beats n (match_values n) v (length-match_values n v l.leads)
            (match_values-fit n.peers n.st.match_index v.tracks.known) l.matched
            (record { from_start = v.from_start; small = small }) l.replays) in
      Returns-map (λ m. Moves n m × Beats n m)
        (λ m. Leading s first m × Beats n m × (m.peers ≡ n.peers))
        (handle_heartbeat_timeout s n fired)
        (λ m q.
          let c = q.1.commits in
          (
            record {
              valid = q.0.valid;
              leads = c.role_same ∙ l.leads;
              contiguous = subst IsContiguous (sym c.log_same) l.contiguous;
              replays = c.replays;
              matched = rw (c.log_same, c.match_same) l.matched;
            },
            q.1,
            q.0.same_peers,
          ))
        (Returns-both (Moves n) (Beats n) (handle_heartbeat_timeout s n fired)
          (heartbeat-Moves s n fired v) beats)
