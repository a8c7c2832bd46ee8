-- ===== src/Cluster/Replicas/Vote.antt =====
-- Standing for election, voting and winning, by what they leave as it is.
use embkv.Base.{
  ℕ, ◌+◌, ◌/◌, ◌≤◌, ◌<◌, ◌≡◌, refl, true, false, List, [], ◌∷◌, ◌++◌, append_assoc, arith, add64,
  All, map, ltb, leb,
}
use embkv.Base.Map.{Map}
use embkv.Proto.{Message, Content, Priority, RequestVoteRequest, RequestVoteResponse}
use embkv.Status.{Role, handle_higher_term, set_voted_for, become_leader, increase_term_to}
use embkv.Node.{RaftNode, Effect, message, peer_count}
use embkv.Node.Vote.{
  start_election, stand, vote_response, handle_request_vote_request, handle_request_vote_response,
  answer_vote, follow_term, is_stale, log_up_to_date, count_vote, win_election, assign_all,
  may_stand,
}
use embkv.Cluster.Replicas.Leader.{assign-values}

pub assign_all-values :
    (P : ℕ → Type 0) (ps : List ℕ) (v : ℕ) (m : Map ℕ)
    → P v
    → All P (map (λ e. e.1) m)
    → All P (map (λ e. e.1) (assign_all ps v m))
unfolding assign_all
assign_all-values P [] v m h f = f
assign_all-values P (p ∷ ps) v m h f = assign_all-values P ps v _ h (assign-values P p v m h f)

module _ {M : Type 0} where
  -- A vote: the reply is on its way, and but for the term, the vote and the role the node is as it was.
  pub record Voted (f : RaftNode M) (term : ℕ) (g : RaftNode M) : Type 0 where
    pub log_same : g.log ≡ f.log
    pub applied_same : g.st.last_applied ≡ f.st.last_applied
    pub commit_same : g.st.commit_index ≡ f.st.commit_index
    pub machine_same : g.state_machine ≡ f.state_machine
    pub config_same : g.config ≡ f.config
    pub term_is : g.st.current_term ≡ term
    pub sent :
        g.out
        ≡ f.out
          ++ (Effect.reset_timer ∷ []
              ++ Effect.to_pipelines
                  (message f (Content.request_vote_response (vote_response term true)))
                  Priority.critical
                ∷ [])

  pub vote_request-Voted :
      (f : RaftNode M) (msg : Message) (req : RequestVoteRequest)
      → msg.cluster_id ≡ f.config.cluster_id
      → f.st.current_term < req.term
      → log_up_to_date f.log req ≡ true
      → Voted f req.term (handle_request_vote_request f msg req)
  unfolding handle_request_vote_request answer_vote follow_term handle_higher_term set_voted_for
  vote_request-Voted f msg req same less newer =
      let fresh : is_stale f msg req.term ≡ false = unfold is_stale in ground arith in
      let higher : ltb f.st.current_term req.term ≡ true = ground arith in
      rw (fresh, handle_request_vote_request, higher, newer)
        (record {
          log_same = refl;
          applied_same = refl;
          commit_same = refl;
          machine_same = refl;
          config_same = refl;
          term_is = refl;
          sent = append_assoc f.out (Effect.reset_timer ∷ []) _;
        })

  -- A candidate, which has asked all peers for their votes.
  pub record Stood (n m : RaftNode M) : Type 0 where
    pub log_same : m.log ≡ n.log
    pub applied_same : m.st.last_applied ≡ n.st.last_applied
    pub commit_same : m.st.commit_index ≡ n.st.commit_index
    pub match_same : m.st.match_index ≡ n.st.match_index
    pub machine_same : m.state_machine ≡ n.state_machine
    pub config_same : m.config ≡ n.config
    pub peers_same : m.peers ≡ n.peers
    pub term_is : m.st.current_term ≡ add64 n.st.current_term 1
    pub votes : m.st.votes ≡ 1
    pub sent :
        m.out
        ≡ n.out
          ++ ([]
              ++ Effect.to_pipelines
                  (message n (
                    Content.request_vote_request (record {
                      term = add64 n.st.current_term 1;
                      last_log_index = n.log.last_log_index;
                      last_log_term = n.log.last_log_term;
                    })))
                  Priority.critical
                ∷ [])

  pub start_election-Stood :
      (n : RaftNode M) → may_stand n.st.role ≡ true → Stood n (start_election n)
  unfolding start_election stand increase_term_to
  start_election-Stood n free =
      rw (free, start_election)
        (record {
          log_same = refl;
          applied_same = refl;
          commit_same = refl;
          match_same = refl;
          machine_same = refl;
          config_same = refl;
          peers_same = refl;
          term_is = refl;
          votes = refl;
          sent = refl;
        })

  -- The vote that completes a majority: nothing but the role and the counters of the peers changes.
  pub record Won (n m : RaftNode M) : Type 0 where
    pub leads : m.st.role ≡ Role.leader
    pub log_same : m.log ≡ n.log
    pub applied_same : m.st.last_applied ≡ n.st.last_applied
    pub commit_same : m.st.commit_index ≡ n.st.commit_index
    pub machine_same : m.state_machine ≡ n.state_machine
    pub config_same : m.config ≡ n.config
    pub peers_same : m.peers ≡ n.peers
    pub term_same : m.st.current_term ≡ n.st.current_term
    pub match_is : m.st.match_index ≡ assign_all n.peers n.st.commit_index n.st.match_index

  pub vote_response-Won :
      (n : RaftNode M) (msg : Message) (res : RequestVoteResponse)
      → msg.cluster_id ≡ n.config.cluster_id
      → res.term ≡ n.st.current_term
      → res.granted ≡ true
      → peer_count n / 2 + 1 ≤ add64 n.st.votes 1
      → Won n (handle_request_vote_response n msg res)
  unfolding handle_request_vote_response count_vote win_election become_leader
  vote_response-Won n msg res same current granted enough =
      let fresh : is_stale n msg res.term ≡ false = unfold is_stale in ground arith in
      let known : ltb n.st.current_term res.term ≡ false = ground arith in
      let most : leb (peer_count n / 2 + 1) (add64 n.st.votes 1) ≡ true = ground arith in
      rw (fresh, handle_request_vote_response, known, granted, most)
        (record {
          leads = refl;
          log_same = refl;
          applied_same = refl;
          commit_same = refl;
          machine_same = refl;
          config_same = refl;
          peers_same = refl;
          term_same = refl;
          match_is = refl;
        })
