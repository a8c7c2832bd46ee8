-- ===== src/Cluster/Rivals.antt =====
-- Two candidates of one term and a voter: what handle_request_vote_request and
-- handle_request_vote_response of embkv/src/raft/node.cpp, and start_election, do together.
use embkv.Base.{
  ℕ, length, ◌/◌, ◌<◌, ◌≡◌, refl, true, false, some, [], ◌∷◌, ◌++◌, arith, add64, u64_mod, ltb, sym,
  ◌∙◌, ap,
}
use embkv.Proto.{Message, Content, Priority, RequestVoteRequest}
use embkv.Status.{Role, handle_higher_term, set_voted_for}
use embkv.Node.{RaftNode, Effect, message, peer_count}
use embkv.Node.Vote.{
  start_election, vote_response, vote_request, handle_request_vote_request,
  handle_request_vote_response, answer_vote, follow_term, is_stale, log_up_to_date, may_stand,
}
use embkv.Node.Run.Elections.{completes}
use embkv.Cluster.Replicas.Vote.{vote_request-Voted, start_election-Stood}

module _ {M : Type 0} where
  voted_for-new :
      (f : RaftNode M) (msg : Message) (req : RequestVoteRequest)
      → msg.cluster_id ≡ f.config.cluster_id
      → f.st.current_term < req.term
      → log_up_to_date f.log req ≡ true
      → (handle_request_vote_request f msg req).st.voted_for ≡ some msg.node_id
  unfolding handle_request_vote_request answer_vote follow_term handle_higher_term set_voted_for
  voted_for-new f msg req same less newer =
      let fresh : is_stale f msg req.term ≡ false = unfold is_stale in ground arith in
      let higher : ltb f.st.current_term req.term ≡ true = ground arith in
      rw (fresh, handle_request_vote_request, higher, newer) refl

  -- The request that a candidate has sent.
  abbrev pub asks : RaftNode M → Message
  asks a = message a (Content.request_vote_request (vote_request a))

  -- The candidate of an election wins by the reply that a voter sends to all peers.
  elected :
      (n : RaftNode M) (f : RaftNode M) (term : ℕ)
      → may_stand n.st.role ≡ true
      → n.config.cluster_id ≡ f.config.cluster_id
      → add64 n.st.current_term 1 ≡ term
      → (1 ≡ peer_count n / 2) × (peer_count n < u64_mod)
      → let res = vote_response term true in
        (handle_request_vote_response
          (start_election n)
          (message f (Content.request_vote_response res))
          res).st.role
        ≡ Role.leader
  elected n f term free same t most =
      let s = start_election-Stood n free in
      let count : peer_count (start_election n) ≡ peer_count n = ap length s.peers_same in
      completes (start_election n) _ (vote_response term true) refl
        (ap (λ c. c.cluster_id) s.config_same ∙ same) (s.term_is ∙ t)
        (s.votes ∙ omega (arith, count, most.0)) (omega (arith, count, most.1))

  -- Two nodes of one cluster, each with two or three peers, may stand for election, and stand
  -- for the same term; a third node of an older term, whose log is no newer than the first
  -- one's, is asked by the first. It votes for the first, and sends one reply to all peers: on
  -- receipt of that reply the first one leads, and the second one as well.
  pub vote_elects_two :
      (f a b : RaftNode M)
      → (may_stand a.st.role ≡ true) × (may_stand b.st.role ≡ true)
      → (a.config.cluster_id ≡ f.config.cluster_id) × (b.config.cluster_id ≡ f.config.cluster_id)
      → add64 a.st.current_term 1 ≡ add64 b.st.current_term 1
      → f.st.current_term < add64 a.st.current_term 1
      → log_up_to_date f.log (vote_request (start_election a)) ≡ true
      → (1 ≡ peer_count a / 2) × (1 ≡ peer_count b / 2)
      → (peer_count a < u64_mod) × (peer_count b < u64_mod)
      → let ask = asks (start_election a) in
        let g = handle_request_vote_request f ask (vote_request (start_election a)) in
        let res = vote_response (add64 a.st.current_term 1) true in
        let reply = message f (Content.request_vote_response res) in
        (g.st.voted_for ≡ some a.config.node_id)
        × (g.out ≡ f.out ++ Effect.reset_timer ∷ Effect.to_pipelines reply Priority.critical ∷ [])
        × ((handle_request_vote_response (start_election a) reply res).st.role ≡ Role.leader)
        × ((handle_request_vote_response (start_election b) reply res).st.role ≡ Role.leader)
  vote_elects_two f a b free same t older newer most small =
      let s = start_election-Stood a free.0 in
      let ask = asks (start_election a) in
      let req = vote_request (start_election a) in
      let cluster : ask.cluster_id ≡ f.config.cluster_id =
        ap (λ c. c.cluster_id) s.config_same ∙ same.0 in
      let higher : f.st.current_term < req.term = omega (arith, older, s.term_is) in
      let v = vote_request-Voted f ask req cluster higher newer in
      (
        voted_for-new f ask req cluster higher newer ∙ ap (λ c. some c.node_id) s.config_same,
        v.sent
            ∙ ap
                (λ k.
                  f.out
                  ++ Effect.reset_timer
                    ∷ Effect.to_pipelines
                        (message f (Content.request_vote_response (vote_response k true)))
                        Priority.critical
                    ∷ [])
                s.term_is,
        elected a f (add64 a.st.current_term 1) free.0 same.0 refl (most.0, small.0),
        elected b f (add64 a.st.current_term 1) free.1 same.1 (sym t) (most.1, small.1),
      )
