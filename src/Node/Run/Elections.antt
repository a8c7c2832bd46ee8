-- ===== src/Node/Run/Elections.antt =====
-- Elections: when a node stands, and when it leads.
use embkv.Base.{
  ℕ, ◌+◌, ◌/◌, ◌≤◌, ◌<◌, ◌≡◌, ◌⊎◌, true, false, some, [], ◌∷◌, ◌++◌, arith, u64_mod, add64, All,
}
use embkv.Base.Map.{Map, lookup}
use embkv.Proto.{Message, RequestVoteResponse, Content, Priority}
use embkv.Status.{Role}
use embkv.Node.{RaftNode, Effect, Revents, message, peer_count}
use embkv.Node.Vote.{handle_request_vote_response, start_election, vote_request, may_stand}
use embkv.Node.Timers.{handle_election_timeout}

module _ {M : Type 0} where
  -- A node that leads, with the counters of each peer set from the commit index.
  pub record Leads (n m : RaftNode M) : Type 0 where
    pub majority : peer_count n / 2 + 1 ≤ m.st.votes
    pub one_more : m.st.votes ≡ add64 n.st.votes 1
    pub term_same : m.st.current_term ≡ n.st.current_term
    pub matched : All (λ p. lookup p m.st.match_index ≡ some n.st.commit_index) n.peers
    pub next : All (λ p. lookup p m.st.next_index ≡ some (add64 n.st.commit_index 1)) n.peers

  -- A granted vote of its own term makes a node that lacks one vote lead.
  pub completes :
      (n : RaftNode M) (msg : Message) (res : RequestVoteResponse)
      → res.granted ≡ true
      → n.config.cluster_id ≡ msg.cluster_id
      → n.st.current_term ≡ res.term
      → n.st.votes ≡ peer_count n / 2
      → peer_count n < u64_mod
      → (handle_request_vote_response n msg res).st.role ≡ Role.leader
  unfolding handle_request_vote_response
  completes n msg res g c t v f = ground arith

  -- Stands for the next term, with its own vote, and asks all peers for theirs.
  abbrev pub Stands : RaftNode M → RaftNode M → Type 0
  Stands n m =
      (m.st.current_term ≡ add64 n.st.current_term 1)
      × (m.st.role ≡ Role.candidate)
      × (m.st.voted_for ≡ some n.config.node_id)
      × (m.st.votes ≡ 1)
      × (m.out
          ≡ (n.out
              ++ Effect.to_pipelines (message n (Content.request_vote_request (vote_request m)))
                  Priority.critical
                ∷ [])
            ++ Effect.reset_timer ∷ [])

  -- The election timer of a follower or candidate, at a time that is not before those on record: the
  -- node stands if no heartbeat came after the timer last fired, otherwise its status stays; the time
  -- is then on record.
  pub election_timeout-decides :
      (n : RaftNode M) (revents : Revents) (now : ℕ)
      → revents.error ≡ false
      → revents.timeout ≡ true
      → may_stand n.st.role ≡ true
      → now < u64_mod
      → (n.election_start ≤ now) × (n.st.last_heartbeat ≤ now)
      → let m = handle_election_timeout n revents now in
        (((n.st.last_heartbeat ≤ n.election_start) × Stands n m)
          ⊎ ((n.election_start < n.st.last_heartbeat) × (m.st ≡ n.st)))
        × (m.election_start ≡ now)
  unfolding handle_election_timeout start_election
  election_timeout-decides n revents now e t r f h = ground arith
