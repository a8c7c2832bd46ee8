-- ===== src/Node/Vote.antt =====
-- The election of embkv/src/raft/node.cpp: start_election and the handlers of vote messages.
use embkv.Base.{
  ℕ, ◌+◌, ◌/◌, Bool, true, false, not, ◌&&◌, ◌||◌, Option, none, some, List, [], ◌∷◌, add64, ltb,
  leb, ◌==◌, if◌then◌else◌,
}
use embkv.Base.Map.{Map, assign}
use embkv.Proto.{RequestVoteRequest, RequestVoteResponse, Content, Message, Priority}
use embkv.Status.{Role, handle_higher_term, increase_term_to, become_leader, set_voted_for}
use embkv.Log.{RaftLog}
use embkv.Node.{RaftNode, Effect, emit, with_status, peer_count, message}

-- The test for a message of another cluster or an old term.
unfoldable pub is_stale : {M : Type 0} → RaftNode M → Message → ℕ → Bool
is_stale n msg term = not (msg.cluster_id == n.config.cluster_id) || ltb term n.st.current_term

-- `last_log_term`, `last_log_index` describe a log that is at least as new as `log`.
abbrev pub log_up_to_date : RaftLog → RequestVoteRequest → Bool
log_up_to_date log req =
    ltb log.last_log_term req.last_log_term
    || (req.last_log_term == log.last_log_term && leb log.last_log_index req.last_log_index)

abbrev pub vote_available : Option ℕ → ℕ → Bool
vote_available none node_id = true
vote_available (some id) node_id = id == node_id

-- `for (auto& peer : peers) map[peer.first] = v`
unfoldable pub assign_all : List ℕ → ℕ → Map ℕ → Map ℕ
assign_all [] v m = m
assign_all (p ∷ ps) v m = assign_all ps v (assign p v m)

abbrev pub vote_response : ℕ → Bool → RequestVoteResponse
vote_response term granted = record { term = term; granted = granted }

-- The roles that may stand for election.
abbrev pub may_stand : Role → Bool
may_stand Role.follower = true
may_stand Role.candidate = true
may_stand _ = false

module _ {M : Type 0} where
  -- `if (term > current_term()) st_.handle_higher_term(term);`
  unfoldable pub follow_term : ℕ → RaftNode M → RaftNode M
  unfolding handle_higher_term
  follow_term term n =
      if ltb n.st.current_term term then with_status (handle_higher_term term n.st) n else n

  abbrev pub grants : RaftNode M → Message → RequestVoteRequest → Bool
  grants n msg req = vote_available n.st.voted_for msg.node_id && log_up_to_date n.log req

  -- The second half of the handler: the vote, and the reply to all peers.
  unfoldable pub answer_vote : RaftNode M → Message → RequestVoteRequest → RaftNode M
  unfolding set_voted_for
  answer_vote n msg req =
      let granted = grants n msg req in
      emit
        (Effect.to_pipelines
          (message n (Content.request_vote_response (vote_response req.term granted)))
          Priority.critical)
        (if granted
          then emit Effect.reset_timer (with_status (set_voted_for (some msg.node_id) n.st) n)
          else n)

  unfoldable pub handle_request_vote_request :
      RaftNode M → Message → RequestVoteRequest → RaftNode M
  unfolding is_stale follow_term answer_vote
  handle_request_vote_request n msg req =
      if is_stale n msg req.term then n else answer_vote (follow_term req.term n) msg req

  -- The branch in which the votes suffice.
  unfoldable pub win_election : RaftNode M → RaftNode M
  unfolding become_leader
  win_election n =
      with_status
        (record (become_leader n.st) {
          match_index = assign_all n.peers n.st.commit_index n.st.match_index;
          next_index = assign_all n.peers (add64 n.st.commit_index 1) n.st.next_index;
        })
        n

  unfoldable pub count_vote : RaftNode M → RaftNode M
  unfolding win_election
  count_vote n =
      let voted = with_status (record n.st { votes = add64 n.st.votes 1 }) n in
      if leb (peer_count n / 2 + 1) (add64 n.st.votes 1) then win_election voted else voted

  unfoldable pub handle_request_vote_response :
      RaftNode M → Message → RequestVoteResponse → RaftNode M
  unfolding is_stale handle_higher_term count_vote
  handle_request_vote_response n msg res =
      if is_stale n msg res.term
      then n
      else if ltb n.st.current_term res.term
      then with_status (handle_higher_term res.term n.st) n
      else if res.granted
      then count_vote n
      else n

  abbrev pub vote_request : RaftNode M → RequestVoteRequest
  vote_request n = record {
    term = n.st.current_term;
    last_log_index = n.log.last_log_index;
    last_log_term = n.log.last_log_term;
  }

  unfoldable pub stand : RaftNode M → RaftNode M
  unfolding increase_term_to
  stand n =
      with_status
        (record (increase_term_to (add64 n.st.current_term 1) n.st) {
          role = Role.candidate;
          voted_for = some n.config.node_id;
          votes = 1;
        })
        n

  unfoldable pub start_election : RaftNode M → RaftNode M
  unfolding stand
  start_election n =
      if may_stand n.st.role
      then emit
          (Effect.to_pipelines (message n (Content.request_vote_request (vote_request (stand n))))
            Priority.critical)
          (stand n)
      else n
