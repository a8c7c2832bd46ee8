-- ===== src/Node/Run/Votes.antt =====
-- Votes: what a grant means, and that a node grants one candidate in a term.
use embkv.Base.{◌≤◌, ◌<◌, ◌≡◌, ◌⊎◌, true, some, [], ◌∷◌, arith}
use embkv.Proto.{Message, RequestVoteRequest, Content, Priority}
use embkv.Log.{RaftLog}
use embkv.Node.{RaftNode, Effect, message}
use embkv.Node.Vote.{handle_request_vote_request, vote_response}

-- Raft's order on logs: by the last term, then by the last index.
abbrev pub NotNewer : RaftLog → RequestVoteRequest → Type 0
NotNewer log req =
    (log.last_log_term < req.last_log_term)
    ⊎ ((log.last_log_term ≡ req.last_log_term) × (log.last_log_index ≤ req.last_log_index))

module _ {M : Type 0} where
  -- The handler arms the timer and sends a reply that grants the vote.
  abbrev pub Grants : RaftNode M → Message → RequestVoteRequest → Type 0
  Grants n msg req =
      (handle_request_vote_request (record n { out = [] }) msg req).out
      ≡ Effect.reset_timer
        ∷ Effect.to_pipelines
            (message n (Content.request_vote_response (vote_response req.term true)))
            Priority.critical
        ∷ []

  -- A request is granted only in the term of the node or a later one, to a candidate whose log is as
  -- new as the node's; the node is then in that term and has the candidate for its vote.
  pub grant_meaning :
      (n : RaftNode M) (msg : Message) (req : RequestVoteRequest)
      → Grants n msg req
      → let m = handle_request_vote_request n msg req in
        (n.st.current_term ≤ req.term)
        × (m.st.current_term ≡ req.term)
        × (m.st.voted_for ≡ some msg.node_id)
        × NotNewer n.log req
  unfolding handle_request_vote_request
  grant_meaning n msg req g = ground arith
