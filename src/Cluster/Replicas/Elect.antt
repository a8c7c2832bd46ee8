-- ===== src/Cluster/Replicas/Elect.antt =====
-- An election, in which all others hear the candidate, and the candidate hears one of them.
use embkv.Base.{map, ℕ, ◌≡◌, refl, true, List, [], ◌∷◌, arith, ok, add64, Result, ◌>>=◌}
use embkv.Proto.{Message, Content, Priority, RequestVoteRequest, RequestVoteResponse}
use embkv.Node.{RaftNode, Services, Effect, message}
use embkv.Node.Vote.{
  start_election, vote_response, handle_request_vote_request, handle_request_vote_response,
  log_up_to_date,
}
use embkv.Node.Timers.{dispatch}
use embkv.Cluster.Replicas.{hear, hear_each}
use embkv.Cluster.Replicas.Heard.{heard}
use embkv.Cluster.Replicas.Vote.{Voted, Stood}

module _ {M : Type 0} (s : Services M) where
  -- The first node stands for election, the others hear that and vote, and the first hears the vote of
  -- one of them.
  unfoldable pub elect :
      ℕ → RaftNode M → RaftNode M → List (RaftNode M) → Result (RaftNode M × List (RaftNode M))
  unfolding hear_each start_election
  elect now n f fs =
      let stood = start_election n in
      hear s now n stood f >>= λ voter.
      (hear_each s now n stood fs >>= λ voters.
      (hear s now f voter stood >>= λ leader. ok (leader, voter ∷ voters)))

  -- The question that the first one asks, and the answer of the other one.
  abbrev pub ask : RaftNode M → RequestVoteRequest
  ask n = record {
    term = add64 n.st.current_term 1;
    last_log_index = n.log.last_log_index;
    last_log_term = n.log.last_log_term;
  }

  abbrev pub asking : RaftNode M → Message
  asking n = message n (Content.request_vote_request (ask n))

  abbrev pub grant : RaftNode M → RequestVoteResponse
  grant n = vote_response (add64 n.st.current_term 1) true

  abbrev pub granting : RaftNode M → RaftNode M → Message
  granting n f = message f (Content.request_vote_response (grant n))

  abbrev pub voter_of : RaftNode M → RaftNode M → RaftNode M
  voter_of n f = handle_request_vote_request f (asking n) (ask n)

  abbrev pub winner_of : RaftNode M → RaftNode M → RaftNode M
  winner_of n f = handle_request_vote_response (start_election n) (granting n f) (grant n)

  -- A log is as new as itself.
  pub newest : (n f : RaftNode M) → f.log ≡ n.log → log_up_to_date f.log (ask n) ≡ true
  newest n f same = rw same (ground arith)

  abbrev pub Votes : RaftNode M → RaftNode M → Type 0
  Votes n f = Voted f (add64 n.st.current_term 1) (voter_of n f)

  voter-heard :
      (now : ℕ) (n f : RaftNode M)
      → Stood n (start_election n)
      → hear s now n (start_election n) f ≡ ok (voter_of n f)
  unfolding dispatch
  voter-heard now n f st =
      heard s f.state_machine now n (start_election n) f [] (asking n) Priority.critical st.sent tt

  voters-heard :
      (now : ℕ) (n : RaftNode M) (fs : List (RaftNode M))
      → Stood n (start_election n)
      → hear_each s now n (start_election n) fs ≡ ok (map (voter_of n) fs)
  unfolding hear_each
  voters-heard now n [] st = refl
  voters-heard now n (f ∷ fs) st = rw (voter-heard now n f st, voters-heard now n fs st) refl

  pub elect-heard :
      (now : ℕ) (n f : RaftNode M) (fs : List (RaftNode M))
      → Stood n (start_election n)
      → Votes n f
      → elect now n f fs ≡ ok (winner_of n f, voter_of n f ∷ map (voter_of n) fs)
  unfolding elect dispatch
  elect-heard now n f fs st vo =
      let stood = start_election n in
      let answered : hear s now f (voter_of n f) stood ≡ ok (winner_of n f) =
        heard s f.state_machine now f (voter_of n f) stood (Effect.reset_timer ∷ []) (granting n f)
          Priority.critical vo.sent (tt, tt) in
      rw (voter-heard now n f st, voters-heard now n fs st, answered) refl
