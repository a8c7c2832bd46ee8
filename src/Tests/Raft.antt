-- ===== src/Tests/Raft.antt =====
-- The theorems about the node, at nodes of the cluster.
use embkv.Base.{◌≡◌, refl, List, [], ◌∷◌, arith, Returns}
use embkv.Proto.{Message, Content, AppendEntriesRequest}
use embkv.Status.{Role}
use embkv.Node.{RaftNode, message}
use embkv.Node.Apply.{apply_to_state_machine}
use embkv.Node.Apply.Machine.{apply_all, apply_to_state_machine-order, apply_to_state_machine-skips}
use embkv.Node.Vote.{start_election, handle_request_vote_request, handle_request_vote_response}
use embkv.Node.Timers.{handle_parse_timeout, handle_heartbeat_timeout}
use embkv.Node.Valid.{IsValid}
use embkv.Node.Valid.Commit.{CommitsMajority, heartbeat-CommitsMajority}
use embkv.Node.Run.{Event, step, run}
use embkv.Node.Run.Safety.{run-IsValid, run-NeverBack, NeverBack}
use embkv.Cluster.Rivals.{vote_elects_two}
use embkv.Tests.Cluster.{
  Journal, journal, entry, fresh, leader, timeout, message_of, ask, grant, append_of, fresh-IsValid,
  leader-IsValid,
}

-- Node 0 is asked for its vote by node 1, then its heartbeat timer fires.
abbrev asked : List Event
asked =
    Event.parse_timeout timeout ((message_of 1 (Content.request_vote_request (ask 1)), 10) ∷ [])
    ∷ Event.heartbeat_timeout timeout
    ∷ []

run-IsValid_example : Returns IsValid (run journal (fresh 0) asked)
unfolding step handle_parse_timeout handle_heartbeat_timeout handle_request_vote_request
run-IsValid_example =
    run-IsValid journal (fresh 0) asked (fresh-IsValid 0) ((tt, tt), (tt, tt))
      (omega arith, (omega arith, tt))

run-NeverBack_example : Returns (λ m. NeverBack (fresh 0).st m.st) (run journal (fresh 0) asked)
unfolding step handle_parse_timeout handle_heartbeat_timeout handle_request_vote_request
run-NeverBack_example =
    run-NeverBack journal (fresh 0) asked (fresh-IsValid 0) ((tt, tt), (tt, tt))
      (omega arith, (omega arith, tt))

-- Node 1 asks again, after a heartbeat of node 0.
abbrev request : Message
request = message_of 1 (Content.request_vote_request (ask 1))

abbrev voted : RaftNode Journal
voted = handle_request_vote_request (fresh 0) request (ask 1)

heartbeat-CommitsMajority_example :
    Returns (CommitsMajority leader) (handle_heartbeat_timeout journal leader timeout)
heartbeat-CommitsMajority_example =
    heartbeat-CommitsMajority journal leader timeout leader-IsValid refl refl

apply_to_state_machine-order_example :
    Returns
      (λ m. m.state_machine ≡ entry 1 2 ∷ entry 1 1 ∷ [])
      (apply_to_state_machine journal 2 leader)
unfolding apply_all
apply_to_state_machine-order_example =
    apply_to_state_machine-order journal 2 leader
      (record { from_start = refl; small = omega arith }) (omega arith) (omega arith)

apply_to_state_machine-skips_example :
    Returns
      (λ m. (m.state_machine ≡ []) × (m.st.last_applied ≡ 2))
      (apply_to_state_machine journal 2 (fresh 1))
apply_to_state_machine-skips_example =
    apply_to_state_machine-skips journal 2 (fresh 1)
      (record { from_start = refl; small = omega arith }) (omega arith) (omega arith) (omega arith)

-- The leader of term 1 hears the leader of term 2, which sends an entry and a commit index ahead of its
-- own.
abbrev heard : AppendEntriesRequest
heard = record (append_of 2 1 (entry 2 3 ∷ [])) { term = 2; leader_commit = 2 }

-- Nodes 0 and 1 stand for term 1, and node 2 is asked by node 0.
vote_elects_two_example :
    (handle_request_vote_response
      (start_election (fresh 1))
      (message (fresh 2) (Content.request_vote_response (grant 1)))
      (grant 1)).st.role
    ≡ Role.leader
vote_elects_two_example =
    (vote_elects_two (fresh 2) (fresh 0) (fresh 1) (refl, refl) (refl, refl) refl (omega arith)
      (unfold start_election in refl) (refl, refl) (omega arith, omega arith)).3
