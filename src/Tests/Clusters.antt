-- ===== src/Tests/Clusters.antt =====
-- The runs of a cluster of three nodes: an election, and a client's request to its winner.
use embkv.Base.{map, ℕ, ◌+◌, ◌≡◌, refl, true, List, [], ◌∷◌, arith, All, length, Returns}
use embkv.Base.Sets.{contains}
use embkv.Node.{RaftNode}
use embkv.Node.Speaks.{Holds-any, Promise}
use embkv.Base.Map.{keys}
use embkv.Config.{Config, default_config}
use embkv.Main.Nodes.{create_raft_peers, started_node, raft_nodes_run}
use embkv.Proto.{Content}
use embkv.Node.Run.{Event, run, step}
use embkv.Node.Run.Grows.{Extends}
use embkv.Node.Run.Grows.Timers.{run-Extends}
use embkv.Node.Timers.{handle_parse_timeout}
use embkv.Cluster.{Source, Input, Action, act_all}
use embkv.Cluster.Sound.{IsMember}
use embkv.Cluster.Safety.{act_all-IsMember}
use embkv.Tests.Cluster.{
  Journal, journal, fresh, fresh-IsValid, timeout, write, leader, leader-IsValid, message_of,
}

-- All clients write the same, so that all journals hold nothing else.
abbrev seven : Promise journal
seven = record {
  Asked = λ b. b ≡ 7 ∷ [];
  Kept = All (λ e. e.client_request ≡ 7 ∷ []);
  apply-Kept = λ e m a k. (a, k);
}

abbrev peers : List ℕ
peers = 0 ∷ 1 ∷ 2 ∷ []

abbrev cluster : List (RaftNode Journal)
cluster = fresh 0 ∷ fresh 1 ∷ fresh 2 ∷ []

-- The timeout of node 0, its request at node 1, and the reply at node 0, which then leads and is asked
-- by the client with the id 1.
abbrev actions : List Action
actions =
    (0, Input.election_timeout timeout 1000)
    ∷ (1, Input.parse_timeout timeout ((Source.sent 0 0, 1001) ∷ []))
    ∷ (0, Input.parse_timeout timeout ((Source.sent 1 1, 1002) ∷ (Source.asked 1 write, 1003) ∷ []))
    ∷ []

fresh-IsMember : (id : ℕ) → contains id peers ≡ true → IsMember journal seven 0 peers (fresh id)
fresh-IsMember id h = record {
  valid = fresh-IsValid id;
  speaks = record {
    same_peers = refl;
    named = h;
    term = omega arith;
    commit_fits = omega arith;
    last_fits = omega arith;
    entries_fit = tt;
    machine = tt;
    sent = tt;
  };
}

act_all-IsMember_example :
    Returns
      (All (IsMember journal seven (0 + length actions) peers))
      (act_all journal cluster actions)
unfolding contains
act_all-IsMember_example =
    act_all-IsMember journal seven peers 0 cluster actions (omega arith)
      (fresh-IsMember 0 refl, (fresh-IsMember 1 refl, (fresh-IsMember 2 refl, tt)))
      (tt, ((tt, tt), ((tt, ((refl, refl), tt)), tt)))

-- The leader is asked by the client.
abbrev asked : List Event
asked = Event.parse_timeout timeout ((message_of 1 (Content.client_request write), 5) ∷ []) ∷ []

run-Extends_example : Returns (Extends leader) (run journal leader asked)
unfolding step handle_parse_timeout contains
run-Extends_example =
    run-Extends journal leader asked leader-IsValid ((refl, tt), tt) (omega arith, Holds-any _)

-- The configuration of the node with this id.
abbrev pub config_of : ℕ → Config
config_of id = record default_config { node_id = id }

abbrev configs : List Config
configs = config_of 0 ∷ config_of 1 ∷ config_of 2 ∷ []

raft_nodes_run_example :
    Returns
      (All (IsMember journal seven (0 + length actions) (keys create_raft_peers)))
      (act_all journal (map (started_node []) configs) actions)
unfolding contains create_raft_peers
raft_nodes_run_example =
    raft_nodes_run journal seven [] tt configs actions (refl, (refl, (refl, tt))) (omega arith)
      (tt, ((tt, tt), ((tt, ((refl, refl), tt)), tt)))
