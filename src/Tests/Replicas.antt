-- ===== src/Tests/Replicas.antt =====
-- A leader and another node with the two entries that the leader has, and an election of three nodes
-- that have just started.
use embkv.Base.{All, ℕ, refl, true, List, [], ◌∷◌, ◌++◌, arith, Returns, ◌>>=◌}
use embkv.Base.Sets.{contains}
use embkv.Proto.{AppendEntriesResponse, Content}
use embkv.Status.{initial_status}
use embkv.Node.{RaftNode}
use embkv.Node.Valid.{IsValid}
use embkv.Node.Apply.Machine.{apply_all}
use embkv.Cluster.Replicas.{Act, exchange_all}
use embkv.Cluster.Replicas.Leader.{Leading}
use embkv.Cluster.Replicas.Pair.{Follows, Same}
use embkv.Cluster.Replicas.Agree.{exchange_all-Same}
use embkv.Cluster.Replicas.Elect.{elect}
use embkv.Cluster.Replicas.Failover.{Twins, elect-Same}
use embkv.Log.{empty}
use embkv.Main.Nodes.{create_raft_peers, new_node, started_node, started_node-IsValid}
use embkv.Tests.Clusters.{config_of}
use embkv.Tests.Cluster.{
  Journal, journal, leader, leader-IsValid, node, entry, log_of, message_of, write,
}

abbrev follower : RaftNode Journal
follower = node 1 initial_status (log_of (entry 1 1 ∷ entry 1 2 ∷ []) 2 1)

follower-IsValid : IsValid follower
unfolding contains
follower-IsValid = record {
  from_start = refl;
  synced = refl;
  commit_fits = omega arith;
  last_fits = omega arith;
  some_peer = omega arith;
  peers_fit = omega arith;
  peers_distinct = (refl, (refl, (refl, tt)));
  tracks = record { known = tt; keys_distinct = tt; covered = λ e. cc };
}

abbrev has_two : AppendEntriesResponse
has_two = record { term = 1; success = true; conflict_index = 0; last_log_index = 2 }

abbrev acts : List (Act × ℕ)
acts =
    (Act.reply (message_of 1 (Content.append_entries_response has_two)) has_two, 4)
    ∷ (Act.request (message_of 2 (Content.client_request write)) write, 5)
    ∷ []

leader-Leading : Leading journal [] leader
unfolding apply_all
leader-Leading = record {
  valid = leader-IsValid;
  leads = refl;
  contiguous = record { from_start = refl; last = refl; numbered = (refl, (refl, tt)) };
  replays = record { within = omega arith; machine = refl };
  matched = (omega arith, (omega arith, (omega arith, tt)));
}

follower-Follows : Follows journal [] leader follower
unfolding apply_all
follower-Follows = record {
  valid = follower-IsValid;
  log_same = refl;
  same_cluster = refl;
  term = omega arith;
  commit = omega arith;
  replays = record { within = omega arith; machine = refl };
}

exchange_all-Same_example :
    Returns
      (λ p. All (λ g. Same journal [] (p.0, g)) p.1)
      (exchange_all journal leader (follower ∷ []) (acts ++ (Act.heartbeat, 6) ∷ []))
unfolding contains
exchange_all-Same_example =
    exchange_all-Same journal [] leader (follower ∷ []) acts 6 (omega arith) leader-Leading
      (follower-Follows, tt) ((refl, omega arith, omega arith), ((refl, omega arith), tt))

-- A node that the program has just started.
abbrev started : ℕ → RaftNode Journal
started id = started_node [] (config_of id)

started-Twins : (id : ℕ) → Twins journal [] (started 0) (started id)
unfolding started_node new_node create_raft_peers empty apply_all
started-Twins id = record {
  valid = started_node-IsValid [] (config_of 0);
  valid_too = started_node-IsValid [] (config_of id);
  free = refl;
  contiguous = record { from_start = refl; last = refl; numbered = tt };
  replays = record { within = omega arith; machine = refl };
  replays_too = record { within = omega arith; machine = refl };
  matched = tt;
  log_same = refl;
  same_cluster = refl;
  term = omega arith;
  commit = omega arith;
}

abbrev first_request : List (Act × ℕ)
first_request = (Act.request (message_of 2 (Content.client_request write)) write, 5) ∷ []

elect-Same_example :
    Returns
      (λ p. All (λ g. Same journal [] (p.0, g)) p.1)
      (elect journal 3 (started 0) (started 1) (started 2 ∷ []) >>= λ p.
        exchange_all journal p.0 p.1 (first_request ++ (Act.heartbeat, 6) ∷ []))
unfolding started_node new_node create_raft_peers contains empty
elect-Same_example =
    elect-Same journal [] (started 0) (started 1) (started 2 ∷ []) first_request 3 6
      (started-Twins 1, (started-Twins 2, tt)) (omega arith) (omega arith) (omega arith)
      ((refl, omega arith), tt)
