-- ===== src/Main/Nodes.antt =====
-- The nodes as run_raft_node of embkv/src/main.cpp makes them, from create_raft_peers and the
-- configuration, and all runs of a cluster of them.
use embkv.Base.{
  ℕ, ◌+◌, ◌<◌, ◌≡◌, refl, true, List, [], ◌∷◌, map, length, arith, u64_mod, All, Returns,
}
use embkv.Base.Map.{Map, keys, emplace}
use embkv.Base.Sets.{contains}
use embkv.Proto.{Bytes}
use embkv.Config.{Config}
use embkv.Status.{initial_status}
use embkv.Log.{empty}
use embkv.Node.{RaftNode, Services}
use embkv.Node.Speaks.{Promise}
use embkv.Node.Valid.{IsValid}
use embkv.Cluster.{Action, act_all}
use embkv.Cluster.Sound.{IsMember, InputFits}
use embkv.Cluster.Safety.{act_all-IsMember}
use embkv.Main.{local_host}

-- Peer, without its pipeline.
pub record PeerInfo : Type 0 where
  pub cluster_id : ℕ
  pub node_id : ℕ
  pub name : Bytes
  pub ip : Bytes
  pub port : ℕ

-- "Node0", "Node1", "Node2"
abbrev pub peer_name : ℕ → Bytes
peer_name k = 78 ∷ 111 ∷ 100 ∷ 101 ∷ (48 + k) ∷ []

unfoldable pub create_raft_peers : Map PeerInfo
unfolding emplace
create_raft_peers =
    emplace 2
      (record { cluster_id = 0; node_id = 2; name = peer_name 2; ip = local_host; port = 8083 })
      (emplace 1
        (record { cluster_id = 0; node_id = 1; name = peer_name 1; ip = local_host; port = 8082 })
        (emplace 0
          (record { cluster_id = 0; node_id = 0; name = peer_name 0; ip = local_host; port = 8081 })
          []))

module _ {M : Type 0} where
  -- RaftNode(transport), with a state machine, on a configuration and the ids of the transport's peers.
  unfoldable pub new_node : M → Config → List ℕ → RaftNode M
  new_node machine config peers = record {
    config = record { cluster_id = config.cluster_id; node_id = config.node_id };
    st = initial_status;
    log = empty 0;
    requests = [];
    peers = peers;
    state_machine = machine;
    election_start = 0;
    out = [];
  }

  -- The node of run_raft_node.
  unfoldable pub started_node : M → Config → RaftNode M
  unfolding new_node create_raft_peers
  started_node machine config = new_node machine config (keys create_raft_peers)

abbrev pub IsNamed : Config → Type 0
IsNamed c = contains c.node_id (keys create_raft_peers) ≡ true

pub started_node-IsValid :
    {M : Type 0} (machine : M) (c : Config) → IsValid (started_node machine c)
unfolding started_node new_node create_raft_peers contains empty
started_node-IsValid machine c = record {
  from_start = refl;
  synced = refl;
  commit_fits = omega arith;
  last_fits = omega arith;
  some_peer = omega arith;
  peers_fit = omega arith;
  peers_distinct = (refl, (refl, (refl, tt)));
  tracks = record { known = tt; keys_distinct = tt; covered = λ e. cc };
}

module _ {M : Type 0} (s : Services M) (p : Promise s) (machine : M) (kept : p.Kept machine) where
  started_node-IsMember :
      (c : Config) → IsNamed c → IsMember s p 0 (keys create_raft_peers) (started_node machine c)
  unfolding started_node new_node create_raft_peers contains empty
  started_node-IsMember c h = record {
    valid = unfold empty in started_node-IsValid machine c;
    speaks = record {
      same_peers = refl;
      named = h;
      term = omega arith;
      commit_fits = omega arith;
      last_fits = omega arith;
      entries_fit = tt;
      machine = kept;
      sent = tt;
    };
  }

  raft_nodes-IsMember :
      (cs : List Config)
      → All IsNamed cs
      → All (IsMember s p 0 (keys create_raft_peers)) (map (started_node machine) cs)
  raft_nodes-IsMember [] h = tt
  raft_nodes-IsMember (c ∷ cs) h = (started_node-IsMember c h.0, raft_nodes-IsMember cs h.1)

  -- Nodes that the program has just started, whose configurations name ids of create_raft_peers, and any
  -- fewer than 2 ^ 64 callbacks of them, with whatever deliveries of what they have sent and with client
  -- requests under those ids: no callback faults, and in the end all nodes are valid, no term is above the
  -- number of callbacks, each entry of each log is made of a client's request, and what holds of the first
  -- state machine and is kept when client requests are applied holds of all of them.
  pub raft_nodes_run :
      (cs : List Config) (actions : List Action)
      → All IsNamed cs
      → length actions < u64_mod
      → All (λ a. InputFits s p (keys create_raft_peers) a.1) actions
      → Returns
          (All (IsMember s p (0 + length actions) (keys create_raft_peers)))
          (act_all s (map (started_node machine) cs) actions)
  raft_nodes_run cs actions h small f =
      act_all-IsMember s p (keys create_raft_peers) 0 (map (started_node machine) cs) actions
        (omega arith) (raft_nodes-IsMember cs h) f
