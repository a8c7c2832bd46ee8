-- ===== src/Tests/Cluster.antt =====
-- A cluster of three nodes, as create_raft_peers of embkv/src/main.cpp makes it, with a state machine
-- that keeps the entries it is given.
use embkv.Base.{ℕ, refl, true, false, none, some, List, [], ◌∷◌, arith}
use embkv.Base.Sets.{contains}
use embkv.Proto.{
  EntryMeta, Message, Content, RequestVoteRequest, RequestVoteResponse, AppendEntriesRequest,
  ClientRequest,
}
use embkv.Status.{RaftStatus, Role, initial_status}
use embkv.Log.{RaftLog}
use embkv.Node.{RaftNode, Services, Revents}
use embkv.Node.Valid.{IsValid}

abbrev pub Journal : Type 0
Journal = List EntryMeta

abbrev pub journal : Services Journal
journal = record { apply = λ e m. (none, e ∷ m); serialize_request = λ r. r.command }

abbrev pub entry : ℕ → ℕ → EntryMeta
entry term index = record { term = term; index = index; client_request = 7 ∷ [] }

abbrev pub log_of : List EntryMeta → ℕ → ℕ → RaftLog
log_of es index term = record {
  entries = es;
  start_index = 0;
  last_log_index = index;
  last_log_term = term;
}

-- A node with a status and a log.
abbrev pub node : ℕ → RaftStatus → RaftLog → RaftNode Journal
node id st log = record {
  config = record { cluster_id = 0; node_id = id };
  st = st;
  log = log;
  requests = [];
  peers = 0 ∷ 1 ∷ 2 ∷ [];
  state_machine = [];
  election_start = 0;
  out = [];
}

abbrev pub fresh : ℕ → RaftNode Journal
fresh id = node id initial_status (log_of [] 0 0)

-- The leader of term 1, with two entries, of which each peer has one at least.
abbrev pub leader : RaftNode Journal
leader =
    node 0
      (record initial_status {
        current_term = 1;
        voted_for = some 0;
        role = Role.leader;
        votes = 2;
        match_index = (0, 2) ∷ (1, 1) ∷ (2, 2) ∷ [];
        next_index = (0, 3) ∷ (1, 2) ∷ (2, 3) ∷ [];
      })
      (log_of (entry 1 1 ∷ entry 1 2 ∷ []) 2 1)

abbrev pub candidate : ℕ → RaftNode Journal
candidate id =
    node id
      (record initial_status {
        current_term = 1;
        voted_for = some id;
        role = Role.candidate;
        votes = 1;
      })
      (log_of [] 0 0)

abbrev pub timeout : Revents
timeout = record { timeout = true; error = false }

abbrev pub message_of : ℕ → Content → Message
message_of id c = record { cluster_id = 0; node_id = id; content = c }

abbrev pub ask : ℕ → RequestVoteRequest
ask term = record { term = term; last_log_index = 0; last_log_term = 0 }

abbrev pub grant : ℕ → RequestVoteResponse
grant term = record { term = term; granted = true }

abbrev pub append_of : ℕ → ℕ → List EntryMeta → AppendEntriesRequest
append_of prev prev_term es = record {
  term = 1;
  prev_log_index = prev;
  prev_log_term = prev_term;
  entries = es;
  leader_commit = 0;
  is_heartbeat = false;
}

abbrev pub write : ClientRequest
write = record { request_id = 9; command = 7 ∷ [] }

pub fresh-IsValid : (id : ℕ) → IsValid (fresh id)
unfolding contains
fresh-IsValid id = record {
  from_start = refl;
  synced = refl;
  commit_fits = omega arith;
  last_fits = omega arith;
  some_peer = omega arith;
  peers_fit = omega arith;
  peers_distinct = (refl, (refl, (refl, tt)));
  tracks = record { known = tt; keys_distinct = tt; covered = λ e. cc };
}

pub leader-IsValid : IsValid leader
unfolding contains
leader-IsValid = record {
  from_start = refl;
  synced = refl;
  commit_fits = omega arith;
  last_fits = omega arith;
  some_peer = omega arith;
  peers_fit = omega arith;
  peers_distinct = (refl, (refl, (refl, tt)));
  tracks = record {
    known = ((refl, omega arith), ((refl, omega arith), ((refl, omega arith), tt)));
    keys_distinct = (refl, (refl, (refl, tt)));
    covered = λ e. (refl, (refl, (refl, tt)));
  };
}
