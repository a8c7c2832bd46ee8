-- ===== src/Main.antt =====
-- embkv/src/main.cpp: the two programs, and their loops on what is typed.
pub mod Commands
pub mod Restart
pub mod Nodes
use embkv.Base.{
  ℕ, zero, suc, ◌+◌, Bool, true, false, Option, none, some, List, [], ◌∷◌, not, if◌then◌else◌,
}
use embkv.Base.Map.{Map}
use embkv.Proto.{Bytes, KvOperation}
use embkv.Store.Text.{bytes_eq}
use embkv.Stream.{Connection}
use embkv.Pipeline.{MessageCodec}
use embkv.Client.{Client, NodeInfo, run, stop, put, get, del}

-- "127.0.0.1"
abbrev pub local_host : Bytes
local_host = 49 ∷ 50 ∷ 55 ∷ 46 ∷ 48 ∷ 46 ∷ 48 ∷ 46 ∷ 49 ∷ []

abbrev pub create_client_endpoints : Map NodeInfo
create_client_endpoints =
    (0, record { ip = local_host; port = 8081 })
    ∷ (1, record { ip = local_host; port = 8082 })
    ∷ (2, record { ip = local_host; port = 8083 })
    ∷ []

-- `std::cin >> option` on the words that are still to come: at the end of the input it leaves the
-- string as it is.
unfoldable pub read_word : Bytes → List Bytes → Bytes × List Bytes
read_word option [] = (option, [])
read_word option (w ∷ ws) = (w, ws)

-- The commands of the client's menu, and `other` for every other word.
pub data Choice : Type 0 where
  quit run_client stop_client put_key get_key del_key other : Choice

-- The digits "1" to "6".
abbrev pub digit : ℕ → Bytes
digit k = (48 + k) ∷ []

unfoldable pub option_of : Bytes → Choice
option_of option =
    if bytes_eq option (digit 1)
    then Choice.quit
    else if bytes_eq option (digit 2)
    then Choice.run_client
    else if bytes_eq option (digit 3)
    then Choice.stop_client
    else if bytes_eq option (digit 4)
    then Choice.put_key
    else if bytes_eq option (digit 5)
    then Choice.get_key
    else if bytes_eq option (digit 6)
    then Choice.del_key
    else Choice.other

-- run_client_node: the flag `running`, the last word read for an option, the words to come.
pub record ClientNode (C : Type 0) : Type 0 where
  pub running : Bool
  pub option : Bytes
  pub words : List Bytes
  pub client : Client C

-- Client client{0, std::move(endpoints)};
abbrev pub new_client : {C : Type 0} → Bytes → Bytes → Client C
new_client head_buf buf = record {
  is_running = false;
  id = 0;
  stream = none;
  stream_no = 0;
  watched = none;
  endpoints = create_client_endpoints;
  request_id = 0;
  head_buf = head_buf;
  buf = buf;
  printed = [];
  joined = false;
  ended = false;
}

module _ {C : Type 0} (conn : Connection C) (codec : MessageCodec)
    (serialize_operation : KvOperation → Bytes) (dial : Bytes → ℕ → Option C)
    (pool_starts : Bool → Bool) where
  -- What is done on an option; a key or a value that is not there is read as the empty string.
  unfoldable pub serve_option : Choice → ClientNode C → ClientNode C
  unfolding read_word
  serve_option Choice.quit s = record s { running = false }
  serve_option Choice.run_client s = record s {
    client = run conn codec serialize_operation dial pool_starts s.client;
  }
  serve_option Choice.stop_client s = record s {
    client = stop conn codec serialize_operation dial s.client;
  }
  serve_option Choice.put_key s =
      let (key, after_key) = read_word [] s.words in
      let (value, rest) = read_word [] after_key in
      record s { words = rest; client = put conn codec serialize_operation dial key value s.client }
  serve_option Choice.get_key s =
      let (key, rest) = read_word [] s.words in
      record s { words = rest; client = get conn codec serialize_operation dial key s.client }
  serve_option Choice.del_key s =
      let (key, rest) = read_word [] s.words in
      record s { words = rest; client = del conn codec serialize_operation dial key s.client }
  serve_option Choice.other s = s

  unfoldable pub client_round : ClientNode C → ClientNode C
  unfolding serve_option option_of
  client_round s =
      let (option, rest) = read_word s.option s.words in
      serve_option (option_of option) (record s { option = option; words = rest })

  -- The loop, for a number of rounds.
  unfoldable pub client_rounds : ℕ → ClientNode C → ClientNode C
  unfolding client_round
  client_rounds zero s = s
  client_rounds (suc k) s =
      let after = client_rounds k (client_round s) in if s.running then after else s

  unfoldable pub run_client_node : ℕ → List Bytes → Client C → ClientNode C
  unfolding client_rounds
  run_client_node rounds words client = client_rounds rounds (record {
    running = true;
    option = [];
    words = words;
    client = run conn codec serialize_operation dial pool_starts client;
  })

-- run_raft_node: the flag `running`, the last option, the words to come, the flag of the node, whether
-- its boost::asio::thread_pool has been waited for, and how often its event loop was started.
pub record NodeProgram : Type 0 where
  pub running : Bool
  pub option : Bytes
  pub words : List Bytes
  pub is_running : Bool
  pub joined : Bool
  pub event_loops : ℕ

module _ (pool_starts : Bool → Bool) where
  -- boost::asio::post(pool_, event_loop); `pool_starts` as in the client
  unfoldable pub post_event_loop : NodeProgram → NodeProgram
  post_event_loop s =
      if pool_starts s.joined then record s { event_loops = s.event_loops + 1 } else s

  -- RaftNode::run and RaftNode::stop
  unfoldable pub run_node : NodeProgram → NodeProgram
  unfolding post_event_loop
  run_node s = if s.is_running then s else post_event_loop (record s { is_running = true })

  unfoldable pub stop_node : NodeProgram → NodeProgram
  stop_node s = if not s.is_running then s else record s { is_running = false; joined = true }

  -- Every option but "q" and "r" stops the node.
  unfoldable pub node_round : NodeProgram → NodeProgram
  unfolding read_word run_node stop_node
  node_round s =
      let (option, rest) = read_word s.option s.words in
      let next = record s { option = option; words = rest } in
      if bytes_eq option (113 ∷ [])
      then record next { running = false }
      else if bytes_eq option (114 ∷ [])
      then run_node next
      else stop_node next

  unfoldable pub node_rounds : ℕ → NodeProgram → NodeProgram
  unfolding node_round
  node_rounds zero s = s
  node_rounds (suc k) s = let after = node_rounds k (node_round s) in if s.running then after else s

  unfoldable pub run_raft_node : ℕ → List Bytes → NodeProgram
  unfolding node_rounds run_node
  run_raft_node rounds words = node_rounds rounds (
      run_node (record {
        running = true;
        option = [];
        words = words;
        is_running = false;
        joined = false;
        event_loops = 0;
      }))

-- main: which program the one argument names; none is the exit with 1.
pub data Mode : Type 0 where
  raft_node client_node : Mode

-- "-raftnode" and "-clientnode"
abbrev pub raft_flag : Bytes
raft_flag = 45 ∷ 114 ∷ 97 ∷ 102 ∷ 116 ∷ 110 ∷ 111 ∷ 100 ∷ 101 ∷ []

abbrev pub client_flag : Bytes
client_flag = 45 ∷ 99 ∷ 108 ∷ 105 ∷ 101 ∷ 110 ∷ 116 ∷ 110 ∷ 111 ∷ 100 ∷ 101 ∷ []

unfoldable pub mode_of : List Bytes → Option Mode
mode_of (mode ∷ []) =
    if bytes_eq mode raft_flag
    then some Mode.raft_node
    else if bytes_eq mode client_flag
    then some Mode.client_node
    else none
mode_of arguments = none
