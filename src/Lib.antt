-- ===== src/Lib.antt =====
-- embkv: a key-value store that a small cluster replicates by Raft.
--
-- A process (embkv/src/main.cpp) is a client, or a Raft node with a transport and a set of peers. The
-- client (embkv/src/client/client.cpp) sends requests to one server and prints its replies. The node
-- (embkv/src/raft/node.cpp) runs on one thread, in a libev loop with four timers: it stands for
-- election, sends heartbeats and commits, handles the messages that the transport has queued for it,
-- and sends log entries again. Messages go out through a priority queue
-- (embkv/include/common/util/priorityqueue.h) to the transport, which frames them with a header
-- (embkv/include/raft/transport/head_manager.h). Committed entries go to the state machine
-- (embkv/include/raft/statemachine.h), which executes them on an SQLite table
-- (embkv/include/raft/store.h).
--
-- The files:
--   Base           names of the library, and helpers for lists, 64-bit words, maps, sets, bytes and
--                  results with faults
--   Proto          the messages of rpc.proto, and the priorities
--   Log            RaftLog of embkv/include/raft/log.h and embkv/src/raft/log.cpp
--   Status         RaftStatus of embkv/include/raft/node.h
--   Node           RaftNode: Vote (elections), Append (append-entries messages), Client (client
--                  requests), Apply (apply_to_state_machine), Timers (the callbacks), Run (sequences
--                  of callbacks), Start (the set-up of the timers), Advance and Valid (what every
--                  callback keeps), Speaks (what a node sends)
--   Cluster        several nodes, and all ways in which what they enqueue can reach the others; Replicas
--                  (a leader, and nodes that hear all that the leader enqueues, at once), Rivals (two
--                  candidates of one term)
--   Head           HeadManager; Framing (messages behind their headers)
--   Queue          PriorityQueue
--   Store          RaftStore and StateMachine
--   Stream         read_exact and write_exact of embkv/include/socket/impl
--   Pipeline       Pipeline of embkv/src/raft/peer/pipeline.cpp, the connection to a peer: Frame (its
--                  messages on the wire), Loop (its event loop)
--   Transport      Transport and SessionManager of embkv/src/raft/transport: Session (how connections
--                  begin), Handshakes (how long they live), Clients (the messages of a client),
--                  Moves (the timers), Loops (run, stop and the listener), Rounds (the other loops)
--   Client         Client of embkv/src/client: Requests and Replies (both ways between a client and the
--                  node), Stored and Answered (from a call to the table and back), Redirects, Restart
--   Main           embkv/src/main.cpp: the loops of the two programs on what is typed; Restart; Nodes
--                  (the nodes of a new cluster)
--   Random, Clock  FastRand and current_ms of embkv/include/common/util
--   Logging        the file logger of embkv/include/log: File, Order and Rounds, Runs (what it writes), Races
--   Descriptor     FD of embkv/include/common/util/fd.h, and who owns which descriptor
--   Addr           the addresses of embkv/include/socket/net/addr.h
--   Config         the configuration of embkv/include/config.h, and its file
--   Sockets        bind, accept and connect of embkv/include/socket
--   Tests          the theorems at concrete inputs
--
-- The definitions keep the names of the functions. A handler takes the node and the message and
-- returns the node; what it does to the outside (messages for all peers, for one peer or for a client,
-- and the arming of the election timer) is appended to the field `out`, in order. A handler in which
-- `std::vector::at` or an index can go out of range returns a Result. An uint64_t is a natural number,
-- and its arithmetic is written with the wrap-around (add64, sub64). A std::unordered_map is an
-- association list, in an arbitrary order of iteration. The clock is an input of the callbacks.
--
-- The loops: apply_loop has as many rounds as the commit index is ahead of the last applied index,
-- after which its test fails; the loop of handle_reissue_timeout has one round for each index up to
-- the last one. The draws of the generator and the loops of the programs are below; all others are over
-- a list.
--
-- Parameters of the model: the three SQL statements, with the laws of a table with a primary key
-- (Sqlite); the protobuf encoding, which takes back what it wrote where keys and values are UTF-8
-- (Codec); the concurrent queue, as
-- a FIFO queue in the hands of one thread at a time (ConcurrentQueue); the calls read and write on a
-- blocking connection that does not fail (Connection); a peer's address (dial); the JSON library,
-- which reads back what it wrote (Json); the text of addresses (Resolver); whether a
-- boost::asio::thread_pool starts what is posted to it, by whether it has been waited for
-- (pool_starts). The loops of read_exact and write_exact have as many rounds as bytes are left,
-- since each moves one byte at least.
--
-- A message is sound for a node (Node/Run/Safety) where its 64-bit fields are such, and where replies
-- and client requests come from an id of the session manager; without the latter the table of match
-- indices can outgrow the number of peers, on which handle_heartbeat_timeout indexes.
--
-- A cluster is a list of nodes. An action is a callback of one of them, with the sources of the messages
-- that it dequeues: anything that any node has enqueued for it so far, or any client's request. A term
-- grows by one at most with an action, so that as many actions as there are terms left are covered.
--
-- The draws of the random generator are bounded by a number that is an argument, and the loops of the
-- two programs by a number of rounds: a call says what it does within it. The system's calls on
-- sockets are a parameter with what they do to the open descriptors (System); in Descriptor a close of
-- a descriptor that is not open is a fault.
--
-- A loop of libev is the list of the callbacks that it calls, in the order of the calls, up to the one
-- that ends it; it calls back for watchers that are started, and for no other. In Cluster/Replicas what a leader enqueues for its peers is handled by the others at once,
-- in order and once; elsewhere a message can arrive at any later time, several times or never.
--
-- Not modelled: libev itself; threads and their locks, so that each callback is one step (the lines that are logged while the
-- logger's thread works without its lock are modelled); the watchers
-- of the clients; the console logger and the names of log files; the opening of the database; the
-- options of sockets that nothing sets; and the class templates of common/util without a state of
-- their own.
pub mod Base
pub mod Proto
pub mod Log
pub mod Status
pub mod Node
pub mod Head
pub mod Queue
pub mod Store
pub mod Random
pub mod Transport
pub mod Pipeline
pub mod Client
pub mod Addr
pub mod Clock
pub mod Cluster
pub mod Config
pub mod Descriptor
pub mod Logging
pub mod Main
pub mod Sockets
pub mod Stream
pub mod Tests
