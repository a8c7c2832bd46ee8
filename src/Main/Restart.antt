-- ===== src/Main/Restart.antt =====
-- What becomes of a node that is stopped and run again.
use embkv.Base.{[], Bool, true, false, ℕ, zero, suc, ◌≡◌, true, List, arith, ◌⊎◌}
use embkv.Proto.{Bytes}
use embkv.Main.{
  NodeProgram, read_word, run_node, post_event_loop, stop_node, node_round, node_rounds,
  run_raft_node,
}

module _ (pool_starts : Bool → Bool) (fresh : pool_starts false ≡ true)
    (no_threads : pool_starts true ≡ false) where
  -- The event loop was started once, and a node that does not run has been stopped.
  abbrev Once : NodeProgram → Type 0
  Once s = (s.event_loops ≡ 1) × ((s.is_running ≡ true) ⊎ (s.joined ≡ true))

  run_node-Once : (s : NodeProgram) → Once s → Once (run_node pool_starts s)
  unfolding run_node post_event_loop
  run_node-Once s v = ground (arith, v)

  stop_node-Once : (s : NodeProgram) → Once s → Once (stop_node pool_starts s)
  unfolding stop_node
  stop_node-Once s v = ground (arith, v)

  node_round-Once : (s : NodeProgram) → Once s → Once (node_round pool_starts s)
  unfolding node_round
  node_round-Once s v =
      let next = record s {
        option = (read_word s.option s.words).0;
        words = (read_word s.option s.words).1;
      } in
      let run = run_node-Once next v in
      let stop = stop_node-Once next v in ground (arith, v, run, stop)

  node_rounds-Once :
      (rounds : ℕ) (s : NodeProgram) → Once s → Once (node_rounds pool_starts rounds s)
  unfolding node_rounds
  node_rounds-Once zero s v = v
  node_rounds-Once (suc k) s v =
      let after = node_rounds-Once k (node_round pool_starts s) (node_round-Once s v) in
      ground (arith, v, after)

  -- Whatever is typed, the event loop of the node is started once: when the node is run again after it was
  -- stopped, its thread pool has been waited for, and such a pool starts nothing that is posted to it.
  pub run_raft_node_once :
      (rounds : ℕ) (words : List Bytes) → (run_raft_node pool_starts rounds words).event_loops ≡ 1
  unfolding run_raft_node run_node post_event_loop
  run_raft_node_once rounds words =
      let start : NodeProgram = record {
        running = true;
        option = [];
        words = words;
        is_running = false;
        joined = false;
        event_loops = 0;
      } in
      let first : Once (run_node pool_starts start) = ground (arith, fresh) in
      (node_rounds-Once rounds (run_node pool_starts start) first).0
