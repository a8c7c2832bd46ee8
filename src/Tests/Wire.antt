-- ===== src/Tests/Wire.antt =====
-- The theorems about connections, pipelines and the transport, with concrete parameters.
use embkv.Base.{
  ℕ, zero, suc, ◌<◌, ◌≤◌, ◌≡◌, refl, sym, ap, Bool, true, false, Option, some, List, [], ◌∷◌, ◌++◌,
  arith, length, take, drop, length-take, take-append-drop,
}
use embkv.Base.Map.{lookup}
use embkv.Proto.{Bytes, Message, Content}
use embkv.Head.{raft_node}
use embkv.Queue.{ConcurrentQueue, PriorityQueue, at}
use embkv.Queue.Order.{waiting}
use embkv.Stream.{Connection}
use embkv.Stream.Exact.{take-all}
use embkv.Pipeline.{MessageCodec, Pipeline, Callback}
use embkv.Head.Framing.{head, frames}
use embkv.Pipeline.Frame.{readable}
use embkv.Transport.{Transport, Peer, peer_at, try_connect_to_peer, handle_receive_timeout}
use embkv.Transport.Session.{connect-handshake, connect-greets}
use embkv.Transport.Moves.{receive_timeout-received}
use embkv.Transport.Rounds.{Broadcast, serialize_loop, serialize_loop-Broadcast}

pub never_failed : {A : Type 0} {q r : List A} → true ≡ false → r ≡ q
never_failed e = cc

abbrev pub lists : (T : Type 0) → ConcurrentQueue T (List T)
lists T = record {
  enqueue = λ t q. (true, q ++ t ∷ []);
  enqueue_bulk = λ ts q. (true, q ++ ts);
  try_dequeue_bulk = λ k q. (take k q, drop k q);
  size_approx = λ q. length q;
  contents = λ q. q;
  contents-enqueue = λ t q _. refl;
  contents-enqueue_failed = λ t q e. never_failed e;
  contents-enqueue_bulk = λ ts q _. refl;
  dequeued = λ k q. refl;
  left = λ k q. refl;
  size_contents = λ q. refl;
}

pub took_nothing : (k : ℕ) (xs : Bytes) → 0 < k → take k xs ≡ [] → xs ≡ []
took_nothing zero xs p h = absurd (omega arith)
took_nothing (suc k) [] p h = refl
took_nothing (suc k) (x ∷ xs) p h = cc

pub took_at_most : (k : ℕ) (xs : Bytes) → length (take k xs) ≤ k
took_at_most k xs = omega (arith, length-take k xs)

pub wrote_all : (bs out : Bytes) → out ++ bs ≡ out ++ take (length bs) bs
wrote_all bs out = rw (take-all (length bs) bs (omega arith)) refl

-- A connection as what comes in and what went out.
abbrev pub pipe : Connection (Bytes × Bytes)
pipe = record {
  incoming = λ c. c.0;
  written = λ c. c.1;
  read = λ k c. (take k c.0, (drop k c.0, c.1));
  write = λ bs c. (length bs, (c.0, c.1 ++ bs));
  close = λ c. c;
  read-le = λ k c. took_at_most k c.0;
  read-incoming = λ k c. sym (take-append-drop k c.0);
  read-some = λ k c p h. took_nothing k c.0 p h;
  read-written = λ k c. refl;
  write-le = λ bs c. omega arith;
  write-some = λ bs c h. h;
  write-written = λ bs c. wrote_all bs c.1;
  write-incoming = λ bs c. refl;
}

-- Messages without a content travel as the ids of their senders.
abbrev pub plain : ℕ → Message
plain id = record { cluster_id = 0; node_id = id; content = Content.content_not_set }

abbrev pub parse_id : Bytes → Bool × Message
parse_id [] = (false, plain 0)
parse_id (b ∷ bs) = (true, plain b)

abbrev pub ids : MessageCodec
ids = record { serialize_message = λ m. m.node_id ∷ []; parse_message = parse_id }

abbrev pub none_waiting : {T : Type 0} → PriorityQueue (List T)
none_waiting = record { critical = []; high = []; medium = []; low = [] }

abbrev pipeline :
    Bool
    → Bytes
    → List Bytes
    → PriorityQueue (List Message)
    → Pipeline (Bytes × Bytes) (List Bytes) (List Message)
pipeline running incoming out waiting = record {
  stream = (incoming, []);
  is_running = running;
  from_ser_queue = out;
  to_deser_queue = waiting;
  ended = false;
}

abbrev peer : Bool → List Message → Peer (Bytes × Bytes) (List Bytes) (List Message)
peer running waiting = record {
  node_id = 1;
  ip = [];
  port = 0;
  connect_locked = false;
  pipeline =
      pipeline running [] [] (record { critical = waiting; high = []; medium = []; low = [] });
}

abbrev pub transport : Bool → Transport (Bytes × Bytes) (List Bytes) (List Message)
transport running = record {
  node_id = 0;
  peers = (1, peer running (plain 7 ∷ [])) ∷ [];
  clients = (5, (0 ∷ 0 ∷ 0 ∷ 0 ∷ 0 ∷ 0 ∷ 0 ∷ 0 ∷ 0 ∷ 0 ∷ 0 ∷ 0 ∷ 0 ∷ 0 ∷ [], [])) ∷ [];
  to_raftnode_deser_queue = none_waiting;
  to_pipeline_deser_queue = record { critical = plain 8 ∷ []; high = []; medium = []; low = [] };
  client_buf = [];
}

abbrev pub answers : Bytes → ℕ → Option (Bytes × Bytes)
answers ip port = some ([], [])

receive_timeout-received_example :
    (handle_receive_timeout pipe ids
      (lists Bytes)
      (lists Message)
      answers
      true
      (transport true)).to_raftnode_deser_queue.medium
    ≡ plain 7 ∷ []
unfolding at
receive_timeout-received_example =
    (receive_timeout-received pipe ids (lists Bytes) (lists Message) answers (transport true)
      (λ ms q. refl)).0

serialize_loop-Broadcast_example :
    Broadcast pipe ids
      (lists Bytes)
      (lists Message)
      answers
      1
      (peer true (plain 7 ∷ []))
      (plain 8 ∷ [])
      []
      (serialize_loop pipe ids
        (lists Bytes)
        (lists Message)
        answers
        (true ∷ true ∷ [])
        (transport true))
unfolding at peer_at lookup
serialize_loop-Broadcast_example =
    serialize_loop-Broadcast pipe ids (lists Bytes) (lists Message) answers (true ∷ true ∷ [])
      (transport true) 1 (peer true (plain 7 ∷ [])) (λ bs q. refl) refl refl

connect-handshake_example :
    (try_connect_to_peer pipe ids
      (lists Bytes)
      (lists Message)
      answers
      1
      (peer false [])).pipeline.is_running
    ≡ true
unfolding peer_at lookup
connect-handshake_example =
    (connect-handshake pipe ids (lists Bytes) (lists Message) answers 1 (peer false [])
      (peer false (plain 7 ∷ [])) ([], []) (head raft_node 1 ++ [], []) [] (transport false)
      (omega arith) (refl, refl) refl (refl, refl)
      (ap (λ l. l ++ [])
        (connect-greets pipe ids (lists Bytes) (lists Message) answers 1 (peer false []) ([], [])
          refl refl refl).1)).0

-- The peer of the second one closes the stream behind one message and one more byte.
abbrev last_message : Pipeline (Bytes × Bytes) (List Bytes) (List Message)
last_message = pipeline true (frames ((7 ∷ []) ∷ []) ++ 1 ∷ []) ((5 ∷ []) ∷ []) none_waiting

abbrev callbacks : List Callback
callbacks = Callback.ready readable ∷ Callback.tick true ∷ Callback.ready readable ∷ []
