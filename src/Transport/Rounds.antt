-- ===== src/Transport/Rounds.antt =====
-- The loops of the transport's other two threads: serialize_loop and receive_loop.
use mathlib.Core.List.{append_assoc, append-nil, map-append}
use mathlib.Core.Option.{some-injective}
use embkv.Base.{
  subst, ◌==◌, ℕ, zero, suc, ◌+◌, ◌*◌, ◌≡◌, refl, sym, ap, ◌∙◌, Bool, true, false, Option, some,
  List, [], ◌∷◌, ◌++◌, arith, take-nil, drop-nil, take, drop, map, inl, inr, Bool-cases,
}
use embkv.Base.Map.{Map, lookup}
use embkv.Proto.{Bytes, Message, Priority}
use embkv.Queue.{ConcurrentQueue, PriorityQueue, enqueue_bulk, try_dequeue_bulk}
use embkv.Queue.Order.{waiting, try_dequeue_bulk-waiting}
use embkv.Stream.{Connection}
use embkv.Pipeline.{MessageCodec}
use embkv.Transport.{
  Transport, Peer, peer_at, handle_serialize_timeout, handle_receive_timeout, collect_all,
}
use embkv.Transport.Moves.{serialize_timeout-broadcasts}

-- How many of the calls are for a timer that fired.
abbrev pub fires : List Bool → ℕ
fires [] = 0
fires (true ∷ calls) = suc (fires calls)
fires (false ∷ calls) = fires calls

take-add : {A : Type 0} (i k : ℕ) (xs : List A) → take (i + k) xs ≡ take i xs ++ take k (drop i xs)
take-add zero k xs = let e : 0 + k ≡ k = omega arith in rw e refl
take-add (suc i) k [] = let e : suc i + k ≡ suc (i + k) = omega arith in rw e (sym (take-nil _ k))
take-add (suc i) k (x ∷ xs) =
    let e : suc i + k ≡ suc (i + k) = omega arith in rw e (ap (λ l. x ∷ l) (take-add i k xs))

drop-add : {A : Type 0} (i k : ℕ) (xs : List A) → drop (i + k) xs ≡ drop k (drop i xs)
drop-add zero k xs = let e : 0 + k ≡ k = omega arith in rw e refl
drop-add (suc i) k [] = let e : suc i + k ≡ suc (i + k) = omega arith in rw e (sym (drop-nil _ k))
drop-add (suc i) k (x ∷ xs) =
    let e : suc i + k ≡ suc (i + k) = omega arith in rw e (drop-add i k xs)

module _ {C S D : Type 0} (conn : Connection C) (codec : MessageCodec)
    (ser : ConcurrentQueue Bytes S) (deser : ConcurrentQueue Message D)
    (dial : Bytes → ℕ → Option C) where
  -- ev_run until stop breaks the loop: the calls of the timer's callback.
  unfoldable pub serialize_loop : List Bool → Transport C S D → Transport C S D
  unfolding handle_serialize_timeout
  serialize_loop [] t = t
  serialize_loop (timeout ∷ calls) t =
      serialize_loop calls (handle_serialize_timeout conn codec ser deser dial timeout t)

  unfoldable pub receive_loop : List Bool → Transport C S D → Transport C S D
  unfolding handle_receive_timeout
  receive_loop [] t = t
  receive_loop (timeout ∷ calls) t =
      receive_loop calls (handle_receive_timeout conn codec ser deser dial timeout t)

  -- From `t` on, these messages have gone to the peer, which runs, and the others wait.
  pub record Broadcast (id : ℕ) (peer : Peer C S D) (sent left : List Message) (t : Transport C S D)
      : Type 0 where
    pub after : Peer C S D
    pub found : peer_at id t ≡ some after
    pub running : after.pipeline.is_running ≡ true
    pub queue :
        ser.contents after.pipeline.from_ser_queue
        ≡ ser.contents peer.pipeline.from_ser_queue ++ map codec.serialize_message sent
    pub waits : waiting deser t.to_pipeline_deser_queue ≡ left

  -- Over the life of the serialize loop every running pipeline gets the same messages, 64 of those that
  -- wait for all peers for each time that the timer fires, each once and in order, encoded; the others
  -- still wait, in order, and the pipeline is still marked as running. It is supposed that the queues of
  -- the pipelines have room, and that nothing is enqueued or read meanwhile.
  pub serialize_loop-Broadcast :
      (calls : List Bool) (t : Transport C S D) (id : ℕ) (peer : Peer C S D)
      → ((bs : List Bytes) (q : S) → (ser.enqueue_bulk bs q).0 ≡ true)
      → peer_at id t ≡ some peer
      → peer.pipeline.is_running ≡ true
      → Broadcast id peer
          (take (fires calls * 64) (waiting deser t.to_pipeline_deser_queue))
          (drop (fires calls * 64) (waiting deser t.to_pipeline_deser_queue))
          (serialize_loop calls t)
  unfolding serialize_loop
  serialize_loop-Broadcast [] t id peer room e runs = record {
    after = peer;
    found = e;
    running = runs;
    queue = sym (append-nil (ser.contents peer.pipeline.from_ser_queue));
    waits = refl;
  }
  serialize_loop-Broadcast (false ∷ calls) t id peer room e runs =
      unfold handle_serialize_timeout in serialize_loop-Broadcast calls t id peer room e runs
  serialize_loop-Broadcast (true ∷ calls) t id peer room e runs =
      let one = serialize_timeout-broadcasts conn codec ser deser dial t id peer room e runs in
      let all = waiting deser t.to_pipeline_deser_queue in
      let next = handle_serialize_timeout conn codec ser deser dial true t in
      let more = serialize_loop-Broadcast calls next id one.0.0 room one.0.1 one.0.2 in
      let k = fires calls * 64 in
      let count : fires (true ∷ calls) * 64 ≡ 64 + k = omega arith in
      let before = ser.contents peer.pipeline.from_ser_queue in
      let ser_message = codec.serialize_message in
      record {
        after = more.after;
        found = more.found;
        running = more.running;
        queue =
            more.queue
            ∙ ap (λ l. l ++ map ser_message (take k (waiting deser next.to_pipeline_deser_queue)))
                one.0.3
            ∙ append_assoc before (map ser_message (take 64 all)) _
            ∙ ap (λ l. before ++ l)
                (sym (map-append ser_message (take 64 all) _)
                  ∙ ap (λ l. map ser_message (take 64 all ++ take k l)) one.1
                  ∙ ap (map ser_message) (sym (take-add 64 k all))
                  ∙ ap (λ j. map ser_message (take j all)) (sym count));
        waits =
            more.waits
            ∙ ap (drop k) one.1
            ∙ sym (drop-add 64 k all)
            ∙ ap (λ j. drop j all) (sym count);
      }

  -- What the receive timer leaves at a running pipeline.
  abbrev Drained : Peer C S D → Option (Peer C S D) → Type 0
  Drained peer r =
      (q : Peer C S D) × (r ≡ some q)
      × (q.pipeline.is_running ≡ true)
      × (waiting deser q.pipeline.to_deser_queue
          ≡ drop 64 (waiting deser peer.pipeline.to_deser_queue))

  lookup-first :
      (id j : ℕ) (p : Peer C S D) (rest : Map (Peer C S D))
      → (j == id) ≡ true
      → lookup id ((j, p) ∷ rest) ≡ some p
  unfolding lookup
  lookup-first id j p rest same = rw same refl

  lookup-later :
      (id j : ℕ) (p : Peer C S D) (rest : Map (Peer C S D))
      → (j == id) ≡ false
      → lookup id ((j, p) ∷ rest) ≡ lookup id rest
  unfolding lookup
  lookup-later id j p rest other = rw other refl

  first-Drained :
      (id j : ℕ) (p : Peer C S D) (rest : Map (Peer C S D)) (queue : PriorityQueue D)
      → (j == id) ≡ true
      → p.pipeline.is_running ≡ true
      → Drained p (lookup id (collect_all conn codec ser deser dial ((j, p) ∷ rest) queue).0)
  unfolding lookup collect_all
  first-Drained id j p rest queue same runs =
      let left = (try_dequeue_bulk deser 64 p.pipeline.to_deser_queue).1 in
      let q : Peer C S D = record p { pipeline = record p.pipeline { to_deser_queue = left } } in
      rw (runs, collect_all, same)
        (q, refl, runs, (try_dequeue_bulk-waiting deser 64 p.pipeline.to_deser_queue).1)

  later-lookup :
      (id j : ℕ) (p : Peer C S D) (rest : Map (Peer C S D)) (queue : PriorityQueue D)
      → (j == id) ≡ false
      → (next : PriorityQueue D) × (lookup id
            (collect_all conn codec ser deser dial ((j, p) ∷ rest) queue).0
          ≡ lookup id (collect_all conn codec ser deser dial rest next).0)
  unfolding lookup collect_all
  later-lookup id j p rest queue other = elim (Bool-cases p.pipeline.is_running) [
    | inr idle ↦ (queue, rw (idle, collect_all, other) refl)
    | inl busy ↦ (
      (enqueue_bulk deser (try_dequeue_bulk deser 64 p.pipeline.to_deser_queue).0 Priority.medium
          queue).1,
      rw (busy, collect_all, other) refl,
    )
  ]

  collect_all-Drained :
      (id : ℕ) (peer : Peer C S D) (peers : Map (Peer C S D)) (queue : PriorityQueue D)
      → lookup id peers ≡ some peer
      → peer.pipeline.is_running ≡ true
      → Drained peer (lookup id (collect_all conn codec ser deser dial peers queue).0)
  collect_all-Drained id peer [] queue h runs = unfold lookup in cc
  collect_all-Drained id peer ((j, p) ∷ rest) queue h runs = elim (Bool-cases (j == id)) [
    | inl same ↦
        let here : p ≡ peer = some-injective p peer (sym (lookup-first id j p rest same) ∙ h) in
        subst
          (λ x.
            Drained x (lookup id (collect_all conn codec ser deser dial ((j, p) ∷ rest) queue).0))
          here (first-Drained id j p rest queue same (ap (λ x. x.pipeline.is_running) here ∙ runs))
    | inr other ↦
        let (next, e) = later-lookup id j p rest queue other in
        rw e (collect_all-Drained id peer rest next (sym (lookup-later id j p rest other) ∙ h) runs)
  ]

  -- Over the life of the receive loop each running pipeline hands on what waits for the node, 64 messages
  -- for each time that the timer fires, and is still marked as running. It is supposed that nothing is
  -- read meanwhile.
  receive_loop-drains :
      (calls : List Bool) (t : Transport C S D) (id : ℕ) (peer : Peer C S D)
      → peer_at id t ≡ some peer
      → peer.pipeline.is_running ≡ true
      → (q : Peer C S D) × (peer_at id (receive_loop calls t) ≡ some q)
        × (q.pipeline.is_running ≡ true)
        × (waiting deser q.pipeline.to_deser_queue
            ≡ drop (fires calls * 64) (waiting deser peer.pipeline.to_deser_queue))
  unfolding receive_loop peer_at
  receive_loop-drains [] t id peer e runs = (peer, e, runs, refl)
  receive_loop-drains (false ∷ calls) t id peer e runs =
      unfold handle_receive_timeout in receive_loop-drains calls t id peer e runs
  receive_loop-drains (true ∷ calls) t id peer e runs =
      let one = collect_all-Drained id peer t.peers t.to_raftnode_deser_queue e runs in
      let next = handle_receive_timeout conn codec ser deser dial true t in
      let found : peer_at id next ≡ some one.0 = unfold handle_receive_timeout in one.1 in
      let more = receive_loop-drains calls next id one.0 found one.2 in
      let k = fires calls * 64 in
      let all = waiting deser peer.pipeline.to_deser_queue in
      let count : fires (true ∷ calls) * 64 ≡ 64 + k = omega arith in
      (
        more.0,
        more.1,
        more.2,
        more.3 ∙ ap (drop k) one.3 ∙ sym (drop-add 64 k all) ∙ ap (λ j. drop j all) (sym count),
      )
