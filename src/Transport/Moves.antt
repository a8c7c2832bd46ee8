-- ===== src/Transport/Moves.antt =====
-- What the two timers of the transport move between the queues.
use mathlib.Core.List.{append_assoc, append-nil}
use embkv.Base.{
  ℕ, ◌≡◌, refl, sym, ap, ◌∙◌, true, false, Option, some, List, [], ◌∷◌, ◌++◌, arith, length, take,
  drop, map, ltb, if◌then◌else◌, inl, inr, Bool-cases,
}
use embkv.Base.Map.{Map, lookup}
use embkv.Proto.{Bytes, Message, Priority}
use embkv.Queue.{ConcurrentQueue, PriorityQueue, at, put, enqueue_bulk, try_dequeue_bulk}
use embkv.Queue.Order.{waiting, try_dequeue_bulk-waiting}
use embkv.Stream.{Connection}
use embkv.Pipeline.{MessageCodec}
use embkv.Transport.{
  Transport, Peer, peer_at, serve, serve_all, collect_all, handle_serialize_timeout,
  handle_receive_timeout,
}

no_items : (ms : List Message) → ltb 0 (length ms) ≡ false → ms ≡ []
no_items [] h = refl
no_items (m ∷ ms) h = absurd (ground arith)

module _ {C S D : Type 0} (conn : Connection C) (codec : MessageCodec)
    (ser : ConcurrentQueue Bytes S) (deser : ConcurrentQueue Message D)
    (dial : Bytes → ℕ → Option C) where
  -- What the receive timer takes from the running pipelines: up to 64 messages of each, the more
  -- urgent first.
  abbrev pub received : Map (Peer C S D) → List Message
  received [] = []
  received ((id, peer) ∷ rest) =
      (if peer.pipeline.is_running
        then take 64 (waiting deser peer.pipeline.to_deser_queue)
        else [])
      ++ received rest

  collect_all-received :
      (peers : Map (Peer C S D)) (queue : PriorityQueue D)
      → ((ms : List Message) (q : D) → (deser.enqueue_bulk ms q).0 ≡ true)
      → let last = (collect_all conn codec ser deser dial peers queue).1 in
        (deser.contents last.medium ≡ deser.contents queue.medium ++ received peers)
        × (last.critical ≡ queue.critical)
        × (last.high ≡ queue.high)
        × (last.low ≡ queue.low)
  unfolding collect_all enqueue_bulk at put
  collect_all-received [] queue room =
      (sym (append-nil (deser.contents queue.medium)), refl, refl, refl)
  collect_all-received ((id, peer) ∷ rest) queue room = elim (Bool-cases peer.pipeline.is_running) [
    | inr idle ↦ rw (idle, collect_all) (collect_all-received rest queue room)
    | inl runs ↦
        let items = (try_dequeue_bulk deser 64 peer.pipeline.to_deser_queue).0 in
        let next = (enqueue_bulk deser items Priority.medium queue).1 in
        let ih = collect_all-received rest next room in
        let taken = (try_dequeue_bulk-waiting deser 64 peer.pipeline.to_deser_queue).0 in
        let grown = deser.contents-enqueue_bulk items queue.medium (room items queue.medium) in
        rw (runs, collect_all)
          (
            ih.0
                ∙ ap (λ l. l ++ received rest)
                    (grown ∙ ap (λ l. deser.contents queue.medium ++ l) taken)
                ∙ append_assoc (deser.contents queue.medium)
                    (take 64 (waiting deser peer.pipeline.to_deser_queue)) (received rest),
            ih.1,
            ih.2,
            ih.3,
          )
  ]

  -- When the receive timer fires, up to 64 messages of each running pipeline go to the node's queue, in
  -- order: all of them to the medium queue, whatever the priority at which they waited, while the
  -- other three stay as they are.
  pub receive_timeout-received :
      (t : Transport C S D)
      → ((ms : List Message) (q : D) → (deser.enqueue_bulk ms q).0 ≡ true)
      → let queue = t.to_raftnode_deser_queue in
        let last =
          (handle_receive_timeout conn codec ser deser dial true t).to_raftnode_deser_queue in
        (deser.contents last.medium ≡ deser.contents queue.medium ++ received t.peers)
        × (last.critical ≡ queue.critical)
        × (last.high ≡ queue.high)
        × (last.low ≡ queue.low)
  unfolding handle_receive_timeout
  receive_timeout-received t room = collect_all-received t.peers t.to_raftnode_deser_queue room

  lookup-serve_all :
      (node_id : ℕ) (items : List Bytes) (id : ℕ) (peer : Peer C S D) (peers : Map (Peer C S D))
      → lookup id peers ≡ some peer
      → lookup id (serve_all conn codec ser deser dial node_id items peers)
        ≡ some (serve conn codec ser deser dial node_id items id peer)
  unfolding lookup serve_all
  lookup-serve_all node_id items id peer [] h = cc
  lookup-serve_all node_id items id peer ((j, p) ∷ rest) h =
      ground (arith, lookup-serve_all node_id items id peer rest)

  serve-enqueue_bulk :
      (node_id : ℕ) (items : List Bytes) (id : ℕ) (peer : Peer C S D)
      → ((bs : List Bytes) (q : S) → (ser.enqueue_bulk bs q).0 ≡ true)
      → peer.pipeline.is_running ≡ true
      → ser.contents (serve conn codec ser deser dial node_id items id peer).pipeline.from_ser_queue
        ≡ ser.contents peer.pipeline.from_ser_queue ++ items
  unfolding serve
  serve-enqueue_bulk node_id items id peer room runs =
      rw (runs, serve)
        (ser.contents-enqueue_bulk items peer.pipeline.from_ser_queue
          (room items peer.pipeline.from_ser_queue))

  serve-running :
      (node_id : ℕ) (items : List Bytes) (id : ℕ) (peer : Peer C S D)
      → peer.pipeline.is_running ≡ true
      → (serve conn codec ser deser dial node_id items id peer).pipeline.is_running ≡ true
  unfolding serve
  serve-running node_id items id peer runs = rw (runs, serve) refl

  -- When the serialize timer fires, the queue of every running pipeline gets the same messages, up to
  -- 64 of those that wait for all peers, in order and encoded; they leave the waiting queue.
  pub serialize_timeout-broadcasts :
      (t : Transport C S D) (id : ℕ) (peer : Peer C S D)
      → ((bs : List Bytes) (q : S) → (ser.enqueue_bulk bs q).0 ≡ true)
      → peer_at id t ≡ some peer
      → peer.pipeline.is_running ≡ true
      → let sent = take 64 (waiting deser t.to_pipeline_deser_queue) in
        let t' = handle_serialize_timeout conn codec ser deser dial true t in
        ((q : Peer C S D) × (peer_at id t' ≡ some q)
          × (q.pipeline.is_running ≡ true)
          × (ser.contents q.pipeline.from_ser_queue
              ≡ ser.contents peer.pipeline.from_ser_queue ++ map codec.serialize_message sent))
        × (waiting deser t'.to_pipeline_deser_queue
            ≡ drop 64 (waiting deser t.to_pipeline_deser_queue))
  unfolding handle_serialize_timeout peer_at
  serialize_timeout-broadcasts t id peer room e runs =
      let items = (try_dequeue_bulk deser 64 t.to_pipeline_deser_queue).0 in
      let taken = try_dequeue_bulk-waiting deser 64 t.to_pipeline_deser_queue in
      let bytes = map codec.serialize_message items in
      let whole : bytes
          ≡ map codec.serialize_message (take 64 (waiting deser t.to_pipeline_deser_queue)) =
        ap (map codec.serialize_message) taken.0 in
      elim (Bool-cases (ltb 0 (length items))) [
        | inl more ↦
            rw (more, handle_serialize_timeout)
              (
                (
                  serve conn codec ser deser dial t.node_id bytes id peer,
                  lookup-serve_all t.node_id bytes id peer t.peers e,
                  serve-running t.node_id bytes id peer runs,
                  serve-enqueue_bulk t.node_id bytes id peer room runs
                      ∙ ap (λ l. ser.contents peer.pipeline.from_ser_queue ++ l) whole,
                ),
                taken.1,
              )
        | inr nothing ↦
            let empty = no_items items nothing in
            rw (nothing, handle_serialize_timeout)
              (
                (
                  peer,
                  e,
                  runs,
                  sym (append-nil (ser.contents peer.pipeline.from_ser_queue))
                      ∙ ap
                          (λ l.
                            ser.contents peer.pipeline.from_ser_queue
                            ++ map codec.serialize_message l)
                          (sym empty)
                      ∙ ap (λ l. ser.contents peer.pipeline.from_ser_queue ++ l) whole,
                ),
                taken.1,
              )
      ]
