-- ===== src/Pipeline/Frame.antt =====
-- Frames: what one end of a connection writes is what the other end reads.
use mathlib.Core.List.{append_assoc, append-nil}
use embkv.Base.{
  ℕ, zero, suc, ◌≤◌, ◌≡◌, refl, sym, ap, ◌∙◌, true, false, List, [], ◌∷◌, ◌++◌, arith, length, take,
  drop, ltb,
}
use embkv.Proto.{Bytes, Message, Content}
use embkv.Head.{header, no_flags}
use embkv.Head.Framing.{
  header_size, head, frame, frames, serialize-head, read-first, written-frame, read-Heads,
}
use embkv.Queue.{ConcurrentQueue, PriorityQueue, enqueue, at, put}
use embkv.Stream.{Connection, read_exact}
use embkv.Stream.Exact.{read_exact-take, write_exact-all}
use embkv.Pipeline.{
  MessageCodec, Pipeline, IoEvents, read_buf_size, priority_of, queue_message, read_body, read_cb,
  write_message, write_all, handle_write_timeout,
}

abbrev pub readable : IoEvents
readable = record { read = true; error = false }

module _ {C S D : Type 0} (conn : Connection C) (codec : MessageCodec)
    (ser : ConcurrentQueue Bytes S) (deser : ConcurrentQueue Message D) where
  write_message-frame :
      (bytes : Bytes) (c : C)
      → conn.written (write_message conn codec ser deser bytes c) ≡ conn.written c ++ frame bytes
  unfolding write_message
  write_message-frame bytes c =
      rw (serialize-head no_flags (length bytes) (omega arith)) (written-frame conn bytes c)

  pub write_message-incoming :
      (bytes : Bytes) (c : C)
      → conn.incoming (write_message conn codec ser deser bytes c) ≡ conn.incoming c
  unfolding write_message
  write_message-incoming bytes c =
      rw (serialize-head no_flags (length bytes) (omega arith)) (
        (write_exact-all conn bytes _).2
        ∙ (write_exact-all conn (head no_flags (length bytes)) c).2)

  write_all-frames :
      (items : List Bytes) (c : C)
      → conn.written (write_all conn codec ser deser items c) ≡ conn.written c ++ frames items
  unfolding write_all
  write_all-frames [] c = sym (append-nil (conn.written c))
  write_all-frames (bytes ∷ rest) c =
      write_all-frames rest (write_message conn codec ser deser bytes c)
      ∙ ap (λ l. l ++ frames rest) (write_message-frame bytes c)
      ∙ append_assoc (conn.written c) (frame bytes) (frames rest)

  -- When the write timer fires, the first 64 messages that wait are taken off the queue and written to
  -- the connection in order, each behind its header.
  pub write_timeout-frames :
      (p : Pipeline C S D)
      → let q = handle_write_timeout conn codec ser deser true p in
        (conn.written q.stream
          ≡ conn.written p.stream ++ frames (take 64 (ser.contents p.from_ser_queue)))
        × (ser.contents q.from_ser_queue ≡ drop 64 (ser.contents p.from_ser_queue))
  unfolding handle_write_timeout
  write_timeout-frames p = (
    write_all-frames (ser.try_dequeue_bulk 64 p.from_ser_queue).0 p.stream
        ∙ ap (λ l. conn.written p.stream ++ frames l) (ser.dequeued 64 p.from_ser_queue),
    ser.left 64 p.from_ser_queue,
  )

  -- A message that the reader can take: short enough for its buffer, and one that the decoder takes
  -- back from what the encoder wrote.
  abbrev pub Travels : Message → Type 0
  Travels m =
      (length (codec.serialize_message m) ≤ read_buf_size)
      × (codec.parse_message (codec.serialize_message m) ≡ (true, m))

  -- A message joins the queue of its kind: votes the critical one, entries and snapshots the high one,
  -- requests and replies of clients the medium one, and an empty message none.
  abbrev pub deliver_as : Message → Content → PriorityQueue D → PriorityQueue D
  deliver_as m (Content.request_vote_request r) q = record q {
    critical = (deser.enqueue m q.critical).1;
  }
  deliver_as m (Content.request_vote_response r) q = record q {
    critical = (deser.enqueue m q.critical).1;
  }
  deliver_as m (Content.append_entries_request r) q = record q { high = (deser.enqueue m q.high).1 }
  deliver_as m (Content.append_entries_response r) q = record q {
    high = (deser.enqueue m q.high).1;
  }
  deliver_as m (Content.snapshot_request r) q = record q { high = (deser.enqueue m q.high).1 }
  deliver_as m (Content.snapshot_response r) q = record q { high = (deser.enqueue m q.high).1 }
  deliver_as m (Content.client_request r) q = record q { medium = (deser.enqueue m q.medium).1 }
  deliver_as m (Content.client_response r) q = record q { medium = (deser.enqueue m q.medium).1 }
  deliver_as m Content.content_not_set q = q

  -- A message is queued by its kind.
  abbrev pub deliver : Message → PriorityQueue D → PriorityQueue D
  deliver m q = deliver_as m m.content q

  queue_message-deliver :
      (m : Message) (content : Content) (q : PriorityQueue D)
      → queue_message conn codec ser deser m (priority_of content) q ≡ deliver_as m content q
  unfolding enqueue at put
  queue_message-deliver m (Content.request_vote_request r) q = refl
  queue_message-deliver m (Content.request_vote_response r) q = refl
  queue_message-deliver m (Content.append_entries_request r) q = refl
  queue_message-deliver m (Content.append_entries_response r) q = refl
  queue_message-deliver m (Content.snapshot_request r) q = refl
  queue_message-deliver m (Content.snapshot_response r) q = refl
  queue_message-deliver m (Content.client_request r) q = refl
  queue_message-deliver m (Content.client_response r) q = refl
  queue_message-deliver m Content.content_not_set q = refl

  abbrev pub deliver_all : List Message → PriorityQueue D → PriorityQueue D
  deliver_all [] q = q
  deliver_all (m ∷ ms) q = deliver_all ms (deliver m q)

  -- The read callback, as often as the connection becomes readable.
  unfoldable pub read_times : ℕ → Pipeline C S D → Pipeline C S D
  read_times zero p = p
  read_times (suc k) p = read_times k (read_cb conn codec ser deser readable p)

  -- What a reader is after some messages: they are delivered, and the rest is still to be read.
  pub record Delivered (p : Pipeline C S D) (ms : List Message) (rest : Bytes) (q : Pipeline C S D)
      : Type 0 where
    pub queue : q.to_deser_queue ≡ deliver_all ms p.to_deser_queue
    pub left : conn.incoming q.stream ≡ rest
    pub ended : q.ended ≡ p.ended
    pub wrote : conn.written q.stream ≡ conn.written p.stream
    pub same_out : q.from_ser_queue ≡ p.from_ser_queue

  read_body-Delivered :
      (m : Message) (rest : Bytes) (p : Pipeline C S D)
      → Travels m
      → conn.incoming p.stream ≡ codec.serialize_message m ++ rest
      → Delivered p
          (m ∷ [])
          rest
          (read_body conn codec ser deser (length (codec.serialize_message m)) p)
  unfolding read_body
  read_body-Delivered m rest p f h =
      let bytes = codec.serialize_message m in
      let small : ltb read_buf_size (length bytes) ≡ false = ground (arith, f.0) in
      let r = read-first conn bytes rest (length bytes) p.stream refl h in
      let parsed_message = (codec.parse_message (read_exact conn (length bytes) p.stream).0).1 in
      let parsed : parsed_message ≡ m =
        ap (λ b. (codec.parse_message b).1) r.0 ∙ ap (λ x. x.1) f.1 in
      rw (small, read_body)
        (record {
          queue =
              queue_message-deliver parsed_message parsed_message.content p.to_deser_queue
              ∙ ap (λ x. deliver x p.to_deser_queue) parsed;
          left = r.1;
          ended = refl;
          wrote = (read_exact-take conn (length bytes) p.stream).2;
          same_out = refl;
        })

  pub read_cb-Delivered :
      (m : Message) (rest : Bytes) (p : Pipeline C S D)
      → Travels m
      → conn.incoming p.stream ≡ frame (codec.serialize_message m) ++ rest
      → Delivered p (m ∷ []) rest (read_cb conn codec ser deser readable p)
  unfolding read_cb
  read_cb-Delivered m rest p f h =
      let bytes = codec.serialize_message m in
      let r =
        read-Heads conn no_flags (length bytes) (bytes ++ rest) p.stream (omega arith)
          (omega (arith, f.0)) (h ∙ append_assoc (head no_flags (length bytes)) bytes rest) in
      let d =
        read_body-Delivered m rest (record p { stream = (read_exact conn header_size p.stream).1 })
          f r.left in
      rw (r.whole, r.known, read_cb)
        (unfold header in
          record {
            queue = d.queue;
            left = d.left;
            ended = d.ended;
            wrote = d.wrote ∙ (read_exact-take conn header_size p.stream).2;
            same_out = d.same_out;
          })
