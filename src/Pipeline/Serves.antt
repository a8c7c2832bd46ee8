-- ===== src/Pipeline/Serves.antt =====
-- What the callbacks of a pipeline queue and write.
use mathlib.Core.List.{append_assoc, append-nil}
use embkv.Base.{
  ℕ, ◌+◌, ◌<◌, ◌≡◌, refl, sym, ap, ◌∙◌, Bool, true, false, List, [], ◌∷◌, ◌++◌, arith, length, take,
  ltb, take-append-drop,
}
use embkv.Proto.{Bytes, Message}
use embkv.Head.Framing.{header_size, frame, frames}
use embkv.Queue.{ConcurrentQueue, PriorityQueue}
use embkv.Stream.{Connection, read_exact}
use embkv.Stream.Exact.{take-all, read_exact-take}
use embkv.Pipeline.{
  MessageCodec, Pipeline, IoEvents, Callback, read_cb, write_message, write_all,
  handle_write_timeout, call,
}
use embkv.Pipeline.Frame.{
  deliver, deliver_all, readable, write_timeout-frames, write_message-incoming,
}

frames-append : (xs ys : List Bytes) → frames (xs ++ ys) ≡ frames xs ++ frames ys
frames-append [] ys = refl
frames-append (x ∷ xs) ys =
    ap (λ l. frame x ++ l) (frames-append xs ys)
    ∙ sym (append_assoc (frame x) (frames xs) (frames ys))

abbrev pub one_if : Bool → ℕ
one_if true = 1
one_if false = 0

-- How often the connection becomes readable.
abbrev pub reads : List Callback → ℕ
reads [] = 0
reads (Callback.ready revents ∷ cs) = one_if revents.read + reads cs
reads (Callback.tick timeout ∷ cs) = reads cs

module _ {C S D : Type 0} (conn : Connection C) (codec : MessageCodec)
    (ser : ConcurrentQueue Bytes S) (deser : ConcurrentQueue Message D) where
  -- From `p` on, these messages have been queued, and what has left the other queue was written to the
  -- stream.
  pub record Serves (p : Pipeline C S D) (ms : List Message) (stream : C) (q : Pipeline C S D)
      : Type 0 where
    pub queue : q.to_deser_queue ≡ deliver_all conn codec ser deser ms p.to_deser_queue
    pub sent : List Bytes
    pub wrote : conn.written stream ≡ conn.written p.stream ++ frames sent
    pub kept : ser.contents p.from_ser_queue ≡ sent ++ ser.contents q.from_ser_queue

  abbrev pub Went : Pipeline C S D → List Message → Pipeline C S D → Type 0
  Went p ms q = Serves p ms q.stream q

  deliver_all-append :
      (ms ns : List Message) (q : PriorityQueue D)
      → deliver_all conn codec ser deser (ms ++ ns) q
        ≡ deliver_all conn codec ser deser ns (deliver_all conn codec ser deser ms q)
  deliver_all-append [] ns q = refl
  deliver_all-append (m ∷ ms) ns q = deliver_all-append ms ns (deliver conn codec ser deser m q)

  pub Went-trans :
      (ms ns : List Message) (p q r : Pipeline C S D)
      → Went p ms q
      → Went q ns r
      → Went p (ms ++ ns) r
  Went-trans ms ns p q r a b = record {
    queue =
        b.queue
        ∙ ap (deliver_all conn codec ser deser ns) a.queue
        ∙ sym (deliver_all-append ms ns p.to_deser_queue);
    sent = a.sent ++ b.sent;
    wrote =
        b.wrote
        ∙ ap (λ l. l ++ frames b.sent) a.wrote
        ∙ append_assoc (conn.written p.stream) (frames a.sent) (frames b.sent)
        ∙ ap (λ l. conn.written p.stream ++ l) (sym (frames-append a.sent b.sent));
    kept =
        a.kept
        ∙ ap (λ l. a.sent ++ l) b.kept
        ∙ sym (append_assoc a.sent b.sent (ser.contents r.from_ser_queue));
  }

  -- The write timer leaves what comes in, and the loop, as they are.
  pub record Ticks (p q : Pipeline C S D) : Type 0 where
    pub went : Went p [] q
    pub incoming : conn.incoming q.stream ≡ conn.incoming p.stream
    pub ended : q.ended ≡ p.ended

  write_all-incoming :
      (items : List Bytes) (c : C)
      → conn.incoming (write_all conn codec ser deser items c) ≡ conn.incoming c
  unfolding write_all
  write_all-incoming [] c = refl
  write_all-incoming (bytes ∷ rest) c =
      write_all-incoming rest (write_message conn codec ser deser bytes c)
      ∙ write_message-incoming conn codec ser deser bytes c

  pub tick-Ticks :
      (timeout : Bool) (p : Pipeline C S D)
      → Ticks p (call conn codec ser deser (Callback.tick timeout) p)
  unfolding call handle_write_timeout
  tick-Ticks false p = record {
    went = record {
      queue = refl;
      sent = [];
      wrote = sym (append-nil (conn.written p.stream));
      kept = refl;
    };
    incoming = refl;
    ended = refl;
  }
  tick-Ticks true p =
      let f = write_timeout-frames conn codec ser deser p in
      record {
        went = record {
          queue = refl;
          sent = take 64 (ser.contents p.from_ser_queue);
          wrote = unfold handle_write_timeout in f.0;
          kept =
              sym (take-append-drop 64 (ser.contents p.from_ser_queue))
              ∙ ap (λ l. take 64 (ser.contents p.from_ser_queue) ++ l)
                  (sym (unfold handle_write_timeout in f.1));
        };
        incoming = write_all-incoming (ser.try_dequeue_bulk 64 p.from_ser_queue).0 p.stream;
        ended = refl;
      }

  -- A stream that ends within a header, or behind a message, ends the loop.
  pub read_cb-ends :
      (cut : Bytes) (p : Pipeline C S D)
      → conn.incoming p.stream ≡ cut
      → length cut < header_size
      → let q = read_cb conn codec ser deser readable p in Went p [] q × (q.ended ≡ true)
  unfolding read_cb
  read_cb-ends cut p e short =
      let r = read_exact-take conn header_size p.stream in
      let part : (read_exact conn header_size p.stream).0 ≡ cut =
        r.0 ∙ ap (take header_size) e ∙ take-all header_size cut (omega arith) in
      let ends : ltb (length (read_exact conn header_size p.stream).0) header_size ≡ true =
        ground (arith, ap (λ (l : Bytes). length l) part) in
      rw (ends, read_cb)
        (
          record {
            queue = refl;
            sent = [];
            wrote = r.2 ∙ sym (append-nil (conn.written p.stream));
            kept = refl;
          },
          refl,
        )

  pub ready-read :
      (revents : IoEvents) (p : Pipeline C S D)
      → revents.read ≡ true
      → call conn codec ser deser (Callback.ready revents) p
        ≡ read_cb conn codec ser deser readable p
  unfolding call read_cb
  ready-read revents p h = rw h refl

  pub ready-idle :
      (revents : IoEvents) (p : Pipeline C S D)
      → revents.read ≡ false
      → call conn codec ser deser (Callback.ready revents) p ≡ p
  unfolding call read_cb
  ready-idle revents p h = rw h refl
