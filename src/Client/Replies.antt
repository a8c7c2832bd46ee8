-- ===== src/Client/Replies.antt =====
-- From the node's reply to what the client prints.
use mathlib.Core.List.{append_assoc, append-nil}
use embkv.Base.{
  ℕ, ◌≤◌, ◌<◌, ◌≡◌, refl, sym, ap, ◌∙◌, true, false, Option, some, ◌++◌, arith, length, drop, ltb,
  ◌==◌, Returns, Returns-map, [], ◌∷◌, List, subst,
}
use embkv.Proto.{Bytes, Message, Content, ClientResponse, KvOperation}
use embkv.Head.{header, no_flags}
use embkv.Head.Framing.{header_size, frame, head, read-first, read-Heads, take-first, append_cancel}
use embkv.Queue.{ConcurrentQueue}
use embkv.Stream.{Connection, read_exact}
use embkv.Stream.Exact.{drop-all}
use embkv.Pipeline.{MessageCodec}
use embkv.Transport.{Transport, client_at, send_to_client}
use embkv.Transport.Session.{readable}
use embkv.Transport.Clients.{send_to_client-frame}
use embkv.Client.{
  Client, Output, read_cb, read_from, read_reply, handle_response, client_response_of, outputs,
  read_buf_size,
}

-- What is printed after `old` of a successful reply: its value, where there is one, and that the request
-- of its number has succeeded.
abbrev pub Prints : List Output → ClientResponse → List Output → Type 0
Prints old r new =
    (r.value ≡ [] → new ≡ old ++ Output.print_success r.request_id ∷ [])
    × (0 < length r.value
        → new ≡ old ++ Output.print_value r.value ∷ Output.print_success r.request_id ∷ [])

outputs-Prints : (old : List Output) (r : ClientResponse) → Prints old r (old ++ outputs r)
outputs-Prints old r = (
  λ empty. rw empty refl,
  λ some_bytes. let e : (length r.value == 0) ≡ false = ground arith in rw e refl,
)

module _ {C : Type 0} (conn : Connection C) (codec : MessageCodec)
    (serialize_operation : KvOperation → Bytes) (dial : Bytes → ℕ → Option C) where
  abbrev pub Reaches : Message → Type 0
  Reaches m =
      (length (codec.serialize_message m) ≤ read_buf_size)
      × (0 < length (codec.serialize_message m))
      × (codec.parse_message (codec.serialize_message m) ≡ (true, m))

  -- The reply has been handled, from a client whose stream stood behind it.
  abbrev pub Handles : Message → Bytes → Client C → Client C → Type 0
  Handles m rest c d =
      (before : Client C) × (s : C) × (before.stream ≡ some s)
      × (conn.incoming s ≡ rest)
      × (before ≡ record c { stream = some s; head_buf = before.head_buf; buf = before.buf })
      × (d
          ≡ handle_response conn codec serialize_operation dial (client_response_of m.content)
              before)

  read_reply-Handles :
      (m : Message) (rest : Bytes) (s : C) (c : Client C)
      → Reaches m
      → conn.incoming s ≡ codec.serialize_message m ++ rest
      → Returns
          (Handles m rest c)
          (read_reply conn codec serialize_operation dial (length (codec.serialize_message m)) s c)
  unfolding read_reply
  read_reply-Handles m rest s c a h =
      let bytes = codec.serialize_message m in
      let r = read-first conn bytes rest (length bytes) s refl h in
      let some_bytes : (length bytes == 0) ≡ false = ground (arith, a.1) in
      let fits : ltb read_buf_size (length bytes) ≡ false = ground (arith, a.0) in
      let again = take-first bytes (drop (length bytes) c.buf) in
      rw (r.0, some_bytes, fits, again, a.2) (_, _, refl, r.1, refl, refl)

  -- read_cb takes one reply off the stream and handles it.
  pub read_cb-Handles :
      (m : Message) (rest : Bytes) (s : C) (c : Client C)
      → Reaches m
      → c.stream ≡ some s
      → length c.head_buf ≡ header_size
      → conn.incoming s ≡ frame (codec.serialize_message m) ++ rest
      → Returns (Handles m rest c) (read_cb conn codec serialize_operation dial readable c)
  unfolding read_cb
  read_cb-Handles m rest s c a e size h =
      let bytes = codec.serialize_message m in
      let r =
        read-Heads conn no_flags (length bytes) (bytes ++ rest) s (omega arith) (omega (arith, a.0))
          (h ∙ append_assoc (head no_flags (length bytes)) bytes rest) in
      let got = (read_exact conn header_size s).0 in
      let nonempty : (length got == 0) ≡ false = ground (arith, r.whole) in
      let over : drop (length got) c.head_buf ≡ [] =
        drop-all (length got) c.head_buf (ground (arith, r.whole, size)) in
      let buffer : got ++ drop (length got) c.head_buf ≡ got =
        ap (λ l. got ++ l) over ∙ append-nil got in
      rw (e, nonempty, buffer, r.known, read_from)
        (unfold header in
          read_reply-Handles m rest (read_exact conn header_size s).1 (record c { head_buf = got })
            a r.left)

  -- A successful reply behind its header is printed, its value first where there is one, and what comes
  -- behind it stays to be read.
  pub read_cb-Prints :
      (m : Message) (reply : ClientResponse) (rest : Bytes) (s : C) (c : Client C)
      → Reaches m
      → m.content ≡ Content.client_response reply
      → reply.success ≡ true
      → c.stream ≡ some s
      → length c.head_buf ≡ header_size
      → conn.incoming s ≡ frame (codec.serialize_message m) ++ rest
      → Returns
          (λ d.
            Prints c.printed reply d.printed
            × (d.ended ≡ c.ended)
            × ((s' : C) × (d.stream ≡ some s') × (conn.incoming s' ≡ rest)))
          (read_cb conn codec serialize_operation dial readable c)
  unfolding handle_response
  read_cb-Prints m reply rest s c a is done e size h =
      Returns-map (Handles m rest c) _ (read_cb conn codec serialize_operation dial readable c)
        (λ d q.
          let (before, s', has, left, kept, eq) = q in
          let handled : d ≡ record before { printed = before.printed ++ outputs reply } =
            eq ∙ rw (is, done) refl in
          (
            subst (Prints c.printed reply)
                (sym (ap (λ x. x.printed) handled ∙ ap (λ x. x.printed ++ outputs reply) kept))
                (outputs-Prints c.printed reply),
            ap (λ x. x.ended) handled ∙ ap (λ x. x.ended) kept,
            (s', ap (λ x. x.stream) handled ∙ has, left),
          ))
        (read_cb-Handles m rest s c a e size h)

  module _ {S D : Type 0} (ser : ConcurrentQueue Bytes S) (deser : ConcurrentQueue Message D) where
    -- Of a successful reply that the node sends to a client on record, that client prints
    -- the value, where it is not empty, and then that the request of its number has
    -- succeeded; if what send_to_client writes to the session is what comes in first at the
    -- client's stream, the reply fits the client's buffer and is not empty, its header
    -- buffer has the size of a header, and the decoder takes the reply back.
    pub send_to_client-Prints :
        (id : ℕ) (m : Message) (reply : ClientResponse) (rest : Bytes) (s accepted sent : C)
        → (t : Transport C S D) (c : Client C) → Reaches m
        → (m.content ≡ Content.client_response reply) × (reply.success ≡ true)
        → (c.stream ≡ some s) × (length c.head_buf ≡ header_size)
        → client_at id t ≡ some accepted
        → client_at id (send_to_client conn codec ser deser dial id m t) ≡ some sent
        → conn.written sent ++ rest ≡ conn.written accepted ++ conn.incoming s
        → Returns
            (λ d. Prints c.printed reply d.printed)
            (read_cb conn codec serialize_operation dial readable c)
    send_to_client-Prints id m reply rest s accepted sent t c a is at known after wire =
        let (s', found, bytes) =
          send_to_client-frame conn codec ser deser dial id m accepted t known in
        let same : s' ≡ sent = cc in
        let comes : conn.incoming s ≡ frame (codec.serialize_message m) ++ rest =
          append_cancel (conn.written accepted) _ _ (
            sym wire
            ∙ ap (λ x. x ++ rest) (ap conn.written (sym same) ∙ bytes)
            ∙ append_assoc (conn.written accepted) (frame (codec.serialize_message m)) rest) in
        Returns-map _ _ (read_cb conn codec serialize_operation dial readable c) (λ d q. q.0)
          (read_cb-Prints m reply rest s c a is.0 is.1 at.0 at.1 comes)
