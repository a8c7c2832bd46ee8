-- ===== src/Transport/Clients.antt =====
-- The messages of a client, both ways.
use mathlib.Core.List.{append_assoc}
use embkv.Base.{
  ℕ, ◌≤◌, ◌<◌, ◌≡◌, refl, ◌∙◌, Bool, true, false, Option, none, some, ◌++◌, arith, length, drop,
  ltb, ◌==◌, Returns,
}
use embkv.Base.Map.{lookup-assign}
use embkv.Proto.{Bytes, Message, Priority}
use embkv.Head.{header, no_flags}
use embkv.Head.Framing.{
  header_size, head, frame, serialize-head, read-first, written-frame, read-Heads, take-first,
}
use embkv.Queue.{ConcurrentQueue, enqueue}
use embkv.Stream.{Connection, read_exact, write_exact}
use embkv.Pipeline.{MessageCodec}
use embkv.Transport.{
  Transport, client_at, client_buf_size, client_body, client_cb, send_to_client, with_client,
}
use embkv.Transport.Session.{readable}

module _ {C S D : Type 0} (conn : Connection C) (codec : MessageCodec)
    (ser : ConcurrentQueue Bytes S) (deser : ConcurrentQueue Message D)
    (dial : Bytes → ℕ → Option C) where
  -- A message that fits the buffer, is not empty on the wire, and is taken back by the decoder.
  abbrev pub Arrives : Message → Type 0
  Arrives m =
      (length (codec.serialize_message m) ≤ client_buf_size)
      × (0 < length (codec.serialize_message m))
      × (codec.parse_message (codec.serialize_message m) ≡ (true, m))

  -- The client is on record with a stream from which `rest` is still to come.
  pub record OnRecord (id : ℕ) (rest : Bytes) (t : Transport C S D) : Type 0 where
    pub stream : C
    pub found : client_at id t ≡ some stream
    pub left : conn.incoming stream ≡ rest

  -- The message waits for the node, in the medium queue.
  pub record Delivers (id : ℕ) (m : Message) (rest : Bytes) (t : Transport C S D)
      (r : Transport C S D × Bool) : Type 0 where
    pub queue :
        r.0.to_raftnode_deser_queue ≡ (enqueue deser m Priority.medium t.to_raftnode_deser_queue).1
    pub stays : r.1 ≡ true
    pub on_record : OnRecord id rest r.0

  OnRecord-with_client :
      (id : ℕ) (s : C) (t : Transport C S D) → OnRecord id (conn.incoming s) (with_client id s t)
  unfolding client_at
  OnRecord-with_client id s t = record {
    stream = s;
    found = ground (arith, lookup-assign id id s t.clients);
    left = refl;
  }

  client_body-Delivers :
      (id : ℕ) (m : Message) (rest : Bytes) (s : C) (t : Transport C S D)
      → Arrives m
      → conn.incoming s ≡ codec.serialize_message m ++ rest
      → Returns
          (Delivers id m rest t)
          (client_body conn codec ser deser dial id (length (codec.serialize_message m)) s t)
  unfolding client_body client_at
  client_body-Delivers id m rest s t a h =
      let bytes = codec.serialize_message m in
      let r = read-first conn bytes rest (length bytes) s refl h in
      let some_bytes : (length bytes == 0) ≡ false = ground (arith, a.1) in
      let fits : ltb client_buf_size (length bytes) ≡ false = ground (arith, a.0) in
      let again = take-first bytes (drop (length bytes) t.client_buf) in
      let k = OnRecord-with_client id (read_exact conn (length bytes) s).1 t in
      rw (r.0, some_bytes, fits, again, a.2)
        (record {
          queue = refl;
          stays = refl;
          on_record = record { stream = k.stream; found = k.found; left = k.left ∙ r.1 };
        })

  -- A message behind its header, from a client on record, is queued for the node once, at the medium
  -- priority, and what comes behind it stays to be read.
  pub client_cb-Delivers :
      (id : ℕ) (m : Message) (rest : Bytes) (s : C) (t : Transport C S D)
      → Arrives m
      → client_at id t ≡ some s
      → conn.incoming s ≡ frame (codec.serialize_message m) ++ rest
      → Returns (Delivers id m rest t) (client_cb conn codec ser deser dial id readable t)
  unfolding client_cb
  client_cb-Delivers id m rest s t a e h =
      let bytes = codec.serialize_message m in
      let r =
        read-Heads conn no_flags (length bytes) (bytes ++ rest) s (omega arith) (omega (arith, a.0))
          (h ∙ append_assoc (head no_flags (length bytes)) bytes rest) in
      let d = client_body-Delivers id m rest (read_exact conn header_size s).1 t a r.left in
      rw (e, client_cb) (rw (r.whole, r.known) (unfold header in d))

  -- What send_to_client writes to a client on record: the message behind its header.
  pub send_to_client-frame :
      (id : ℕ) (m : Message) (s : C) (t : Transport C S D)
      → client_at id t ≡ some s
      → (s' : C) × (client_at id (send_to_client conn codec ser deser dial id m t) ≡ some s')
        × (conn.written s' ≡ conn.written s ++ frame (codec.serialize_message m))
  unfolding send_to_client client_at
  send_to_client-frame id m s t e =
      let bytes = codec.serialize_message m in
      let sent = (write_exact conn bytes (write_exact conn (head no_flags (length bytes)) s).1).1 in
      rw (e, serialize-head no_flags (length bytes) (omega arith), send_to_client)
        (sent, ground (arith, lookup-assign id id sent t.clients), written-frame conn bytes s)

  -- Nothing is sent to an id without a session.
  pub send_to_client-unknown :
      (id : ℕ) (m : Message) (t : Transport C S D)
      → client_at id t ≡ none
      → send_to_client conn codec ser deser dial id m t ≡ t
  unfolding send_to_client
  send_to_client-unknown id m t e = rw (e, send_to_client) refl
