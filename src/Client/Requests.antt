-- ===== src/Client/Requests.antt =====
-- From a call of the client to the queue of the node.
use mathlib.Core.List.{append_assoc}
use embkv.Base.{ℕ, ◌≡◌, refl, sym, ap, ◌∙◌, true, Option, some, ◌++◌, arith, length, Returns}
use embkv.Proto.{Bytes, Message, Content, KvOperation}
use embkv.Head.{no_flags}
use embkv.Head.Framing.{frame, serialize-head, written-frame, append_cancel}
use embkv.Queue.{ConcurrentQueue}
use embkv.Stream.{Connection}
use embkv.Pipeline.{MessageCodec}
use embkv.Transport.{Transport, client_at, client_cb}
use embkv.Transport.Session.{readable}
use embkv.Transport.Clients.{Arrives, Delivers, client_cb-Delivers}
use embkv.Client.{Client, request}

-- A request on the wire: the client's id as the node's, the number of the request, and its operation.
abbrev pub request_as : ℕ → ℕ → Bytes → Message
request_as id number command = record {
  cluster_id = 0;
  node_id = id;
  content = Content.client_request (record { request_id = number; command = command });
}

module _ {C S D : Type 0} (conn : Connection C) (codec : MessageCodec)
    (ser : ConcurrentQueue Bytes S) (deser : ConcurrentQueue Message D)
    (serialize_operation : KvOperation → Bytes) (dial : Bytes → ℕ → Option C) where
  -- What a call writes: the request behind its header.
  pub request-frame :
      (op : KvOperation) (c : Client C) (s : C)
      → c.is_running ≡ true
      → c.stream ≡ some s
      → (s' : C) × ((request conn codec serialize_operation dial op c).stream ≡ some s')
        × (conn.written s'
            ≡ conn.written s
              ++ frame
                  (codec.serialize_message (request_as c.id c.request_id (serialize_operation op))))
  unfolding request
  request-frame op c s runs e =
      let bytes = codec.serialize_message (request_as c.id c.request_id (serialize_operation op)) in
      rw (runs, e, serialize-head no_flags (length bytes) (omega arith), request)
        (_, refl, written-frame conn bytes s)

  -- A call of a running client reaches the node: if what it writes comes in first at the
  -- session that the server has for the connection, the session's callback queues for the node
  -- a message with the client's id, its next request number and the encoded operation, and
  -- leaves what follows to be read; where that message fits the server's buffer and the
  -- decoder takes it back.
  pub request-Delivers :
      (op : KvOperation) (c : Client C) (s s' accepted : C) (k : ℕ) (rest : Bytes)
      (t : Transport C S D)
      → (c.is_running ≡ true) × (c.stream ≡ some s)
      → Arrives conn codec ser deser dial (request_as c.id c.request_id (serialize_operation op))
      → (request conn codec serialize_operation dial op c).stream ≡ some s'
      → client_at k t ≡ some accepted
      → conn.written s' ++ rest ≡ conn.written s ++ conn.incoming accepted
      → Returns
          (Delivers conn codec ser deser dial k
            (request_as c.id c.request_id (serialize_operation op))
            rest
            t)
          (client_cb conn codec ser deser dial k readable t)
  request-Delivers op c s s' accepted k rest t runs a e known wire =
      let m = request_as c.id c.request_id (serialize_operation op) in
      let (sent, is, bytes) = request-frame op c s runs.0 runs.1 in
      let same : sent ≡ s' = cc in
      let comes : conn.incoming accepted ≡ frame (codec.serialize_message m) ++ rest =
        append_cancel (conn.written s) _ _ (
          sym wire
          ∙ ap (λ x. x ++ rest) (ap conn.written (sym same) ∙ bytes)
          ∙ append_assoc (conn.written s) (frame (codec.serialize_message m)) rest) in
      client_cb-Delivers conn codec ser deser dial k m rest accepted t a known comes
