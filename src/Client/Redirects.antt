-- ===== src/Client/Redirects.antt =====
-- A client that is not connected to the server with its own id, and what is done with a client that runs.
use mathlib.Core.List.{append_assoc}
use embkv.Base.{
  ℕ, Bool, ◌==◌, ◌<◌, ◌≡◌, ◌≢◌, refl, sym, ap, ◌∙◌, false, Option, none, some, ◌++◌, arith, u64_mod,
  Result, ok, if◌then◌else◌,
}
use embkv.Base.Map.{lookup, lookup-emplace}
use embkv.Proto.{Bytes, Message, KvOperation}
use embkv.Head.{client_node, header}
use embkv.Head.Framing.{header_size, head, serialize-head, append_cancel, read-Heads}
use embkv.Queue.{ConcurrentQueue}
use embkv.Stream.{Connection, read_exact}
use embkv.Stream.Exact.{write_exact-all}
use embkv.Pipeline.{MessageCodec, IoEvents}
use embkv.Transport.{Transport, client_at, handshake_cb, greet, add_client, send_to_client}
use embkv.Transport.Session.{readable}
use embkv.Transport.Clients.{send_to_client-unknown}
use embkv.Client.{Client, NodeInfo, connect_to_server, request, read_cb}

-- What the program does with a client after it has been started: calls, and readable watchers.
pub data Call : Type 0 where
  send : KvOperation → Call
  readable_event : IoEvents → Call

module _ {C : Type 0} (conn : Connection C) (codec : MessageCodec)
    (serialize_operation : KvOperation → Bytes) (dial : Bytes → ℕ → Option C) where
  -- A stream to a server, to which the greeting with the server's id was written.
  pub connect_to_server-greets :
      (k : ℕ) (c : Client C) (a : NodeInfo) (s : C)
      → lookup k c.endpoints ≡ some a
      → dial a.ip a.port ≡ some s
      → (s' : C) × (connect_to_server conn codec serialize_operation dial k c ≡ some s')
        × (conn.written s' ≡ conn.written s ++ head client_node k)
  unfolding connect_to_server
  connect_to_server-greets k c a s e d =
      rw (e, d, serialize-head client_node k (omega arith), connect_to_server)
        (_, refl, (write_exact-all conn (head client_node k) s).1)

  -- The read watcher is on the descriptor of the stream.
  abbrev pub is_watched : Client C → Bool
  is_watched c = elim c.watched [ none ↦ false | some k ↦ k == c.stream_no ]

  -- The watcher calls read_cb only while it is on the descriptor of the stream; an earlier one is closed.
  unfoldable pub act : Client C → Call → Result (Client C)
  act c (Call.send op) = ok (request conn codec serialize_operation dial op c)
  act c (Call.readable_event revents) =
      if is_watched c then read_cb conn codec serialize_operation dial revents c else ok c

  module _ {S D : Type 0} (ser : ConcurrentQueue Bytes S) (deser : ConcurrentQueue Message D) where
    -- A client connects to the server with another id than its own, and neither id is on
    -- record there: if its greeting is what comes in first at the accepted stream, the
    -- server has after the handshake a session under its own id, and no reply to the
    -- client's requests, which carry the client's id, is sent to anyone.
    pub reply_lost :
        (k : ℕ) (c : Client C) (a : NodeInfo) (s s' accepted : C) (rest : Bytes)
        (t : Transport C S D) (m : Message)
        → k < u64_mod
        → c.id ≢ k
        → (lookup k c.endpoints ≡ some a) × (dial a.ip a.port ≡ some s)
        → connect_to_server conn codec serialize_operation dial k c ≡ some s'
        → (client_at c.id t ≡ none) × (client_at k t ≡ none)
        → conn.written s' ++ rest ≡ conn.written s ++ conn.incoming accepted
        → let t' = handshake_cb conn codec ser deser dial readable accepted t in
          ((x : C) × (client_at k t' ≡ some x))
          × (send_to_client conn codec ser deser dial c.id m t' ≡ t')
    unfolding client_at greet header handshake_cb add_client
    reply_lost k c a s s' accepted rest t m small ne at to free wire =
        let (x, is, bytes) = connect_to_server-greets k c a s at.0 at.1 in
        let same : x ≡ s' = cc in
        let comes : conn.incoming accepted ≡ head client_node k ++ rest =
          append_cancel (conn.written s) _ _ (
            sym wire
            ∙ ap (λ l. l ++ rest) (ap conn.written (sym same) ∙ bytes)
            ∙ append_assoc (conn.written s) (head client_node k) rest) in
        let r = read-Heads conn client_node k rest accepted (omega arith) small comes in
        let stream = (read_exact conn header_size accepted).1 in
        rw (r.whole, r.known, handshake_cb)
          (
            (stream, ground (arith, lookup-emplace k k stream t.clients)),
            send_to_client-unknown conn codec ser deser dial c.id m (add_client k stream t)
                (ground (arith, lookup-emplace k c.id stream t.clients)),
          )
