-- ===== src/Transport/Session.antt =====
-- How connections begin: the handshake of a peer and of a client, and the messages of a client.
use mathlib.Core.List.{append_assoc}
use embkv.Base.{
  ℕ, ◌<◌, ◌≡◌, refl, sym, ap, ◌∙◌, true, false, Option, none, some, ◌++◌, arith, length, u64_mod,
  ltb, fault, bad_deref,
}
use embkv.Base.Map.{lookup-assign, lookup-emplace}
use embkv.Proto.{Bytes, Message}
use embkv.Head.{header, deserialize, raft_node, client_node}
use embkv.Queue.{ConcurrentQueue}
use embkv.Stream.{Connection, read_exact}
use embkv.Stream.Exact.{write_exact-all}
use embkv.Pipeline.{MessageCodec, IoEvents, run}
use embkv.Head.Framing.{header_size, head, serialize-head, read-first, append_cancel, read-Heads}
use embkv.Transport.{
  Transport, Peer, peer_at, client_at, add_client, greet, handshake_cb, client_cb,
  try_connect_to_peer,
}

abbrev pub readable : IoEvents
readable = record { read = true; error = false }

module _ {C S D : Type 0} (conn : Connection C) (codec : MessageCodec)
    (ser : ConcurrentQueue Bytes S) (deser : ConcurrentQueue Message D)
    (dial : Bytes → ℕ → Option C) where
  -- The peer with the id runs, on a stream from which `rest` is still to come.
  pub record Runs (id : ℕ) (rest : Bytes) (t : Transport C S D) : Type 0 where
    pub peer : Peer C S D
    pub found : peer_at id t ≡ some peer
    pub running : peer.pipeline.is_running ≡ true
    pub left : conn.incoming peer.pipeline.stream ≡ rest

  greet-Runs :
      (id : ℕ) (stream : C) (peer : Peer C S D) (t : Transport C S D)
      → peer_at id t ≡ some peer
      → peer.pipeline.is_running ≡ false
      → Runs id
          (conn.incoming stream)
          (greet conn codec ser deser dial (header raft_node id) stream t)
  unfolding greet header peer_at run
  greet-Runs id stream peer t e idle =
      rw (e, greet)
        (record {
          peer = record peer { pipeline = run conn codec ser deser stream peer.pipeline };
          found = ground (
            arith,
            lookup-assign id id
                (record peer { pipeline = run conn codec ser deser stream peer.pipeline }) t.peers,
          );
          running = ground arith;
          left = rw idle refl;
        })

  handshake-Runs :
      (id : ℕ) (stream : C) (rest : Bytes) (peer : Peer C S D) (t : Transport C S D)
      → id < u64_mod
      → peer_at id t ≡ some peer
      → peer.pipeline.is_running ≡ false
      → conn.incoming stream ≡ head raft_node id ++ rest
      → Runs id rest (handshake_cb conn codec ser deser dial readable stream t)
  unfolding handshake_cb
  handshake-Runs id stream rest peer t f e idle h =
      let r = read-Heads conn raft_node id rest stream (omega arith) f h in
      let g = greet-Runs id (read_exact conn header_size stream).1 peer t e idle in
      rw (r.whole, r.known, handshake_cb)
        (record { peer = g.peer; found = g.found; running = g.running; left = g.left ∙ r.left })

  -- The connecting side: the pipeline runs on the new stream, to which the greeting was written.
  pub connect-greets :
      (node_id : ℕ) (p : Peer C S D) (stream : C)
      → p.connect_locked ≡ false
      → p.pipeline.is_running ≡ false
      → dial p.ip p.port ≡ some stream
      → let q = try_connect_to_peer conn codec ser deser dial node_id p in
        (q.pipeline.is_running ≡ true)
        × (conn.written q.pipeline.stream ≡ conn.written stream ++ head raft_node node_id)
  unfolding try_connect_to_peer run
  connect-greets node_id p stream free idle e =
      rw (free, idle, e, serialize-head raft_node node_id (omega arith), try_connect_to_peer)
        (refl, (write_exact-all conn (head raft_node node_id) stream).1)

  -- Two nodes connect: if one reaches the other's address while neither pipeline runs, and what it
  -- writes is what comes in first on the accepted stream, then its own pipeline runs, and after the
  -- handshake so does the pipeline that the other keeps for its id, from behind the greeting on.
  pub connect-handshake :
      (id : ℕ) (p q : Peer C S D) (dialled accepted : C) (rest : Bytes) (t : Transport C S D)
      → id < u64_mod
      → (p.connect_locked ≡ false) × (p.pipeline.is_running ≡ false)
      → dial p.ip p.port ≡ some dialled
      → (peer_at id t ≡ some q) × (q.pipeline.is_running ≡ false)
      → let p' = try_connect_to_peer conn codec ser deser dial id p in
        conn.written p'.pipeline.stream ++ rest ≡ conn.written dialled ++ conn.incoming accepted
        → (p'.pipeline.is_running ≡ true)
          × Runs id rest (handshake_cb conn codec ser deser dial readable accepted t)
  connect-handshake id p q dialled accepted rest t f idle reached known wire =
      let a = connect-greets id p dialled idle.0 idle.1 reached in
      let comes = append_cancel (conn.written dialled) _ _ (
        sym (append_assoc (conn.written dialled) (head raft_node id) rest)
        ∙ ap (λ l. l ++ rest) (sym a.1)
        ∙ wire) in
      (a.0, handshake-Runs id accepted rest q t f known.0 known.1 (sym comes))

  -- A client that greets with an id that is not taken is on record under it, with the stream from
  -- behind the greeting on.
  pub handshake-client_at :
      (id : ℕ) (stream : C) (rest : Bytes) (t : Transport C S D)
      → id < u64_mod
      → client_at id t ≡ none
      → conn.incoming stream ≡ head client_node id ++ rest
      → (s : C) × (client_at id (handshake_cb conn codec ser deser dial readable stream t) ≡ some s)
        × (conn.incoming s ≡ rest)
  unfolding handshake_cb greet header client_at add_client
  handshake-client_at id stream rest t f free h =
      let r = read-Heads conn client_node id rest stream (omega arith) f h in
      rw (r.whole, r.known, handshake_cb)
        (
          (read_exact conn header_size stream).1,
          ground (arith, lookup-emplace id id (read_exact conn header_size stream).1 t.clients),
          r.left,
        )

  -- A client that sends 14 bytes which are no header brings the node down: the callback uses a header
  -- that is not there.
  pub client_cb-faults :
      (id : ℕ) (stream : C) (bytes rest : Bytes) (t : Transport C S D)
      → client_at id t ≡ some stream
      → length bytes ≡ header_size
      → deserialize bytes ≡ none
      → conn.incoming stream ≡ bytes ++ rest
      → client_cb conn codec ser deser dial id readable t ≡ fault bad_deref
  unfolding client_cb
  client_cb-faults id stream bytes rest t e size bad h =
      let r = read-first conn bytes rest header_size stream (sym size) h in
      let whole : ltb (length (read_exact conn header_size stream).0) header_size ≡ false =
        ground (arith, ap (λ (l : Bytes). length l) r.0) in
      let unknown : deserialize (read_exact conn header_size stream).0 ≡ none =
        ap deserialize r.0 ∙ bad in
      rw (e, client_cb) (rw (whole, unknown) refl)
