-- ===== src/Client/Restart.antt =====
-- What becomes of a client that is stopped and run again, and of one that is redirected.
use embkv.Base.{
  Bool, ℕ, ◌<◌, length, ◌++◌, ap, ◌≡◌, refl, sym, ◌∙◌, subst, true, false, Option, none, some, List,
  [], ◌∷◌, arith, Result, ok, ◌>>=◌, Returns, Returns-bind, Returns-map,
}
use embkv.Proto.{Bytes, KvOperation, Message, Content, ClientResponse}
use embkv.Base.Map.{lookup}
use embkv.Stream.{Connection}
use embkv.Pipeline.{MessageCodec}
use embkv.Head.Framing.{header_size, frame}
use embkv.Transport.Session.{readable}
use embkv.Client.{
  Client, NodeInfo, run, stop, started, connect_to_server, request, read_cb, handle_response,
  redirected,
}
use embkv.Client.Replies.{Reaches, Handles, read_cb-Handles}
use embkv.Client.Redirects.{Call, act, is_watched, connect_to_server-greets}

-- What the program does with a client: a call, or a readable stream, or the two commands of the menu.
pub data ClientUse : Type 0 where
  call : Call → ClientUse
  run_again stop_again : ClientUse

module _ {C : Type 0} (conn : Connection C) (codec : MessageCodec)
    (serialize_operation : KvOperation → Bytes) (dial : Bytes → ℕ → Option C)
    (pool_starts : Bool → Bool) where
  unfoldable pub use_client : Client C → ClientUse → Result (Client C)
  use_client c (ClientUse.call x) = act conn codec serialize_operation dial c x
  use_client c ClientUse.run_again = ok (run conn codec serialize_operation dial pool_starts c)
  use_client c ClientUse.stop_again = ok (stop conn codec serialize_operation dial c)

  unfoldable pub client_uses : Client C → List ClientUse → Result (Client C)
  unfolding use_client
  client_uses c [] = ok c
  client_uses c (u ∷ us) = use_client c u >>= λ d. client_uses d us

  -- No event loop runs, and none can be started.
  abbrev Dead : Client C → Client C → Type 0
  Dead c d = (d.joined ≡ true) × (d.watched ≡ none) × (d.printed ≡ c.printed)

  module _ (no_threads : pool_starts true ≡ false) where
    started-Dead :
        (stream : Option C) (c : Client C)
        → c.joined ≡ true
        → c.watched ≡ none
        → Dead c (started conn codec serialize_operation dial pool_starts stream c)
    started-Dead none c j w = (j, w, refl)
    started-Dead (some stream) c j w = ground (arith, j, w)

    act-Dead :
        (c : Client C) (x : Call)
        → c.joined ≡ true
        → c.watched ≡ none
        → Returns (Dead c) (act conn codec serialize_operation dial c x)
    unfolding act request
    act-Dead c (Call.send op) j w = ground arith
    act-Dead c (Call.readable_event revents) j w = rw (w, act) (j, refl, refl)

    use_client-Dead :
        (c : Client C) (u : ClientUse)
        → c.joined ≡ true
        → c.watched ≡ none
        → Returns (Dead c) (use_client c u)
    unfolding use_client run stop
    use_client-Dead c (ClientUse.call x) j w = act-Dead c x j w
    use_client-Dead c ClientUse.run_again j w =
        let began =
          started-Dead (connect_to_server conn codec serialize_operation dial 0 c) c j w in
        ground arith
    use_client-Dead c ClientUse.stop_again j w = ground arith

    client_uses-Dead :
        (us : List ClientUse) (c : Client C)
        → c.joined ≡ true
        → c.watched ≡ none
        → Returns (Dead c) (client_uses c us)
    unfolding client_uses
    client_uses-Dead [] c j w = (j, w, refl)
    client_uses-Dead (u ∷ us) c j w =
        Returns-bind (Dead c) (Dead c) (use_client c u) (λ d. client_uses d us)
          (use_client-Dead c u j w)
          (λ d q.
            Returns-map (Dead d) (Dead c) (client_uses d us) (λ x p. (p.0, p.1, p.2 ∙ q.2))
              (client_uses-Dead us d q.0 q.1))

    -- After a running client was stopped it prints nothing any more, whether it is run again or not,
    -- whatever is called and whatever the servers send: its thread pool has been waited for, where a
    -- pool that has been starts nothing that is posted to it.
    pub stop-silences :
        (c : Client C) (us : List ClientUse)
        → c.is_running ≡ true
        → Returns
            (λ d. d.printed ≡ c.printed)
            (client_uses (stop conn codec serialize_operation dial c) us)
    unfolding stop
    stop-silences c us runs =
        Returns-map (Dead (stop conn codec serialize_operation dial c)) (λ d. d.printed ≡ c.printed)
          _ (λ d q. q.2 ∙ ground arith)
          (client_uses-Dead us (stop conn codec serialize_operation dial c) (ground arith)
            (ground arith))

    -- The watcher is on an earlier stream of a running client: nothing is printed any more.
    client_uses-stale :
        (us : List ClientUse) (c : Client C) (k : ℕ)
        → c.watched ≡ some k
        → k < c.stream_no
        → c.is_running ≡ true
        → Returns (λ d. d.printed ≡ c.printed) (client_uses c us)
    unfolding client_uses use_client act request run stop
    client_uses-stale [] c k w old runs = refl
    client_uses-stale (ClientUse.call (Call.send op) ∷ us) c k w old runs =
        let d = request conn codec serialize_operation dial op c in
        Returns-map (λ x. x.printed ≡ d.printed) (λ x. x.printed ≡ c.printed) (client_uses d us)
          (λ x p. p ∙ ground arith)
          (client_uses-stale us d k (ground arith) (ground arith) (ground arith))
    client_uses-stale (ClientUse.call (Call.readable_event revents) ∷ us) c k w old runs =
        let off : is_watched conn codec serialize_operation dial c ≡ false = rw w (ground arith) in
        rw off (client_uses-stale us c k w old runs)
    client_uses-stale (ClientUse.run_again ∷ us) c k w old runs =
        let same : run conn codec serialize_operation dial pool_starts c ≡ c = ground arith in
        subst (λ y. Returns (λ d. d.printed ≡ c.printed) (client_uses y us)) (sym same)
          (client_uses-stale us c k w old runs)
    client_uses-stale (ClientUse.stop_again ∷ us) c k w old runs = rw runs (
        Returns-map
          (Dead (record c { is_running = false; watched = none; joined = true; ended = true }))
          (λ d. d.printed ≡ c.printed) _ (λ d q. q.2) (client_uses-Dead us _ refl refl))

    -- A running client, whose watcher is on its stream, handles a reply that refuses its
    -- request and names a leader to which it can connect. It prints nothing any more,
    -- whatever is called, whatever the servers send, and whether it is stopped and run again
    -- or not: it is on the new stream, and its watcher has stayed on the old one. The reply
    -- fits the client's buffer and is not empty, its header buffer has the size of a header,
    -- the decoder takes the reply back, and a pool that has been waited for starts nothing
    -- that is posted to it.
    pub redirect-silences :
        (m : Message) (reply : ClientResponse) (rest : Bytes) (s to : C) (address : NodeInfo)
        (c : Client C) (us : List ClientUse)
        → Reaches conn codec serialize_operation dial m
        → (m.content ≡ Content.client_response reply) × (reply.success ≡ false)
        → (c.is_running ≡ true) × (c.stream ≡ some s) × (c.watched ≡ some c.stream_no)
        → length c.head_buf ≡ header_size
        → conn.incoming s ≡ frame (codec.serialize_message m) ++ rest
        → (lookup reply.leader_hint c.endpoints ≡ some address)
          × (dial address.ip address.port ≡ some to)
        → Returns
            (λ d. d.printed ≡ c.printed)
            (read_cb conn codec serialize_operation dial readable c >>= λ d. client_uses d us)
    unfolding handle_response
    redirect-silences m reply rest s to address c us a is at size h leader =
        Returns-bind (Handles conn codec serialize_operation dial m rest c)
          (λ d. d.printed ≡ c.printed) (read_cb conn codec serialize_operation dial readable c)
          (λ d. client_uses d us)
          (read_cb-Handles conn codec serialize_operation dial m rest s c a at.1 size h)
          (λ d q.
            let (before, s', has, left, kept, eq) = q in
            let (x, found, greets) =
              connect_to_server-greets conn codec serialize_operation dial reply.leader_hint before
                address to (ap (λ x. lookup reply.leader_hint x.endpoints) kept ∙ leader.0)
                leader.1 in
            let handled : d
                ≡ redirected conn codec serialize_operation dial reply.leader_hint (some x) before =
              eq ∙ rw (is.0, is.1, found) refl in
            let next =
              redirected conn codec serialize_operation dial reply.leader_hint (some x) before in
            subst (λ y. Returns (λ d. d.printed ≡ c.printed) (client_uses y us)) (sym handled)
              (Returns-map (λ y. y.printed ≡ before.printed) (λ y. y.printed ≡ c.printed)
                (client_uses next us) (λ y p. p ∙ ap (λ z. z.printed) kept)
                (client_uses-stale us next c.stream_no (ap (λ z. z.watched) kept ∙ at.2)
                  (let same : before.stream_no ≡ c.stream_no = ap (λ z. z.stream_no) kept in
                    omega (arith, same))
                  (ap (λ z. z.is_running) kept ∙ at.0))))
