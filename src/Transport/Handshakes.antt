-- ===== src/Transport/Handshakes.antt =====
-- The life of a handshake in embkv/src/raft/transport/transport.cpp: accept_cb, start_handshake,
-- handshake_cb, handle_handshake_timeout and the end of accept_loop, with the set handshake_data() and
-- the data that has been allocated with new and not deleted.
pub mod Cleanup
use embkv.Base.{
  ℕ, suc, ◌≡◌, ◌<◌, refl, sym, ap, ◌∙◌, Bool, true, false, ◌||◌, Option, none, some, List, [], ◌∷◌,
  arith, ◌==◌, if◌then◌else◌, Result, ok, fault, bad_deref, ◌>>=◌, Returns, Returns-bind,
  Returns-and, Holds,
}
use embkv.Base.Map.{Map, lookup, erase, lookup-erase}
use embkv.Base.Sets.{contains, Distinct}
use embkv.Proto.{Bytes, Message}
use embkv.Queue.{ConcurrentQueue}
use embkv.Stream.{Connection}
use embkv.Pipeline.{MessageCodec, IoEvents}
use embkv.Transport.{Transport, handshake_cb}

-- A set of addresses without one: handshake_data().erase, and ev_io_stop and ev_timer_stop on the
-- watchers that are started.
unfoldable pub unregister : ℕ → List ℕ → List ℕ
unregister k [] = []
unregister k (j ∷ js) = let rest = unregister k js in if j == k then rest else j ∷ rest

-- `live` holds the handshakes by their address, with the stream of each; `registered` is the set
-- handshake_data(); `next` is the address that new returns next. `io_watchers` and `timer_watchers` are
-- the handshakes whose watcher is started in the loop.
pub record Acceptor (C S D : Type 0) : Type 0 where
  pub transport : Transport C S D
  pub live : Map C
  pub registered : List ℕ
  pub next : ℕ
  pub io_watchers : List ℕ
  pub timer_watchers : List ℕ

-- What the loop of the thread calls: the accept watcher, with what accept returns, and the two watchers
-- of a handshake.
pub data AcceptEvent (C : Type 0) : Type 0 where
  accepted : IoEvents → Option C → AcceptEvent C
  readable_handshake : IoEvents → ℕ → AcceptEvent C
  timed_out : ℕ → AcceptEvent C

module _ {C S D : Type 0} (conn : Connection C) (codec : MessageCodec)
    (ser : ConcurrentQueue Bytes S) (deser : ConcurrentQueue Message D)
    (dial : Bytes → ℕ → Option C) where
  unfoldable pub start_handshake : C → Acceptor C S D → Acceptor C S D
  start_handshake stream a = record a {
    live = (a.next, stream) ∷ a.live;
    registered = a.next ∷ a.registered;
    next = suc a.next;
    io_watchers = a.next ∷ a.io_watchers;
    timer_watchers = a.next ∷ a.timer_watchers;
  }

  abbrev pub start_some : Option C → Acceptor C S D → Acceptor C S D
  start_some none a = a
  start_some (some stream) a = start_handshake stream a

  -- A stream that is not valid is dropped.
  unfoldable pub accept_cb : IoEvents → Option C → Acceptor C S D → Acceptor C S D
  unfolding start_handshake
  accept_cb revents stream a = if revents.read then start_some stream a else a

  -- `delete hs_data`: the destructor stops the two watchers and closes the stream where it still holds it.
  unfoldable pub delete_data : ℕ → Acceptor C S D → Result (Acceptor C S D)
  delete_data k a = elim (lookup k a.live) [
    | none ↦ fault bad_deref
    | some stream ↦ ok (record a {
      live = erase k a.live;
      io_watchers = unregister k a.io_watchers;
      timer_watchers = unregister k a.timer_watchers;
    })
  ]

  -- handshake_cb with its erase and delete, which it does on every path.
  unfoldable pub readable_cb : IoEvents → ℕ → Acceptor C S D → Result (Acceptor C S D)
  unfolding delete_data
  readable_cb revents k a = elim (lookup k a.live) [
    | none ↦ fault bad_deref
    | some stream ↦ delete_data k (record a {
      registered = unregister k a.registered;
      transport = handshake_cb conn codec ser deser dial revents stream a.transport;
    })
  ]

  unfoldable pub handle_handshake_timeout : ℕ → Acceptor C S D → Result (Acceptor C S D)
  unfolding delete_data
  handle_handshake_timeout k a = delete_data k (record a { registered = unregister k a.registered })

  -- The loop calls back for a watcher that is started, and for no other.
  unfoldable pub accept_event : AcceptEvent C → Acceptor C S D → Result (Acceptor C S D)
  unfolding accept_cb readable_cb handle_handshake_timeout
  accept_event (AcceptEvent.accepted revents stream) a = ok (accept_cb revents stream a)
  accept_event (AcceptEvent.readable_handshake revents k) a = elim (contains k a.io_watchers) [
    | true ↦ readable_cb revents k a
    | false ↦ ok a
  ]
  accept_event (AcceptEvent.timed_out k) a = elim (contains k a.timer_watchers) [
    | true ↦ handle_handshake_timeout k a
    | false ↦ ok a
  ]

  unfoldable pub accept_events : List (AcceptEvent C) → Acceptor C S D → Result (Acceptor C S D)
  unfolding accept_event
  accept_events [] a = ok a
  accept_events (e ∷ es) a = accept_event e a >>= λ b. accept_events es b

  -- The end of accept_loop: `for (auto data : handshake_data()) delete data`.
  unfoldable pub delete_all : List ℕ → Acceptor C S D → Result (Acceptor C S D)
  unfolding delete_data
  delete_all [] a = ok a
  delete_all (k ∷ ks) a = delete_data k a >>= λ b. delete_all ks b
