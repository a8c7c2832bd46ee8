-- ===== src/Transport/Handshakes/Cleanup.antt =====
-- The handshakes that are alive are those in the set handshake_data(), so that the end of accept_loop
-- deletes each of them once.
use embkv.Base.{
  ℕ, ◌≡◌, ◌<◌, refl, sym, ap, ◌∙◌, Bool, true, false, Option, none, some, List, [], ◌∷◌, arith,
  ◌==◌, if◌then◌else◌, ok, ◌>>=◌, Returns, Returns-bind, Bool-cases, inl, inr, subst,
}
use embkv.Base.Map.{lookup, erase, lookup-erase}
use embkv.Base.Sets.{contains, Distinct}
use embkv.Proto.{Bytes, Message}
use embkv.Queue.{ConcurrentQueue}
use embkv.Stream.{Connection}
use embkv.Pipeline.{MessageCodec, IoEvents}
use embkv.Transport.{Transport, handshake_cb}
use embkv.Transport.Handshakes.{
  Acceptor, AcceptEvent, unregister, start_handshake, accept_cb, delete_data, readable_cb,
  handle_handshake_timeout, accept_event, accept_events, delete_all,
}

contains-unregister :
    (k j : ℕ) (xs : List ℕ)
    → contains j (unregister k xs) ≡ (if k == j then false else contains j xs)
unfolding contains unregister
contains-unregister k j [] = ground arith
contains-unregister k j (x ∷ xs) = ground (arith, contains-unregister k j xs)

unregister-Distinct : (k : ℕ) (xs : List ℕ) → Distinct xs → Distinct (unregister k xs)
unfolding unregister
unregister-Distinct k [] d = tt
unregister-Distinct k (x ∷ xs) d =
    ground (arith, unregister-Distinct k xs d.1, contains-unregister k x xs)

abbrev pub is_some {ℓ} : {A : Type ℓ} → Option A → Bool
is_some none = false
is_some (some a) = true

module _ {C S D : Type 0} (conn : Connection C) (codec : MessageCodec)
    (ser : ConcurrentQueue Bytes S) (deser : ConcurrentQueue Message D)
    (dial : Bytes → ℕ → Option C) where
  -- The set holds the addresses of the live data, each once, and none that is still to come; the watchers
  -- that are started are theirs.
  pub record IsMatched (a : Acceptor C S D) : Type 0 where
    pub matched : (k : ℕ) → contains k a.registered ≡ is_some (lookup k a.live)
    pub distinct : Distinct a.registered
    pub io : (k : ℕ) → contains k a.io_watchers ≡ is_some (lookup k a.live)
    pub timers : (k : ℕ) → contains k a.timer_watchers ≡ is_some (lookup k a.live)
    pub old : (k : ℕ) → contains k a.registered ≡ true → k < a.next

  start_handshake-IsMatched :
      (stream : C) (a : Acceptor C S D)
      → IsMatched a
      → IsMatched (start_handshake conn codec ser deser dial stream a)
  unfolding start_handshake contains lookup
  start_handshake-IsMatched stream a v = record {
    matched = λ k. ground (arith, v.matched k);
    io = λ k. ground (arith, v.io k);
    timers = λ k. ground (arith, v.timers k);
    distinct = (ground (arith, v.old a.next), v.distinct);
    old = λ k h. ground (arith, v.old k);
  }

  erased-IsMatched :
      (k : ℕ) (t : Transport C S D) (a : Acceptor C S D)
      → IsMatched a
      → IsMatched (record a {
        transport = t;
        registered = unregister k a.registered;
        live = erase k a.live;
        io_watchers = unregister k a.io_watchers;
        timer_watchers = unregister k a.timer_watchers;
      })
  erased-IsMatched k t a v = record {
    matched = λ j.
        ground (arith, contains-unregister k j a.registered, lookup-erase k j a.live, v.matched j);
    io =
        λ j. ground (arith, contains-unregister k j a.io_watchers, lookup-erase k j a.live, v.io j);
    timers = λ j.
        ground
          (arith, contains-unregister k j a.timer_watchers, lookup-erase k j a.live, v.timers j);
    distinct = unregister-Distinct k a.registered v.distinct;
    old = λ j h. ground (arith, contains-unregister k j a.registered, v.old j);
  }

  accept_cb-IsMatched :
      (revents : IoEvents) (stream : Option C) (a : Acceptor C S D)
      → IsMatched a
      → IsMatched (accept_cb conn codec ser deser dial revents stream a)
  unfolding accept_cb
  accept_cb-IsMatched revents none a v = elim (Bool-cases revents.read) [
    | inl reads ↦ rw reads v
    | inr idle ↦ rw idle v
  ]
  accept_cb-IsMatched revents (some stream) a v = elim (Bool-cases revents.read) [
    | inl reads ↦ rw reads (start_handshake-IsMatched stream a v)
    | inr idle ↦ rw idle v
  ]

  delete_data-erases :
      (k : ℕ) (a : Acceptor C S D) (found : Option C)
      → lookup k a.live ≡ found
      → is_some found ≡ true
      → delete_data conn codec ser deser dial k a
        ≡ ok (record a {
          live = erase k a.live;
          io_watchers = unregister k a.io_watchers;
          timer_watchers = unregister k a.timer_watchers;
        })
  unfolding delete_data
  delete_data-erases k a none e h = absurd cc
  delete_data-erases k a (some stream) e h = rw (e, delete_data) refl

  deleted-IsMatched :
      (k : ℕ) (t : Transport C S D) (a : Acceptor C S D)
      → is_some (lookup k a.live) ≡ true
      → IsMatched a
      → Returns IsMatched (
          delete_data conn codec ser deser dial k
            (record a { transport = t; registered = unregister k a.registered }))
  deleted-IsMatched k t a h v =
      let b = record a { transport = t; registered = unregister k a.registered } in
      subst (Returns IsMatched) (sym (delete_data-erases k b (lookup k a.live) refl h))
        (erased-IsMatched k t a v)

  readable_cb-IsMatched :
      (revents : IoEvents) (k : ℕ) (a : Acceptor C S D) (found : Option C)
      → lookup k a.live ≡ found
      → is_some found ≡ true
      → IsMatched a
      → Returns IsMatched (readable_cb conn codec ser deser dial revents k a)
  unfolding readable_cb
  readable_cb-IsMatched revents k a none e h v = absurd cc
  readable_cb-IsMatched revents k a (some stream) e h v =
      rw (e, readable_cb)
        (deleted-IsMatched k (handshake_cb conn codec ser deser dial revents stream a.transport) a
          (ap is_some e) v)

  accept_event-IsMatched :
      (e : AcceptEvent C) (a : Acceptor C S D)
      → IsMatched a
      → Returns IsMatched (accept_event conn codec ser deser dial e a)
  unfolding accept_event handle_handshake_timeout
  accept_event-IsMatched (AcceptEvent.accepted revents stream) a v =
      accept_cb-IsMatched revents stream a v
  accept_event-IsMatched (AcceptEvent.readable_handshake revents k) a v =
      elim (Bool-cases (contains k a.io_watchers)) [
        | inl on ↦
            rw (on, Returns)
              (readable_cb-IsMatched revents k a (lookup k a.live) refl (sym (v.io k) ∙ on) v)
        | inr off ↦ rw (off, Returns) v
      ]
  accept_event-IsMatched (AcceptEvent.timed_out k) a v =
      elim (Bool-cases (contains k a.timer_watchers)) [
        | inl on ↦ rw (on, Returns) (deleted-IsMatched k a.transport a (sym (v.timers k) ∙ on) v)
        | inr off ↦ rw (off, Returns) v
      ]

  accept_events-IsMatched :
      (es : List (AcceptEvent C)) (a : Acceptor C S D)
      → IsMatched a
      → Returns IsMatched (accept_events conn codec ser deser dial es a)
  unfolding accept_events
  accept_events-IsMatched [] a v = v
  accept_events-IsMatched (e ∷ es) a v =
      Returns-bind IsMatched IsMatched (accept_event conn codec ser deser dial e a)
        (accept_events conn codec ser deser dial es) (accept_event-IsMatched e a v)
        (accept_events-IsMatched es)

  abbrev pub NoneAlive : Acceptor C S D → Type 0
  NoneAlive a = (k : ℕ) → lookup k a.live ≡ none

  none_alive : (found : Option C) → false ≡ is_some found → found ≡ none
  none_alive none h = refl
  none_alive (some stream) h = cc

  delete_all-NoneAlive :
      (ks : List ℕ) (a : Acceptor C S D)
      → Distinct ks
      → ((k : ℕ) → contains k ks ≡ is_some (lookup k a.live))
      → Returns NoneAlive (delete_all conn codec ser deser dial ks a)
  unfolding delete_all contains
  delete_all-NoneAlive [] a d h = λ k. none_alive (lookup k a.live) (h k)
  delete_all-NoneAlive (x ∷ xs) a d h =
      Returns-bind (λ b. (k : ℕ) → contains k xs ≡ is_some (lookup k b.live)) NoneAlive
        (delete_data conn codec ser deser dial x a) (delete_all conn codec ser deser dial xs)
        (subst (Returns (λ b. (k : ℕ) → contains k xs ≡ is_some (lookup k b.live)))
          (sym (delete_data-erases x a (lookup x a.live) refl (sym (h x) ∙ ground arith)))
          (λ k. ground (arith, lookup-erase x k a.live, h k, d.0)))
        (λ b q. delete_all-NoneAlive xs b d.1 q)

  -- Whatever connections come in, and whichever handshakes become readable or time out, before
  -- or after they were deleted: no handshake is deleted twice or used after it was deleted,
  -- and the end of the loop deletes all that are left, each once; from a state in which the
  -- set holds the live handshakes, each once, and their watchers are the ones that are
  -- started.
  pub handshakes-NoneAlive :
      (es : List (AcceptEvent C)) (a : Acceptor C S D)
      → IsMatched a
      → Returns NoneAlive (
          accept_events conn codec ser deser dial es a >>= λ b.
          delete_all conn codec ser deser dial b.registered b)
  handshakes-NoneAlive es a v =
      Returns-bind IsMatched NoneAlive (accept_events conn codec ser deser dial es a)
        (λ b. delete_all conn codec ser deser dial b.registered b) (accept_events-IsMatched es a v)
        (λ b w. delete_all-NoneAlive b.registered b w.distinct w.matched)
