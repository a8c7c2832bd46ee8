-- ===== src/Sockets/Leaks.antt =====
-- What the making of a listener or a stream leaves open.
use embkv.Base.{
  ℕ, ◌≡◌, refl, ◌∙◌, Bool, true, false, Option, none, some, ◌==◌, if◌then◌else◌, arith, Bool-cases,
  inl, inr,
}
use embkv.Addr.{SocketAddr}
use embkv.Sockets.{
  System, SocketOption, Kind, or_close, listening, with_reuse_port, with_reuse_addr, bind_created,
  connect_created, bind, accept, connect,
}

module _ {S : Type 0} (sys : System S) where
  -- From `s` on, the call has opened the one descriptor that it returns, or none where it returns none.
  abbrev pub Opens : S → Option ℕ × S → Type 0
  Opens s (none, t) = (j : ℕ) → sys.is_open t j ≡ sys.is_open s j
  Opens s (some d, t) =
      (sys.is_open s d ≡ false)
      × ((j : ℕ) → sys.is_open t j ≡ (if d == j then true else sys.is_open s j))

  or_close-Opens :
      (d : ℕ) (call : S → Bool × S) (rest : S → Option ℕ × S) (s t : S)
      → Opens s (some d, t)
      → ((j : ℕ) → sys.is_open (call t).1 j ≡ sys.is_open t j)
      → ((u : S) → Opens s (some d, u) → Opens s (rest u))
      → Opens s (or_close sys d call rest t)
  or_close-Opens d call rest s t opened keeps go = elim (Bool-cases (call t).0) [
    | inl done ↦ rw done (go (call t).1 (opened.0, λ j. keeps j ∙ opened.1 j))
    | inr failed ↦
        rw failed
          (λ j. ground (arith, sys.close-is_open d (call t).1 j, keeps j, opened.1 j, opened.0))
  ]

  result-Opens :
      (s : S) (r : Option ℕ × S)
      → ((d : ℕ) → r.0 ≡ some d → Opens s (some d, r.1))
      → (r.0 ≡ none → Opens s (none, r.1))
      → Opens s r
  result-Opens s (none, t) h k = k refl
  result-Opens s (some d, t) h k = h d refl

  created-Opens : (k : Kind) (s : S) → Opens s (sys.socket k s)
  created-Opens k s =
      result-Opens s (sys.socket k s)
        (λ d e. (sys.socket-fresh k s d e, λ j. sys.socket-is_open k s d j e))
        (λ e j. sys.socket_failed-is_open k s j e)

  bind_created-Opens :
      (addr : SocketAddr) (s : S) (r : Option ℕ × S) → Opens s r → Opens s (bind_created sys addr r)
  bind_created-Opens addr s (none, t) h = h
  bind_created-Opens addr s (some d, t) h =
      or_close-Opens d (sys.bind d addr) (with_reuse_addr sys d) s t h (sys.bind-is_open d addr t)
        (λ u hu.
          or_close-Opens d (sys.set_option d SocketOption.reuse_addr) (with_reuse_port sys d) s u hu
            (sys.set_option-is_open d SocketOption.reuse_addr u)
            (λ v hv.
              or_close-Opens d (sys.set_option d SocketOption.reuse_port) (listening sys d) s v hv
                (sys.set_option-is_open d SocketOption.reuse_port v)
                (λ w hw.
                  or_close-Opens d (sys.listen d) (λ t. (some d, t)) s w hw (sys.listen-is_open d w)
                    (λ x hx. hx))))

  connect_created-Opens :
      (addr : SocketAddr) (s : S) (r : Option ℕ × S)
      → Opens s r
      → Opens s (connect_created sys addr r)
  connect_created-Opens addr s (none, t) h = h
  connect_created-Opens addr s (some d, t) h =
      or_close-Opens d (sys.connect d addr) (λ t. (some d, t)) s t h (sys.connect-is_open d addr t)
        (λ u hu. hu)

  -- The descriptor of what accept returns.
  abbrev pub accepted : Option (ℕ × SocketAddr) × S → Option ℕ × S
  accepted (none, s) = (none, s)
  accepted (some (d, from), s) = (some d, s)

  accepted-Opens :
      (s : S) (r : Option (ℕ × SocketAddr) × S)
      → ((d : ℕ) (from : SocketAddr) → r.0 ≡ some (d, from) → Opens s (some d, r.1))
      → (r.0 ≡ none → Opens s (none, r.1))
      → Opens s (accepted r)
  accepted-Opens s (none, t) h k = k refl
  accepted-Opens s (some (d, from), t) h k = h d from refl

  -- The making of a listener, of a stream by accept and of a stream by connect, whichever of the
  -- system's calls fails: the descriptor that is returned was not open and is, and no other descriptor
  -- is opened or closed.
  pub sockets-Opens :
      (addr : SocketAddr) (listener : ℕ) (s : S)
      → Opens s (bind sys addr s)
        × Opens s (accepted (accept sys listener s))
        × Opens s (connect sys addr s)
  unfolding bind accept connect
  sockets-Opens addr listener s = (
    bind_created-Opens addr s (sys.socket Kind.stream_nonblock s)
        (created-Opens Kind.stream_nonblock s),
    accepted-Opens s (sys.accept listener s)
        (λ d from e.
          (sys.accept-fresh listener s d from e, λ j. sys.accept-is_open listener s d from j e))
        (λ e j. sys.accept_failed-is_open listener s j e),
    connect_created-Opens addr s (sys.socket Kind.stream s) (created-Opens Kind.stream s),
  )
