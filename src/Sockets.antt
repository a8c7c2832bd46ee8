-- ===== src/Sockets.antt =====
-- embkv/include/socket and embkv/src/socket/socket.cpp: the making of listeners and streams. The calls of
-- the system are a parameter; an object that goes out of scope closes its descriptor.
pub mod Leaks
use embkv.Base.{ℕ, ◌≡◌, Bool, true, false, not, Option, none, some, ◌==◌, if◌then◌else◌}
use embkv.Addr.{SocketAddr}

-- What a socket is created as, and the options that the code sets.
pub data Kind : Type 0 where
  stream stream_nonblock : Kind

pub data SocketOption : Type 0 where
  reuse_addr reuse_port no_delay keep_alive : SocketOption

-- The calls of the system on a state `S`. A call that fails returns -1, here none or false. `socket` and
-- `accept` return a descriptor that was not open and is now; no call but close closes one; a connect
-- on a descriptor that is not open fails, so the -1 of a failed socket is none to it.
pub record System (S : Type 0) : Type 0 where
  pub socket : Kind → S → Option ℕ × S
  pub bind : ℕ → SocketAddr → S → Bool × S
  pub listen : ℕ → S → Bool × S
  pub set_option : ℕ → SocketOption → S → Bool × S
  pub accept : ℕ → S → Option (ℕ × SocketAddr) × S
  pub connect : ℕ → SocketAddr → S → Bool × S
  pub close : ℕ → S → S
  pub is_open : S → ℕ → Bool
  pub socket-fresh : (k : Kind) (s : S) (d : ℕ) → (socket k s).0 ≡ some d → is_open s d ≡ false
  pub socket-is_open :
      (k : Kind) (s : S) (d j : ℕ)
      → (socket k s).0 ≡ some d
      → is_open (socket k s).1 j ≡ (if d == j then true else is_open s j)
  pub socket_failed-is_open :
      (k : Kind) (s : S) (j : ℕ) → (socket k s).0 ≡ none → is_open (socket k s).1 j ≡ is_open s j
  pub accept-fresh :
      (l : ℕ) (s : S) (d : ℕ) (from : SocketAddr)
      → (accept l s).0 ≡ some (d, from)
      → is_open s d ≡ false
  pub accept-is_open :
      (l : ℕ) (s : S) (d : ℕ) (from : SocketAddr) (j : ℕ)
      → (accept l s).0 ≡ some (d, from)
      → is_open (accept l s).1 j ≡ (if d == j then true else is_open s j)
  pub accept_failed-is_open :
      (l : ℕ) (s : S) (j : ℕ) → (accept l s).0 ≡ none → is_open (accept l s).1 j ≡ is_open s j
  pub bind-is_open :
      (d : ℕ) (a : SocketAddr) (s : S) (j : ℕ) → is_open (bind d a s).1 j ≡ is_open s j
  pub listen-is_open : (d : ℕ) (s : S) (j : ℕ) → is_open (listen d s).1 j ≡ is_open s j
  pub set_option-is_open :
      (d : ℕ) (o : SocketOption) (s : S) (j : ℕ) → is_open (set_option d o s).1 j ≡ is_open s j
  pub connect-is_open :
      (d : ℕ) (a : SocketAddr) (s : S) (j : ℕ) → is_open (connect d a s).1 j ≡ is_open s j
  pub close-is_open :
      (d : ℕ) (s : S) (j : ℕ) → is_open (close d s) j ≡ (if d == j then false else is_open s j)

module _ {S : Type 0} (sys : System S) where
  -- A step of bind on the socket `d`: where it fails, the socket is closed on the way out.
  abbrev pub or_close : ℕ → (S → Bool × S) → (S → Option ℕ × S) → S → Option ℕ × S
  or_close d call rest s =
      let (done, after) = call s in
      let next = rest after in if done then next else (none, sys.close d after)

  abbrev pub listening : ℕ → S → Option ℕ × S
  listening d s = or_close d (sys.listen d) (λ t. (some d, t)) s

  abbrev pub with_reuse_port : ℕ → S → Option ℕ × S
  with_reuse_port d s = or_close d (sys.set_option d SocketOption.reuse_port) (listening d) s

  abbrev pub with_reuse_addr : ℕ → S → Option ℕ × S
  with_reuse_addr d s = or_close d (sys.set_option d SocketOption.reuse_addr) (with_reuse_port d) s

  abbrev pub bind_created : SocketAddr → Option ℕ × S → Option ℕ × S
  bind_created addr (none, s) = (none, s)
  bind_created addr (some d, s) = or_close d (sys.bind d addr) (with_reuse_addr d) s

  -- BaseListener::bind: the descriptor of the listener, none for -1.
  unfoldable pub bind : SocketAddr → S → Option ℕ × S
  bind addr s = bind_created addr (sys.socket Kind.stream_nonblock s)

  -- BaseListener::accept: the descriptor of the stream, and the address behind it.
  unfoldable pub accept : ℕ → S → Option (ℕ × SocketAddr) × S
  accept listener s = sys.accept listener s

  abbrev pub connect_created : SocketAddr → Option ℕ × S → Option ℕ × S
  connect_created addr (none, s) = (none, s)
  connect_created addr (some d, s) = or_close d (sys.connect d addr) (λ t. (some d, t)) s

  -- BaseStream::connect
  unfoldable pub connect : SocketAddr → S → Option ℕ × S
  connect addr s = connect_created addr (sys.socket Kind.stream s)
