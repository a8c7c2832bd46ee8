-- ===== src/Transport/Loops.antt =====
-- The threads of the transport, in embkv/src/raft/transport/transport.cpp: run and stop, and the listener
-- that accept_loop opens.
use embkv.Base.{
  ℕ, ◌≡◌, refl, Bool, true, false, not, Option, none, List, [], ◌∷◌, ◌++◌, if◌then◌else◌, arith,
  Bool-cases, inl, inr,
}
use embkv.Config.{Config}
use embkv.Addr.{SocketAddr, Resolver, parse}
use embkv.Sockets.{System, bind}
use embkv.Sockets.Leaks.{Opens, sockets-Opens}

-- The tasks that run posts.
pub data Loop : Type 0 where
  accept_loop serialize_loop receive_loop : Loop

-- `joined` says that the thread pool has been waited for, `loops` are those that run.
pub record Threads : Type 0 where
  pub is_running : Bool
  pub joined : Bool
  pub loops : List Loop

module _ (pool_starts : Bool → Bool) where
  abbrev pub post : Loop → Threads → Threads
  post l t = if pool_starts t.joined then record t { loops = t.loops ++ l ∷ [] } else t

  -- Transport::run
  unfoldable pub run_threads : Threads → Threads
  run_threads t =
      if t.is_running
      then t
      else post Loop.receive_loop
          (post Loop.serialize_loop (post Loop.accept_loop (record t { is_running = true })))

  -- Transport::stop: the loops are broken, and the pool waits for them.
  unfoldable pub stop_threads : Threads → Threads
  stop_threads t =
      if not t.is_running then t else record t { is_running = false; joined = true; loops = [] }

  -- Calls of run (true) and stop (false).
  abbrev pub run_or_stop : List Bool → Threads → Threads
  run_or_stop [] t = t
  run_or_stop (true ∷ calls) t = run_or_stop calls (run_threads t)
  run_or_stop (false ∷ calls) t = run_or_stop calls (stop_threads t)

  joined-idle :
      (calls : List Bool) (t : Threads)
      → pool_starts true ≡ false
      → t.joined ≡ true
      → t.loops ≡ []
      → (run_or_stop calls t).loops ≡ []
  unfolding run_threads stop_threads
  joined-idle [] t h j l = l
  joined-idle (true ∷ calls) t h j l =
      joined-idle calls (run_threads t) h (ground (arith, h, j)) (ground (arith, h, j, l))
  joined-idle (false ∷ calls) t h j l =
      joined-idle calls (stop_threads t) h (ground (arith, j)) (ground (arith, l))

  -- After a running transport was stopped none of its loops runs, however it is run and stopped again,
  -- where a pool that has been waited for starts nothing.
  pub stopped-idle :
      (calls : List Bool) (t : Threads)
      → pool_starts true ≡ false
      → t.is_running ≡ true
      → (run_or_stop calls (stop_threads t)).loops ≡ []
  unfolding stop_threads
  stopped-idle calls t h r =
      joined-idle calls (stop_threads t) h (ground (arith, r)) (ground (arith, r))

-- The address before it is parsed.
abbrev pub no_addr : SocketAddr
no_addr = record { family = 0; sin_port = 0; s_addr = 0 }

module _ {S : Type 0} (sys : System S) (r : Resolver) (errno einval : ℕ) where
  -- TcpListener::bind of the configuration's address, where that can be parsed.
  unfoldable pub listen_on : Config → S → Option ℕ × S
  listen_on c s =
      let (parsed, addr, ec) = parse r errno einval c.ip c.port no_addr 0 in
      let bound = bind sys addr s in if parsed then bound else (none, s)

  -- A listener that is returned is all that is left open of the calls.
  listen_on-Opens : (c : Config) (s : S) → Opens sys s (listen_on c s)
  unfolding listen_on
  listen_on-Opens c s = elim (Bool-cases (parse r errno einval c.ip c.port no_addr 0).0) [
    | inl parsed ↦ rw (parsed, listen_on) ((sockets-Opens sys _ 0 s).0)
    | inr failed ↦ rw (failed, listen_on) (λ j. refl)
  ]
