-- ===== src/Tests/Accepts.antt =====
-- The theorem about handshakes, with concrete parameters.
use embkv.Base.{true, refl, some, List, [], ◌∷◌, ◌>>=◌, Returns}
use embkv.Base.Map.{lookup, erase}
use embkv.Base.Sets.{contains}
use embkv.Proto.{Bytes, Message}
use embkv.Transport.Session.{readable}
use embkv.Transport.Handshakes.{Acceptor, AcceptEvent, accept_event, accept_events, delete_all}
use embkv.Transport.Handshakes.Cleanup.{NoneAlive, handshakes-NoneAlive}
use embkv.Tests.Wire.{lists, pipe, ids, answers, transport}

-- An acceptor without handshakes, to which three connections come: the first says something, the second
-- times out, the third is left to the end. The timer of the first does not fire any more.
abbrev idle : Acceptor (Bytes × Bytes) (List Bytes) (List Message)
idle = record {
  transport = transport true;
  live = [];
  registered = [];
  next = 0;
  io_watchers = [];
  timer_watchers = [];
}

abbrev events : List (AcceptEvent (Bytes × Bytes))
events =
    AcceptEvent.accepted readable (some ([], []))
    ∷ AcceptEvent.accepted readable (some ([], []))
    ∷ AcceptEvent.accepted readable (some ([], []))
    ∷ AcceptEvent.readable_handshake readable 0
    ∷ AcceptEvent.timed_out 1
    ∷ AcceptEvent.timed_out 0
    ∷ []

handshakes-NoneAlive_example : Returns (NoneAlive pipe ids (lists Bytes) (lists Message) answers) (
    accept_events pipe ids (lists Bytes) (lists Message) answers events idle >>= λ b.
    delete_all pipe ids (lists Bytes) (lists Message) answers b.registered b)
unfolding lookup erase contains accept_event
handshakes-NoneAlive_example =
    handshakes-NoneAlive pipe ids (lists Bytes) (lists Message) answers events idle (record {
      matched = λ k. refl;
      io = λ k. refl;
      timers = λ k. refl;
      distinct = tt;
      old = λ k h. absurd cc;
    })
