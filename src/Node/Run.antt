-- ===== src/Node/Run.antt =====
-- The node as a machine driven by its event loop: a step is one callback of a timer.
pub mod Safety
pub mod Grows
pub mod Votes
pub mod Elections
use embkv.Base.{ℕ, suc, ◌<◌, List, [], ◌∷◌, Result, ok, ◌>>=◌, Holds, u64_mod}
use embkv.Proto.{Message}
use embkv.Node.{RaftNode, Services, Revents}
use embkv.Node.Timers.{
  handle_election_timeout, handle_heartbeat_timeout, handle_parse_timeout, handle_reissue_timeout,
}

-- The callback, the flags it is given, the times that it reads, and the messages that it dequeues.
pub data Event : Type 0 where
  election_timeout : Revents → ℕ → Event
  heartbeat_timeout : Revents → Event
  parse_timeout : Revents → List (Message × ℕ) → Event
  reissue_timeout : Revents → Event

module _ {M : Type 0} (s : Services M) where
  unfoldable pub step : RaftNode M → Event → Result (RaftNode M)
  step n (Event.election_timeout revents now) = ok (handle_election_timeout n revents now)
  step n (Event.heartbeat_timeout revents) = handle_heartbeat_timeout s n revents
  step n (Event.parse_timeout revents batch) = handle_parse_timeout s n revents batch
  step n (Event.reissue_timeout revents) = handle_reissue_timeout n revents

  unfoldable pub run : RaftNode M → List Event → Result (RaftNode M)
  run n [] = ok n
  run n (e ∷ es) = step n e >>= λ m. run m es

  -- No event finds the node at the largest term, so that no election wraps around.
  abbrev pub TermsFit : RaftNode M → List Event → Type 0
  TermsFit n [] = Unit {0}
  TermsFit n (e ∷ es) = (suc n.st.current_term < u64_mod) × Holds (λ m. TermsFit m es) (step n e)
