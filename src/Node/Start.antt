-- ===== src/Node/Start.antt =====
-- The start of the timers of embkv/src/raft/node.cpp: event_loop and reset_election_timer. A delay is
-- in milliseconds.
use embkv.Base.{
  ℕ, ◌*◌, ◌/◌, ◌≤◌, ◌<◌, ◌≡◌, refl, sym, ap, ◌∙◌, Option, none, some, arith, inl, inr, u64_mod,
  false, true,
}
use mathlib.Core.Option.{some-injective, none-ne-some}
use std.Path.{subst}
use embkv.Random.{FastRand, rand_range}
use embkv.Random.Range.{rand_range-decides}
use embkv.Node.{RaftNode, Revents}
use embkv.Node.Vote.{may_stand}
use embkv.Node.Timers.{handle_election_timeout}
use embkv.Node.Run.Elections.{Stands, election_timeout-decides}

-- When a timer fires first, and how often after that: 0 for a timer that fires once.
pub record Timer : Type 0 where
  pub after : ℕ
  pub repeat : ℕ

pub record Timers : Type 0 where
  pub election : Timer
  pub heartbeat : Timer
  pub parse : Timer
  pub reissue : Timer

-- `uint64_t delay = … / 1000.0`: the seconds are cut off to a whole number.
abbrev pub first_delay : ℕ → ℕ
first_delay random = random / 1000

-- The delay of the election timer when it is set again.
unfoldable pub reset_election_timer : ℕ → FastRand → Option (Timer × FastRand)
reset_election_timer fuel g = elim (rand_range fuel 150 300 g) [
  | none ↦ none
  | some (random, g') ↦ some (record { after = random; repeat = 0 }, g')
]

module _ {M : Type 0} where
  abbrev pub timed : RaftNode M → ℕ × FastRand → RaftNode M × Timers × FastRand
  timed n (random, g) =
      let delay = first_delay random in
      (
        record n { election_start = delay },
        record {
          election = record { after = delay * 1000; repeat = 0 };
          heartbeat = record { after = 0; repeat = 50 };
          parse = record { after = 0; repeat = 3 };
          reissue = record { after = 0; repeat = 30 };
        },
        g,
      )

  abbrev started : RaftNode M → Option (ℕ × FastRand) → Option (RaftNode M × Timers × FastRand)
  started n none = none
  started n (some r) = some (timed n r)

  -- event_loop up to ev_run; `fuel` bounds the draws of the generator.
  unfoldable pub event_loop : ℕ → FastRand → RaftNode M → Option (RaftNode M × Timers × FastRand)
  event_loop fuel g n = started n (rand_range fuel 150 300 g)

  timed-Stands :
      (random : ℕ) (g : FastRand) (n : RaftNode M) (revents : Revents) (now : ℕ)
      → random ≤ 300
      → (may_stand n.st.role ≡ true) × (n.st.last_heartbeat ≡ 0)
      → (revents.error ≡ false) × (revents.timeout ≡ true)
      → now < u64_mod
      → let (m, timers, g') = timed n (random, g) in
        (timers.election.after ≡ 0) × Stands m (handle_election_timeout m revents now)
  timed-Stands random g n revents now high quiet fires small =
      let m = (timed n (random, g)).0 in
      let stands =
        (election_timeout-decides m revents now fires.0 fires.1 quiet.0 small
          (omega arith, omega (arith, quiet.1))).0 in
      (omega arith, elim stands [ inl s ↦ s.1 | inr late ↦ absurd (omega (arith, quiet.1)) ])

  started-Stands :
      (r : Option (ℕ × FastRand)) (n : RaftNode M) (out : RaftNode M × Timers × FastRand)
      → (revents : Revents) (now : ℕ) → started n r ≡ some out
      → ((d : ℕ × FastRand) → r ≡ some d → d.0 ≤ 300)
      → (may_stand n.st.role ≡ true) × (n.st.last_heartbeat ≡ 0)
      → (revents.error ≡ false) × (revents.timeout ≡ true)
      → now < u64_mod
      → (out.1.election.after ≡ 0) × Stands out.0 (handle_election_timeout out.0 revents now)
  started-Stands none n out revents now e high quiet fires small = absurd (none-ne-some out e)
  started-Stands (some (random, g)) n out revents now e high quiet fires small =
      subst (λ x. (x.1.election.after ≡ 0) × Stands x.0 (handle_election_timeout x.0 revents now))
        (some-injective (timed n (random, g)) out e)
        (timed-Stands random g n revents now (high (random, g) refl) quiet fires small)

  -- A node that may stand for election and has heard no heartbeat yet, where the bound on the
  -- random draws is not used up: its election timer fires at once, for the delay of 150 to 300
  -- ms is cut off to none, and the node stands for election when it fires without an error, at
  -- a time below 2 ^ 64.
  pub first_timeout-Stands :
      (fuel : ℕ) (g g' : FastRand) (n m : RaftNode M) (timers : Timers) (revents : Revents)
      (now : ℕ)
      → event_loop fuel g n ≡ some (m, timers, g')
      → (may_stand n.st.role ≡ true) × (n.st.last_heartbeat ≡ 0)
      → (revents.error ≡ false) × (revents.timeout ≡ true)
      → now < u64_mod
      → (timers.election.after ≡ 0) × Stands m (handle_election_timeout m revents now)
  unfolding event_loop
  first_timeout-Stands fuel g g' n m timers revents now starts quiet fires small =
      started-Stands (rand_range fuel 150 300 g) n (m, timers, g') revents now starts
        (λ d e. elim (rand_range-decides fuel 150 300 g (omega arith)) [
          | inl (random, h, is, low, high) ↦
              omega (arith, high, ap (λ x. x.0) (some-injective d (random, h) (sym e ∙ is)))
          | inr (none_left, below) ↦ absurd (none-ne-some d (sym none_left ∙ e))
        ])
        quiet fires small
