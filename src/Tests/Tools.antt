-- ===== src/Tests/Tools.antt =====
-- The theorems about the logger, the generator, the clock and the descriptors, with concrete
-- parameters.
use embkv.Base.{
  not, ℕ, ◌<◌, ◌≤◌, ◌≡◌, ◌⊎◌, refl, Bool, true, false, none, some, List, [], ◌∷◌, ◌++◌, arith, All,
  ap, Returns, ◌>>=◌,
}
use embkv.Proto.{Bytes}
use embkv.Random.{
  FastRand, fastrand, fastrand_n, draw, shift_mix, next_two, rand_range, threshold_of,
}
use embkv.Random.Range.{rand_range-decides, draws}
use embkv.Logging.{FileLogger, LogLevel, log, work_round, finish}
use embkv.Logging.File.{all_written}
use embkv.Logging.Runs.{Action, act_all, logged-all_written}
use embkv.Descriptor.{Table, Use, use_all}
use embkv.Descriptor.Ownership.{IsOwned, use_all-IsOwned}
use embkv.Main.{run_client_node, new_client, digit}
use embkv.Main.Commands.{Command, all_typed, run_client_node-commands}
use embkv.Node.{RaftNode}
use embkv.Node.Start.{Timers, event_loop, first_timeout-Stands}
use embkv.Node.Timers.{handle_election_timeout}
use embkv.Node.Run.Elections.{Stands}
use embkv.Tests.Wire.{pipe, ids, answers}
use embkv.Tests.Cluster.{Journal, fresh, timeout}

abbrev seeded : FastRand
seeded = record { one = 1; two = 2 }

rand_range-decides_example :
    ((k : ℕ) × (g : FastRand) × (rand_range 5 150 300 seeded ≡ some (k, g)) × (150 ≤ k) × (k ≤ 300))
    ⊎ ((rand_range 5 150 300 seeded ≡ none) × All (λ d. d < threshold_of 151) (draws 5 seeded))
rand_range-decides_example = rand_range-decides 5 150 300 seeded (omega arith)

-- A logger whose file is rolled behind four bytes.
abbrev idle : Bytes → FileLogger
idle buffer = record {
  level = LogLevel.info;
  file = record {
    closed = [];
    content = [];
    max_file_size = 4;
    cur_file_size = 0;
    last_roll_second = 0;
  };
  current_buffer = buffer;
  empty_buffers = [] ∷ [];
  full_buffers = [];
  is_running = true;
}

abbrev opens : ℕ → Bool
opens now = true

logged-all_written_example :
    Returns
      (λ m. all_written m.file ≡ 1 ∷ 2 ∷ 4 ∷ 5 ∷ 3 ∷ [])
      (act_all opens (idle []) (
          Action.line (1 ∷ 2 ∷ [])
          ∷ Action.round 1 ((4 ∷ []) ∷ []) ((5 ∷ []) ∷ [])
          ∷ Action.line (3 ∷ [])
          ∷ [])
        >>= λ m. finish opens 2 m)
unfolding log work_round
logged-all_written_example =
    logged-all_written opens 2 (idle [])
      (Action.line (1 ∷ 2 ∷ [])
        ∷ Action.round 1 ((4 ∷ []) ∷ []) ((5 ∷ []) ∷ [])
        ∷ Action.line (3 ∷ [])
        ∷ [])
      (λ now. refl) (record { running = refl; clean = (refl, tt) })
      (omega arith, (omega arith, omega arith, (omega arith, tt)))

-- A descriptor is opened for the first object, moved to the second and assigned to the third,
-- which is closed twice.
abbrev nothing_open : Table
nothing_open = record { held = λ i. none; is_open = λ d. false }

abbrev uses : List Use
uses =
    Use.open_fd 0 7
    ∷ Use.construct_fd 1 0
    ∷ Use.assign_fd 2 1
    ∷ Use.close_fd 2
    ∷ Use.close_fd 2
    ∷ []

use_all-IsOwned_example : Returns IsOwned (use_all uses nothing_open)
unfolding use_all
use_all-IsOwned_example =
    use_all-IsOwned uses nothing_open (record { opened = λ i d h. cc; single = λ i j d h g. cc })
      ((refl, refl), ((refl, λ e. cc), (tt, (tt, (tt, tt)))))

run_client_node-commands_example :
    (run_client_node pipe ids
      (λ o. o.key)
      answers
      not
      3
      (all_typed (Command.put_command (5 ∷ []) (6 ∷ []) ∷ Command.run_command ∷ []) ++ digit 1 ∷ [])
      (new_client [] [])).running
    ≡ false
run_client_node-commands_example =
    ap (λ s. s.running)
      (run_client_node-commands pipe ids (λ o. o.key) answers not
        (Command.put_command (5 ∷ []) (6 ∷ []) ∷ Command.run_command ∷ []) 3 [] (new_client [] [])
        (omega arith)).0

abbrev started : RaftNode Journal
started = record (fresh 0) { election_start = 0 }

abbrev first_timers : Timers
first_timers = record {
  election = record { after = 0; repeat = 0 };
  heartbeat = record { after = 0; repeat = 50 };
  parse = record { after = 0; repeat = 3 };
  reissue = record { after = 0; repeat = 30 };
}

first_timeout-Stands_example : Stands started (handle_election_timeout started timeout 200)
unfolding event_loop rand_range fastrand_n draw fastrand shift_mix next_two threshold_of
first_timeout-Stands_example =
    (first_timeout-Stands 5 seeded (fastrand seeded).1 (fresh 0) started first_timers timeout 200
      refl (refl, refl) (refl, refl) (omega arith)).1
