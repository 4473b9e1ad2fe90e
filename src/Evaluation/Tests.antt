-- ===== src/Evaluation/Tests.antt =====
-- The evaluation of sales of two stocks, each of which takes 1.5 ms and is refused by the benchmark
-- library.
use chronos_xserver.Prelude.{
  ℕ, zero, suc, ◌+◌, ◌≡◌, refl, true, none, some, List, [], ◌∷◌, arith, ℤ, pos, ◌+ℤ◌, ◌-ℤ◌, subst,
  ltb_ℤ, false,
}
use chronos_xserver.Config.{mode_evaluation, server_success}
use chronos_xserver.Time.{udiff_time, udiff_time-later}
use chronos_xserver.Aup.{done, overrun}
use chronos_xserver.Args.{
  Settings, Getopt, bytes, accepted, init_settings, apply_option, check_settings, process_options,
  process_arguments,
}
use chronos_xserver.Process.{appends}
use chronos_xserver.Process.Safe.{Ends}
use chronos_xserver.Process.Tests.{types, bench, packet}
use chronos_xserver.Stats.Response.{Responses, no_responses, init_stats_struct, capture}
use chronos_xserver.Evaluation.{
  Setup, Turn, goes_on, returns, first, run_txn, round, rounds, run_txn_evaluation,
}
use chronos_xserver.Evaluation.Round.{IsCreated}
use chronos_xserver.Evaluation.Outcome.{took, IsKept, Ended, run_txn_evaluation-Outcome}
use chronos_xserver.Evaluation.Completed.{IsWilling, Completed, run_txn_evaluation-Completed}

abbrev two : List ℕ → ℤ
two text = pos 2

-- --evaluate --txn sell_stock --size 2, by the indices of these options
abbrev command_line : List Getopt
command_line =
    record { c = 0; option_index = 0; optarg = [] }
    ∷ record { c = 0; option_index = 1; optarg = bytes "sell_stock" }
    ∷ record { c = 0; option_index = 5; optarg = bytes "2" }
    ∷ []

abbrev settings : Settings
settings = record (init_settings types two) {
  running_mode = mode_evaluation;
  evaluated_txn = 3;
  txn_size = 2;
}

command_line-accepted : process_arguments types two command_line ≡ accepted settings
unfolding process_arguments process_options apply_option check_settings
command_line-accepted = refl

abbrev turn : ℕ → Turn ℕ ℕ ℕ
turn k = record {
  request_create = λ n t. some packet;
  bench = bench;
  data_packet_free = 0;
  request_free = 0;
  end = record { tv_sec = k; tv_usec = 1500 };
  restart = record { tv_sec = k + 1; tv_usec = 0 };
}

abbrev setup : Setup
setup = record {
  env_alloc = true;
  env_cache_get = true;
  client_cache_alloc = true;
  initial_load = true;
  handle_alloc = 0;
  portfolios_stats_get = 0;
  start = record { tv_sec = 0; tv_usec = 0 };
}

goes_forward : (k : ℕ) → ltb_ℤ (took setup.start turn k) (pos 0) ≡ false
goes_forward zero = rw (udiff_time-later setup.start (turn 0).end 1500 refl) refl
goes_forward (suc k) =
    rw (udiff_time-later (turn k).restart (turn (suc k)).end 1500 (omega arith)) refl

packet-IsCreated : IsCreated types 4 2 3 packet
packet-IsCreated = record {
  items = refl;
  symbols = λ e. omega arith;
  accounts = λ e. absurd (omega (arith, e));
  purchases = λ e. omega arith;
  sales = λ e. omega arith;
  updates = λ e. omega arith;
}

turn-IsKept : IsKept types 4 settings turn
turn-IsKept k p e =
    let same : packet ≡ p = cc in subst (IsCreated types 4 2 3) same packet-IsCreated

turn-IsWilling : (k : ℕ) → IsWilling settings (turn k)
unfolding appends
turn-IsWilling k = record {
  packet = packet;
  created = refl;
  allocated = refl;
  appended = refl;
  released = refl;
  freed = refl;
}

run_txn_evaluation-Outcome_example : Ended types 4 settings turn true true setup (
    run_txn_evaluation types 4 true true setup turn settings
      (init_stats_struct true true no_responses))
run_txn_evaluation-Outcome_example =
    run_txn_evaluation-Outcome types 4 settings turn two command_line true true setup
      command_line-accepted turn-IsKept

run_txn_evaluation-Completed_example :
    Ends (Completed types 4 settings turn true true setup.start) (
      run_txn_evaluation types 4 true true setup turn settings
        (init_stats_struct true true no_responses))
run_txn_evaluation-Completed_example =
    run_txn_evaluation-Completed types 4 settings turn two command_line true true setup
      command_line-accepted turn-IsKept refl turn-IsWilling (λ e. absurd (omega (arith, e)))
      goes_forward

-- two rounds over arrays of two elements
abbrev small : Responses
small = record no_responses { rtus = 0 ∷ 0 ∷ []; response_times_array = pos 0 ∷ pos 0 ∷ [] }

two_rounds :
    rounds types 4 settings 2 0 turn (first small)
    ≡ done (
        goes_on (record {
          rc = 0;
          num_success = 0;
          num_failures = 2;
          num_total_txns = 2;
          responses = record {
            rtus = 0 ∷ 2 ∷ [];
            response_times_array = pos 1500 ∷ pos 1500 ∷ [];
            rtusum = pos 3000;
            max_response_time = pos 1500;
            min_response_time = pos 0;
            xact_start = record { tv_sec = 2; tv_usec = 0 };
          };
        }))
unfolding rounds round run_txn appends capture udiff_time ◌+ℤ◌ ◌-ℤ◌
two_rounds = refl

-- Without a request the evaluation ends as if it had succeeded.
no_request_succeeds :
    round types 4 settings 0 (record (turn 0) { request_create = λ n t. none }) (first small)
    ≡ done (returns server_success (first small))
unfolding round
no_request_succeeds = refl

-- A clock that goes back by 2 ms makes the capture write before the bins.
clock_back :
    capture 0
      (record { tv_sec = 0; tv_usec = 0 })
      (record { tv_sec = 0; tv_usec = 0 })
      (record small { xact_start = record { tv_sec = 0; tv_usec = 2000 } })
    ≡ overrun
unfolding capture udiff_time ◌-ℤ◌
clock_back = refl
