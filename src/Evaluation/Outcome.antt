-- ===== src/Evaluation/Outcome.antt =====
-- How the evaluation that `main` starts ends: with which code, and with what it has measured.
use chronos_xserver.Prelude.{
  ℕ, zero, suc, ◌+◌, ◌≤◌, ap, ◌<◌, ◌≡◌, refl, sym, subst, Bool, true, false, inl, inr, none, some,
  List, arith, Bool-cases, ℤ,
}
use chronos_xserver.Config.{server_success, server_fail, max_data_items_per_xact}
use chronos_xserver.Time.{Timeval, udiff_time}
use chronos_xserver.Aup.{Call, done, aborted, overrun, ◌>>=◌}
use chronos_xserver.Args.{UserTxnTypes, Settings, Getopt, accepted, process_arguments}
use chronos_xserver.Args.Accepted.{IsChoice, process_arguments-IsUsable, process_arguments-IsChoice}
use chronos_xserver.Process.{Packet}
use chronos_xserver.Process.Safe.{Ends}
use chronos_xserver.Stats.Response.{
  num_samples, no_responses, init_stats_struct, capture_start, Report, capture_print,
}
use chronos_xserver.Evaluation.{
  Setup, Turn, Evaluation, Rounded, goes_on, returns, Evaluated, returned, then_rounds, finish,
  first, set_up, round, rounds, run_txn_evaluation,
}
use chronos_xserver.Evaluation.Recorded.{Results, bind-Results, IsOutside, init-Recorded}
use chronos_xserver.Evaluation.Round.{
  no_round, IsCounted, IsCreated, IsUnnamed, Stops, RoundEnds, round-RoundEnds,
}
use chronos_xserver.Evaluation.Printed.{Reported, capture_print-Reported}

module _ {Key Order Price : Type 0} (start : Timeval) (turns : ℕ → Turn Key Order Price) where
  -- what the clock showed as a round began
  abbrev pub begun : ℕ → Timeval
  begun zero = start
  begun (suc k) = (turns k).restart

  -- how long a round took, in microseconds; less than 0 if the clock went back
  abbrev pub took : ℕ → ℤ
  took k = udiff_time (begun k) (turns k).end

module _ {Key Order Price : Type 0} (types : UserTxnTypes) (update_stock : ℕ) (s : Settings)
    (turns : ℕ → Turn Key Order Price) where
  -- What the chronos library promises: every request that is created is of the type and the size
  -- asked for.
  abbrev pub IsKept : Type 0
  IsKept =
      (k : ℕ) (packet : Packet Key Order Price)
      → (turns k).request_create s.txn_size s.evaluated_txn ≡ some packet
      → IsCreated types update_stock s.txn_size s.evaluated_txn packet

  -- A round in which the clock goes back so far that the bin of its time is not in the array.
  abbrev pub GoesBack : (ℕ → ℤ) → Type 0
  GoesBack times = (k : ℕ) × (k < num_samples) × IsOutside (times k)

  -- how the loop ends
  abbrev Looped : (ℕ → ℤ) → Rounded → Type 0
  Looped times (goes_on e) = IsCounted types update_stock s turns times num_samples e
  Looped times (returns rc e) =
      (k : ℕ) × (k < num_samples)
      × IsCounted types update_stock s turns times k e
      × Stops types update_stock s (turns k) rc

  abbrev LoopEnds : (ℕ → ℤ) → Call Rounded → Type 0
  LoopEnds times = Results (Looped times) (IsUnnamed types update_stock s) (GoesBack times)

  then_rounds-LoopEnds :
      (times : ℕ → ℤ) (k : ℕ) (m : Call Rounded) (rest : Evaluation → Call Rounded)
      → k < num_samples
      → RoundEnds types update_stock s turns times k m
      → ((e : Evaluation)
          → IsCounted types update_stock s turns times (suc k) e
          → e.responses.xact_start ≡ (turns k).restart
          → LoopEnds times (rest e))
      → LoopEnds times (m >>= λ r. then_rounds r rest)
  then_rounds-LoopEnds times k (done (goes_on e)) rest small left h = h e left.0 left.1
  then_rounds-LoopEnds times k (done (returns rc e)) rest small left h = (k, small, left.0, left.1)
  then_rounds-LoopEnds times k aborted rest small left h = left
  then_rounds-LoopEnds times k overrun rest small left h = (k, small, left)

  rounds-LoopEnds :
      (start : Timeval) (left k : ℕ) (e : Evaluation)
      → k + left ≡ num_samples
      → s.txn_size ≤ max_data_items_per_xact
      → IsChoice types s.evaluated_txn
      → IsKept
      → IsCounted types update_stock s turns (took start turns) k e
      → e.responses.xact_start ≡ begun start turns k
      → LoopEnds (took start turns) (rounds types update_stock s left k turns e)
  unfolding rounds
  rounds-LoopEnds start zero k e h short choice kept c began =
      let all : k ≡ num_samples = omega arith in
      subst (λ k'. IsCounted types update_stock s turns (took start turns) k' e) all c
  rounds-LoopEnds start (suc left) k e h short choice kept c began =
      let small : k < num_samples = omega arith in
      then_rounds-LoopEnds (took start turns) k (round types update_stock s k (turns k) e) _ small
        (round-RoundEnds types update_stock s turns (took start turns) k e short choice (kept k)
          small c (ap (λ t. udiff_time t (turns k).end) began))
        (λ e₁ c₁ began₁.
          rounds-LoopEnds start left (suc k) e₁ (omega arith) short choice kept c₁ began₁)

  -- How `runTxnEvaluation` ends that returns.
  pub data Outcome (print_samples opened : Bool) (setup : Setup) : Evaluated → Type 0 where
    completed :
        {e : Evaluation} {report : Report}
        → IsCounted types update_stock s turns (took setup.start turns) num_samples e
        → Reported (took setup.start turns) print_samples opened report
        → Outcome print_samples opened setup (returned server_success e (some report))
    stopped :
        {e : Evaluation} (k rc : ℕ)
        → k < num_samples
        → IsCounted types update_stock s turns (took setup.start turns) k e
        → Stops types update_stock s (turns k) rc
        → Outcome print_samples opened setup (returned rc e none)
    not_set_up :
        {e : Evaluation}
        → set_up setup s ≡ false
        → Outcome print_samples opened setup (returned server_fail e none)

  -- All the ways it can end.
  abbrev pub Ended : Bool → Bool → Setup → Call Evaluated → Type 0
  Ended print_samples opened setup =
      Results (Outcome print_samples opened setup) (IsUnnamed types update_stock s)
        (GoesBack (took setup.start turns))

  with_report :
      (print_samples opened : Bool) (setup : Setup) (e : Evaluation) (m : Call Report)
      → IsCounted types update_stock s turns (took setup.start turns) num_samples e
      → Ends (Reported (took setup.start turns) print_samples opened) m
      → Ended print_samples opened setup (m >>= λ report. done (returned e.rc e (some report)))
  with_report print_samples opened setup e (done report) c reported =
      subst (λ rc. Outcome print_samples opened setup (returned rc e (some report))) (sym c.rc)
        (completed c reported)
  with_report print_samples opened setup e aborted c reported = absurd reported
  with_report print_samples opened setup e overrun c reported = absurd reported

  finish-Ended :
      (print_samples opened : Bool) (setup : Setup) (r : Rounded)
      → Looped (took setup.start turns) r
      → Ended print_samples opened setup (finish print_samples opened r)
  finish-Ended print_samples opened setup (goes_on e) c =
      with_report print_samples opened setup e (capture_print print_samples opened e.responses) c (
        capture_print-Reported (took setup.start turns) print_samples opened e.responses c.recorded)
  finish-Ended print_samples opened setup (returns rc e) (k, small, c, why) =
      stopped k rc small c why

  -- In a configuration that `processArguments` accepts, with arrays that `init_stats_struct` has
  -- allocated, and if every request that is created is of the type asked for and holds the number of
  -- items asked for, these are all the ways in which `runTxnEvaluation` ends. It stops at an
  -- assertion only in an evaluation of refreshes, if the number of a refresh is not
  -- CHRONOS_USER_TXN_MAX. It writes out of an array only in a round in which the clock goes back,
  -- before the array of the bins or behind it. Else it returns: a call of the set-up has failed, and
  -- the result is CHRONOS_SERVER_FAIL; or all 1000 rounds are done, and the result is
  -- CHRONOS_SERVER_SUCCESS; or an earlier round is the last one, since its request was not created,
  -- its order not carried out or its request not freed, and the result is CHRONOS_SERVER_SUCCESS in
  -- the first of these cases, CHRONOS_SERVER_FAIL in the second and the code of the failed call in
  -- the third. The rounds done are counted as successes and as failures by the status that the
  -- benchmark library has answered to each; their times are in the array in order; each bin holds
  -- the number of times of its millisecond (the last one those of 10 seconds and more); the sum is
  -- that of the times, the maximum the greatest of them and 0, and the minimum the least of them
  -- and 0. The report of a complete evaluation gives these bins (with `print_samples`), numbers and,
  -- if its file can be opened, times.
  pub run_txn_evaluation-Outcome :
      (atoi : List ℕ → ℤ) (os : List Getopt) (print_samples opened : Bool) (setup : Setup)
      → process_arguments types atoi os ≡ accepted s
      → IsKept
      → Ended print_samples opened setup (
          run_txn_evaluation types update_stock print_samples opened setup turns s
            (init_stats_struct true true no_responses))
  unfolding run_txn_evaluation
  run_txn_evaluation-Outcome atoi os print_samples opened setup accepts kept =
      let r = init_stats_struct true true no_responses in
      let begins = capture_start setup.start r in
      elim (Bool-cases (set_up setup s)) [
        | inr e ↦ rw e (not_set_up e)
        | inl e ↦ rw e (
            bind-Results (Looped (took setup.start turns)) (Outcome print_samples opened setup)
              (IsUnnamed types update_stock s) (GoesBack (took setup.start turns))
              (rounds types update_stock s num_samples 0 turns (first begins))
              (finish print_samples opened)
              (rounds-LoopEnds setup.start num_samples 0 (first begins) (omega arith)
                (process_arguments-IsUsable types atoi os s accepts).1
                (process_arguments-IsChoice types atoi os s accepts) kept
                (record {
                  rc = refl;
                  total = refl;
                  counts = no_round;
                  recorded = init-Recorded (took setup.start turns) setup.start;
                })
                refl)
              (λ r'. finish-Ended print_samples opened setup r'))
      ]
