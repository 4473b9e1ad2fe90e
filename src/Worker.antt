-- ===== src/Worker.antt =====
-- startup_server.c: `processThread`, which takes requests out of both queues, runs them, and drives
-- the samples. The thread is a machine whose step is the code between two places where other threads
-- can matter: the test of `time_to_die`, one refresh request, the test of the user queue, one user
-- request, and the clock. The magic numbers of the thread and the context are taken to be right; that
-- of a request, which a client sends, is not. The line that `stats_print` writes has Monitor/Row.
pub mod Valid
pub mod Moves
pub mod Safe
pub mod Shared
pub mod Mode
pub mod Trace
pub mod Progress
pub mod Tests
use chronos_xserver.Prelude.{
  ℕ, zero, suc, ◌+◌, ◌-◌, ◌*◌, ◌%◌, ◌^◌, Bool, true, false, ◌&&◌, Option, none, some, List, [], ◌∷◌,
  ltb, leb, ◌==◌, if◌then◌else◌, ℤ, pos, negsuc, ltb_ℤ, ◌*ℤ◌,
}
use chronos_xserver.Config.{sampling_period_sec, warmup_duration_sec}
use chronos_xserver.Floats.{Floats}
use chronos_xserver.Time.{Timeval, diff_time}
use chronos_xserver.Queue.{
  Queue, Wakeup, Outcome, success, failed, invalid_argument, waiting, fault, queue_size,
}
use chronos_xserver.Queue.Api.{UserTxn, dequeue_system_transaction, dequeue_user_transaction}
use chronos_xserver.Aup.{Call, done, aborted, overrun}
use chronos_xserver.Args.{UserTxnTypes}
use chronos_xserver.Monitor.{ServerContext, aggregate_stats, performance_monitor}
use chronos_xserver.Process.{
  Packet, Benchmark, Run, UserEnd, returned, still_freeing, process_refresh_transaction,
  process_user_transaction,
}

-- What the threads share: the context with its two queues, the global flags, and the variables
-- `txn_done` and `txn_rc` of the waiting handlers, by address.
pub record World (fp : Floats) (Key Order Price : Type 0) : Type 0 where
  pub context : ServerContext fp
  pub sys_queue : Queue (Packet Key Order Price)
  pub user_queue : Queue (Packet Key Order Price)
  pub warming_up : Bool
  pub time_to_die : Bool
  pub cells : ℕ → ℕ

-- Where the thread is: at the test of the outer loop; with some refresh requests to go; at the test
-- of the user queue; at the call that takes a user request; at the clock.
pub data Pc : Type 0 where
  top : Pc
  refresh : ℕ → Pc
  user : Pc
  serve : Pc
  clock : Pc

-- the local variables of `processThread` that outlive a round
pub record Local : Type 0 where
  pub pc : Pc
  pub start_experiment_time : Timeval
  pub previous_sample : Timeval
  pub total_experiment_duration_ms : ℕ

-- What a step is given: the answer of the clock, whether a timed wait returns, and the inputs of the
-- run of a request, of which `warming_up` is read from the shared flag instead.
pub record Input : Type 0 where
  pub now : Timeval
  pub woken : Bool
  pub run : Run

-- How a step ends: the thread goes on, leaves its loop, stops the process at an assertion or an
-- access out of memory, or does not return from freeing a packet.
pub data Stepped (W : Type 0) : Type 0 where
  moved : Local → W → Stepped W
  exits : W → Stepped W
  crashed : Stepped W
  hangs : Stepped W

-- a `long`, as an `unsigned long`
abbrev pub unsigned_long : ℤ → ℕ
unsigned_long (pos n) = n % 2 ^ 64
unsigned_long (negsuc n) = 2 ^ 64 - 1 - n % 2 ^ 64

-- CHRONOS_SEC_TO_MS(CHRONOS_WARMUP_DURATION_SEC)
abbrev pub warmup_duration_ms : ℕ
warmup_duration_ms = warmup_duration_sec * 1000

-- The values of the local variables at the start of the loop.
pub start_thread : ℤ → Timeval → Timeval → Local
start_thread duration_sec experiment sample = record {
  pc = top;
  start_experiment_time = experiment;
  previous_sample = sample;
  total_experiment_duration_ms =
      (unsigned_long (duration_sec *ℤ pos 1000) + warmup_duration_ms) % 2 ^ 64;
}

abbrev pub store_cell : ℕ → ℕ → (ℕ → ℕ) → ℕ → ℕ
store_cell p v cells q = if p == q then v else cells q

abbrev pub goto : Pc → Local → Local
goto pc l = record l { pc = pc }

module _ {fp : Floats} {Key Order Price : Type 0} where
  -- One return of a timed wait: the steps of other threads in the meantime stand between the steps
  -- of this one.
  abbrev pub wakeups : Input → World fp Key Order Price → List (Wakeup (Packet Key Order Price))
  wakeups i w = if i.woken then record { others = λ q. q; die = w.time_to_die } ∷ [] else []

  abbrev pub run_of : Input → World fp Key Order Price → Run
  run_of i w = record i.run { warming_up = w.warming_up }

  -- the tests behind the requests
  pub clock_step :
      ℕ → Timeval → Local → World fp Key Order Price → Stepped (World fp Key Order Price)
  clock_step update_stock now l w =
      let elapsed = unsigned_long (diff_time l.start_experiment_time now) in
      let w' = record w {
        warming_up = if leb warmup_duration_ms elapsed && w.warming_up then false else w.warming_up;
      } in
      let sampled = record w' {
        context = performance_monitor fp (aggregate_stats fp update_stock w'.context);
      } in
      if leb l.total_experiment_duration_ms elapsed
      then exits (record w' { time_to_die = true })
      else if ltb_ℤ (pos (1000 * sampling_period_sec)) (diff_time l.previous_sample now)
      then moved (record l { pc = top; previous_sample = now }) sampled
      else moved (goto top l) w'

  -- how the run of a refresh request ends, with `n` to go behind it
  abbrev pub refreshed :
      ℕ
      → Local
      → World fp Key Order Price
      → Call (ℕ × ServerContext fp)
      → Stepped (World fp Key Order Price)
  refreshed n l w (done (rc, c)) = moved (goto (refresh n) l) (record w { context = c })
  refreshed n l w aborted = crashed
  refreshed n l w overrun = crashed

  -- how the run of a user request ends, and the stores behind it
  abbrev pub answered :
      ℕ
      → ℕ
      → Local
      → World fp Key Order Price
      → Call (UserEnd (ServerContext fp))
      → Stepped (World fp Key Order Price)
  answered done_p rc_p l w (done (returned rc (some txn_rc) c)) =
      moved (goto clock l)
        (record w { context = c; cells = store_cell done_p 1 (store_cell rc_p txn_rc w.cells) })
  answered done_p rc_p l w (done (returned rc none c)) =
      moved (goto clock l) (record w { context = c; cells = store_cell done_p 1 w.cells })
  answered done_p rc_p l w (done still_freeing) = hangs
  answered done_p rc_p l w aborted = crashed
  answered done_p rc_p l w overrun = crashed

module _ (fp : Floats) (types : UserTxnTypes) (update_stock : ℕ) {Key Order Price : Type 0}
    (bench : Benchmark Key Order Price) where
  abbrev pub refresh_taken :
      ℕ
      → Input
      → Local
      → World fp Key Order Price
      → Outcome (Packet Key Order Price) (Packet Key Order Price × Timeval)
      → Stepped (World fp Key Order Price)
  refresh_taken n i l w (success q (packet, received)) =
      let run =
        process_refresh_transaction fp types update_stock bench (run_of i w) received (some packet)
          w.context in
      if packet.magic_ok then refreshed n l (record w { sys_queue = q }) run else crashed
  refresh_taken n i l w (failed q) = exits (record w { sys_queue = q })
  refresh_taken n i l w (waiting q) = moved l w
  refresh_taken n i l w invalid_argument = exits w
  refresh_taken n i l w fault = crashed

  -- A user request that was taken out. The asserts ask for both addresses and for the magic
  -- number of the request.
  abbrev pub user_taken :
      Input
      → Local
      → World fp Key Order Price
      → Outcome (Packet Key Order Price) (UserTxn (Packet Key Order Price))
      → Stepped (World fp Key Order Price)
  user_taken i l w (success q (packet, received, ticket, some done_p, some rc_p)) =
      let run =
        process_user_transaction fp types update_stock bench (run_of i w) received packet
          w.context in
      if packet.magic_ok then answered done_p rc_p l (record w { user_queue = q }) run else crashed
  user_taken i l w (success q (packet, received, ticket, some done_p, none)) = crashed
  user_taken i l w (success q (packet, received, ticket, none, rc_p)) = crashed
  user_taken i l w (failed q) = exits (record w { user_queue = q })
  user_taken i l w (waiting q) = moved l w
  user_taken i l w invalid_argument = exits w
  user_taken i l w fault = crashed

  abbrev pub step_at :
      Pc → Input → Local → World fp Key Order Price → Stepped (World fp Key Order Price)
  step_at top i l w =
      if w.time_to_die then exits w else moved (goto (refresh (queue_size (some w.sys_queue))) l) w
  step_at (refresh zero) i l w = moved (goto user l) w
  step_at (refresh (suc n)) i l w =
      refresh_taken n i l w (dequeue_system_transaction true true (wakeups i w) (some w.sys_queue))
  step_at user i l w =
      if ltb 0 (queue_size (some w.user_queue))
      then moved (goto serve l) w
      else moved (goto clock l) w
  step_at serve i l w =
      user_taken i l w (dequeue_user_transaction true true (wakeups i w) (some w.user_queue))
  step_at clock i l w = clock_step update_stock i.now l w

  unfoldable pub step :
      Input → Local → World fp Key Order Price → Stepped (World fp Key Order Price)
  step i l w = step_at l.pc i l w
