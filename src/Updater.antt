-- ===== src/Updater.antt =====
-- startup_server.c: `updateThread`, which puts refresh requests for its own range of data items into
-- the system queue. A cycle of its loop is one step. The build without LITMUS_RT is modelled; the
-- handles of the client cache have Updater/Thread.
pub mod Start
pub mod Longer
pub mod Tests
pub mod Cycle
pub mod Fit
pub mod Serves
pub mod Mode
pub mod Thread
use chronos_xserver.Prelude.{
  ℕ, zero, suc, ◌+◌, ◌*◌, Bool, true, false, Option, none, some, List, ◌==◌, ltb, if◌then◌else◌,
  length, set, ℤ, pos,
}
use chronos_xserver.Config.{server_success, mode_aup, num_stock_updates_per_update_thread}
use chronos_xserver.Floats.{Floats}
use chronos_xserver.Time.{Timeval}
use chronos_xserver.Queue.{Wakeup, Outcome, success, failed, invalid_argument, waiting, fault}
use chronos_xserver.Queue.Api.{enqueue_system_transaction}
use chronos_xserver.Aup.{Call, done, aborted, overrun, ◌>>=◌, AupEnv}
use chronos_xserver.Aup.Expired.{get_n_expired, next_update_set}
use chronos_xserver.Monitor.{ServerContext, is_full_or}
use chronos_xserver.Process.{Packet}
use chronos_xserver.Worker.{World}

-- the local variables of `updateThread` that outlive a cycle
pub record Updater : Type 0 where
  pub first_symbol : ℕ
  pub num_updates : ℕ
  pub num_elements : ℕ
  pub update_list : List ℤ

-- What a cycle is given: the clock at its start and in the two calls of the update policy;
-- `chronosRequestUpdateFromListCreate`, with NULL for `none`; the wake-ups of the enqueue call; the
-- result of `chronosRequestFree`; and the flag `time_to_die` behind the sleep.
pub record CycleInput (Key Order Price : Type 0) : Type 0 where
  pub now : Timeval
  pub scanned : Timeval
  pub scheduled : Timeval
  pub create : ℕ → List ℤ → Option (Packet Key Order Price)
  pub wakeups : List (Wakeup (Packet Key Order Price))
  pub free_rc : ℕ
  pub dying : Bool

-- How a cycle ends: with the next one, with the exit of the thread, waiting for room in the system
-- queue, or with the process at an assertion or an access out of memory.
pub data Cycled (W : Type 0) : Type 0 where
  goes_on : Updater → W → Cycled W
  leaves : W → Cycled W
  waits : W → Cycled W
  crashed : Cycled W

-- the loop `update_list[i] = i + first_symbol`, with `left` rounds to go
pub list_from : ℕ → ℕ → ℕ → List ℤ → Call (List ℤ)
list_from zero i first_symbol update_list = done update_list
list_from (suc left) i first_symbol update_list =
    let rest = list_from left (i + 1) first_symbol (set update_list i (pos (i + first_symbol))) in
    if ltb i (length update_list) then rest else overrun

-- The thread before its loop. What is in the array before is an argument, and the product is taken
-- to fit an `int`; no number of updates fails the assertion.
pub start_updater : ℕ → ℕ → List ℤ → Call Updater
start_updater thread_num zero update_list = aborted
start_updater thread_num (suc n) update_list =
    list_from (suc n) 0 (thread_num * suc n) update_list >>= λ filled. done (record {
      first_symbol = thread_num * suc n;
      num_updates = suc n;
      num_elements = suc n;
      update_list = filled;
    })

module _ {fp : Floats} {Key Order Price : Type 0} where
  -- from `nothingToDo` on
  abbrev pub nothing_to_do :
      CycleInput Key Order Price
      → Updater
      → World fp Key Order Price
      → Cycled (World fp Key Order Price)
  nothing_to_do i l w = if i.dying then leaves w else goes_on l w

  abbrev pub enqueued :
      CycleInput Key Order Price
      → Updater
      → World fp Key Order Price
      → Outcome (Packet Key Order Price) (Unit {0})
      → Cycled (World fp Key Order Price)
  enqueued i l w (success q _) =
      if i.free_rc == server_success
      then nothing_to_do i l (record w { sys_queue = q })
      else leaves (record w { sys_queue = q })
  enqueued i l w (failed q) = leaves (record w { sys_queue = q })
  enqueued i l w (waiting q) = waits (record w { sys_queue = q })
  enqueued i l w invalid_argument = leaves w
  enqueued i l w fault = crashed

module _ {fp : Floats} {Key Order Price : Type 0} (blank : Packet Key Order Price) where
  -- the test of `requestH`, and the call that puts it in
  abbrev pub send :
      CycleInput Key Order Price
      → Updater
      → World fp Key Order Price
      → Option (Packet Key Order Price)
      → Cycled (World fp Key Order Price)
  send i l w none = leaves w
  send i l w (some request) =
      enqueued i l w
        (enqueue_system_transaction blank (some request) (some i.now) i.wakeups (some w.sys_queue))

  -- behind `chronos_aup_next_update_set`
  abbrev pub rescheduled :
      CycleInput Key Order Price
      → Updater
      → World fp Key Order Price
      → Call (AupEnv fp)
      → Cycled (World fp Key Order Price)
  rescheduled i l w (done env) =
      send i l (record w { context = record w.context { aup_env = env } })
        (i.create l.num_elements l.update_list)
  rescheduled i l w aborted = crashed
  rescheduled i l w overrun = crashed

  -- behind `chronos_aup_get_n_expired`
  abbrev pub scanned_for :
      CycleInput Key Order Price
      → Updater
      → World fp Key Order Price
      → Call (ℕ × List ℤ)
      → Cycled (World fp Key Order Price)
  scanned_for i l w (done (zero, list)) =
      nothing_to_do i (record l { num_elements = 0; update_list = list }) w
  scanned_for i l w (done (suc n, list)) =
      rescheduled i (record l { num_elements = suc n; update_list = list }) w
        (next_update_set fp w.context.aup_env (suc n) list i.scheduled)
  scanned_for i l w aborted = crashed
  scanned_for i l w overrun = crashed

  -- One cycle. The request is created before the update policy is told, but from the same list and
  -- without a look at the environment.
  pub cycle :
      CycleInput Key Order Price
      → Updater
      → World fp Key Order Price
      → Cycled (World fp Key Order Price)
  cycle i l w =
      if is_full_or fp mode_aup w.context
      then scanned_for i l w (
          get_n_expired fp w.context.aup_env l.first_symbol l.num_updates
            num_stock_updates_per_update_thread l.update_list i.scanned)
      else send i l w (i.create l.num_elements l.update_list)
