-- ===== src/Updater/Thread.antt =====
-- startup_server.c: `updateThread` from its start to its end. The handles of the chronos library are
-- taken to be NULL or not; what other threads do between two cycles is a function on the world.
pub mod Lives
use chronos_xserver.Prelude.{ℕ, Bool, true, false, ◌&&◌, List, [], ◌∷◌, ◌==◌, if◌then◌else◌, ℤ}
use chronos_xserver.Config.{server_success}
use chronos_xserver.Floats.{Floats}
use chronos_xserver.Aup.{Call, done, aborted, overrun}
use chronos_xserver.Process.{Packet}
use chronos_xserver.Worker.{World}
use chronos_xserver.Updater.{
  Updater, CycleInput, Cycled, goes_on, leaves, waits, crashed, start_updater, cycle,
}

-- What the calls before the loop return: whether there is an environment, a cache and a client
-- cache, and the result of `chronosCacheSymbolsRangeSet` for a first symbol and a number of them.
pub record Handles : Type 0 where
  pub chronos_env : Bool
  pub chronos_cache : Bool
  pub range_set : ℕ → ℕ → ℕ
  pub client_cache : Bool

-- whether `clientCacheH` is not NULL behind these calls
abbrev pub prepared : Handles → Updater → Bool
prepared h l =
    h.chronos_env
    && (h.chronos_cache
        && (h.range_set l.first_symbol l.num_updates == server_success && h.client_cache))

-- How the thread stands: at its exit, with or without a call of `chronosClientCacheFree`; at the
-- start of a cycle; waiting for room in the system queue; or with the process at an assertion or
-- an access out of memory.
pub data Life (W : Type 0) : Type 0 where
  exited : Bool → W → Life W
  at_cycle : Updater → W → Life W
  blocked : W → Life W
  stopped : Life W

-- A cycle, and what the other threads do before it.
pub record Round (W Key Order Price : Type 0) : Type 0 where
  pub others : W → W
  pub input : CycleInput Key Order Price

-- the part behind `cleanup`, for a loop that comes to it
abbrev pub at_exit : {W : Type 0} → Cycled W → Life W
at_exit (goes_on l w) = at_cycle l w
at_exit (leaves w) = exited true w
at_exit (waits w) = blocked w
at_exit crashed = stopped

module _ {fp : Floats} {Key Order Price : Type 0} (blank : Packet Key Order Price) where
  abbrev pub then_cycles :
      Cycled (World fp Key Order Price)
      → (Updater → World fp Key Order Price → Cycled (World fp Key Order Price))
      → Cycled (World fp Key Order Price)
  then_cycles (goes_on l w) more = more l w
  then_cycles (leaves w) more = leaves w
  then_cycles (waits w) more = waits w
  then_cycles crashed more = crashed

  -- The loop over a list of cycles.
  unfoldable pub cycles :
      List (Round (World fp Key Order Price) Key Order Price)
      → Updater
      → World fp Key Order Price
      → Cycled (World fp Key Order Price)
  cycles [] l w = goes_on l w
  cycles (r ∷ rest) l w = then_cycles (cycle blank r.input l (r.others w)) (cycles rest)

  -- from the list of items on
  abbrev pub started_with :
      Handles
      → List (Round (World fp Key Order Price) Key Order Price)
      → World fp Key Order Price
      → Call Updater
      → Life (World fp Key Order Price)
  started_with h rounds w (done l) =
      if prepared h l then at_exit (cycles rounds l w) else exited false w
  started_with h rounds w aborted = stopped
  started_with h rounds w overrun = stopped

  -- The thread, for arguments that are NULL or not, its number, the number of its updates and what
  -- is in its array before.
  unfoldable pub update_thread :
      Bool
      → Handles
      → ℕ
      → ℕ
      → List ℤ
      → List (Round (World fp Key Order Price) Key Order Price)
      → World fp Key Order Price
      → Life (World fp Key Order Price)
  update_thread false h thread_num num_updates array rounds w = exited false w
  update_thread true h thread_num num_updates array rounds w =
      started_with h rounds w (start_updater thread_num num_updates array)
