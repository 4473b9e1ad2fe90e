-- ===== src/Updater/Thread/Lives.antt =====
-- The update thread from its start to its end: what it leaves of the shared world, and what it frees.
use chronos_xserver.Prelude.{
  ℕ, ◌+◌, ◌*◌, ◌^◌, ◌≤◌, ◌<◌, ◌≡◌, refl, Bool, true, false, ◌&&◌, List, [], ◌∷◌, All, if◌then◌else◌,
  length, ℤ,
}
use chronos_xserver.Config.{ready_queue_size, num_stock_updates_per_update_thread}
use chronos_xserver.Floats.{Floats}
use chronos_xserver.Args.{UserTxnTypes}
use chronos_xserver.Process.{Packet}
use chronos_xserver.Worker.{World}
use chronos_xserver.Updater.{Updater, Cycled, goes_on, leaves, waits, crashed, cycle}
use chronos_xserver.Updater.Fit.{KeepFit, Creates}
use chronos_xserver.Updater.Start.{started, start_updater-IsReady}
use chronos_xserver.Updater.Serves.{IsReady, IsServed, Serves, mode-IsReady, cycle-Serves}
use chronos_xserver.Updater.Thread.{
  Handles, prepared, Life, exited, at_cycle, blocked, stopped, Round, at_exit, then_cycles, cycles,
  update_thread,
}

module _ (fp : Floats) (types : UserTxnTypes) {Key Order Price : Type 0} (elements : ℕ) where
  -- A cycle of the thread and the work of others before it: they keep the stored requests
  -- serviceable and the running mode, and the library names the listed items.
  pub record IsFair (r : Round (World fp Key Order Price) Key Order Price) : Type 0 where
    pub keeps :
        (w : World fp Key Order Price)
        → IsServed fp types elements w
        → IsServed fp types elements (r.others w)
    pub mode :
        (w : World fp Key Order Price) → (r.others w).context.running_mode ≡ w.context.running_mode
    pub fit : KeepFit elements r.input.wakeups
    pub names : Creates r.input.create

  -- How the thread may stand; `ready` is whether it has got all its handles.
  abbrev pub Lives : Bool → Life (World fp Key Order Price) → Type 0
  Lives ready (exited freed w) = (freed ≡ ready) × IsServed fp types elements w
  Lives ready (at_cycle l w) =
      (ready ≡ true) × IsServed fp types elements w × IsReady fp elements l w.context
  Lives ready (blocked w) =
      (ready ≡ true) × IsServed fp types elements w × (w.sys_queue.occupied ≡ ready_queue_size)
  Lives ready stopped = ⊥

  at_exit-Lives :
      (r : Cycled (World fp Key Order Price)) → Serves fp types elements r → Lives true (at_exit r)
  at_exit-Lives (goes_on l w) (served, ready) = (refl, served, ready)
  at_exit-Lives (leaves w) s = (refl, s)
  at_exit-Lives (waits w) (served, full) = (refl, served, full)
  at_exit-Lives crashed s = s

  if-Lives :
      (b : Bool) (x y : Life (World fp Key Order Price))
      → Lives true x
      → Lives false y
      → Lives b (if b then x else y)
  if-Lives true x y up down = up
  if-Lives false x y up down = down

module _ (fp : Floats) (types : UserTxnTypes) {Key Order Price : Type 0}
    (blank : Packet Key Order Price) (elements : ℕ) where
  then_cycles-Serves :
      (r : Cycled (World fp Key Order Price))
      (more : Updater → World fp Key Order Price → Cycled (World fp Key Order Price))
      → ((l : Updater) (w : World fp Key Order Price)
          → IsServed fp types elements w
          → IsReady fp elements l w.context
          → Serves fp types elements (more l w))
      → Serves fp types elements r
      → Serves fp types elements (then_cycles blank r more)
  then_cycles-Serves (goes_on l w) more keeps (served, ready) = keeps l w served ready
  then_cycles-Serves (leaves w) more keeps s = s
  then_cycles-Serves (waits w) more keeps s = s
  then_cycles-Serves crashed more keeps s = s

  cycles-Serves :
      (rounds : List (Round (World fp Key Order Price) Key Order Price)) (l : Updater)
      (w : World fp Key Order Price)
      → elements < 2 ^ 31
      → All (IsFair fp types elements) rounds
      → IsServed fp types elements w
      → IsReady fp elements l w.context
      → Serves fp types elements (cycles blank rounds l w)
  unfolding cycles
  cycles-Serves [] l w small fair served ready = (served, ready)
  cycles-Serves (r ∷ rounds) l w small (f, fair) served ready =
      then_cycles-Serves (cycle blank r.input l (r.others w)) (cycles blank rounds)
        (λ l w. cycles-Serves rounds l w small fair)
        (cycle-Serves fp types blank elements r.input l (r.others w) small f.fit (f.keeps w served)
          (mode-IsReady l w.context (r.others w).context (f.mode w) ready) f.names)

  -- Conditions on an update thread with 30 items: they are in the environment, which has fewer than
  -- 2^31; all stored requests can be served at first; what other threads do between its cycles and
  -- while it waits keeps the stored requests serviceable and the running mode; and the request that
  -- the library creates for a list, if any, has its magic number and names just the entries of the
  -- list. Then, whatever the other calls return: the thread fails no assertion and touches no memory
  -- out of its array or the environment. It enters its loop only with all its handles, it waits only
  -- at a full queue, all stored requests can still be served, and at its exit it frees its client
  -- cache if and only if it has got one.
  pub update_thread-Lives :
      (argument : Bool) (h : Handles) (thread_num : ℕ) (array : List ℤ)
      (rounds : List (Round (World fp Key Order Price) Key Order Price))
      (w : World fp Key Order Price)
      → elements < 2 ^ 31
      → (thread_num + 1) * 30 ≤ elements
      → length array ≡ num_stock_updates_per_update_thread
      → All (IsFair fp types elements) rounds
      → IsServed fp types elements w
      → Lives fp types elements
          (argument && prepared h (started thread_num))
          (update_thread blank argument h thread_num 30 array rounds w)
  unfolding update_thread
  update_thread-Lives false h thread_num array rounds w small inside slots fair served =
      (refl, served)
  update_thread-Lives true h thread_num array rounds w small inside slots fair served =
      let (begun, ready) =
        start_updater-IsReady fp elements thread_num array w.context slots inside in
      let whole = cycles-Serves rounds (started thread_num) w small fair served ready in
      rw begun (
        if-Lives fp types elements (prepared h (started thread_num)) _ _
          (at_exit-Lives fp types elements _ whole) (refl, served))
