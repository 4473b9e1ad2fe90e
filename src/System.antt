-- ===== src/System.antt =====
-- startup_server.c: the processing thread, any number of update threads and handlers, and whoever sets
-- `time_to_die`, on one world. A thread that waits for room in a queue moves once there is some.
pub mod Pool
pub mod Boot
mod Tests
use chronos_xserver.Prelude.{
  ℕ, zero, suc, ◌+◌, ◌^◌, ◌≤◌, ◌<◌, ◌≡◌, refl, sym, subst, ap, ◌∙◌, Bool, true, false, Option, none,
  some, List, [], ◌∷◌, ◌++◌, arith, All,
}
use chronos_xserver.Config.{server_success, server_fail}
use chronos_xserver.Floats.{Floats}
use chronos_xserver.Time.{Timeval}
use chronos_xserver.Queue.{TxnInfo, Queue, success, enqueue_transaction}
use chronos_xserver.Queue.Api.{new_info, enqueue_user_transaction}
use chronos_xserver.Queue.Fifo.{contents}
use chronos_xserver.Args.{UserTxnTypes}
use chronos_xserver.Process.{Packet, Benchmark}
use chronos_xserver.Process.Safe.{IsDistinct, IsServable}
use chronos_xserver.Worker.{World, Pc, Local, Input, Stepped, moved, step, store_cell}
use chronos_xserver.Worker.Valid.{IsRunning, Going}
use chronos_xserver.Worker.Trace.{grown, Promise-longer, user_grown-IsRunning, changed-IsRunning}
use chronos_xserver.Worker.Safe.{IsAnswerable, Serviceable, IsSafe, step-IsSafe}
use chronos_xserver.Updater.{Updater, CycleInput, Cycled, goes_on, cycle}
use chronos_xserver.Updater.Fit.{KeepFit, Creates, All-last}
use chronos_xserver.Updater.Serves.{IsReady, IsServed, Serves, cycle-Serves}
use chronos_xserver.Updater.Longer.{IsLonger, Longer, cycle-Longer}

module _ (fp : Floats) (types : UserTxnTypes) (update_stock : ℕ) {Key Order Price : Type 0}
    (bench : Benchmark Key Order Price) (blank : Packet Key Order Price) (elements : ℕ) where
  -- What the threads can bring about: steps of the processing thread with data packets that can be
  -- freed; cycles of update threads whose range lies in the environment; requests that handlers put
  -- in, if they can be served; and the end.
  pub data Reach
      : Local → World fp Key Order Price → Local → World fp Key Order Price → Type 0 where
    here : {l : Local} {w : World fp Key Order Price} → Reach l w l w
    works :
        {l l₁ l' : Local} {w w₁ w' : World fp Key Order Price} (i : Input) (frees : List ℕ)
        → i.run.frees ≡ server_success ∷ frees
        → step fp types update_stock bench i l w ≡ moved l₁ w₁
        → Reach l₁ w₁ l' w'
        → Reach l w l' w'
    refreshes :
        {l l' : Local} {w w₁ w' : World fp Key Order Price} (u u₁ : Updater)
        (i : CycleInput Key Order Price)
        → IsReady fp elements u w.context
        → Creates i.create
        → i.wakeups ≡ []
        → cycle blank i u w ≡ goes_on u₁ w₁
        → Reach l w₁ l' w'
        → Reach l w l' w'
    dispatches :
        {l l' : Local} {w w' : World fp Key Order Price} {q : Queue (Packet Key Order Price)}
        (p : Packet Key Order Price) (ts : Timeval) (done_p rc_p t : ℕ)
        → IsServable types elements p
        → enqueue_user_transaction blank
            (some p)
            (some ts)
            true
            (some done_p)
            (some rc_p)
            []
            (some w.user_queue)
          ≡ success q t
        → Reach l
            (record w {
              user_queue = q;
              cells = store_cell done_p 0 (store_cell rc_p server_fail w.cells);
            })
            l'
            w'
        → Reach l w l' w'
    dies :
        {l l' : Local} {w w' : World fp Key Order Price}
        → Reach l (record w { time_to_die = true }) l' w'
        → Reach l w l' w'

  -- the invariant of the whole
  pub record IsSound (l : Local) (w : World fp Key Order Price) : Type 0 where
    pub running : IsRunning l.pc w
    pub serviceable : Serviceable fp types elements w

  works-IsSound :
      (i : Input) (frees : List ℕ) (l l₁ : Local) (w w₁ : World fp Key Order Price)
      → IsDistinct types
      → i.run.frees ≡ server_success ∷ frees
      → IsSound l w
      → step fp types update_stock bench i l w ≡ moved l₁ w₁
      → IsSound l₁ w₁
  works-IsSound i frees l l₁ w w₁ distinct f s e =
      let (safe, running) =
        step-IsSafe fp types update_stock bench distinct elements i frees l w f s.running
          s.serviceable in
      record {
        running = subst (Going (λ l' w'. IsRunning l'.pc w')) e running;
        serviceable = subst (IsSafe fp types elements l.pc i l w) e safe;
      }

  longer-IsRunning :
      (pc : Pc) (w w₁ : World fp Key Order Price)
      → IsRunning pc w
      → IsLonger w w₁
      → IsServed fp types elements w₁
      → IsRunning pc w₁
  longer-IsRunning pc w w₁ v longer served = record {
    sys = served.ring;
    users = rw longer.users v.users;
    promise =
        Promise-longer fp types update_stock bench pc w w₁ longer.systems
          (rw longer.users (omega arith)) v.promise;
  }

  cycle_now :
      (u : Updater) (i : CycleInput Key Order Price) (l : Local) (w : World fp Key Order Price)
      → elements < 2 ^ 31
      → IsSound l w
      → IsReady fp elements u w.context
      → Creates i.create
      → i.wakeups ≡ []
      → Serves fp types elements (cycle blank i u w)
  cycle_now u i l w small s ready creates quiet =
      cycle-Serves fp types blank elements i u w small (subst (KeepFit elements) (sym quiet) tt)
        (record { serviceable = s.serviceable; ring = s.running.sys }) ready creates

  refreshes-IsSound :
      (u u₁ : Updater) (i : CycleInput Key Order Price) (l : Local)
      (w w₁ : World fp Key Order Price)
      → elements < 2 ^ 31
      → IsSound l w
      → IsReady fp elements u w.context
      → Creates i.create
      → i.wakeups ≡ []
      → cycle blank i u w ≡ goes_on u₁ w₁
      → IsSound l w₁
  refreshes-IsSound u u₁ i l w w₁ small s ready creates quiet e =
      let served =
        (subst (Serves fp types elements) e (cycle_now u i l w small s ready creates quiet)).0 in
      let longer = subst (Longer w) e (cycle-Longer blank i u w quiet s.running.sys) in
      record {
        running = longer-IsRunning l.pc w w₁ s.running longer served;
        serviceable = served.serviceable;
      }

  dispatches-IsSound :
      (l : Local) (w : World fp Key Order Price) (q : Queue (Packet Key Order Price))
      (p : Packet Key Order Price) (ts : Timeval) (done_p rc_p t : ℕ) (cells : ℕ → ℕ)
      → IsSound l w
      → IsServable types elements p
      → enqueue_user_transaction blank
          (some p)
          (some ts)
          true
          (some done_p)
          (some rc_p)
          []
          (some w.user_queue)
        ≡ success q t
      → IsSound l (record w { user_queue = q; cells = cells })
  unfolding enqueue_user_transaction
  dispatches-IsSound l w q p ts done_p rc_p t cells s servable e =
      let info = new_info blank p ts (some done_p) (some rc_p) in
      let fp₁ = w.user_queue.has_die_fp in
      let (last, more, v) =
        grown fp types update_stock bench info fp₁ t w.user_queue q s.running.users e in
      let grown_world = record w { user_queue = q } in
      record {
        running =
            changed-IsRunning fp types update_stock bench l.pc grown_world w.context w.warming_up
              w.time_to_die cells
              (user_grown-IsRunning fp types update_stock bench l.pc info fp₁ t w q s.running e);
        serviceable = record {
          env = s.serviceable.env;
          users = subst (All (IsAnswerable types elements)) (sym last) (
              All-last (IsAnswerable types elements) (contents w.user_queue) _ s.serviceable.users
                (record {
                  servable = servable;
                  done_p = done_p;
                  has_done = refl;
                  rc_p = rc_p;
                  has_rc = refl;
                }));
          refreshes = s.serviceable.refreshes;
        };
      }

  pub Reach-IsSound :
      {l l' : Local} {w w' : World fp Key Order Price}
      → IsDistinct types
      → elements < 2 ^ 31
      → IsSound l w
      → Reach l w l' w'
      → IsSound l' w'
  Reach-IsSound distinct small s here = s
  Reach-IsSound distinct small s (works {l = l} {l₁} {w = w} {w₁} i frees f e run) =
      Reach-IsSound distinct small (works-IsSound i frees l l₁ w w₁ distinct f s e) run
  Reach-IsSound distinct small s (refreshes {l = l} {w = w} {w₁} u u₁ i ready creates quiet e run) =
      Reach-IsSound distinct small (refreshes-IsSound u u₁ i l w w₁ small s ready creates quiet e)
        run
  Reach-IsSound distinct small s
        (dispatches {l = l} {w = w} {q = q} p ts done_p rc_p t servable e run) =
      Reach-IsSound distinct small (dispatches-IsSound l w q p ts done_p rc_p t _ s servable e) run
  Reach-IsSound distinct small s (dies {l = l} {w = w} run) =
      Reach-IsSound distinct small
        (record {
          running =
              changed-IsRunning fp types update_stock bench l.pc w w.context w.warming_up true
                w.cells s.running;
          serviceable = record {
            env = s.serviceable.env;
            users = s.serviceable.users;
            refreshes = s.serviceable.refreshes;
          };
        })
        run

  -- From a sound world on, whatever the threads have done in whatever order: the next step of the
  -- processing thread is safe, if data packets can be freed, and so is the next cycle of an update
  -- thread whose range lies in the environment.
  pub Reach-IsSafe :
      {l l' : Local} {w w' : World fp Key Order Price} (i : Input) (frees : List ℕ) (u : Updater)
      (ci : CycleInput Key Order Price)
      → IsDistinct types
      → elements < 2 ^ 31
      → IsSound l w
      → Reach l w l' w'
      → i.run.frees ≡ server_success ∷ frees
      → IsReady fp elements u w'.context
      → Creates ci.create
      → ci.wakeups ≡ []
      → IsSafe fp types elements l'.pc i l' w' (step fp types update_stock bench i l' w')
        × Serves fp types elements (cycle blank ci u w')
  Reach-IsSafe {l' = l'} {w' = w'} i frees u ci distinct small s run f ready creates quiet =
      let s' = Reach-IsSound distinct small s run in
      (
        (step-IsSafe fp types update_stock bench distinct elements i frees l' w' f s'.running
            s'.serviceable).0,
        cycle_now u ci l' w' small s' ready creates quiet,
      )
