-- ===== src/System/Pool/Order.antt =====
-- Any number of processing and update threads: no step of theirs stops the process, and they serve the
-- user queue in its order.
use chronos_xserver.Prelude.{
  ℕ, ◌^◌, ◌<◌, ◌≡◌, refl, sym, subst, ap, ◌∙◌, true, some, List, [], ◌∷◌, ◌++◌, map, append-nil,
  ltb, ◌*◌, ◌≤◌, if◌then◌else◌, if_cases, replicate, length-replicate, ltb→lt, arith, pos, none,
}
use chronos_xserver.Config.{server_success}
use chronos_xserver.Floats.{Floats}
use chronos_xserver.Queue.Fifo.{contents}
use chronos_xserver.Args.{UserTxnTypes}
use chronos_xserver.Process.{Packet, Benchmark}
use chronos_xserver.Process.Safe.{IsDistinct}
use chronos_xserver.Worker.{World, Pc, Local, Input, step}
use chronos_xserver.Worker.Valid.{serves}
use chronos_xserver.Worker.Trace.{Info, after_step, after_put}
use chronos_xserver.Worker.Shared.{IsSound, Shares, IsShared}
use chronos_xserver.Worker.Shared.Steps.{step-IsShared}
use chronos_xserver.Updater.{Updater, CycleInput, cycle}
use chronos_xserver.Updater.Fit.{Creates}
use chronos_xserver.Updater.Serves.{IsReady, Serves}
use chronos_xserver.Updater.Start.{started, start_updater-IsReady}
use chronos_xserver.System.Pool.{
  Updaters, retires, Threads, by_thread, Runs, rests, works, leaves, gives_up, updates, dispatches,
  dies,
}
use chronos_xserver.System.Pool.Fit.{
  IsFit, FitStep, step-FitStep, cycle_now, updates-IsFit, retires-IsFit, dispatches-IsSound,
  moved-IsFit,
}

by_thread-map :
    {A : Type 0} (j : ℕ) (xs : List A) (ys : List (ℕ × A))
    → map (λ e. e.1) (by_thread j xs ++ ys) ≡ xs ++ map (λ e. e.1) ys
by_thread-map j [] ys = refl
by_thread-map j (x ∷ xs) ys = ap (λ zs. x ∷ zs) (by_thread-map j xs ys)

-- Update threads as they start, each with its own 30 data items.
abbrev pub started_updaters : ℕ → Updaters
started_updaters num_threads j = if ltb j num_threads then some (started j) else none

pub started_updaters-IsFit :
    (fp : Floats) (types : UserTxnTypes) {Key Order Price : Type 0} (elements num_threads : ℕ)
    (w : World fp Key Order Price)
    → num_threads * 30 ≤ elements
    → IsSound fp types elements w
    → IsFit fp types elements (started_updaters num_threads) w
started_updaters-IsFit fp types elements num_threads w inside s = record {
  sound = s;
  ready = λ j u at.
      if_cases (λ x. x ≡ some u → IsReady fp elements u w.context) (ltb j num_threads)
        (some (started j)) none
        (λ below same.
          let this : started j ≡ u = cc in
          subst (λ x. IsReady fp elements x w.context) this
            (start_updater-IsReady fp elements j (replicate 30 (pos 0)) w.context
              (length-replicate 30 (pos 0)) (omega (arith, ltb→lt j num_threads below))).1)
        (λ _ same. absurd (cc same)) at;
}

module _ (fp : Floats) (types : UserTxnTypes) (update_stock : ℕ) {Key Order Price : Type 0}
    (bench : Benchmark Key Order Price) (blank : Packet Key Order Price) (elements : ℕ) where
  -- a step of a processing thread, and the run behind it
  after_works :
      (pc : Pc) (w w₁ w' : World fp Key Order Price) (ins : List (Info Key Order Price))
      (outs : List (ℕ × Info Key Order Price)) (j : ℕ)
      → Shares fp types elements pc w w₁
      → contents w₁.user_queue ++ ins ≡ map (λ e. e.1) outs ++ contents w'.user_queue
      → contents w.user_queue ++ ins
        ≡ map (λ e. e.1) (by_thread j (serves pc w) ++ outs) ++ contents w'.user_queue
  after_works pc w w₁ w' ins outs j shares rest =
      after_step _ _ _ (serves pc w) ins (map (λ e. e.1) outs) shares.user_fifo rest
      ∙ ap (λ x. x ++ contents w'.user_queue) (sym (by_thread-map j (serves pc w) outs))

  -- Conditions: the user transactions have different numbers; the environment has fewer than 2^31
  -- items; at first the rings are valid, all stored requests can be served, and every update thread
  -- is ready for its cycles; handlers put in only requests that can be served; the requests that
  -- update threads create have their magic number and name the listed items; every data packet can
  -- be freed at the first call; and a thread calls for room in a queue once there is some. Then, with
  -- any number of processing and update threads and in any order of their steps: the rings stay
  -- valid, the stored requests can be served and the update threads are ready, and the user requests
  -- that the threads have taken are, in this order, the first of those that were stored and were put
  -- in; each is taken once, by one thread, and the others are still stored.
  pub Runs-fifo :
      {ts ts' : Threads} {us us' : Updaters} {w w' : World fp Key Order Price}
      {ins : List (Info Key Order Price)} {outs : List (ℕ × Info Key Order Price)}
      → IsDistinct types
      → elements < 2 ^ 31
      → IsFit fp types elements us w
      → Runs fp types update_stock bench blank elements ts us w ins outs ts' us' w'
      → IsFit fp types elements us' w'
        × (contents w.user_queue ++ ins ≡ map (λ e. e.1) outs ++ contents w'.user_queue)
  Runs-fifo distinct small v rests = (v, append-nil _)
  Runs-fifo distinct small v
        (works {us = us} {w = w} {w₁} {w'} {l = l} {ins = ins} {outs} j i frees at f e run) =
      let (shares, v₁) =
        subst (FitStep fp types elements us l.pc w) e
          (step-FitStep fp types update_stock bench blank elements us i frees l w distinct f v) in
      let (v', rest) = Runs-fifo distinct small v₁ run in
      (v', after_works l.pc w w₁ w' ins outs j shares rest)
  Runs-fifo distinct small v
        (leaves {us = us} {w = w} {w₁} {w'} {l = l} {ins = ins} {outs} j i frees at f e run) =
      let (shares, v₁) =
        subst (FitStep fp types elements us l.pc w) e
          (step-FitStep fp types update_stock bench blank elements us i frees l w distinct f v) in
      let (v', rest) = Runs-fifo distinct small v₁ run in
      (v', after_works l.pc w w₁ w' ins outs j shares rest)
  Runs-fifo distinct small v (gives_up j at waits told run) = Runs-fifo distinct small v run
  Runs-fifo distinct small v
        (updates {us = us} {w = w} {w₁} {ins = ins} j u u₁ i at creates quiet e run) =
      let (v₁, same) =
        updates-IsFit fp types update_stock bench blank elements us j u u₁ i w w₁ small v at creates
          quiet e in
      let (v', rest) = Runs-fifo distinct small v₁ run in
      (v', ap (λ q. contents q ++ ins) (sym same) ∙ rest)
  Runs-fifo distinct small v
        (retires {us = us} {w = w} {w₁} {ins = ins} j u i at creates quiet e run) =
      let (v₁, same) =
        retires-IsFit fp types update_stock bench blank elements us j u i w w₁ small v at creates
          quiet e in
      let (v', rest) = Runs-fifo distinct small v₁ run in
      (v', ap (λ q. contents q ++ ins) (sym same) ∙ rest)
  Runs-fifo distinct small v
        (dispatches {us = us} {w = w} {q = q} {ins} {outs} p enqueued done_p rc_p t servable e
          run) =
      let (s₁, last) =
        dispatches-IsSound fp types update_stock bench blank elements w q p enqueued done_p rc_p t _
          v.sound servable e in
      let (v', rest) =
        Runs-fifo distinct small (moved-IsFit fp types elements us w _ v s₁ refl) run in
      (v', after_put _ _ _ ins (map (λ e. e.1) outs) _ last rest)
  Runs-fifo distinct small v (dies {us = us} {w = w} run) =
      Runs-fifo distinct small
        (moved-IsFit fp types elements us w (record w { time_to_die = true }) v
          (record {
            sys = v.sound.sys;
            users = v.sound.users;
            serviceable = record {
              env = v.sound.serviceable.env;
              users = v.sound.serviceable.users;
              refreshes = v.sound.serviceable.refreshes;
            };
          })
          refl)
        run

  -- Under the same conditions, with update threads as they start whose items all lie in the
  -- environment: the next step of any processing thread neither fails an assertion, nor leaves its
  -- memory, nor hangs, and the same holds of the next cycle of every update thread that still runs.
  pub Runs-IsShared :
      {ts ts' : Threads} {us' : Updaters} {w w' : World fp Key Order Price}
      {ins : List (Info Key Order Price)} {outs : List (ℕ × Info Key Order Price)} (num_threads : ℕ)
      (l : Local) (i : Input) (frees : List ℕ) (j : ℕ) (u : Updater)
      (ci : CycleInput Key Order Price)
      → IsDistinct types
      → elements < 2 ^ 31
      → num_threads * 30 ≤ elements
      → IsSound fp types elements w
      → Runs fp types update_stock bench blank elements ts
          (started_updaters num_threads)
          w
          ins
          outs
          ts'
          us'
          w'
      → i.run.frees ≡ server_success ∷ frees
      → us' j ≡ some u
      → Creates ci.create
      → ci.wakeups ≡ []
      → IsShared fp types elements l.pc w' (step fp types update_stock bench i l w')
        × Serves fp types elements (cycle blank ci u w')
  Runs-IsShared {w = w} {w'} num_threads l i frees j u ci distinct small inside s run f at creates
        quiet =
      let (v, order) =
        Runs-fifo distinct small (started_updaters-IsFit fp types elements num_threads w inside s)
          run in
      (
        step-IsShared fp types update_stock bench distinct elements i frees l w' f v.sound,
        cycle_now fp types update_stock bench blank elements u ci w' small v.sound (v.ready j u at)
            creates quiet,
      )
