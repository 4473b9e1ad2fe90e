-- ===== src/System/Pool.antt =====
-- startup_server.c with several processing threads (option -t): they, any number of update threads and
-- handlers, and whoever sets `time_to_die`, on one world. A step of a processing thread is taken as
-- one; a thread that waits in a dequeue call repeats its step.
pub mod Fit
pub mod Order
use chronos_xserver.Prelude.{
  ℕ, suc, ◌+◌, ◌^◌, ◌<◌, ◌≡◌, refl, sym, subst, ap, ◌∙◌, ◌⊎◌, inl, inr, Bool, true, false, Option,
  none, some, List, [], ◌∷◌, ◌++◌, map, append-nil, append_assoc, ◌==◌, if◌then◌else◌, All,
}
use chronos_xserver.Config.{server_success, server_fail}
use chronos_xserver.Floats.{Floats}
use chronos_xserver.Time.{Timeval}
use chronos_xserver.Queue.{TxnInfo, Queue, success}
use chronos_xserver.Queue.Api.{new_info, enqueue_user_transaction}
use chronos_xserver.Queue.Fifo.{contents}
use chronos_xserver.Queue.Valid.{IsValid}
use chronos_xserver.Args.{UserTxnTypes}
use chronos_xserver.Process.{Packet, Benchmark}
use chronos_xserver.Process.Safe.{IsDistinct, IsServable}
use chronos_xserver.Worker.{
  World, Pc, refresh, serve, Local, Input, Stepped, moved, exits, step, store_cell,
}
use chronos_xserver.Worker.Valid.{serves}
use chronos_xserver.Worker.Trace.{Info, grown, after_step, after_put}
use chronos_xserver.Worker.Safe.{IsAnswerable, Serviceable}
use chronos_xserver.Worker.Shared.{IsSound, Shares, IsShared}
use chronos_xserver.Updater
use chronos_xserver.Updater.{Updater, CycleInput, Cycled, goes_on, cycle}
use chronos_xserver.Updater.Fit.{KeepFit, Creates, All-last}
use chronos_xserver.Updater.Serves.{IsReady, IsServed, Serves, cycle-Serves}
use chronos_xserver.Updater.Longer.{IsLonger, Longer, cycle-Longer}

-- The processing threads, and the update threads, by number, with `none` for one that does not run.
abbrev pub Threads : Type 0
Threads = ℕ → Option Local

abbrev pub Updaters : Type 0
Updaters = ℕ → Option Updater

abbrev pub put : {A : Type 0} → ℕ → Option A → (ℕ → Option A) → ℕ → Option A
put j a threads k = if j == k then a else threads k

-- Where a thread can wait for a request.
abbrev pub WaitsAt : Pc → Type 0
WaitsAt pc = (pc ≡ serve) ⊎ ((n : ℕ) × (pc ≡ refresh (suc n)))

-- requests, with the thread that has taken them
abbrev pub by_thread : {A : Type 0} → ℕ → List A → List (ℕ × A)
by_thread j xs = map (λ x. (j, x)) xs

module _ (fp : Floats) (types : UserTxnTypes) (update_stock : ℕ) {Key Order Price : Type 0}
    (bench : Benchmark Key Order Price) (blank : Packet Key Order Price) (elements : ℕ) where
  -- What the threads can bring about, with the user requests that the handlers put in and those
  -- that the processing threads take out: steps of a processing thread with data packets that can
  -- be freed, and its end, also when it is asked to die in a wait; cycles of update threads that
  -- need not wait, and their end; requests that handlers put in, if they can be served; and the
  -- end.
  pub data Runs
      : Threads
        → Updaters
        → World fp Key Order Price
        → List (Info Key Order Price)
        → List (ℕ × Info Key Order Price)
        → Threads
        → Updaters
        → World fp Key Order Price
        → Type 0 where
    rests :
        {ts : Threads} {us : Updaters} {w : World fp Key Order Price} → Runs ts us w [] [] ts us w
    works :
        {ts ts' : Threads} {us us' : Updaters} {w w₁ w' : World fp Key Order Price} {l l₁ : Local}
        {ins : List (Info Key Order Price)} {outs : List (ℕ × Info Key Order Price)} (j : ℕ)
        (i : Input) (frees : List ℕ)
        → ts j ≡ some l
        → i.run.frees ≡ server_success ∷ frees
        → step fp types update_stock bench i l w ≡ moved l₁ w₁
        → Runs (put j (some l₁) ts) us w₁ ins outs ts' us' w'
        → Runs ts us w ins (by_thread j (serves l.pc w) ++ outs) ts' us' w'
    leaves :
        {ts ts' : Threads} {us us' : Updaters} {w w₁ w' : World fp Key Order Price} {l : Local}
        {ins : List (Info Key Order Price)} {outs : List (ℕ × Info Key Order Price)} (j : ℕ)
        (i : Input) (frees : List ℕ)
        → ts j ≡ some l
        → i.run.frees ≡ server_success ∷ frees
        → step fp types update_stock bench i l w ≡ exits w₁
        → Runs (put j none ts) us w₁ ins outs ts' us' w'
        → Runs ts us w ins (by_thread j (serves l.pc w) ++ outs) ts' us' w'
    gives_up :
        {ts ts' : Threads} {us us' : Updaters} {w w' : World fp Key Order Price} {l : Local}
        {ins : List (Info Key Order Price)} {outs : List (ℕ × Info Key Order Price)} (j : ℕ)
        → ts j ≡ some l
        → WaitsAt l.pc
        → w.time_to_die ≡ true
        → Runs (put j none ts) us w ins outs ts' us' w'
        → Runs ts us w ins outs ts' us' w'
    updates :
        {ts ts' : Threads} {us us' : Updaters} {w w₁ w' : World fp Key Order Price}
        {ins : List (Info Key Order Price)} {outs : List (ℕ × Info Key Order Price)} (j : ℕ)
        (u u₁ : Updater) (i : CycleInput Key Order Price)
        → us j ≡ some u
        → Creates i.create
        → i.wakeups ≡ []
        → cycle blank i u w ≡ goes_on u₁ w₁
        → Runs ts (put j (some u₁) us) w₁ ins outs ts' us' w'
        → Runs ts us w ins outs ts' us' w'
    retires :
        {ts ts' : Threads} {us us' : Updaters} {w w₁ w' : World fp Key Order Price}
        {ins : List (Info Key Order Price)} {outs : List (ℕ × Info Key Order Price)} (j : ℕ)
        (u : Updater) (i : CycleInput Key Order Price)
        → us j ≡ some u
        → Creates i.create
        → i.wakeups ≡ []
        → cycle blank i u w ≡ Updater.leaves w₁
        → Runs ts (put j none us) w₁ ins outs ts' us' w'
        → Runs ts us w ins outs ts' us' w'
    dispatches :
        {ts ts' : Threads} {us us' : Updaters} {w w' : World fp Key Order Price}
        {q : Queue (Packet Key Order Price)} {ins : List (Info Key Order Price)}
        {outs : List (ℕ × Info Key Order Price)} (p : Packet Key Order Price) (enqueued : Timeval)
        (done_p rc_p t : ℕ)
        → IsServable types elements p
        → enqueue_user_transaction blank
            (some p)
            (some enqueued)
            true
            (some done_p)
            (some rc_p)
            []
            (some w.user_queue)
          ≡ success q t
        → Runs ts us
            (record w {
              user_queue = q;
              cells = store_cell done_p 0 (store_cell rc_p server_fail w.cells);
            })
            ins
            outs
            ts'
            us'
            w'
        → Runs ts us w
            (record (new_info blank p enqueued (some done_p) (some rc_p)) { ticket = t } ∷ ins)
            outs
            ts'
            us'
            w'
    dies :
        {ts ts' : Threads} {us us' : Updaters} {w w' : World fp Key Order Price}
        {ins : List (Info Key Order Price)} {outs : List (ℕ × Info Key Order Price)}
        → Runs ts us (record w { time_to_die = true }) ins outs ts' us' w'
        → Runs ts us w ins outs ts' us' w'
