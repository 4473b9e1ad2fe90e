-- ===== src/System/Pool/Fit.antt =====
-- What each step of the threads of a pool leaves: a sound world, in which the update threads are still
-- ready for their cycles.
use chronos_xserver.Prelude.{
  ℕ, ◌^◌, ◌<◌, ◌≡◌, refl, sym, subst, true, some, List, [], ◌∷◌, ◌++◌, ◌==◌, All, Option, none,
  if_cases,
}
use chronos_xserver.Config.{server_success}
use chronos_xserver.Floats.{Floats}
use chronos_xserver.Monitor.{ServerContext}
use chronos_xserver.Worker.{crashed, hangs, Stepped, moved, exits}
use chronos_xserver.Worker.Mode.{KeepsMode, step-KeepsMode}
use chronos_xserver.Updater
use chronos_xserver.System.Pool.{Updaters, put}
use chronos_xserver.Updater.Mode.{CycleKeepsMode, cycle-KeepsMode}
use chronos_xserver.Time.{Timeval}
use chronos_xserver.Queue.{Queue, success}
use chronos_xserver.Queue.Api.{new_info, enqueue_user_transaction}
use chronos_xserver.Queue.Fifo.{contents}
use chronos_xserver.Queue.Valid.{IsValid}
use chronos_xserver.Args.{UserTxnTypes}
use chronos_xserver.Process.{Packet, Benchmark}
use chronos_xserver.Process.Safe.{IsDistinct, IsServable}
use chronos_xserver.Worker.{World, Pc, Local, Input, step}
use chronos_xserver.Worker.Trace.{grown}
use chronos_xserver.Worker.Safe.{IsAnswerable}
use chronos_xserver.Worker.Shared.{IsSound, Shares, IsShared}
use chronos_xserver.Worker.Shared.Steps.{step-IsShared}
use chronos_xserver.Updater.{Updater, CycleInput, goes_on, cycle}
use chronos_xserver.Updater.Fit.{KeepFit, Creates, All-last}
use chronos_xserver.Updater.Serves.{IsReady, IsServed, Serves, mode-IsReady, cycle-Serves}
use chronos_xserver.Updater.Longer.{IsLonger, Longer, cycle-Longer}

pub put-IsReady :
    (fp : Floats) (elements : ℕ) (us : Updaters) (j : ℕ) (o : Option Updater) (c : ServerContext fp)
    → ((k : ℕ) (u : Updater) → us k ≡ some u → IsReady fp elements u c)
    → ((u : Updater) → o ≡ some u → IsReady fp elements u c)
    → (k : ℕ) (u : Updater) → put j o us k ≡ some u
    → IsReady fp elements u c
put-IsReady fp elements us j o c others own k u =
    if_cases (λ x. x ≡ some u → IsReady fp elements u c) (j == k) o (us k) (λ _. own u)
      (λ _. others k u)

module _ (fp : Floats) (types : UserTxnTypes) (elements : ℕ) {Key Order Price : Type 0} where
  -- The invariant of the whole: the world is sound, and every update thread is ready for its cycles.
  pub record IsFit (us : Updaters) (w : World fp Key Order Price) : Type 0 where
    pub sound : IsSound fp types elements w
    pub ready : (j : ℕ) (u : Updater) → us j ≡ some u → IsReady fp elements u w.context

  pub moved-IsFit :
      (us : Updaters) (w w₁ : World fp Key Order Price)
      → IsFit us w
      → IsSound fp types elements w₁
      → w₁.context.running_mode ≡ w.context.running_mode
      → IsFit us w₁
  moved-IsFit us w w₁ v sound mode = record {
    sound = sound;
    ready = λ j u at. mode-IsReady u w.context w₁.context mode (v.ready j u at);
  }

  -- A step that keeps the invariant, and takes at most one request.
  abbrev pub FitStep :
      Updaters → Pc → World fp Key Order Price → Stepped (World fp Key Order Price) → Type 0
  FitStep us pc w (moved l w₁) = Shares fp types elements pc w w₁ × IsFit us w₁
  FitStep us pc w (exits w₁) = Shares fp types elements pc w w₁ × IsFit us w₁
  FitStep us pc w crashed = ⊥
  FitStep us pc w hangs = ⊥

  pub both-FitStep :
      (us : Updaters) (pc : Pc) (w : World fp Key Order Price)
      (r : Stepped (World fp Key Order Price))
      → IsFit us w
      → IsShared fp types elements pc w r
      → KeepsMode w.context.running_mode r
      → FitStep us pc w r
  both-FitStep us pc w (moved l w₁) v shares mode =
      (shares, moved-IsFit us w w₁ v shares.sound mode)
  both-FitStep us pc w (exits w₁) v (shares, told) mode =
      (shares, moved-IsFit us w w₁ v shares.sound mode)
  both-FitStep us pc w crashed v none_left mode = absurd none_left
  both-FitStep us pc w hangs v none_left mode = absurd none_left

module _ (fp : Floats) (types : UserTxnTypes) (update_stock : ℕ) {Key Order Price : Type 0}
    (bench : Benchmark Key Order Price) (blank : Packet Key Order Price) (elements : ℕ) where
  -- a cycle of an update thread in a sound world
  pub cycle_now :
      (u : Updater) (i : CycleInput Key Order Price) (w : World fp Key Order Price)
      → elements < 2 ^ 31
      → IsSound fp types elements w
      → IsReady fp elements u w.context
      → Creates i.create
      → i.wakeups ≡ []
      → Serves fp types elements (cycle blank i u w)
  cycle_now u i w small s ready creates quiet =
      cycle-Serves fp types blank elements i u w small (subst (KeepFit elements) (sym quiet) tt)
        (record { serviceable = s.serviceable; ring = s.sys }) ready creates

  -- what a cycle that goes on leaves
  record Updates (u₁ : Updater) (w w₁ : World fp Key Order Price) : Type 0 where
    sound : IsSound fp types elements w₁
    users : w₁.user_queue ≡ w.user_queue
    mode : w₁.context.running_mode ≡ w.context.running_mode

  served-Updates :
      (u u₁ : Updater) (i : CycleInput Key Order Price) (w w₁ : World fp Key Order Price)
      → IsSound fp types elements w
      → i.wakeups ≡ []
      → IsServed fp types elements w₁
      → IsLonger w w₁
      → w₁.context.running_mode ≡ w.context.running_mode
      → Updates u₁ w w₁
  served-Updates u u₁ i w w₁ s quiet served longer mode = record {
    sound = record {
      sys = served.ring;
      users = subst IsValid (sym longer.users) s.users;
      serviceable = served.serviceable;
    };
    users = longer.users;
    mode = mode;
  }

  update_threads-Updates :
      (u u₁ : Updater) (i : CycleInput Key Order Price) (w w₁ : World fp Key Order Price)
      → elements < 2 ^ 31
      → IsSound fp types elements w
      → IsReady fp elements u w.context
      → Creates i.create
      → i.wakeups ≡ []
      → cycle blank i u w ≡ goes_on u₁ w₁
      → Updates u₁ w w₁ × IsReady fp elements u₁ w₁.context
  update_threads-Updates u u₁ i w w₁ small s ready creates quiet e =
      let (served, ready₁) =
        subst (Serves fp types elements) e (cycle_now u i w small s ready creates quiet) in
      let longer = subst (Longer w) e (cycle-Longer blank i u w quiet s.sys) in
      let mode =
        subst (CycleKeepsMode w.context.running_mode) e
          (cycle-KeepsMode w.context.running_mode blank i u w refl) in
      (served-Updates u u₁ i w w₁ s quiet served longer mode, ready₁)

  retires-Updates :
      (u : Updater) (i : CycleInput Key Order Price) (w w₁ : World fp Key Order Price)
      → elements < 2 ^ 31
      → IsSound fp types elements w
      → IsReady fp elements u w.context
      → Creates i.create
      → i.wakeups ≡ []
      → cycle blank i u w ≡ Updater.leaves w₁
      → Updates u w w₁
  retires-Updates u i w w₁ small s ready creates quiet e =
      let served =
        subst (Serves fp types elements) e (cycle_now u i w small s ready creates quiet) in
      let longer = subst (Longer w) e (cycle-Longer blank i u w quiet s.sys) in
      let mode =
        subst (CycleKeepsMode w.context.running_mode) e
          (cycle-KeepsMode w.context.running_mode blank i u w refl) in
      served-Updates u u i w w₁ s quiet served longer mode

  pub dispatches-IsSound :
      (w : World fp Key Order Price) (q : Queue (Packet Key Order Price))
      (p : Packet Key Order Price) (enqueued : Timeval) (done_p rc_p t : ℕ) (cells : ℕ → ℕ)
      → IsSound fp types elements w
      → IsServable types elements p
      → enqueue_user_transaction blank
          (some p)
          (some enqueued)
          true
          (some done_p)
          (some rc_p)
          []
          (some w.user_queue)
        ≡ success q t
      → IsSound fp types elements (record w { user_queue = q; cells = cells })
        × (contents q
            ≡ contents w.user_queue
              ++ (record (new_info blank p enqueued (some done_p) (some rc_p)) { ticket = t } ∷ []))
  unfolding enqueue_user_transaction
  dispatches-IsSound w q p enqueued done_p rc_p t cells s servable e =
      let info = new_info blank p enqueued (some done_p) (some rc_p) in
      let (last, more, v) =
        grown fp types update_stock bench info w.user_queue.has_die_fp t w.user_queue q s.users e in
      (
        record {
          sys = s.sys;
          users = v;
          serviceable = record {
            env = s.serviceable.env;
            users = subst (All (IsAnswerable types elements)) (sym last) (
                All-last (IsAnswerable types elements) (contents w.user_queue) _ s.serviceable.users
                  (record {
                    servable = servable;
                    done_p = done_p;
                    has_done = refl;
                    rc_p = rc_p;
                    has_rc = refl;
                  }));
            refreshes = s.serviceable.refreshes;
          };
        },
        last,
      )

  pub step-FitStep :
      (us : Updaters) (i : Input) (frees : List ℕ) (l : Local) (w : World fp Key Order Price)
      → IsDistinct types
      → i.run.frees ≡ server_success ∷ frees
      → IsFit fp types elements us w
      → FitStep fp types elements us l.pc w (step fp types update_stock bench i l w)
  step-FitStep us i frees l w distinct f v =
      both-FitStep fp types elements us l.pc w (step fp types update_stock bench i l w) v
        (step-IsShared fp types update_stock bench distinct elements i frees l w f v.sound)
        (step-KeepsMode fp types update_stock bench w.context.running_mode i l w refl)

  pub updates-IsFit :
      (us : Updaters) (j : ℕ) (u u₁ : Updater) (i : CycleInput Key Order Price)
      (w w₁ : World fp Key Order Price)
      → elements < 2 ^ 31
      → IsFit fp types elements us w
      → us j ≡ some u
      → Creates i.create
      → i.wakeups ≡ []
      → cycle blank i u w ≡ goes_on u₁ w₁
      → IsFit fp types elements (put j (some u₁) us) w₁ × (w₁.user_queue ≡ w.user_queue)
  updates-IsFit us j u u₁ i w w₁ small v at creates quiet e =
      let (after, ready₁) =
        update_threads-Updates u u₁ i w w₁ small v.sound (v.ready j u at) creates quiet e in
      (
        record {
          sound = after.sound;
          ready =
              put-IsReady fp elements us j (some u₁) w₁.context
                (moved-IsFit fp types elements us w w₁ v after.sound after.mode).ready
                (λ u' same.
                  let this : u₁ ≡ u' = cc in
                  subst (λ x. IsReady fp elements x w₁.context) this ready₁);
        },
        after.users,
      )

  pub retires-IsFit :
      (us : Updaters) (j : ℕ) (u : Updater) (i : CycleInput Key Order Price)
      (w w₁ : World fp Key Order Price)
      → elements < 2 ^ 31
      → IsFit fp types elements us w
      → us j ≡ some u
      → Creates i.create
      → i.wakeups ≡ []
      → cycle blank i u w ≡ Updater.leaves w₁
      → IsFit fp types elements (put j none us) w₁ × (w₁.user_queue ≡ w.user_queue)
  retires-IsFit us j u i w w₁ small v at creates quiet e =
      let after = retires-Updates u i w w₁ small v.sound (v.ready j u at) creates quiet e in
      (
        record {
          sound = after.sound;
          ready =
              put-IsReady fp elements us j none w₁.context
                (moved-IsFit fp types elements us w w₁ v after.sound after.mode).ready
                (λ u' same. absurd (cc same));
        },
        after.users,
      )
