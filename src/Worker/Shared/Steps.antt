-- ===== src/Worker/Shared/Steps.antt =====
-- Each step of one of several processing threads.
use chronos_xserver.Prelude.{
  ℕ, zero, suc, ◌<◌, ◌≡◌, refl, subst, some, List, [], ◌∷◌, arith, ◌⊎◌, All, inl, inr, if_cases,
  ltb, take,
}
use chronos_xserver.Config.{server_success}
use chronos_xserver.Floats.{Floats}
use chronos_xserver.Queue.{Queue, queue_size}
use chronos_xserver.Queue.Fifo.{contents, contents_of_empty}
use chronos_xserver.Queue.Api.AtOnce.{
  dequeue_system_transaction-at_once, dequeue_user_transaction-at_once,
  dequeue_system_transaction-Nothing, dequeue_user_transaction-Nothing,
}
use chronos_xserver.Args.{UserTxnTypes}
use chronos_xserver.Process.{Benchmark}
use chronos_xserver.Process.Safe.{
  IsDistinct, IsRefresh, IsServable-magic, process_refresh_transaction-Ends,
  process_user_transaction-Ends,
}
use chronos_xserver.Worker.{
  World, Pc, top, refresh, user, serve, clock, Local, Input, wakeups, run_of, step_at, step,
}
use chronos_xserver.Worker.Safe.{IsAnswerable}
use chronos_xserver.Worker.Shared.{
  IsSound, IsShared, quiet-Shares, clock_step-IsShared, refreshed-IsShared, answered-IsShared,
}

empty_or : (n : ℕ) → (n ≡ 0) ⊎ (0 < n)
empty_or n = omega arith

empty-contents : {R : Type 0} (q : Queue R) → q.occupied ≡ 0 → take 1 (contents q) ≡ []
empty-contents q empty = rw (contents_of_empty q empty) refl

module _ (fp : Floats) (types : UserTxnTypes) (update_stock : ℕ) {Key Order Price : Type 0}
    (bench : Benchmark Key Order Price) (distinct : IsDistinct types) (elements : ℕ) where
  refresh-IsShared :
      (n : ℕ) (i : Input) (l : Local) (w : World fp Key Order Price)
      → IsSound fp types elements w
      → IsShared fp types elements
          (refresh (suc n))
          w
          (step_at fp types update_stock bench (refresh (suc n)) i l w)
  refresh-IsShared n i l w v = elim (empty_or w.sys_queue.occupied) [
    | inl empty ↦
        elim (dequeue_system_transaction-Nothing i.woken w.time_to_die w.sys_queue empty) [
          | inl waits ↦ rw waits (
              quiet-Shares fp types elements (refresh (suc n)) w w v refl refl refl refl
                (empty-contents w.sys_queue empty))
          | inr (fails, die) ↦ rw fails (
            quiet-Shares fp types elements (refresh (suc n)) w w v refl refl refl refl
                (empty-contents w.sys_queue empty),
            die,
          )
        ]
    | inr some_in ↦
        let (info, out, split) =
          dequeue_system_transaction-at_once (wakeups i w) w.sys_queue v.sys some_in in
        let (fits, rest) =
          subst (All (λ info. IsRefresh elements info.request)) split v.serviceable.refreshes in
        rw (out, fits.magic)
          (refreshed-IsShared fp types elements n l w info _ v some_in split rest (
            process_refresh_transaction-Ends fp types update_stock bench elements (run_of i w)
              info.txn_enqueue info.request w.context v.serviceable.env fits))
  ]

  serve-IsShared :
      (i : Input) (frees : List ℕ) (l : Local) (w : World fp Key Order Price)
      → i.run.frees ≡ server_success ∷ frees
      → IsSound fp types elements w
      → IsShared fp types elements serve w (step_at fp types update_stock bench serve i l w)
  serve-IsShared i frees l w f v = elim (empty_or w.user_queue.occupied) [
    | inl empty ↦ elim (dequeue_user_transaction-Nothing i.woken w.time_to_die w.user_queue empty) [
      | inl waits ↦ rw waits (
          quiet-Shares fp types elements serve w w v refl refl refl
            (empty-contents w.user_queue empty) refl)
      | inr (fails, die) ↦ rw fails (
        quiet-Shares fp types elements serve w w v refl refl refl
            (empty-contents w.user_queue empty) refl,
        die,
      )
    ]
    | inr some_in ↦
        let (info, out, split) =
          dequeue_user_transaction-at_once (wakeups i w) w.user_queue v.users some_in in
        let (fits, rest) = subst (All (IsAnswerable types elements)) split v.serviceable.users in
        rw (out, fits.has_done, fits.has_rc, IsServable-magic types elements _ fits.servable)
          (answered-IsShared fp types elements fits.done_p fits.rc_p l w info _ v some_in split rest
            (process_user_transaction-Ends fp types update_stock bench elements (run_of i w) frees
              info.txn_enqueue info.request w.context distinct v.serviceable.env f fits.servable))
  ]

  step_at-IsShared :
      (pc : Pc) (i : Input) (frees : List ℕ) (l : Local) (w : World fp Key Order Price)
      → i.run.frees ≡ server_success ∷ frees
      → IsSound fp types elements w
      → IsShared fp types elements pc w (step_at fp types update_stock bench pc i l w)
  step_at-IsShared top i frees l w f v =
      if_cases (IsShared fp types elements top w) w.time_to_die _ _
        (λ told. (quiet-Shares fp types elements top w w v refl refl refl refl refl, told))
        (λ _. quiet-Shares fp types elements top w w v refl refl refl refl refl)
  step_at-IsShared (refresh zero) i frees l w f v =
      quiet-Shares fp types elements (refresh zero) w w v refl refl refl refl refl
  step_at-IsShared (refresh (suc n)) i frees l w f v = refresh-IsShared n i l w v
  step_at-IsShared user i frees l w f v =
      if_cases (IsShared fp types elements user w) (ltb 0 (queue_size (some w.user_queue))) _ _
        (λ _. quiet-Shares fp types elements user w w v refl refl refl refl refl)
        (λ _. quiet-Shares fp types elements user w w v refl refl refl refl refl)
  step_at-IsShared serve i frees l w f v = serve-IsShared i frees l w f v
  step_at-IsShared clock i frees l w f v =
      clock_step-IsShared fp types elements update_stock i l w v

  -- Whatever the other threads have done to the queues since its last step: with valid rings,
  -- requests that can be served and data packets that can be freed, the step of a processing thread
  -- neither fails an assertion, nor leaves its memory, nor hangs. It takes at most the oldest
  -- request out of one queue, leaves all others in order, and all this still holds behind it; and
  -- it leaves its loop only in a world in which `time_to_die` is set.
  pub step-IsShared :
      (i : Input) (frees : List ℕ) (l : Local) (w : World fp Key Order Price)
      → i.run.frees ≡ server_success ∷ frees
      → IsSound fp types elements w
      → IsShared fp types elements l.pc w (step fp types update_stock bench i l w)
  unfolding step
  step-IsShared i frees l w f v = step_at-IsShared l.pc i frees l w f v
