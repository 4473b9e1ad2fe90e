-- ===== src/Worker/Moves.antt =====
-- What each step of the processing thread does to the two queues.
use chronos_xserver.Prelude.{
  ℕ, zero, suc, ◌*◌, ◌≡◌, refl, Option, none, some, ◌∷◌, arith, inl, inr, Bool-cases, ltb, leb, pos,
  ltb_ℤ,
}
use chronos_xserver.Config.{sampling_period_sec}
use chronos_xserver.Floats.{Floats}
use chronos_xserver.Time.{Timeval, diff_time}
use chronos_xserver.Queue.{TxnInfo, success, queue_size}
use chronos_xserver.Queue.Valid.{after_take, after_take-IsValid}
use chronos_xserver.Queue.Fifo.{contents}
use chronos_xserver.Queue.Api.AtOnce.{
  dequeue_system_transaction-at_once, dequeue_user_transaction-at_once,
}
use chronos_xserver.Aup.{Call, done, aborted, overrun}
use chronos_xserver.Args.{UserTxnTypes}
use chronos_xserver.Monitor.{ServerContext}
use chronos_xserver.Process.{Packet, Benchmark, UserEnd, returned, still_freeing}
use chronos_xserver.Worker.{
  unsigned_long, World, Pc, top, refresh, user, serve, clock, Local, Input, exits, wakeups,
  clock_step, refreshed, answered, user_taken, step_at,
}
use chronos_xserver.Worker.Valid.{
  IsRunning, Moves, Going, if-Going, quiet-Moves, served-Moves, stored_le, all_in, stored,
  not_stored,
}

module _ (fp : Floats) (types : UserTxnTypes) (update_stock : ℕ) {Key Order Price : Type 0}
    (bench : Benchmark Key Order Price) where
  clock_step-Moves :
      (now : Timeval) (l : Local) (w : World fp Key Order Price)
      → IsRunning clock w
      → Going (Moves clock w) (clock_step update_stock now l w)
  unfolding clock_step
  clock_step-Moves now l w v =
      elim (Bool-cases (
        leb l.total_experiment_duration_ms
          (unsigned_long (diff_time l.start_experiment_time now)))) [
            | inl over ↦ rw over tt
            | inr going ↦
                elim (Bool-cases
                  (ltb_ℤ (pos (1000 * sampling_period_sec)) (diff_time l.previous_sample now))) [
                    | inl due ↦
                        rw (going, due)
                          (quiet-Moves clock w _ _ v refl refl refl refl tt (λ _. omega arith))
                    | inr early ↦
                        rw (going, early)
                          (quiet-Moves clock w _ _ v refl refl refl refl tt (λ _. omega arith))
                  ]
          ]

  refreshed-Moves :
      (n : ℕ) (l : Local) (w : World fp Key Order Price) (info : TxnInfo (Packet Key Order Price))
      → IsRunning (refresh (suc n)) w
      → contents w.sys_queue ≡ info ∷ contents (after_take w.sys_queue)
      → (r : Call (ℕ × ServerContext fp))
      → Going
          (Moves (refresh (suc n)) w)
          (refreshed n l (record w { sys_queue = after_take w.sys_queue }) r)
  refreshed-Moves n l w info v split (done (rc, c)) = record {
    running = record {
      sys = after_take-IsValid w.sys_queue v.sys (omega (arith, v.promise));
      users = v.users;
      promise = omega (arith, v.promise);
    };
    user_fifo = refl;
    sys_fifo = rw split refl;
    closer = λ _. omega arith;
  }
  refreshed-Moves n l w info v split aborted = tt
  refreshed-Moves n l w info v split overrun = tt

  answered-Moves :
      (done_p rc_p : ℕ) (l : Local) (w : World fp Key Order Price)
      (info : TxnInfo (Packet Key Order Price))
      → IsRunning serve w
      → contents w.user_queue ≡ info ∷ contents (after_take w.user_queue)
      → (r : Call (UserEnd (ServerContext fp)))
      → Going
          (Moves serve w)
          (answered done_p rc_p l (record w { user_queue = after_take w.user_queue }) r)
  answered-Moves done_p rc_p l w info v split (done (returned rc (some txn_rc) c)) =
      served-Moves l w _ info v split refl refl
  answered-Moves done_p rc_p l w info v split (done (returned rc none c)) =
      served-Moves l w _ info v split refl refl
  answered-Moves done_p rc_p l w info v split (done still_freeing) = tt
  answered-Moves done_p rc_p l w info v split aborted = tt
  answered-Moves done_p rc_p l w info v split overrun = tt

  user_taken-Moves :
      (i : Input) (l : Local) (w : World fp Key Order Price)
      (info : TxnInfo (Packet Key Order Price)) (done_p rc_p : Option ℕ)
      → IsRunning serve w
      → contents w.user_queue ≡ info ∷ contents (after_take w.user_queue)
      → Going (Moves serve w) (
          user_taken fp types update_stock bench i l w (
            success
              (after_take w.user_queue)
              (info.request, info.txn_enqueue, info.ticket, done_p, rc_p)))
  user_taken-Moves i l w info (some done_p) (some rc_p) v split =
      if-Going (Moves serve w) info.request.magic_ok _ _
        (λ _. answered-Moves done_p rc_p l w info v split _) (λ _. tt)
  user_taken-Moves i l w info (some done_p) none v split = tt
  user_taken-Moves i l w info none rc_p v split = tt

  -- A step of a running thread keeps it running, takes the oldest request of each queue that it
  -- turns to and no other, and comes nearer to the next user request, if there is one.
  pub step_at-Moves :
      (pc : Pc) (i : Input) (l : Local) (w : World fp Key Order Price)
      → IsRunning pc w
      → Going (Moves pc w) (step_at fp types update_stock bench pc i l w)
  step_at-Moves top i l w v =
      if-Going (Moves top w) w.time_to_die (exits w) _ (λ _. tt)
        (λ _.
          quiet-Moves top w _ w v refl refl refl refl (stored_le w.sys_queue)
            (λ _. all_in w.sys_queue v.sys))
  step_at-Moves (refresh zero) i l w v =
      quiet-Moves (refresh zero) w _ w v refl refl refl refl tt (λ _. omega arith)
  step_at-Moves (refresh (suc n)) i l w v =
      let (info, out, split) =
        dequeue_system_transaction-at_once (wakeups i w) w.sys_queue v.sys
          (omega (arith, v.promise)) in
      rw out (
        if-Going (Moves (refresh (suc n)) w) info.request.magic_ok _ _
          (λ _. refreshed-Moves n l w info v split _) (λ _. tt))
  step_at-Moves user i l w v =
      if-Going (Moves user w) (ltb 0 (queue_size (some w.user_queue))) _ _
        (λ more.
          quiet-Moves user w _ w v refl refl refl refl (stored w.user_queue more)
            (λ _. omega arith))
        (λ none_left.
          quiet-Moves user w _ w v refl refl refl refl tt
            (λ p. absurd (not_stored w.user_queue none_left p)))
  step_at-Moves serve i l w v =
      let (info, out, split) =
        dequeue_user_transaction-at_once (wakeups i w) w.user_queue v.users
          (omega (arith, v.promise)) in
      rw out (user_taken-Moves i l w info info.txn_done info.txn_rc v split)
  step_at-Moves clock i l w v = clock_step-Moves i.now l w v
