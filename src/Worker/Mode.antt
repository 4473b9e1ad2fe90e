-- ===== src/Worker/Mode.antt =====
-- What the steps of a processing thread leave of the running mode.
use chronos_xserver.Prelude.{
  ℕ, zero, suc, ◌*◌, ◌≡◌, subst, none, some, if_cases, ltb, leb, pos, ltb_ℤ,
}
use chronos_xserver.Config.{sampling_period_sec}
use chronos_xserver.Floats.{Floats}
use chronos_xserver.Time.{Timeval, diff_time}
use chronos_xserver.Queue.{Outcome, success, failed, invalid_argument, waiting, fault, queue_size}
use chronos_xserver.Queue.Api.{UserTxn}
use chronos_xserver.Aup.{Call, done, aborted, overrun}
use chronos_xserver.Args.{UserTxnTypes}
use chronos_xserver.Monitor.{ServerContext, aggregate_stats, performance_monitor}
use chronos_xserver.Process.{Packet, Benchmark, Run, UserEnd, process_refresh_transaction}
use chronos_xserver.Process.Fate.{
  Fate, reported, untouched, frees_on, asserts, overruns, process_user_transaction-Fate,
}
use chronos_xserver.Worker.{
  unsigned_long, World, Pc, top, refresh, user, serve, clock, Local, Input, Stepped, moved, exits,
  crashed, hangs, run_of, clock_step, refreshed, answered, refresh_taken, user_taken, step_at, step,
}
use chronos_xserver.Aup.Kept.{Gives}
use chronos_xserver.Process.Mode.{process_refresh_transaction-Gives}

module _ {fp : Floats} {Key Order Price : Type 0} (mode : ℕ) where
  abbrev pub HasMode : World fp Key Order Price → Type 0
  HasMode w = w.context.running_mode ≡ mode

  abbrev pub KeepsMode : Stepped (World fp Key Order Price) → Type 0
  KeepsMode (moved l w) = HasMode w
  KeepsMode (exits w) = HasMode w
  KeepsMode crashed = Unit {0}
  KeepsMode hangs = Unit {0}

  clock_step-KeepsMode :
      (update_stock : ℕ) (i : Input) (l : Local) (w : World fp Key Order Price)
      → HasMode w
      → KeepsMode (clock_step update_stock i.now l w)
  unfolding clock_step performance_monitor aggregate_stats
  clock_step-KeepsMode update_stock i l w h =
      if_cases KeepsMode
        (leb l.total_experiment_duration_ms
          (unsigned_long (diff_time l.start_experiment_time i.now)))
        _ _ (λ over. h)
        (λ _.
          if_cases KeepsMode
            (ltb_ℤ (pos (1000 * sampling_period_sec)) (diff_time l.previous_sample i.now)) _ _
            (λ _. h) (λ _. h))

  refreshed-KeepsMode :
      (n : ℕ) (l : Local) (w : World fp Key Order Price) (r : Call (ℕ × ServerContext fp))
      → Gives (λ e. e.1.running_mode ≡ mode) r
      → KeepsMode (refreshed n l w r)
  refreshed-KeepsMode n l w (done (rc, c)) h = h
  refreshed-KeepsMode n l w aborted h = tt
  refreshed-KeepsMode n l w overrun h = tt

  answered-KeepsMode :
      (run : Run) (enqueued : Timeval) (t : ℕ) (c : ServerContext fp) (done_p rc_p : ℕ) (l : Local)
      (w : World fp Key Order Price) (r : Call (UserEnd (ServerContext fp)))
      → c.running_mode ≡ mode
      → Fate fp run enqueued t c r
      → KeepsMode (answered done_p rc_p l w r)
  answered-KeepsMode run enqueued t c done_p rc_p l w r h (reported txn_rc env) = h
  answered-KeepsMode run enqueued t c done_p rc_p l w r h (untouched (some txn_rc)) = h
  answered-KeepsMode run enqueued t c done_p rc_p l w r h (untouched none) = h
  answered-KeepsMode run enqueued t c done_p rc_p l w r h frees_on = tt
  answered-KeepsMode run enqueued t c done_p rc_p l w r h asserts = tt
  answered-KeepsMode run enqueued t c done_p rc_p l w r h overruns = tt

module _ (fp : Floats) (types : UserTxnTypes) (update_stock : ℕ) {Key Order Price : Type 0}
    (bench : Benchmark Key Order Price) where
  refresh_taken-KeepsMode :
      (mode n : ℕ) (i : Input) (l : Local) (w : World fp Key Order Price)
      (o : Outcome (Packet Key Order Price) (Packet Key Order Price × Timeval))
      → HasMode mode w
      → KeepsMode mode (refresh_taken fp types update_stock bench n i l w o)
  refresh_taken-KeepsMode mode n i l w (success q (packet, received)) h =
      if_cases (KeepsMode mode) packet.magic_ok _ _
        (λ _.
          refreshed-KeepsMode mode n l (record w { sys_queue = q }) _
            (subst
              (λ m.
                Gives (λ r. r.1.running_mode ≡ m)
                  (process_refresh_transaction fp types update_stock bench (run_of i w) received
                    (some packet) w.context))
              h
              (process_refresh_transaction-Gives fp types update_stock bench (run_of i w) received
                packet w.context)))
        (λ _. tt)
  refresh_taken-KeepsMode mode n i l w (failed q) h = h
  refresh_taken-KeepsMode mode n i l w (waiting q) h = h
  refresh_taken-KeepsMode mode n i l w invalid_argument h = h
  refresh_taken-KeepsMode mode n i l w fault h = tt

  user_taken-KeepsMode :
      (mode : ℕ) (i : Input) (l : Local) (w : World fp Key Order Price)
      (o : Outcome (Packet Key Order Price) (UserTxn (Packet Key Order Price)))
      → HasMode mode w
      → KeepsMode mode (user_taken fp types update_stock bench i l w o)
  user_taken-KeepsMode mode i l w (success q (packet, received, ticket, some done_p, some rc_p)) h =
      if_cases (KeepsMode mode) packet.magic_ok _ _
        (λ _.
          answered-KeepsMode mode (run_of i w) received packet.txn_type w.context done_p rc_p l
            (record w { user_queue = q }) _ h
            (process_user_transaction-Fate fp types update_stock bench (run_of i w) received packet
              w.context))
        (λ _. tt)
  user_taken-KeepsMode mode i l w (success q (packet, received, ticket, some done_p, none)) h = tt
  user_taken-KeepsMode mode i l w (success q (packet, received, ticket, none, rc_p)) h = tt
  user_taken-KeepsMode mode i l w (failed q) h = h
  user_taken-KeepsMode mode i l w (waiting q) h = h
  user_taken-KeepsMode mode i l w invalid_argument h = h
  user_taken-KeepsMode mode i l w fault h = tt

  step_at-KeepsMode :
      (mode : ℕ) (pc : Pc) (i : Input) (l : Local) (w : World fp Key Order Price)
      → HasMode mode w
      → KeepsMode mode (step_at fp types update_stock bench pc i l w)
  step_at-KeepsMode mode top i l w h = if_cases (KeepsMode mode) w.time_to_die _ _ (λ _. h) (λ _. h)
  step_at-KeepsMode mode (refresh zero) i l w h = h
  step_at-KeepsMode mode (refresh (suc n)) i l w h = refresh_taken-KeepsMode mode n i l w _ h
  step_at-KeepsMode mode user i l w h =
      if_cases (KeepsMode mode) (ltb 0 (queue_size (some w.user_queue))) _ _ (λ _. h) (λ _. h)
  step_at-KeepsMode mode serve i l w h = user_taken-KeepsMode mode i l w _ h
  step_at-KeepsMode mode clock i l w h = clock_step-KeepsMode mode update_stock i l w h

  -- No step of a processing thread changes the running mode.
  pub step-KeepsMode :
      (mode : ℕ) (i : Input) (l : Local) (w : World fp Key Order Price)
      → HasMode mode w
      → KeepsMode mode (step fp types update_stock bench i l w)
  unfolding step
  step-KeepsMode mode i l w h = step_at-KeepsMode mode l.pc i l w h
