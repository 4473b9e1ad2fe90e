-- ===== src/Worker/Safe.antt =====
-- The processing thread on requests that it can serve: no step stops the process, and each exit of
-- the loop has its reason.
use chronos_xserver.Prelude.{
  ℕ, zero, suc, ◌*◌, ◌≤◌, ◌≡◌, refl, subst, Bool, true, false, none, some, List, ◌∷◌, arith, ◌⊎◌,
  All, inl, inr, ltb, leb, if◌then◌else◌, pos, ltb_ℤ,
}
use chronos_xserver.Config.{server_success, sampling_period_sec}
use chronos_xserver.Floats.{Floats}
use chronos_xserver.Time.{diff_time}
use chronos_xserver.Queue.{TxnInfo, queue_size}
use chronos_xserver.Queue.Valid.{after_take}
use chronos_xserver.Queue.Fifo.{contents}
use chronos_xserver.Queue.Api.AtOnce.{
  dequeue_system_transaction-at_once, dequeue_user_transaction-at_once,
}
use chronos_xserver.Aup.{Call, done, aborted, overrun}
use chronos_xserver.Args.{UserTxnTypes}
use chronos_xserver.Monitor.{ServerContext, aggregate_stats, performance_monitor}
use chronos_xserver.Process.{Packet, Benchmark, UserEnd, returned, still_freeing}
use chronos_xserver.Process.Safe.{
  Ends, IsDistinct, IsRefresh, IsServable, IsServable-magic, IsEnv, Returned,
  process_refresh_transaction-Ends, process_user_transaction-Ends,
}
use chronos_xserver.Worker.{
  unsigned_long, World, Pc, top, refresh, user, serve, clock, Local, Input, Stepped, moved, exits,
  crashed, hangs, wakeups, run_of, clock_step, refreshed, answered, step_at, step,
}
use chronos_xserver.Worker.Valid.{IsRunning, Going, Going-map}
use chronos_xserver.Worker.Moves.{step_at-Moves}

module _ {Key Order Price : Type 0} where
  -- A stored user request that can be served, and whose handler waits for the answer.
  pub record IsAnswerable (types : UserTxnTypes) (elements : ℕ)
      (info : TxnInfo (Packet Key Order Price)) : Type 0 where
    pub servable : IsServable types elements info.request
    pub done_p : ℕ
    pub has_done : info.txn_done ≡ some done_p
    pub rc_p : ℕ
    pub has_rc : info.txn_rc ≡ some rc_p

module _ (fp : Floats) (types : UserTxnTypes) {Key Order Price : Type 0} where
  -- All that is stored in the queues fits an environment of the given size.
  pub record Serviceable (elements : ℕ) (w : World fp Key Order Price) : Type 0 where
    pub env : IsEnv fp elements w.context.aup_env
    pub users : All (IsAnswerable types elements) (contents w.user_queue)
    pub refreshes : All (λ info. IsRefresh elements info.request) (contents w.sys_queue)

  -- Why the thread may leave its loop: it was told to, or the experiment is over and it tells the
  -- others.
  abbrev pub Stopped :
      Pc → Input → Local → World fp Key Order Price → World fp Key Order Price → Type 0
  Stopped pc i l w w' =
      ((pc ≡ top) × (w.time_to_die ≡ true) × (w' ≡ w))
      ⊎ ((pc ≡ clock)
          × (l.total_experiment_duration_ms
              ≤ unsigned_long (diff_time l.start_experiment_time i.now))
          × (w'.time_to_die ≡ true))

  -- A step that neither crashes nor hangs.
  abbrev pub IsSafe :
      ℕ
      → Pc
      → Input
      → Local
      → World fp Key Order Price
      → Stepped (World fp Key Order Price)
      → Type 0
  IsSafe elements pc i l w (moved l' w') = Serviceable elements w'
  IsSafe elements pc i l w (exits w') = Stopped pc i l w w'
  IsSafe elements pc i l w crashed = ⊥
  IsSafe elements pc i l w hangs = ⊥

  module _ (elements : ℕ) (pc : Pc) (i : Input) (l : Local) (w : World fp Key Order Price) where
    if-IsSafe :
        (t : Bool) (a b : Stepped (World fp Key Order Price))
        → (t ≡ true → IsSafe elements pc i l w a)
        → (t ≡ false → IsSafe elements pc i l w b)
        → IsSafe elements pc i l w (if t then a else b)
    if-IsSafe true a b ha hb = ha refl
    if-IsSafe false a b ha hb = hb refl

  clock_step-IsSafe :
      (update_stock elements : ℕ) (i : Input) (l : Local) (w : World fp Key Order Price)
      → Serviceable elements w
      → IsSafe elements clock i l w (clock_step update_stock i.now l w)
  unfolding clock_step performance_monitor aggregate_stats
  clock_step-IsSafe update_stock elements i l w g =
      if-IsSafe elements clock i l w
        (leb l.total_experiment_duration_ms
          (unsigned_long (diff_time l.start_experiment_time i.now)))
        _ _ (λ over. inr (refl, ground arith, refl))
        (λ _.
          if-IsSafe elements clock i l w
            (ltb_ℤ (pos (1000 * sampling_period_sec)) (diff_time l.previous_sample i.now)) _ _
            (λ _. record { env = g.env; users = g.users; refreshes = g.refreshes })
            (λ _. record { env = g.env; users = g.users; refreshes = g.refreshes }))

  refreshed-IsSafe :
      (elements n : ℕ) (i : Input) (l : Local) (w : World fp Key Order Price)
      (r : Call (ℕ × ServerContext fp))
      → All (IsAnswerable types elements) (contents w.user_queue)
      → All (λ info. IsRefresh elements info.request) (contents (after_take w.sys_queue))
      → Ends (λ e. IsEnv fp elements e.1.aup_env) r
      → IsSafe elements
          (refresh (suc n))
          i
          l
          w
          (refreshed n l (record w { sys_queue = after_take w.sys_queue }) r)
  refreshed-IsSafe elements n i l w (done (rc, c)) users systems env = record {
    env = env;
    users = users;
    refreshes = systems;
  }
  refreshed-IsSafe elements n i l w aborted users systems env = env
  refreshed-IsSafe elements n i l w overrun users systems env = env

  answered-IsSafe :
      (elements done_p rc_p : ℕ) (i : Input) (l : Local) (w : World fp Key Order Price)
      (r : Call (UserEnd (ServerContext fp)))
      → All (IsAnswerable types elements) (contents (after_take w.user_queue))
      → All (λ info. IsRefresh elements info.request) (contents w.sys_queue)
      → Ends (Returned fp elements) r
      → IsSafe elements serve i l w
          (answered done_p rc_p l (record w { user_queue = after_take w.user_queue }) r)
  answered-IsSafe elements done_p rc_p i l w (done (returned rc (some txn_rc) c)) users systems
        env =
      record { env = env; users = users; refreshes = systems }
  answered-IsSafe elements done_p rc_p i l w (done (returned rc none c)) users systems env =
      record { env = env; users = users; refreshes = systems }
  answered-IsSafe elements done_p rc_p i l w (done still_freeing) users systems env = env
  answered-IsSafe elements done_p rc_p i l w aborted users systems env = env
  answered-IsSafe elements done_p rc_p i l w overrun users systems env = env

module _ (fp : Floats) (types : UserTxnTypes) (update_stock : ℕ) {Key Order Price : Type 0}
    (bench : Benchmark Key Order Price) (distinct : IsDistinct types) (elements : ℕ) where
  step_at-IsSafe :
      (pc : Pc) (i : Input) (frees : List ℕ) (l : Local) (w : World fp Key Order Price)
      → i.run.frees ≡ server_success ∷ frees
      → IsRunning pc w
      → Serviceable fp types elements w
      → IsSafe fp types elements pc i l w (step_at fp types update_stock bench pc i l w)
  step_at-IsSafe top i frees l w f v g =
      if-IsSafe fp types elements top i l w w.time_to_die _ _ (λ told. inl (refl, told, refl))
        (λ _. record { env = g.env; users = g.users; refreshes = g.refreshes })
  step_at-IsSafe (refresh zero) i frees l w f v g = record {
    env = g.env;
    users = g.users;
    refreshes = g.refreshes;
  }
  step_at-IsSafe (refresh (suc n)) i frees l w f v g =
      let (info, out, split) =
        dequeue_system_transaction-at_once (wakeups i w) w.sys_queue v.sys
          (omega (arith, v.promise)) in
      let (fits, rest) = subst (All (λ info. IsRefresh elements info.request)) split g.refreshes in
      rw (out, fits.magic)
        (refreshed-IsSafe fp types elements n i l w _ g.users rest (
          process_refresh_transaction-Ends fp types update_stock bench elements (run_of i w)
            info.txn_enqueue info.request w.context g.env fits))
  step_at-IsSafe user i frees l w f v g =
      if-IsSafe fp types elements user i l w (ltb 0 (queue_size (some w.user_queue))) _ _
        (λ _. record { env = g.env; users = g.users; refreshes = g.refreshes })
        (λ _. record { env = g.env; users = g.users; refreshes = g.refreshes })
  step_at-IsSafe serve i frees l w f v g =
      let (info, out, split) =
        dequeue_user_transaction-at_once (wakeups i w) w.user_queue v.users v.promise in
      let (fits, rest) = subst (All (IsAnswerable types elements)) split g.users in
      rw (out, fits.has_done, fits.has_rc, IsServable-magic types elements _ fits.servable)
        (answered-IsSafe fp types elements fits.done_p fits.rc_p i l w _ rest g.refreshes (
          process_user_transaction-Ends fp types update_stock bench elements (run_of i w) frees
            info.txn_enqueue info.request w.context distinct g.env f fits.servable))
  step_at-IsSafe clock i frees l w f v g = clock_step-IsSafe fp types update_stock elements i l w g

  pub step-IsSafe :
      (i : Input) (frees : List ℕ) (l : Local) (w : World fp Key Order Price)
      → i.run.frees ≡ server_success ∷ frees
      → IsRunning l.pc w
      → Serviceable fp types elements w
      → IsSafe fp types elements l.pc i l w (step fp types update_stock bench i l w)
        × Going (λ l' w'. IsRunning l'.pc w') (step fp types update_stock bench i l w)
  unfolding step
  step-IsSafe i frees l w f v g = (
    step_at-IsSafe l.pc i frees l w f v g,
    Going-map (λ l' w' m. m.running) (step_at fp types update_stock bench l.pc i l w)
        (step_at-Moves fp types update_stock bench l.pc i l w v),
  )
