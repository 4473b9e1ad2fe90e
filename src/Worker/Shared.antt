-- ===== src/Worker/Shared.antt =====
-- One of several processing threads, which share the queues: what one of its steps does when other
-- threads may have emptied a queue behind its last test.
pub mod Steps
use chronos_xserver.Prelude.{
  ℕ, zero, suc, ◌*◌, ◌<◌, ◌≡◌, refl, sym, subst, true, none, some, List, [], ◌∷◌, ◌++◌, arith, ◌⊎◌,
  All, inl, inr, if_cases, ltb, leb, take, pos, ltb_ℤ,
}
use chronos_xserver.Config.{server_success, sampling_period_sec}
use chronos_xserver.Floats.{Floats}
use chronos_xserver.Time.{diff_time}
use chronos_xserver.Queue.{TxnInfo, Queue, queue_size}
use chronos_xserver.Queue.Valid.{IsValid, after_take, after_take-IsValid}
use chronos_xserver.Queue.Fifo.{contents, contents_of_empty}
use chronos_xserver.Queue.Api.AtOnce.{
  dequeue_system_transaction-at_once, dequeue_user_transaction-at_once,
  dequeue_system_transaction-Nothing, dequeue_user_transaction-Nothing,
}
use chronos_xserver.Aup.{Call, done, aborted, overrun}
use chronos_xserver.Args.{UserTxnTypes}
use chronos_xserver.Monitor.{ServerContext, aggregate_stats, performance_monitor}
use chronos_xserver.Process.{Packet, Benchmark, UserEnd, returned, still_freeing}
use chronos_xserver.Process.Safe.{
  Ends, IsDistinct, IsRefresh, IsEnv, Returned, process_refresh_transaction-Ends,
  process_user_transaction-Ends,
}
use chronos_xserver.Worker.{
  unsigned_long, World, Pc, top, refresh, user, serve, clock, Local, Input, Stepped, moved, exits,
  crashed, hangs, wakeups, run_of, clock_step, refreshed, answered, step_at, step,
}
use chronos_xserver.Worker.Valid.{serves, refreshes}
use chronos_xserver.Worker.Safe.{IsAnswerable, Serviceable}

module _ (fp : Floats) (types : UserTxnTypes) (elements : ℕ) {Key Order Price : Type 0} where
  -- The invariant of the shared world: both rings are valid, and what they hold can be served.
  pub record IsSound (w : World fp Key Order Price) : Type 0 where
    pub sys : IsValid w.sys_queue
    pub users : IsValid w.user_queue
    pub serviceable : Serviceable fp types elements w

  -- What a step at `pc` leaves: a sound world, without the requests that it took out.
  pub record Shares (pc : Pc) (w w' : World fp Key Order Price) : Type 0 where
    pub sound : IsSound w'
    pub user_fifo : contents w.user_queue ≡ serves pc w ++ contents w'.user_queue
    pub sys_fifo : contents w.sys_queue ≡ refreshes pc w ++ contents w'.sys_queue

  -- A step that neither crashes nor hangs, and leaves the loop only when the server ends.
  abbrev pub IsShared : Pc → World fp Key Order Price → Stepped (World fp Key Order Price) → Type 0
  IsShared pc w (moved l' w') = Shares pc w w'
  IsShared pc w (exits w') = Shares pc w w' × (w'.time_to_die ≡ true)
  IsShared pc w crashed = ⊥
  IsShared pc w hangs = ⊥

  -- a step that leaves both queues and the environment
  pub quiet-Shares :
      (pc : Pc) (w w' : World fp Key Order Price)
      → IsSound w
      → w'.sys_queue ≡ w.sys_queue
      → w'.user_queue ≡ w.user_queue
      → w'.context.aup_env ≡ w.context.aup_env
      → serves pc w ≡ []
      → refreshes pc w ≡ []
      → Shares pc w w'
  quiet-Shares pc w w' v sys users env no_serve no_refresh = record {
    sound = record {
      sys = subst IsValid (sym sys) v.sys;
      users = subst IsValid (sym users) v.users;
      serviceable = record {
        env = subst (IsEnv fp elements) (sym env) v.serviceable.env;
        users =
            subst (λ q. All (IsAnswerable types elements) (contents q)) (sym users)
              v.serviceable.users;
        refreshes =
            subst (λ q. All (λ info. IsRefresh elements info.request) (contents q)) (sym sys)
              v.serviceable.refreshes;
      };
    };
    user_fifo = rw (no_serve, users) refl;
    sys_fifo = rw (no_refresh, sys) refl;
  }

  pub clock_step-IsShared :
      (update_stock : ℕ) (i : Input) (l : Local) (w : World fp Key Order Price)
      → IsSound w
      → IsShared clock w (clock_step update_stock i.now l w)
  unfolding clock_step performance_monitor aggregate_stats
  clock_step-IsShared update_stock i l w v =
      if_cases (IsShared clock w)
        (leb l.total_experiment_duration_ms
          (unsigned_long (diff_time l.start_experiment_time i.now)))
        _ _ (λ over. (quiet-Shares clock w _ v refl refl refl refl refl, refl))
        (λ _.
          if_cases (IsShared clock w)
            (ltb_ℤ (pos (1000 * sampling_period_sec)) (diff_time l.previous_sample i.now)) _ _
            (λ _. quiet-Shares clock w _ v refl refl refl refl refl)
            (λ _. quiet-Shares clock w _ v refl refl refl refl refl))

  -- a step that took the oldest refresh request
  pub refreshed-IsShared :
      (n : ℕ) (l : Local) (w : World fp Key Order Price) (info : TxnInfo (Packet Key Order Price))
      (r : Call (ℕ × ServerContext fp))
      → IsSound w
      → 0 < w.sys_queue.occupied
      → contents w.sys_queue ≡ info ∷ contents (after_take w.sys_queue)
      → All (λ info. IsRefresh elements info.request) (contents (after_take w.sys_queue))
      → Ends (λ e. IsEnv fp elements e.1.aup_env) r
      → IsShared
          (refresh (suc n))
          w
          (refreshed n l (record w { sys_queue = after_take w.sys_queue }) r)
  refreshed-IsShared n l w info (done (rc, c)) v some_in split rest env = record {
    sound = record {
      sys = after_take-IsValid w.sys_queue v.sys some_in;
      users = v.users;
      serviceable = record { env = env; users = v.serviceable.users; refreshes = rest };
    };
    user_fifo = refl;
    sys_fifo = rw split refl;
  }
  refreshed-IsShared n l w info aborted v some_in split rest env = absurd env
  refreshed-IsShared n l w info overrun v some_in split rest env = absurd env

  -- a step that took the oldest user request
  taken-Shares :
      (w : World fp Key Order Price) (info : TxnInfo (Packet Key Order Price))
      (c : ServerContext fp) (cells : ℕ → ℕ)
      → IsSound w
      → 0 < w.user_queue.occupied
      → contents w.user_queue ≡ info ∷ contents (after_take w.user_queue)
      → All (IsAnswerable types elements) (contents (after_take w.user_queue))
      → IsEnv fp elements c.aup_env
      → Shares serve w
          (record w { user_queue = after_take w.user_queue; context = c; cells = cells })
  taken-Shares w info c cells v some_in split rest env = record {
    sound = record {
      sys = v.sys;
      users = after_take-IsValid w.user_queue v.users some_in;
      serviceable = record { env = env; users = rest; refreshes = v.serviceable.refreshes };
    };
    user_fifo = rw split refl;
    sys_fifo = refl;
  }

  pub answered-IsShared :
      (done_p rc_p : ℕ) (l : Local) (w : World fp Key Order Price)
      (info : TxnInfo (Packet Key Order Price)) (r : Call (UserEnd (ServerContext fp)))
      → IsSound w
      → 0 < w.user_queue.occupied
      → contents w.user_queue ≡ info ∷ contents (after_take w.user_queue)
      → All (IsAnswerable types elements) (contents (after_take w.user_queue))
      → Ends (Returned fp elements) r
      → IsShared serve w
          (answered done_p rc_p l (record w { user_queue = after_take w.user_queue }) r)
  answered-IsShared done_p rc_p l w info (done (returned rc (some txn_rc) c)) v h split rest env =
      taken-Shares w info c _ v h split rest env
  answered-IsShared done_p rc_p l w info (done (returned rc none c)) v h split rest env =
      taken-Shares w info c _ v h split rest env
  answered-IsShared done_p rc_p l w info (done still_freeing) v h split rest env = absurd env
  answered-IsShared done_p rc_p l w info aborted v h split rest env = absurd env
  answered-IsShared done_p rc_p l w info overrun v h split rest env = absurd env
