-- ===== src/Monitor.antt =====
-- performance_monitor.c, and the functions of startup_server.c that act on its degrees:
-- `aggregateStats`, `performanceMonitor`, `in_period_ds`, `qosManager`, `adaptive_update_policy` and
-- `admission_control`. The arithmetic on `double` is the parameter `fp`.
pub mod Sleep
pub mod Period
pub mod Policy
pub mod Row
pub mod Tests
use chronos_xserver.Prelude.{
  ℕ, ◌+◌, Bool, ◌&&◌, ◌||◌, Option, none, some, List, ◌==◌, if◌then◌else◌, ℤ, pos, ◌+ℤ◌, ◌-ℤ◌,
  ltb_ℤ,
}
use chronos_xserver.Config.{mode_ac, mode_aup, mode_ac_aup}
use chronos_xserver.Floats.{Floats}
use chronos_xserver.Aup.{Call, done, ◌>>=◌, AupEnv, reset_all}
use chronos_xserver.Aup.Relax.{relax}
use chronos_xserver.Ac.{AcEnv, wait_set}
use chronos_xserver.Stats.{
  ThreadStats, ServerStats, last_user_xacts_duration_get, last_user_xacts_history_get,
}
use chronos_xserver.Stats.Aggregate.{
  aggregate_thread_stats, period_user_xacts_count, period_user_xacts_duration,
}

module _ (fp : Floats) where
  open fp use {
    Double, widen, narrow, float_of, double_of, literal, div_f, add_d, sub_d, mul_d, div_d, lt_d,
    trunc_d,
  }

  -- the fields of `chronosServerContext_t` that these functions read and write
  pub record ServerContext : Type 0 where
    pub running_mode : ℕ
    pub desired_delay_bound_ms : ℤ
    pub performance_stats : ServerStats
    pub thread_stats_arr : List ThreadStats
    pub average_service_delay_ms : Double
    pub degree_timing_violation : Double
    pub smoth_degree_timing_violation : Double
    pub period_smoth_degree_timing_violation : Double
    pub alpha : Double
    pub inter_xact_sleep_ms : ℤ
    pub ac_env : AcEnv
    pub aup_env : AupEnv fp

  unfoldable pub average_service_delay : ℤ → ℤ → Double
  average_service_delay cumulative_delay num_samples =
      if ltb_ℤ (pos 0) num_samples
      then widen (div_f (float_of cumulative_delay) (float_of num_samples))
      else double_of (pos 0)

  unfoldable pub overload_degree : Double → Double → Double
  overload_degree delay bound =
      if lt_d (double_of (pos 0)) bound && lt_d bound delay
      then div_d (widen (narrow (sub_d delay bound))) bound
      else literal 0 1

  unfoldable pub smoothed_overload_degree : Double → Double → Double → Double
  smoothed_overload_degree current previous alpha =
      add_d (mul_d alpha current) (mul_d (sub_d (literal 1 1) alpha) previous)

  unfoldable pub in_period_ds : ServerContext → Double
  in_period_ds c =
      let prev_duration = last_user_xacts_duration_get c.performance_stats in
      let prev_history = last_user_xacts_history_get c.performance_stats in
      let cur_duration = period_user_xacts_duration c.thread_stats_arr (pos 0) in
      let cur_history = pos (period_user_xacts_count c.thread_stats_arr 0) in
      overload_degree
        (average_service_delay (cur_duration -ℤ prev_duration) (cur_history -ℤ prev_history))
        (double_of c.desired_delay_bound_ms)

  -- `aggregateStats`; `update_stock` is CHRONOS_SYS_TXN_UPDATE_STOCK.
  unfoldable pub aggregate_stats : ℕ → ServerContext → ServerContext
  aggregate_stats update_stock c = record c {
    performance_stats = aggregate_thread_stats update_stock c.thread_stats_arr c.performance_stats;
  }

  -- the last step of `performanceMonitor`: the delay of arriving transactions
  unfoldable pub next_sleep : Double → ℤ → ℤ
  next_sleep smoth sleep_ms =
      if lt_d (literal 1 1000) smoth
      then sleep_ms +ℤ pos 1
      else (if ltb_ℤ (pos 1) sleep_ms then sleep_ms -ℤ pos 1 else sleep_ms)

  unfoldable pub performance_monitor : ServerContext → ServerContext
  performance_monitor c =
      let average =
        average_service_delay (last_user_xacts_duration_get c.performance_stats)
          (last_user_xacts_history_get c.performance_stats) in
      let degree = overload_degree average (double_of c.desired_delay_bound_ms) in
      let smoth = smoothed_overload_degree degree c.smoth_degree_timing_violation c.alpha in
      record c {
        average_service_delay_ms = average;
        degree_timing_violation = degree;
        smoth_degree_timing_violation = smoth;
        period_smoth_degree_timing_violation = double_of (pos 0);
        inter_xact_sleep_ms = next_sleep smoth c.inter_xact_sleep_ms;
      }

  -- The milliseconds that `admission_control` sleeps; `none` when it does not.
  unfoldable pub admission_control : ServerContext → Option ℤ
  admission_control c =
      if ltb_ℤ (pos 0) c.inter_xact_sleep_ms then some c.inter_xact_sleep_ms else none

  abbrev pub is_full_or : ℕ → ServerContext → Bool
  is_full_or mode c = c.running_mode == mode_ac_aup || c.running_mode == mode

  -- the local variable `num_waits` of `qosManager`, as it is handed to `chronos_ac_wait_set`
  abbrev pub num_waits : Double → ℤ → ℤ
  num_waits smoth enqueued =
      let wanted = trunc_d (mul_d smoth (double_of enqueued)) in
      if lt_d (literal 0 1) smoth
      then (if ltb_ℤ enqueued wanted then enqueued else wanted)
      else pos 0

  -- `enqueued` is the size of the user queue. The code drops the status of `chronos_ac_wait_set`.
  unfoldable pub qos_manager : ℕ → ℕ → ℕ → ServerContext → ServerContext
  qos_manager lock_rc unlock_rc enqueued c =
      if is_full_or mode_ac c
      then record c {
        ac_env =
            (wait_set lock_rc unlock_rc (num_waits c.smoth_degree_timing_violation (pos enqueued))
              c.ac_env).1;
      }
      else c

  unfoldable pub adaptive_update_policy : ServerContext → Call ServerContext
  adaptive_update_policy c =
      if is_full_or mode_aup c
      then (do
        env ← relax fp c.aup_env (narrow c.smoth_degree_timing_violation)
        env' ← reset_all fp env
        done (record c { aup_env = env' }))
      else done c
