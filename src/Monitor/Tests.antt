-- ===== src/Monitor/Tests.antt =====
-- The performance monitor and the policies at concrete inputs, over fixed-point numbers in
-- thousandths: a bound of 500 ms, alpha 0.6, three items.
use chronos_xserver.Prelude.{
  ℕ, zero, suc, ◌+◌, ◌≤◌, ◌<◌, ◌≡◌, refl, true, false, none, some, [], ◌∷◌, ◌⊎◌, arith, get_elem?,
  if◌then◌else◌, pos, ◌≤ℤ◌, pos_part,
}
use chronos_xserver.Config.{mode_ac, mode_ac_aup, server_success, server_fail}
use chronos_xserver.Floats.{thousandths}
use chronos_xserver.Ac.{wait_set}
use chronos_xserver.Aup.{done, DataItem, AupEnv}
use chronos_xserver.Aup.Valid.{IsValid}
use chronos_xserver.Aup.Counts.{cleared}
use chronos_xserver.Aup.Relax.{relax_item, relax_target}
use chronos_xserver.Aup.Relax.Effect.{is_relaxed}
use chronos_xserver.Aup.Tests.{three, three-IsValid}
use chronos_xserver.Stats.{ServerStats, thread_stats_alloc, server_stats_alloc}
use chronos_xserver.Stats.Tests.{zero_thread_stats-IsSized, server_stats-IsRing, begun, over}
use chronos_xserver.Monitor.{
  ServerContext, average_service_delay, performance_monitor, admission_control, aggregate_stats,
  qos_manager, adaptive_update_policy, overload_degree, smoothed_overload_degree,
}
use chronos_xserver.Monitor.Sleep.{monitor_all, sleep_stays, no_runs, one_more, sleep_falls}
use chronos_xserver.Monitor.Period.{Finished, nothing, also, AllSized, sample_then_report}
use chronos_xserver.Monitor.Row.{StatsRow, stats_print, Tells, stats_print-Tells}
use chronos_xserver.Monitor.Policy.{qos_manager-bounds, adaptive_update_policy_lem}

abbrev pub context : ServerContext thousandths
context = record {
  running_mode = mode_ac_aup;
  desired_delay_bound_ms = pos 500;
  performance_stats = server_stats_alloc (pos 500);
  thread_stats_arr = thread_stats_alloc 2;
  average_service_delay_ms = 0;
  degree_timing_violation = 0;
  smoth_degree_timing_violation = 700;
  period_smoth_degree_timing_violation = 0;
  alpha = 600;
  inter_xact_sleep_ms = pos 4;
  ac_env = record { num_txn_to_wait = pos 0 };
  aup_env = three;
}

-- a sample with one transaction of 900 ms in its period, and one without transactions
abbrev overloaded : ServerStats
overloaded = record (server_stats_alloc (pos 500)) {
  user_xacts_count_in_period = pos 1 ∷ pos 0 ∷ [];
  user_xacts_duration_in_period = pos 900 ∷ pos 0 ∷ [];
}

-- 0.6 * 0.8 + 0.4 * 0.7
degree_after_overload :
    (performance_monitor thousandths
      (record context { performance_stats = overloaded })).smoth_degree_timing_violation
    ≡ 760
unfolding performance_monitor average_service_delay overload_degree smoothed_overload_degree
degree_after_overload = refl

sleep_stays_example :
    let c' = monitor_all thousandths (overloaded ∷ overloaded ∷ []) context in
    (m : ℕ) × (c'.inter_xact_sleep_ms ≡ pos (suc m))
    × (m ≤ 3 + 2)
    × (3 ≤ m + 2)
    × (admission_control thousandths c' ≡ some (pos (suc m)))
sleep_stays_example = sleep_stays thousandths (overloaded ∷ overloaded ∷ []) context 3 refl

abbrev quiet : ServerStats
quiet = server_stats_alloc (pos 500)

abbrev calm_context : ServerContext thousandths
calm_context = record context { smoth_degree_timing_violation = 1; inter_xact_sleep_ms = pos 2 }

-- Without overload the delay goes down to 1 ms and stays there.
delay_left : (monitor_all thousandths (quiet ∷ quiet ∷ []) calm_context).inter_xact_sleep_ms ≡ pos 1
unfolding performance_monitor average_service_delay overload_degree smoothed_overload_degree
delay_left =
    sleep_falls thousandths (quiet ∷ quiet ∷ []) calm_context 1 refl
      (one_more refl (one_more refl no_runs))

-- 0.7 * 10 transactions to wait for
seven_waits : (qos_manager thousandths 0 0 10 context).ac_env ≡ record { num_txn_to_wait = pos 7 }
unfolding qos_manager wait_set
seven_waits = refl

qos_manager-bounds_example :
    let c' = qos_manager thousandths 0 0 10 context in
    (c'.ac_env ≡ context.ac_env)
    ⊎ (((context.running_mode ≡ mode_ac_aup) ⊎ (context.running_mode ≡ mode_ac))
        × (pos 1 ≤ℤ c'.ac_env.num_txn_to_wait)
        × (c'.ac_env.num_txn_to_wait ≤ℤ pos 10))
qos_manager-bounds_example = qos_manager-bounds thousandths 0 0 10 context

adaptive_update_policy_lem_example :
    let target = pos_part (relax_target thousandths 3 700) in
    (env : AupEnv thousandths) × (adaptive_update_policy thousandths context
      ≡ done (record context { aup_env = env }))
    × IsValid thousandths env
    × (env.num_elements ≡ 3)
    × ((j : ℕ) (d : DataItem thousandths)
        → j < 3
        → get_elem? three.data_array j ≡ some d
        → get_elem? env.data_array j
          ≡ some (
              cleared thousandths (
                if is_relaxed thousandths 3 target three.data_array j d
                then relax_item thousandths d
                else d)))
adaptive_update_policy_lem_example =
    adaptive_update_policy_lem thousandths context three-IsValid refl

-- a purchase of 5 ms by thread 1, and a refresh by thread 0
abbrev purchase : Finished
purchase = record {
  start = begun;
  end = over;
  desired = pos 500;
  txn_type = 2;
  txn_rc = 0;
  thread_num = 1;
}

abbrev refresh : Finished
refresh = record purchase { txn_type = 4; thread_num = 0 }

both_sized : AllSized (thread_stats_alloc 2)
both_sized zero h = zero_thread_stats-IsSized
both_sized (suc zero) h = zero_thread_stats-IsSized
both_sized (suc (suc n)) h = absurd (omega arith)

stats_print-Tells_example :
    let xs = purchase ∷ refresh ∷ [] in
    let c' =
      performance_monitor thousandths
        (aggregate_stats thousandths 4 (sample_then_report thousandths 4 xs context)) in
    ((row : StatsRow thousandths) × (stats_print thousandths true 3 5 c'
        ≡ done (server_success, some row))
      × Tells thousandths 4 xs context row)
    × (stats_print thousandths false 3 5 c' ≡ done (server_fail, none))
stats_print-Tells_example =
    stats_print-Tells thousandths 4 (purchase ∷ refresh ∷ []) context 3 5 server_stats-IsRing
      both_sized (also (omega arith) (omega arith) (also (omega arith) (omega arith) nothing)) refl
