-- ===== src/Monitor/Row.antt =====
-- startup_server.c: `stats_print`, by the values of the line it writes for a sample. The averages of
-- slack and delay, which it computes from variables without a value and does not print, are left out.
use chronos_xserver.Prelude.{
  ℕ, ◌≡◌, refl, Bool, true, false, Option, none, some, List, ◌==◌, if◌then◌else◌, length, ℤ, pos,
  ltb_ℤ,
}
use chronos_xserver.Config.{server_success, server_fail}
use chronos_xserver.Floats.{Floats}
use chronos_xserver.Aup.{Call, done, ◌>>=◌, aup_magic, pext_get}
use chronos_xserver.Stats.{
  last_user_xacts_history_get, last_user_xacts_duration_get, last_user_xacts_tpm_get,
  last_user_xacts_ttpm_get, total_refresh_xacts_get, total_refresh_xacts_duration_get,
}
use chronos_xserver.Stats.Window.{IsRing}
use chronos_xserver.Monitor.{
  ServerContext, aggregate_stats, performance_monitor, average_service_delay, overload_degree,
  smoothed_overload_degree, next_sleep,
}
use chronos_xserver.Monitor.Period.{
  Finished, user_time, user_count, InRange, AllSized, sample_then_report, average-period,
  sample-period,
}

module _ (fp : Floats) where
  open fp use {Float, Double, widen, narrow, float_of, literal, mul_d, div_d}

  -- what `fprintf` is given
  pub record StatsRow : Type 0 where
    pub user_xacts_history : ℤ
    pub user_xacts_duration : ℤ
    pub user_xacts_tpm : ℤ
    pub user_xacts_ttpm : ℤ
    pub user_xacts_ttpm_rate : Float
    pub refresh_xacts_history : ℤ
    pub refresh_xacts_duration : ℤ
    pub average_service_delay_ms : Double
    pub degree_timing_violation : Double
    pub smoth_degree_timing_violation : Double
    pub p_ext : Float
    pub sys_queue_size : ℕ
    pub user_queue_size : ℕ
    pub inter_xact_sleep_ms : ℤ

  -- `last_user_xacts_ttpm_rate`
  abbrev pub ttpm_rate : ℤ → ℤ → Float
  ttpm_rate ttpm tpm =
      if ltb_ℤ (pos 0) tpm
      then narrow (div_d (mul_d (literal 100 1) (widen (float_of ttpm))) (widen (float_of tpm)))
      else float_of (pos 0)

  abbrev pub row_of : Float → ℕ → ℕ → ServerContext fp → StatsRow
  row_of p_ext sys_size user_size c =
      let s = c.performance_stats in
      record {
        user_xacts_history = last_user_xacts_history_get s;
        user_xacts_duration = last_user_xacts_duration_get s;
        user_xacts_tpm = last_user_xacts_tpm_get s;
        user_xacts_ttpm = last_user_xacts_ttpm_get s;
        user_xacts_ttpm_rate = ttpm_rate (last_user_xacts_ttpm_get s) (last_user_xacts_tpm_get s);
        refresh_xacts_history = total_refresh_xacts_get s;
        refresh_xacts_duration = total_refresh_xacts_duration_get s;
        average_service_delay_ms = c.average_service_delay_ms;
        degree_timing_violation = c.degree_timing_violation;
        smoth_degree_timing_violation = c.smoth_degree_timing_violation;
        p_ext = p_ext;
        sys_queue_size = sys_size;
        user_queue_size = user_size;
        inter_xact_sleep_ms = c.inter_xact_sleep_ms;
      }

  -- The first argument says that `stats_fp` is not NULL, and the next two are the sizes of the queues.
  unfoldable pub stats_print : Bool → ℕ → ℕ → ServerContext fp → Call (ℕ × Option StatsRow)
  stats_print has_file sys_size user_size c =
      if has_file
      then (pext_get fp c.aup_env >>= λ p_ext.
          done (server_success, some (row_of p_ext sys_size user_size c)))
      else done (server_fail, none)

module _ (fp : Floats) (update_stock : ℕ) where
  -- What the line of a sample tells of its period.
  pub record Tells (xs : List Finished) (c : ServerContext fp) (row : StatsRow fp) : Type 0 where
    pub count : row.user_xacts_history ≡ pos (user_count xs)
    pub time : row.user_xacts_duration ≡ user_time xs
    pub delay :
        row.average_service_delay_ms ≡ average_service_delay fp (user_time xs) (pos (user_count xs))
    pub degree :
        row.degree_timing_violation
        ≡ overload_degree fp row.average_service_delay_ms (fp.double_of c.desired_delay_bound_ms)
    pub smoothed :
        row.smoth_degree_timing_violation
        ≡ smoothed_overload_degree fp row.degree_timing_violation c.smoth_degree_timing_violation
            c.alpha
    pub sleep :
        row.inter_xact_sleep_ms
        ≡ next_sleep fp row.smoth_degree_timing_violation c.inter_xact_sleep_ms
    pub extension : row.p_ext ≡ c.aup_env.p_ext

  -- On statistics of the declared sizes, the threads report some transactions between two samples,
  -- each of a type and by a thread that exists. Then the line that is written for the second sample,
  -- if there is a file, reports the number and the summed times of just the user transactions in
  -- between, their mean delay, its degree against the bound of the configuration, the smoothed
  -- degree and the delay of arriving transactions that follow from these and the former ones, and
  -- the mean extension of the update policy; without a file the call fails and writes nothing.
  pub stats_print-Tells :
      (xs : List Finished) (c : ServerContext fp) (sys_size user_size : ℕ)
      → IsRing c.performance_stats
      → AllSized c.thread_stats_arr
      → InRange (length c.thread_stats_arr) xs
      → c.aup_env.magic ≡ aup_magic
      → let c' =
          performance_monitor fp
            (aggregate_stats fp update_stock (sample_then_report fp update_stock xs c)) in
        ((row : StatsRow fp) × (stats_print fp true sys_size user_size c'
            ≡ done (server_success, some row))
          × Tells xs c row)
        × (stats_print fp false sys_size user_size c' ≡ done (server_fail, none))
  unfolding stats_print pext_get performance_monitor aggregate_stats
  stats_print-Tells xs c sys_size user_size ring sized range magic =
      let c' =
        performance_monitor fp
          (aggregate_stats fp update_stock (sample_then_report fp update_stock xs c)) in
      let (count, time) = sample-period fp update_stock xs c ring sized range in
      let delay = average-period fp update_stock xs c ring sized range in
      let ok : (c.aup_env.magic == aup_magic) ≡ true = rw magic refl in
      (
        (
          row_of fp c.aup_env.p_ext sys_size user_size c',
          rw ok refl,
          record {
            count = count;
            time = time;
            delay = delay;
            degree = refl;
            smoothed = refl;
            sleep = refl;
            extension = refl;
          },
        ),
        refl,
      )
