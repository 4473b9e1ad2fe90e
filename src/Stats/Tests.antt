-- ===== src/Stats/Tests.antt =====
-- The statistics of stats.c at concrete inputs: two threads, one purchase of 5 ms, three samples.
use chronos_xserver.Prelude.{
  ℕ, zero, suc, ◌*◌, ◌<◌, ◌≡◌, refl, List, [], arith, length, get_or, pos, ◌-ℤ◌,
}
use chronos_xserver.Time.{Timeval}
use chronos_xserver.Stats.{
  txn_types, ThreadStats, ServerStats, zero_thread_stats, thread_stats_alloc, server_stats_alloc,
  update_thread_stats, last_user_xacts_tpm_get, last_user_xacts_ttpm_get,
  last_user_xacts_history_get, last_user_xacts_duration_get, xact_result_types,
}
use chronos_xserver.Stats.Aggregate.{Totals, zero_totals, store_sample}
use chronos_xserver.Stats.Update.{IsSized}
use chronos_xserver.Stats.Window.{IsRing, three_samples}

abbrev threads : List ThreadStats
threads = thread_stats_alloc 2

abbrev pub begun : Timeval
begun = record { tv_sec = 10; tv_usec = 1000 }

abbrev pub over : Timeval
over = record { tv_sec = 10; tv_usec = 6000 }

results_of :
    (i : ℕ)
    → i < txn_types
    → length (get_or zero_thread_stats.xacts_executed i []) ≡ xact_result_types
results_of zero h = refl
results_of (suc zero) h = refl
results_of (suc (suc zero)) h = refl
results_of (suc (suc (suc zero))) h = refl
results_of (suc (suc (suc (suc zero)))) h = refl
results_of (suc (suc (suc (suc (suc i))))) h = absurd (omega arith)

pub zero_thread_stats-IsSized : IsSized zero_thread_stats
zero_thread_stats-IsSized = record {
  rows = refl;
  results = results_of;
  durations = refl;
  times = refl;
}

abbrev after : List ThreadStats
after = update_thread_stats begun over (pos 500) 2 0 1 threads

-- totals with `n` user transactions, `n` of them timely, of 5 ms each
abbrev totals : ℕ → Totals
totals n = record zero_totals {
  user_xacts = n;
  timely_user_xacts = n;
  duration_user_xacts = pos (5 * n);
}

abbrev sampled : ServerStats
sampled =
    store_sample (totals 40)
      (store_sample (totals 25) (store_sample (totals 10) (server_stats_alloc (pos 500))))

pub server_stats-IsRing : IsRing (server_stats_alloc (pos 500))
server_stats-IsRing = record {
  at = omega arith;
  counts = refl;
  periods = refl;
  history = refl;
  timely = refl;
  durations = refl;
  tpm = refl;
  ttpm = refl;
}

three_samples_example :
    (last_user_xacts_tpm_get sampled ≡ pos 40 -ℤ pos 10)
    × (last_user_xacts_ttpm_get sampled ≡ pos 40 -ℤ pos 10)
    × (last_user_xacts_history_get sampled ≡ pos 40 -ℤ pos 25)
    × (last_user_xacts_duration_get sampled ≡ pos 200 -ℤ pos 125)
three_samples_example =
    three_samples (totals 10) (totals 25) (totals 40) (server_stats_alloc (pos 500))
      server_stats-IsRing
