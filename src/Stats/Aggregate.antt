-- ===== src/Stats/Aggregate.antt =====
-- stats.c: `aggregate_thread_stats` and the two sums over the user transactions of a period.
use chronos_xserver.Prelude.{
  ℕ, zero, suc, ◌+◌, ◌-◌, ◌%◌, List, [], ◌∷◌, if◌then◌else◌, get_or, set, ℤ, pos, ◌+ℤ◌, ◌-ℤ◌, ltb_ℤ,
}
use chronos_xserver.Config.{sampling_slots}
use chronos_xserver.Stats.{
  txn_types, xact_success, xact_failed, xact_timely, ThreadStats, ServerStats, executed, duration,
  max_time,
}

-- the local variables of `aggregate_thread_stats`
pub record Totals : Type 0 where
  pub user_xacts : ℕ
  pub duration_user_xacts : ℤ
  pub delay_user_xacts : ℤ
  pub slack_user_xacts : ℤ
  pub timely_user_xacts : ℕ
  pub max_duration_user_xacts : ℤ
  pub timely_refresh_xacts : ℕ
  pub refresh_xacts : ℕ
  pub duration_refresh_xacts : ℤ

abbrev pub zero_totals : Totals
zero_totals = record {
  user_xacts = 0;
  duration_user_xacts = pos 0;
  delay_user_xacts = pos 0;
  slack_user_xacts = pos 0;
  timely_user_xacts = 0;
  max_duration_user_xacts = pos 0;
  timely_refresh_xacts = 0;
  refresh_xacts = 0;
  duration_refresh_xacts = pos 0;
}

-- the transactions of a type that ended, well or not
abbrev pub ended : ThreadStats → ℕ → ℕ
ended s i = executed s i xact_success + executed s i xact_failed

-- the body of the inner loop, for user transaction type `i`
abbrev pub add_user_type : ℤ → ThreadStats → ℕ → Totals → Totals
add_user_type deadline s i t =
    let late = ltb_ℤ deadline (duration s i) in
    record t {
      timely_user_xacts = t.timely_user_xacts + executed s i xact_timely;
      user_xacts = t.user_xacts + ended s i;
      duration_user_xacts = t.duration_user_xacts +ℤ duration s i;
      delay_user_xacts =
          if late then t.delay_user_xacts +ℤ (duration s i -ℤ deadline) else t.delay_user_xacts;
      slack_user_xacts =
          if late then t.slack_user_xacts else t.slack_user_xacts +ℤ (deadline -ℤ duration s i);
      max_duration_user_xacts =
          if ltb_ℤ t.max_duration_user_xacts (max_time s i)
          then max_time s i
          else t.max_duration_user_xacts;
    }

-- the inner loop, with `left` types from `i` to go
unfoldable pub add_user_types : ℤ → ThreadStats → ℕ → ℕ → Totals → Totals
add_user_types deadline s zero i t = t
add_user_types deadline s (suc left) i t =
    add_user_types deadline s left (i + 1) (add_user_type deadline s i t)

module _ (update_stock : ℕ) where
  -- the refresh transactions of a thread
  abbrev pub add_refresh : ThreadStats → Totals → Totals
  add_refresh s t = record t {
    timely_refresh_xacts = t.timely_refresh_xacts + executed s update_stock xact_timely;
    refresh_xacts = t.refresh_xacts + ended s update_stock;
    duration_refresh_xacts = t.duration_refresh_xacts +ℤ duration s update_stock;
  }

  -- the outer loop, over the statistics of the threads
  unfoldable pub add_threads : ℤ → List ThreadStats → Totals → Totals
  add_threads deadline [] t = t
  add_threads deadline (s ∷ arr) t =
      add_threads deadline arr (add_refresh s (add_user_types deadline s (txn_types - 1) 0 t))

-- the slot before slot `n` in the ring of samples
abbrev pub previous : ℕ → ℕ
previous n = (n + sampling_slots - 1) % sampling_slots

-- What `aggregate_thread_stats` stores, once the totals are known.
unfoldable pub store_sample : Totals → ServerStats → ServerStats
store_sample t s =
    let n = (s.sample_num + 1) % sampling_slots in
    let old_count = get_or s.user_xacts_history n (pos 0) in
    let old_timely = get_or s.user_xacts_timely n (pos 0) in
    let count = pos t.user_xacts in
    let timely = pos t.timely_user_xacts in
    let history = set s.user_xacts_history n count in
    let durations = set s.user_xacts_duration n t.duration_user_xacts in
    record s {
      sample_num = n;
      user_xacts_history = history;
      user_xacts_timely = set s.user_xacts_timely n timely;
      user_xacts_duration = durations;
      user_xacts_delay = set s.user_xacts_delay n t.delay_user_xacts;
      user_xacts_slack = set s.user_xacts_slack n t.slack_user_xacts;
      refresh_xacts_history = set s.refresh_xacts_history n (pos t.refresh_xacts);
      refresh_xacts_duration = set s.refresh_xacts_duration n t.duration_refresh_xacts;
      user_xacts_tpm = set s.user_xacts_tpm n (count -ℤ old_count);
      user_xacts_ttpm = set s.user_xacts_ttpm n (timely -ℤ old_timely);
      user_xacts_count_in_period =
          set s.user_xacts_count_in_period n
            (get_or history n (pos 0) -ℤ get_or history (previous n) (pos 0));
      user_xacts_duration_in_period =
          set s.user_xacts_duration_in_period n
            (get_or durations n (pos 0) -ℤ get_or durations (previous n) (pos 0));
    }

unfoldable pub aggregate_thread_stats : ℕ → List ThreadStats → ServerStats → ServerStats
aggregate_thread_stats update_stock arr s =
    store_sample (add_threads update_stock s.deadline arr zero_totals) s

-- `period_user_xacts_count_get` and `period_user_xacts_duration_get`: the inner and outer loops
abbrev pub count_types : ThreadStats → ℕ → ℕ → ℕ → ℕ
count_types s zero i total = total
count_types s (suc left) i total = count_types s left (i + 1) (total + ended s i)

unfoldable pub period_user_xacts_count : List ThreadStats → ℕ → ℕ
period_user_xacts_count [] total = total
period_user_xacts_count (s ∷ arr) total =
    period_user_xacts_count arr (count_types s (txn_types - 1) 0 total)

abbrev pub duration_types : ThreadStats → ℕ → ℕ → ℤ → ℤ
duration_types s zero i total = total
duration_types s (suc left) i total = duration_types s left (i + 1) (total +ℤ duration s i)

unfoldable pub period_user_xacts_duration : List ThreadStats → ℤ → ℤ
period_user_xacts_duration [] total = total
period_user_xacts_duration (s ∷ arr) total =
    period_user_xacts_duration arr (duration_types s (txn_types - 1) 0 total)
