-- ===== src/Stats.antt =====
-- stats.c: per-thread transaction statistics, and the server statistics that are sampled from them.
-- Counts, durations and totals are `long long`s that do not overflow here. The numbers of the
-- transaction types come from chronos_transactions.h, so `update_stock` is a parameter where it is
-- used.
pub mod Aggregate
pub mod Update
pub mod Period
pub mod Window
pub mod Response
pub mod Tests
use chronos_xserver.Prelude.{
  ℕ, zero, suc, ◌+◌, ◌-◌, ◌%◌, List, [], ◌∷◌, ◌==◌, if◌then◌else◌, length, get_or, set, replicate,
  ℤ, pos, ◌+ℤ◌, ◌-ℤ◌, ltb_ℤ, ◌*ℤ◌,
}
use chronos_xserver.Config.{server_success, sampling_slots}
use chronos_xserver.Time.{Timeval, diff_time}

-- CHRONOS_TXN_TYPES
abbrev pub txn_types : ℕ
txn_types = 5

-- `chronosTransactionResult_t`
abbrev pub xact_success : ℕ
xact_success = 0

abbrev pub xact_failed : ℕ
xact_failed = 1

abbrev pub xact_timely : ℕ
xact_timely = 4

abbrev pub xact_result_types : ℕ
xact_result_types = 5

-- `chronosServerThreadStats_t`
pub record ThreadStats : Type 0 where
  pub xacts_executed : List (List ℕ)
  pub xacts_duration : List ℤ
  pub xacts_max_time : List ℤ

-- `chronosServerStats_t`, less the arrays that nothing writes
pub record ServerStats : Type 0 where
  pub sample_num : ℕ
  pub deadline : ℤ
  pub user_xacts_count_in_period : List ℤ
  pub user_xacts_duration_in_period : List ℤ
  pub user_xacts_history : List ℤ
  pub user_xacts_timely : List ℤ
  pub user_xacts_duration : List ℤ
  pub user_xacts_slack : List ℤ
  pub user_xacts_delay : List ℤ
  pub user_xacts_tpm : List ℤ
  pub user_xacts_ttpm : List ℤ
  pub refresh_xacts_history : List ℤ
  pub refresh_xacts_duration : List ℤ

abbrev pub zero_thread_stats : ThreadStats
zero_thread_stats = record {
  xacts_executed = replicate txn_types (replicate xact_result_types 0);
  xacts_duration = replicate txn_types (pos 0);
  xacts_max_time = replicate txn_types (pos 0);
}

-- `chronosServerThreadStatsAlloc`, when `calloc` succeeds
abbrev pub thread_stats_alloc : ℕ → List ThreadStats
thread_stats_alloc num_threads = replicate num_threads zero_thread_stats

-- `chronosServerStatsAlloc`, when `calloc` succeeds
abbrev pub server_stats_alloc : ℤ → ServerStats
server_stats_alloc deadline = record {
  sample_num = 0;
  deadline = deadline;
  user_xacts_count_in_period = replicate sampling_slots (pos 0);
  user_xacts_duration_in_period = replicate sampling_slots (pos 0);
  user_xacts_history = replicate sampling_slots (pos 0);
  user_xacts_timely = replicate sampling_slots (pos 0);
  user_xacts_duration = replicate sampling_slots (pos 0);
  user_xacts_slack = replicate sampling_slots (pos 0);
  user_xacts_delay = replicate sampling_slots (pos 0);
  user_xacts_tpm = replicate sampling_slots (pos 0);
  user_xacts_ttpm = replicate sampling_slots (pos 0);
  refresh_xacts_history = replicate sampling_slots (pos 0);
  refresh_xacts_duration = replicate sampling_slots (pos 0);
}

-- `xacts_executed[i][r]`, `xacts_duration[i]`, `xacts_max_time[i]`
abbrev pub executed : ThreadStats → ℕ → ℕ → ℕ
executed s i r = get_or (get_or s.xacts_executed i []) r 0

abbrev pub duration : ThreadStats → ℕ → ℤ
duration s i = get_or s.xacts_duration i (pos 0)

abbrev pub max_time : ThreadStats → ℕ → ℤ
max_time s i = get_or s.xacts_max_time i (pos 0)

-- `xacts_executed[i][r] ++`
abbrev pub count_one : ℕ → ℕ → ThreadStats → ThreadStats
count_one i r s = record s {
  xacts_executed =
      set s.xacts_executed i (set (get_or s.xacts_executed i []) r (executed s i r + 1));
}

abbrev pub note_max : ℕ → ℤ → ThreadStats → ThreadStats
note_max i time s =
    if ltb_ℤ (max_time s i) time
    then record s { xacts_max_time = set s.xacts_max_time i time }
    else s

abbrev pub add_duration : ℕ → ℤ → ThreadStats → ThreadStats
add_duration i time s = record s { xacts_duration = set s.xacts_duration i (duration s i +ℤ time) }

abbrev pub note_result : ℕ → ℕ → ℤ → ℤ → ThreadStats → ThreadStats
note_result i txn_rc time desired_delay_ms s =
    if txn_rc == server_success
    then count_one i xact_success
        (if ltb_ℤ time desired_delay_ms then count_one i xact_timely s else s)
    else count_one i xact_failed s

-- the changes of `update_thread_stats` to the statistics of one thread
pub note_txn : Timeval → Timeval → ℤ → ℕ → ℕ → ThreadStats → ThreadStats
note_txn start end desired_delay_ms txn_type txn_rc s =
    let time = diff_time start end in
    note_result txn_type txn_rc time desired_delay_ms
      (add_duration txn_type time (note_max txn_type time s))

unfoldable pub update_thread_stats :
    Timeval → Timeval → ℤ → ℕ → ℕ → ℕ → List ThreadStats → List ThreadStats
update_thread_stats start end desired_delay_ms txn_type txn_rc thread_num arr =
    set arr thread_num (
      note_txn start end desired_delay_ms txn_type txn_rc (get_or arr thread_num zero_thread_stats))

-- The getters of the last sample.
abbrev pub last_sample : (ServerStats → List ℤ) → ServerStats → ℤ
last_sample field s = get_or (field s) s.sample_num (pos 0)

abbrev pub last_user_xacts_duration_get : ServerStats → ℤ
last_user_xacts_duration_get = last_sample (λ s. s.user_xacts_duration_in_period)

abbrev pub last_user_xacts_history_get : ServerStats → ℤ
last_user_xacts_history_get = last_sample (λ s. s.user_xacts_count_in_period)

abbrev pub last_user_xacts_delay_get : ServerStats → ℤ
last_user_xacts_delay_get = last_sample (λ s. s.user_xacts_delay)

abbrev pub last_user_xacts_slack_get : ServerStats → ℤ
last_user_xacts_slack_get = last_sample (λ s. s.user_xacts_slack)

abbrev pub last_user_xacts_tpm_get : ServerStats → ℤ
last_user_xacts_tpm_get = last_sample (λ s. s.user_xacts_tpm)

abbrev pub last_user_xacts_ttpm_get : ServerStats → ℤ
last_user_xacts_ttpm_get = last_sample (λ s. s.user_xacts_ttpm)

abbrev pub total_refresh_xacts_get : ServerStats → ℤ
total_refresh_xacts_get = last_sample (λ s. s.refresh_xacts_history)

abbrev pub total_refresh_xacts_duration_get : ServerStats → ℤ
total_refresh_xacts_duration_get = last_sample (λ s. s.refresh_xacts_duration)
