-- ===== src/Monitor/Period.antt =====
-- From finished transactions to the delay that the performance monitor computes: reports to the
-- threads' statistics, two samples, and the mean over what was reported between the samples.
use chronos_xserver.Prelude.{
  ℕ, ◌+◌, ◌-◌, ◌<◌, ◌≡◌, sym, subst, ap₂, ◌∙◌, Bool, List, [], ◌∷◌, arith, inl, inr, Bool-cases,
  ltb, ◌==◌, if◌then◌else◌, length, length-set, get_or, get_or-set, ℤ, pos, ◌+ℤ◌, ◌-ℤ◌, int_laws,
}
use chronos_xserver.Floats.{Floats}
use chronos_xserver.Time.{Timeval, diff_time}
use chronos_xserver.Stats.{
  txn_types, ThreadStats, zero_thread_stats, update_thread_stats, note_txn,
  last_user_xacts_history_get, last_user_xacts_duration_get,
}
use chronos_xserver.Stats.Aggregate.{
  zero_totals, add_threads, aggregate_thread_stats, store_sample, period_user_xacts_count,
  period_user_xacts_duration,
}
use chronos_xserver.Stats.Update.{IsSized, note_txn-IsSized}
use chronos_xserver.Stats.Period.{update_thread_stats-period, add_threads-period}
use chronos_xserver.Stats.Window.{IsRing, two_samples}
use chronos_xserver.Monitor.{
  ServerContext, average_service_delay, performance_monitor, aggregate_stats,
}

-- one call of `update_thread_stats`
pub record Finished : Type 0 where
  pub start : Timeval
  pub end : Timeval
  pub desired : ℤ
  pub txn_type : ℕ
  pub txn_rc : ℕ
  pub thread_num : ℕ

abbrev pub report : Finished → List ThreadStats → List ThreadStats
report x arr = update_thread_stats x.start x.end x.desired x.txn_type x.txn_rc x.thread_num arr

abbrev pub report_all : List Finished → List ThreadStats → List ThreadStats
report_all [] arr = arr
report_all (x ∷ xs) arr = report_all xs (report x arr)

abbrev pub is_user : Finished → Bool
is_user x = ltb x.txn_type (txn_types - 1)

-- the number of the user transactions among them, and the sum of their times
abbrev pub user_count : List Finished → ℕ
user_count [] = 0
user_count (x ∷ xs) = (if is_user x then 1 else 0) + user_count xs

abbrev pub user_time : List Finished → ℤ
user_time [] = pos 0
user_time (x ∷ xs) = (if is_user x then diff_time x.start x.end else pos 0) +ℤ user_time xs

-- Reports by threads that exist, of types that exist.
pub data InRange (threads : ℕ) : List Finished → Type 0 where
  nothing : InRange threads []
  also :
      {x : Finished} {xs : List Finished}
      → x.thread_num < threads
      → x.txn_type < txn_types
      → InRange threads xs
      → InRange threads (x ∷ xs)

abbrev pub AllSized : List ThreadStats → Type 0
AllSized arr = (n : ℕ) → n < length arr → IsSized (get_or arr n zero_thread_stats)

length-report : (x : Finished) (arr : List ThreadStats) → length (report x arr) ≡ length arr
unfolding update_thread_stats
length-report x arr = length-set arr x.thread_num _

report-AllSized :
    (x : Finished) (arr : List ThreadStats)
    → x.thread_num < length arr
    → x.txn_type < txn_types
    → AllSized arr
    → AllSized (report x arr)
unfolding update_thread_stats
report-AllSized x arr h ht sized n hn =
    let s = get_or arr x.thread_num zero_thread_stats in
    let s' = note_txn x.start x.end x.desired x.txn_type x.txn_rc s in
    let s'-IsSized =
      note_txn-IsSized x.start x.end x.desired x.txn_type x.txn_rc s (sized x.thread_num h) ht in
    rw (get_or-set arr x.thread_num n s' zero_thread_stats h)
      (elim (Bool-cases (x.thread_num == n)) [
        | inl e ↦ rw e s'-IsSized
        | inr e ↦ rw e (sized n (omega (arith, length-report x arr)))
      ])

report_all-period :
    (xs : List Finished) (arr : List ThreadStats)
    → InRange (length arr) xs
    → AllSized arr
    → (period_user_xacts_count (report_all xs arr) 0
        ≡ period_user_xacts_count arr 0 + user_count xs)
      × (period_user_xacts_duration (report_all xs arr) (pos 0)
          ≡ period_user_xacts_duration arr (pos 0) +ℤ user_time xs)
report_all-period [] arr r sized = (omega arith, omega int_laws)
report_all-period (x ∷ xs) arr (also h ht rest) sized =
    let (count, time) =
      update_thread_stats-period x.start x.end x.desired x.txn_type x.txn_rc x.thread_num arr h
        (sized x.thread_num h) ht in
    let same : length (report x arr) ≡ length arr = length-report x arr in
    let (counts, times) =
      report_all-period xs (report x arr) (subst (λ n. InRange n xs) (sym same) rest)
        (report-AllSized x arr h ht sized) in
    (counts ∙ ground (arith, count), times ∙ rw time (omega int_laws))

module _ (fp : Floats) (update_stock : ℕ) where
  abbrev pub sample_then_report : List Finished → ServerContext fp → ServerContext fp
  sample_then_report xs c =
      let c' = aggregate_stats fp update_stock c in
      record c' { thread_stats_arr = report_all xs c'.thread_stats_arr }

  -- The sums of the period between the two samples.
  pub sample-period :
      (xs : List Finished) (c : ServerContext fp)
      → IsRing c.performance_stats
      → AllSized c.thread_stats_arr
      → InRange (length c.thread_stats_arr) xs
      → let s = (aggregate_stats fp update_stock (sample_then_report xs c)).performance_stats in
        (last_user_xacts_history_get s ≡ pos (user_count xs))
        × (last_user_xacts_duration_get s ≡ user_time xs)
  unfolding aggregate_stats aggregate_thread_stats store_sample
  sample-period xs c ring sized range =
      let arr = c.thread_stats_arr in
      let deadline = c.performance_stats.deadline in
      let t₁ = add_threads update_stock deadline arr zero_totals in
      let t₂ = add_threads update_stock deadline (report_all xs arr) zero_totals in
      let (more, longer) = report_all-period xs arr range sized in
      let (n₁, d₁) = add_threads-period update_stock deadline arr zero_totals in
      let (n₂, d₂) = add_threads-period update_stock deadline (report_all xs arr) zero_totals in
      let (count, time) = two_samples t₁ t₂ c.performance_stats ring in
      let in_time : t₂.duration_user_xacts -ℤ t₁.duration_user_xacts ≡ user_time xs =
        rw (d₂, d₁, longer) (omega int_laws) in
      let in_count : pos t₂.user_xacts -ℤ pos t₁.user_xacts ≡ pos (user_count xs) =
        rw (n₂, n₁, more) (omega int_laws) in
      (count ∙ in_count, time ∙ in_time)

  -- On statistics of the declared sizes, the threads report some transactions between two samples,
  -- each of a type and by a thread that exists. Then the performance monitor, run
  -- on the second sample, takes for the average service delay the sum of the times of just the user
  -- transactions reported in between over their number; refresh transactions and what was reported
  -- earlier do not count.
  pub average-period :
      (xs : List Finished) (c : ServerContext fp)
      → IsRing c.performance_stats
      → AllSized c.thread_stats_arr
      → InRange (length c.thread_stats_arr) xs
      → (performance_monitor fp
          (aggregate_stats fp update_stock (sample_then_report xs c))).average_service_delay_ms
        ≡ average_service_delay fp (user_time xs) (pos (user_count xs))
  unfolding performance_monitor
  average-period xs c ring sized range =
      let (count, time) = sample-period xs c ring sized range in
      ap₂ (average_service_delay fp) time count
