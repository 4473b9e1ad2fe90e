-- ===== src/Stats/Period.antt =====
-- How the sums over the user transactions of all threads grow, and that sampling computes the same.
use chronos_xserver.Prelude.{
  ℕ, zero, suc, ◌+◌, ◌-◌, ◌<◌, ◌≡◌, refl, ap, ◌∙◌, false, List, [], ◌∷◌, arith, ltb, ◌==◌,
  if◌then◌else◌, length, get_or, set, ℤ, pos, ◌+ℤ◌, int_laws,
}
use chronos_xserver.Time.{Timeval, diff_time}
use chronos_xserver.Stats.{
  txn_types, ThreadStats, zero_thread_stats, duration, note_txn, update_thread_stats,
}
use chronos_xserver.Stats.Aggregate.{
  Totals, count_types, period_user_xacts_count, duration_types, period_user_xacts_duration,
  add_user_types, add_refresh, add_threads,
}
use chronos_xserver.Stats.Update.{IsSized, ended-note_txn, duration-note_txn}

-- the two inner sums, over the four types of user transactions
abbrev thread_count : ThreadStats → ℕ → ℕ
thread_count s total = count_types s (txn_types - 1) 0 total

abbrev thread_duration : ThreadStats → ℤ → ℤ
thread_duration s total = duration_types s (txn_types - 1) 0 total

count-shift :
    (arr : List ThreadStats) (total k : ℕ)
    → period_user_xacts_count arr (total + k) ≡ period_user_xacts_count arr total + k
unfolding period_user_xacts_count
count-shift [] total k = refl
count-shift (s ∷ arr) total k =
    ap (period_user_xacts_count arr)
      (let moved : thread_count s (total + k) ≡ thread_count s total + k = omega arith in moved)
    ∙ count-shift arr (thread_count s total) k

count-set :
    (arr : List ThreadStats) (n k total : ℕ) (s' : ThreadStats)
    → n < length arr
    → ((t : ℕ) → thread_count s' t ≡ thread_count (get_or arr n zero_thread_stats) t + k)
    → period_user_xacts_count (set arr n s') total ≡ period_user_xacts_count arr total + k
unfolding period_user_xacts_count
count-set [] n k total s' h e = absurd (omega arith)
count-set (s ∷ arr) zero k total s' h e =
    ap (period_user_xacts_count arr) (e total) ∙ count-shift arr (thread_count s total) k
count-set (s ∷ arr) (suc n) k total s' h e =
    count-set arr n k (thread_count s total) s' (omega arith) e

duration-shift :
    (arr : List ThreadStats) (total k : ℤ)
    → period_user_xacts_duration arr (total +ℤ k) ≡ period_user_xacts_duration arr total +ℤ k
unfolding period_user_xacts_duration
duration-shift [] total k = refl
duration-shift (s ∷ arr) total k =
    ap (period_user_xacts_duration arr) (
      let moved : thread_duration s (total +ℤ k) ≡ thread_duration s total +ℤ k = omega int_laws in
      moved)
    ∙ duration-shift arr (thread_duration s total) k

duration-set :
    (arr : List ThreadStats) (n : ℕ) (k total : ℤ) (s' : ThreadStats)
    → n < length arr
    → ((t : ℤ) → thread_duration s' t ≡ thread_duration (get_or arr n zero_thread_stats) t +ℤ k)
    → period_user_xacts_duration (set arr n s') total ≡ period_user_xacts_duration arr total +ℤ k
unfolding period_user_xacts_duration
duration-set [] n k total s' h e = absurd (omega arith)
duration-set (s ∷ arr) zero k total s' h e =
    ap (period_user_xacts_duration arr) (e total) ∙ duration-shift arr (thread_duration s total) k
duration-set (s ∷ arr) (suc n) k total s' h e =
    duration-set arr n k (thread_duration s total) s' (omega arith) e

-- A change of at most one of four summands.
sum_of_four :
    (i : ℕ) (t k a b c d : ℤ)
    → t
        +ℤ (if i == 0 then a +ℤ k else a)
        +ℤ (if i == 1 then b +ℤ k else b)
        +ℤ (if i == 2 then c +ℤ k else c)
        +ℤ (if i == 3 then d +ℤ k else d)
      ≡ t +ℤ a +ℤ b +ℤ c +ℤ d +ℤ (if ltb i (txn_types - 1) then k else pos 0)
sum_of_four zero t k a b c d = omega int_laws
sum_of_four (suc zero) t k a b c d = omega int_laws
sum_of_four (suc (suc zero)) t k a b c d = omega int_laws
sum_of_four (suc (suc (suc zero))) t k a b c d = omega int_laws
sum_of_four (suc (suc (suc (suc i)))) t k a b c d =
    let f₀ : (suc (suc (suc (suc i))) == 0) ≡ false = ground arith in
    let f₁ : (suc (suc (suc (suc i))) == 1) ≡ false = ground arith in
    let f₂ : (suc (suc (suc (suc i))) == 2) ≡ false = ground arith in
    let f₃ : (suc (suc (suc (suc i))) == 3) ≡ false = ground arith in
    let f₄ : ltb (suc (suc (suc (suc i)))) (txn_types - 1) ≡ false = ground arith in
    rw (f₀, f₁, f₂, f₃, f₄) (omega int_laws)

-- Reporting a finished transaction, of a type that exists, to the statistics of a thread, of the
-- declared sizes, adds one to the sum of the ended user transactions of all threads, and its time to
-- the sum of their durations, if its type is one of the four user types; for the fifth type it
-- leaves both sums.
pub update_thread_stats-period :
    (start end : Timeval) (desired : ℤ) (i txn_rc n : ℕ) (arr : List ThreadStats)
    → n < length arr
    → IsSized (get_or arr n zero_thread_stats)
    → i < txn_types
    → let arr' = update_thread_stats start end desired i txn_rc n arr in
      (period_user_xacts_count arr' 0
        ≡ period_user_xacts_count arr 0 + (if ltb i (txn_types - 1) then 1 else 0))
      × (period_user_xacts_duration arr' (pos 0)
          ≡ period_user_xacts_duration arr (pos 0)
            +ℤ (if ltb i (txn_types - 1) then diff_time start end else pos 0))
unfolding update_thread_stats
update_thread_stats-period start end desired i txn_rc n arr h z hi =
    let s = get_or arr n zero_thread_stats in
    let s' = note_txn start end desired i txn_rc s in
    let more = ended-note_txn start end desired i txn_rc s z hi in
    let time = duration-note_txn start end desired i txn_rc s z hi in
    (
      count-set arr n (if ltb i (txn_types - 1) then 1 else 0) 0 s' h
          (λ t. ground (arith, more 0, more 1, more 2, more 3)),
      duration-set arr n (if ltb i (txn_types - 1) then diff_time start end else pos 0) (pos 0) s' h
          (λ t.
            rw (time 0, time 1, time 2, time 3)
              (sum_of_four i t (diff_time start end) (duration s 0) (duration s 1) (duration s 2)
                (duration s 3))),
    )

-- The totals that a sample is made from agree with the two sums of a period.
pub add_threads-period :
    (update_stock : ℕ) (deadline : ℤ) (arr : List ThreadStats) (t : Totals)
    → ((add_threads update_stock deadline arr t).user_xacts
        ≡ period_user_xacts_count arr t.user_xacts)
      × ((add_threads update_stock deadline arr t).duration_user_xacts
          ≡ period_user_xacts_duration arr t.duration_user_xacts)
unfolding add_threads period_user_xacts_count period_user_xacts_duration add_user_types
add_threads-period update_stock deadline [] t = (refl, refl)
add_threads-period update_stock deadline (s ∷ arr) t =
    add_threads-period update_stock deadline arr
      (add_refresh update_stock s (add_user_types deadline s (txn_types - 1) 0 t))
