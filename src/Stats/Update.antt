-- ===== src/Stats/Update.antt =====
-- What one finished transaction changes in the statistics of the threads.
use chronos_xserver.Prelude.{
  ℕ, ◌+◌, ◌<◌, ◌≡◌, ap, ◌∙◌, ◌&&◌, [], arith, ltb, ◌==◌, if◌then◌else◌, inl, inr, Bool-cases,
  length, length-set, get_or, get_or-set, set, ℤ, pos, ◌+ℤ◌, ltb_ℤ,
}
use chronos_xserver.Config.{server_success}
use chronos_xserver.Time.{Timeval, diff_time}
use chronos_xserver.Stats.{
  txn_types, xact_success, xact_failed, xact_timely, xact_result_types, ThreadStats, executed,
  duration, max_time, count_one, note_max, add_duration, note_result, note_txn,
}
use chronos_xserver.Stats.Aggregate.{ended}

-- The arrays have the sizes of their declarations.
pub record IsSized (s : ThreadStats) : Type 0 where
  pub rows : length s.xacts_executed ≡ txn_types
  pub results : (i : ℕ) → i < txn_types → length (get_or s.xacts_executed i []) ≡ xact_result_types
  pub durations : length s.xacts_duration ≡ txn_types
  pub times : length s.xacts_max_time ≡ txn_types

executed-count_one :
    (i r j k : ℕ) (s : ThreadStats)
    → IsSized s
    → i < txn_types
    → r < xact_result_types
    → executed (count_one i r s) j k ≡ (if i == j && r == k then 1 else 0) + executed s j k
executed-count_one i r j k s z hi hr = ground (
  arith,
  get_or-set s.xacts_executed i j (set (get_or s.xacts_executed i []) r (executed s i r + 1)) [],
  get_or-set (get_or s.xacts_executed i []) r k (executed s i r + 1) 0,
  z.rows,
  z.results i hi,
)

count_one-IsSized :
    (i r : ℕ) (s : ThreadStats) → IsSized s → i < txn_types → IsSized (count_one i r s)
count_one-IsSized i r s z hi =
    let row = set (get_or s.xacts_executed i []) r (executed s i r + 1) in
    record {
      rows = length-set s.xacts_executed i row ∙ z.rows;
      results = λ j hj. ground (
        arith,
        get_or-set s.xacts_executed i j row [],
        z.rows,
        z.results j hj,
        z.results i hi,
        length-set (get_or s.xacts_executed i []) r (executed s i r + 1),
      );
      durations = z.durations;
      times = z.times;
    }

note_max-IsSized : (i : ℕ) (time : ℤ) (s : ThreadStats) → IsSized s → IsSized (note_max i time s)
note_max-IsSized i time s z = elim (Bool-cases (ltb_ℤ (max_time s i) time)) [
  | inl e ↦ rw e (record {
    rows = z.rows;
    results = z.results;
    durations = z.durations;
    times = length-set s.xacts_max_time i time ∙ z.times;
  })
  | inr e ↦ rw e z
]

add_duration-IsSized :
    (i : ℕ) (time : ℤ) (s : ThreadStats) → IsSized s → IsSized (add_duration i time s)
add_duration-IsSized i time s z = record {
  rows = z.rows;
  results = z.results;
  durations = length-set s.xacts_duration i (duration s i +ℤ time) ∙ z.durations;
  times = z.times;
}

note_result-IsSized :
    (i txn_rc : ℕ) (time desired : ℤ) (s : ThreadStats)
    → IsSized s
    → i < txn_types
    → IsSized (note_result i txn_rc time desired s)
note_result-IsSized i txn_rc time desired s z hi = elim (Bool-cases (txn_rc == server_success)) [
  | inr e ↦ rw e (count_one-IsSized i xact_failed s z hi)
  | inl e ↦ elim (Bool-cases (ltb_ℤ time desired)) [
    | inl l ↦
        rw (e, l)
          (count_one-IsSized i xact_success (count_one i xact_timely s)
            (count_one-IsSized i xact_timely s z hi) hi)
    | inr l ↦ rw (e, l) (count_one-IsSized i xact_success s z hi)
  ]
]

ended-count_one :
    (i r j : ℕ) (s : ThreadStats)
    → IsSized s
    → i < txn_types
    → r < xact_result_types
    → ended (count_one i r s) j ≡ (if i == j && ltb r 2 then 1 else 0) + ended s j
ended-count_one i r j s z hi hr =
    ground (arith, executed-count_one i r j 0 s z hi hr, executed-count_one i r j 1 s z hi hr)

ended-note_result :
    (i txn_rc : ℕ) (time desired : ℤ) (j : ℕ) (s : ThreadStats)
    → IsSized s
    → i < txn_types
    → ended (note_result i txn_rc time desired s) j ≡ (if i == j then 1 else 0) + ended s j
ended-note_result i txn_rc time desired j s z hi = elim (Bool-cases (txn_rc == server_success)) [
  | inr e ↦ rw e (ended-count_one i xact_failed j s z hi (omega arith) ∙ ground arith)
  | inl e ↦ elim (Bool-cases (ltb_ℤ time desired)) [
    | inl l ↦
        rw (e, l)
          (ended-count_one i xact_success j (count_one i xact_timely s)
              (count_one-IsSized i xact_timely s z hi) hi (omega arith)
            ∙ ground (arith, ended-count_one i xact_timely j s z hi))
    | inr l ↦ rw (e, l) (ended-count_one i xact_success j s z hi (omega arith) ∙ ground arith)
  ]
]

duration-note_result :
    (i txn_rc : ℕ) (time desired : ℤ) (s : ThreadStats)
    → (note_result i txn_rc time desired s).xacts_duration ≡ s.xacts_duration
duration-note_result i txn_rc time desired s = ground arith

ended-note_max : (i j : ℕ) (time : ℤ) (s : ThreadStats) → ended (note_max i time s) j ≡ ended s j
ended-note_max i j time s = ground arith

duration-note_max :
    (i : ℕ) (time : ℤ) (s : ThreadStats) → (note_max i time s).xacts_duration ≡ s.xacts_duration
duration-note_max i time s = ground arith

module _ (start end : Timeval) (desired : ℤ) (i txn_rc : ℕ) (s : ThreadStats) (z : IsSized s)
    (hi : i < txn_types) where
  timed : ThreadStats
  timed = add_duration i (diff_time start end) (note_max i (diff_time start end) s)

  timed-IsSized : IsSized timed
  unfolding timed
  timed-IsSized =
      add_duration-IsSized i (diff_time start end) (note_max i (diff_time start end) s)
        (note_max-IsSized i (diff_time start end) s z)

  -- One transaction of a type ends one more transaction of that type, and of no other.
  pub ended-note_txn :
      (j : ℕ)
      → ended (note_txn start end desired i txn_rc s) j ≡ (if i == j then 1 else 0) + ended s j
  unfolding note_txn timed
  ended-note_txn j =
      ended-note_result i txn_rc (diff_time start end) desired j timed timed-IsSized hi
      ∙ ap (λ n. (if i == j then 1 else 0) + n) (ended-note_max i j (diff_time start end) s)

  -- It adds its time to the duration of that type, and of no other.
  pub duration-note_txn :
      (j : ℕ)
      → duration (note_txn start end desired i txn_rc s) j
        ≡ (if i == j then duration s j +ℤ diff_time start end else duration s j)
  unfolding note_txn timed
  duration-note_txn j =
      let time = diff_time start end in
      ap (λ l. get_or l j (pos 0)) (duration-note_result i txn_rc time desired timed)
      ∙ get_or-set (note_max i time s).xacts_duration i j (duration (note_max i time s) i +ℤ time)
          (pos 0) (omega (arith, (note_max-IsSized i time s z).durations))
      ∙ ap (λ l. if i == j then get_or l i (pos 0) +ℤ time else get_or l j (pos 0))
          (duration-note_max i time s)
      ∙ ground arith

  pub note_txn-IsSized : IsSized (note_txn start end desired i txn_rc s)
  unfolding note_txn timed
  note_txn-IsSized =
      note_result-IsSized i txn_rc (diff_time start end) desired timed timed-IsSized hi
