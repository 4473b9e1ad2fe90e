-- ===== src/Monitor/Sleep.antt =====
-- How the delay of arriving transactions moves over many runs of the performance monitor.
use chronos_xserver.Prelude.{
  ℕ, suc, ◌+◌, ◌-◌, ◌≤◌, ◌≡◌, ap, ◌∙◌, Bool, false, some, List, [], ◌∷◌, arith, length,
  if◌then◌else◌, pos, ◌+ℤ◌, ◌-ℤ◌,
}
use chronos_xserver.Floats.{Floats}
use chronos_xserver.Stats.{ServerStats}
use chronos_xserver.Monitor.{ServerContext, next_sleep, performance_monitor, admission_control}

module _ (fp : Floats) where
  open fp use {Double, lt_d, literal}

  -- One run of the monitor per entry, on the statistics as they then are.
  abbrev pub monitor_all : List ServerStats → ServerContext fp → ServerContext fp
  monitor_all [] c = c
  monitor_all (s ∷ ss) c =
      monitor_all ss (performance_monitor fp (record c { performance_stats = s }))

  -- the smoothed degree of the last run is above the threshold
  abbrev is_overloaded : ServerContext fp → Bool
  is_overloaded c = lt_d (literal 1 1000) c.smoth_degree_timing_violation

  next_sleep_lem :
      (smoth : Double) (n : ℕ)
      → next_sleep fp smoth (pos (suc n))
        ≡ pos (suc (if lt_d (literal 1 1000) smoth then n + 1 else n - 1))
  unfolding next_sleep ◌-ℤ◌ ◌+ℤ◌
  next_sleep_lem smoth n = ground arith

  sleep_of :
      (s : ServerStats) (c : ServerContext fp) (n : ℕ)
      → c.inter_xact_sleep_ms ≡ pos (suc n)
      → let c' = performance_monitor fp (record c { performance_stats = s }) in
        c'.inter_xact_sleep_ms ≡ pos (suc (if is_overloaded c' then n + 1 else n - 1))
  unfolding performance_monitor
  sleep_of s c n e =
      let c' = performance_monitor fp (record c { performance_stats = s }) in
      ap (next_sleep fp c'.smoth_degree_timing_violation) e
      ∙ next_sleep_lem c'.smoth_degree_timing_violation n

  -- A delay of at least 1 ms is never taken back: after any number of runs, on any statistics, the
  -- delay is at least 1 ms, differs from the first by at most 1 ms a run, and every arriving
  -- transaction is delayed by just that.
  pub sleep_stays :
      (ss : List ServerStats) (c : ServerContext fp) (n : ℕ)
      → c.inter_xact_sleep_ms ≡ pos (suc n)
      → (m : ℕ) × ((monitor_all ss c).inter_xact_sleep_ms ≡ pos (suc m))
        × (m ≤ n + length ss)
        × (n ≤ m + length ss)
        × (admission_control fp (monitor_all ss c) ≡ some (pos (suc m)))
  unfolding admission_control
  sleep_stays [] c n e = (n, e, omega arith, omega arith, rw e (ground arith))
  sleep_stays (s ∷ ss) c n e =
      let c' = performance_monitor fp (record c { performance_stats = s }) in
      let n' = if is_overloaded c' then n + 1 else n - 1 in
      let step : c'.inter_xact_sleep_ms ≡ pos (suc n') = sleep_of s c n e in
      let (m, at, above, below, slept) = sleep_stays ss c' n' step in
      (m, at, ground arith, ground arith, slept)

  -- No run leaves a smoothed degree above the threshold.
  pub data Calm : List ServerStats → ServerContext fp → Type 0 where
    no_runs : {c : ServerContext fp} → Calm [] c
    one_more :
        {s : ServerStats} {ss : List ServerStats} {c : ServerContext fp}
        → is_overloaded (performance_monitor fp (record c { performance_stats = s })) ≡ false
        → Calm ss (performance_monitor fp (record c { performance_stats = s }))
        → Calm (s ∷ ss) c

  -- While no run finds an overload, the delay falls by 1 ms a run, down to 1 ms and no further.
  pub sleep_falls :
      (ss : List ServerStats) (c : ServerContext fp) (n : ℕ)
      → c.inter_xact_sleep_ms ≡ pos (suc n)
      → Calm ss c
      → (monitor_all ss c).inter_xact_sleep_ms ≡ pos (suc (n - length ss))
  sleep_falls [] c n e no_runs = e ∙ ap (λ m. pos (suc m)) (omega arith)
  sleep_falls (s ∷ ss) c n e (one_more calm rest) =
      let c' = performance_monitor fp (record c { performance_stats = s }) in
      let step : c'.inter_xact_sleep_ms ≡ pos (suc (n - 1)) =
        sleep_of s c n e ∙ ap (λ b. pos (suc (if b then n + 1 else n - 1))) calm in
      sleep_falls ss c' (n - 1) step rest ∙ ap (λ m. pos (suc m)) (omega arith)
