-- ===== src/Stats/Window.antt =====
-- What the ring of samples holds: the last sample against the ones before it.
use chronos_xserver.Prelude.{
  ℕ, ◌+◌, ◌%◌, ◌<◌, ◌≡◌, ◌≢◌, refl, ap, ap₂, ◌∙◌, arith, length, get_or, get_or-set_self,
  get_or-set_ne, set, length-set, pos, ◌-ℤ◌,
}
use chronos_xserver.Config.{sampling_slots}
use chronos_xserver.Stats.{
  ServerStats, last_user_xacts_history_get, last_user_xacts_duration_get, last_user_xacts_tpm_get,
  last_user_xacts_ttpm_get,
}
use chronos_xserver.Stats.Aggregate.{Totals, previous, store_sample}

-- The arrays have the sizes of their declarations, and `sample_num` is an index of them.
pub record IsRing (s : ServerStats) : Type 0 where
  pub at : s.sample_num < sampling_slots
  pub counts : length s.user_xacts_count_in_period ≡ sampling_slots
  pub periods : length s.user_xacts_duration_in_period ≡ sampling_slots
  pub history : length s.user_xacts_history ≡ sampling_slots
  pub timely : length s.user_xacts_timely ≡ sampling_slots
  pub durations : length s.user_xacts_duration ≡ sampling_slots
  pub tpm : length s.user_xacts_tpm ≡ sampling_slots
  pub ttpm : length s.user_xacts_ttpm ≡ sampling_slots

pub store_sample-IsRing : (t : Totals) (s : ServerStats) → IsRing s → IsRing (store_sample t s)
unfolding store_sample
store_sample-IsRing t s r = record {
  at = omega arith;
  counts = length-set s.user_xacts_count_in_period _ _ ∙ r.counts;
  periods = length-set s.user_xacts_duration_in_period _ _ ∙ r.periods;
  history = length-set s.user_xacts_history _ _ ∙ r.history;
  timely = length-set s.user_xacts_timely _ _ ∙ r.timely;
  durations = length-set s.user_xacts_duration _ _ ∙ r.durations;
  tpm = length-set s.user_xacts_tpm _ _ ∙ r.tpm;
  ttpm = length-set s.user_xacts_ttpm _ _ ∙ r.ttpm;
}

-- the slot that the next sample takes
abbrev slot_after : ServerStats → ℕ
slot_after s = (s.sample_num + 1) % sampling_slots

-- What a sample stores, read back in one's and the other slot.
record Stored (t : Totals) (s : ServerStats) : Type 0 where
  num : (store_sample t s).sample_num ≡ slot_after s
  history_here :
      get_or (store_sample t s).user_xacts_history (slot_after s) (pos 0) ≡ pos t.user_xacts
  timely_here :
      get_or (store_sample t s).user_xacts_timely (slot_after s) (pos 0) ≡ pos t.timely_user_xacts
  duration_here :
      get_or (store_sample t s).user_xacts_duration (slot_after s) (pos 0) ≡ t.duration_user_xacts
  history_there :
      get_or (store_sample t s).user_xacts_history s.sample_num (pos 0)
      ≡ get_or s.user_xacts_history s.sample_num (pos 0)
  timely_there :
      get_or (store_sample t s).user_xacts_timely s.sample_num (pos 0)
      ≡ get_or s.user_xacts_timely s.sample_num (pos 0)
  last_tpm :
      last_user_xacts_tpm_get (store_sample t s)
      ≡ pos t.user_xacts -ℤ get_or s.user_xacts_history (slot_after s) (pos 0)
  last_ttpm :
      last_user_xacts_ttpm_get (store_sample t s)
      ≡ pos t.timely_user_xacts -ℤ get_or s.user_xacts_timely (slot_after s) (pos 0)
  last_count :
      last_user_xacts_history_get (store_sample t s)
      ≡ pos t.user_xacts -ℤ get_or s.user_xacts_history s.sample_num (pos 0)
  last_duration :
      last_user_xacts_duration_get (store_sample t s)
      ≡ t.duration_user_xacts -ℤ get_or s.user_xacts_duration s.sample_num (pos 0)

other_slot : (n : ℕ) → n < sampling_slots → ((n + 1) % sampling_slots) ≢ n
other_slot n h = omega arith

previous_slot : (n : ℕ) → n < sampling_slots → previous ((n + 1) % sampling_slots) ≡ n
previous_slot n h = omega arith

store_sample-Stored : (t : Totals) (s : ServerStats) → IsRing s → Stored t s
unfolding store_sample
store_sample-Stored t s r =
    let n = slot_after s in
    let apart : n ≢ s.sample_num = other_slot s.sample_num r.at in
    let back : previous n ≡ s.sample_num = previous_slot s.sample_num r.at in
    record {
      num = refl;
      history_here = get_or-set_self s.user_xacts_history n _ (pos 0) (omega arith);
      timely_here = get_or-set_self s.user_xacts_timely n _ (pos 0) (omega arith);
      duration_here = get_or-set_self s.user_xacts_duration n _ (pos 0) (omega arith);
      history_there = get_or-set_ne s.user_xacts_history n s.sample_num _ (pos 0) apart;
      timely_there = get_or-set_ne s.user_xacts_timely n s.sample_num _ (pos 0) apart;
      last_tpm = get_or-set_self s.user_xacts_tpm n _ (pos 0) (omega arith);
      last_ttpm = get_or-set_self s.user_xacts_ttpm n _ (pos 0) (omega arith);
      last_count =
          get_or-set_self s.user_xacts_count_in_period n _ (pos 0) (omega arith)
          ∙ ap₂ (λ a b. a -ℤ b) (get_or-set_self s.user_xacts_history n _ (pos 0) (omega arith))
              (ap (λ k. get_or (set s.user_xacts_history n (pos t.user_xacts)) k (pos 0)) back
                ∙ get_or-set_ne s.user_xacts_history n s.sample_num _ (pos 0) apart);
      last_duration =
          get_or-set_self s.user_xacts_duration_in_period n _ (pos 0) (omega arith)
          ∙ ap₂ (λ a b. a -ℤ b) (get_or-set_self s.user_xacts_duration n _ (pos 0) (omega arith))
              (ap (λ k. get_or (set s.user_xacts_duration n t.duration_user_xacts) k (pos 0)) back
                ∙ get_or-set_ne s.user_xacts_duration n s.sample_num _ (pos 0) apart);
    }

-- After two samples, the last count and duration of a period are the differences of the two.
pub two_samples :
    (t₁ t₂ : Totals) (s : ServerStats)
    → IsRing s
    → let s' = store_sample t₂ (store_sample t₁ s) in
      (last_user_xacts_history_get s' ≡ pos t₂.user_xacts -ℤ pos t₁.user_xacts)
      × (last_user_xacts_duration_get s' ≡ t₂.duration_user_xacts -ℤ t₁.duration_user_xacts)
two_samples t₁ t₂ s r =
    let s₁ = store_sample t₁ s in
    let w₁ = store_sample-Stored t₁ s r in
    let w₂ = store_sample-Stored t₂ s₁ (store_sample-IsRing t₁ s r) in
    (
      w₂.last_count
          ∙ ap (λ x. pos t₂.user_xacts -ℤ x)
              (ap (λ k. get_or s₁.user_xacts_history k (pos 0)) w₁.num ∙ w₁.history_here),
      w₂.last_duration
          ∙ ap (λ x. t₂.duration_user_xacts -ℤ x)
              (ap (λ k. get_or s₁.user_xacts_duration k (pos 0)) w₁.num ∙ w₁.duration_here),
    )

-- After three samples in a row, on arrays of the declared sizes, the last one reports: as transactions per minute, the difference to
-- the sample of one minute, two samples, before, also for the timely ones; and as transactions and
-- duration of the period, the difference to the sample before.
pub three_samples :
    (t₁ t₂ t₃ : Totals) (s : ServerStats)
    → IsRing s
    → let s' = store_sample t₃ (store_sample t₂ (store_sample t₁ s)) in
      (last_user_xacts_tpm_get s' ≡ pos t₃.user_xacts -ℤ pos t₁.user_xacts)
      × (last_user_xacts_ttpm_get s' ≡ pos t₃.timely_user_xacts -ℤ pos t₁.timely_user_xacts)
      × (last_user_xacts_history_get s' ≡ pos t₃.user_xacts -ℤ pos t₂.user_xacts)
      × (last_user_xacts_duration_get s' ≡ t₃.duration_user_xacts -ℤ t₂.duration_user_xacts)
three_samples t₁ t₂ t₃ s r =
    let s₁ = store_sample t₁ s in
    let s₂ = store_sample t₂ s₁ in
    let r₁ = store_sample-IsRing t₁ s r in
    let r₂ = store_sample-IsRing t₂ s₁ r₁ in
    let w₁ = store_sample-Stored t₁ s r in
    let w₂ = store_sample-Stored t₂ s₁ r₁ in
    let w₃ = store_sample-Stored t₃ s₂ r₂ in
    let last = two_samples t₂ t₃ s₁ r₁ in
    let twice : slot_after s₂ ≡ s₁.sample_num = omega (arith, w₂.num, r₁.at) in
    (
      w₃.last_tpm
          ∙ ap (λ x. pos t₃.user_xacts -ℤ x)
              (ap (λ k. get_or s₂.user_xacts_history k (pos 0)) twice
                ∙ w₂.history_there
                ∙ ap (λ k. get_or s₁.user_xacts_history k (pos 0)) w₁.num
                ∙ w₁.history_here),
      w₃.last_ttpm
          ∙ ap (λ x. pos t₃.timely_user_xacts -ℤ x)
              (ap (λ k. get_or s₂.user_xacts_timely k (pos 0)) twice
                ∙ w₂.timely_there
                ∙ ap (λ k. get_or s₁.user_xacts_timely k (pos 0)) w₁.num
                ∙ w₁.timely_here),
      last.0,
      last.1,
    )
