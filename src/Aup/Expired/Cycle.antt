-- ===== src/Aup/Expired/Cycle.antt =====
-- How `chronos_aup_get_n_expired` and `chronos_aup_next_update_set` work together.
use chronos_xserver.Prelude.{
  ℕ, zero, suc, ◌+◌, ◌-◌, ◌^◌, ◌≤◌, ◌<◌, ◌≡◌, refl, sym, subst, ap, ap₂, ◌∙◌, Bool, true, false,
  not, ◌||◌, some, List, [], ◌∷◌, ◌++◌, map, arith, min, inl, inr, Bool-cases, ℕ_discrete, ◌==◌,
  if◌then◌else◌, length, get_elem?, get_elem?-some, take, replicate, All, length-append, length-map,
  ℤ, pos, ltb_ℤ,
}
use chronos_xserver.Floats.{Floats}
use chronos_xserver.Time.{Timeval, msec}
use chronos_xserver.Aup.{Call, done, minus_one, DataItem, AupEnv}
use chronos_xserver.Aup.Valid.{IsValid}
use chronos_xserver.Aup.Expired.{is_expired, get_n_expired, next_time, reschedule, next_update_set}
use chronos_xserver.Aup.Expired.Found.{
  range, keep, keep-true, keep-false, expired_at, expired_at_item, get_n_expired_lem,
}
use chronos_xserver.Aup.Expired.Schedule.{listed, EntryIn, next_update_set_lem}

-- the indices of a list of numbers
abbrev elem : ℕ → List ℕ → Bool
elem j [] = false
elem j (i ∷ is) = i == j || elem j is

listed-map : (j : ℕ) (is : List ℕ) → listed j (map pos is) ≡ elem j is
listed-map j [] = refl
listed-map j (i ∷ is) = ap (λ b. i == j || b) (listed-map j is)

pub take_front {ℓ} : {A : Type ℓ} (xs ys : List A) → take (length xs) (xs ++ ys) ≡ xs
take_front [] ys = refl
take_front (x ∷ xs) ys = ap (λ c. x ∷ c) (take_front xs ys)

take_all {ℓ} : {A : Type ℓ} (n : ℕ) (xs : List A) → length xs ≤ n → take n xs ≡ xs
take_all zero [] h = refl
take_all zero (x ∷ xs) h = absurd (omega arith)
take_all (suc n) [] h = refl
take_all (suc n) (x ∷ xs) h = ap (λ c. x ∷ c) (take_all n xs (omega arith))

pub keep-range_in :
    (p : ℕ → Bool) (i n top : ℕ) → i + n ≤ top → All (EntryIn top) (map pos (keep p (range i n)))
keep-range_in p i zero top h = tt
keep-range_in p i (suc n) top h = elim (Bool-cases (p i)) [
  | inl e ↦
      rw (keep-true p i (range (i + 1) n) e)
        (let below : i < top = omega arith in (below, keep-range_in p (i + 1) n top (omega arith)))
  | inr e ↦ rw (keep-false p i (range (i + 1) n) e) (keep-range_in p (i + 1) n top (omega arith))
]

-- An index of the range that passes the test is kept.
elem-keep :
    (p : ℕ → Bool) (i n j : ℕ) → i ≤ j → j < i + n → p j ≡ true → elem j (keep p (range i n)) ≡ true
elem-keep p i zero j lo hi pj = absurd (omega arith)
elem-keep p i (suc n) j lo hi pj = elim (ℕ_discrete i j) [
  | yes same ↦ rw (keep-true p i (range (i + 1) n) (ap p same ∙ pj)) (ground arith)
  | no apart ↦
      let later = elem-keep p (i + 1) n j (omega arith) (omega arith) pj in
      elim (Bool-cases (p i)) [
        | inl e ↦ rw (keep-true p i (range (i + 1) n) e) (ground (arith, later))
        | inr e ↦ rw (keep-false p i (range (i + 1) n) e) later
      ]
]

keep_none :
    (p : ℕ → Bool) (i n : ℕ) → ((j : ℕ) → i ≤ j → j < i + n → p j ≡ false) → keep p (range i n) ≡ []
keep_none p i zero h = refl
keep_none p i (suc n) h =
    keep-false p i (range (i + 1) n) (h i (omega arith) (omega arith))
    ∙ keep_none p (i + 1) n (λ j lo hi. h j (omega arith) (omega arith))

abbrev report : ℕ → List ℕ → Call (ℕ × List ℤ)
report size found = done (
  min size (length found),
  map pos (take size found) ++ replicate (size - length found) minus_one,
)

report_none : (size : ℕ) → report size [] ≡ done (0, replicate size minus_one)
report_none zero = refl
report_none (suc size) =
    ap₂ (λ n k. done (n, replicate k minus_one)) (omega arith)
      (let same : suc size - 0 ≡ suc size = omega arith in same)

-- A report with room left gives back what was found.
reported_found :
    (size n : ℕ) (found : List ℕ) (reported : List ℤ)
    → report size found ≡ done (n, reported)
    → n < size
    → (n ≡ length found) × (n ≤ length reported) × (take n reported ≡ map pos found)
reported_found size n found reported e h =
    let rest = replicate (size - length found) minus_one in
    let count : min size (length found) ≡ n = cc in
    let text : map pos (take size found) ++ rest ≡ reported = cc in
    let len : length found ≡ length (map pos found) = sym (length-map found pos) in
    let whole : map pos found ++ rest ≡ reported =
      ap (λ c. map pos c ++ rest) (sym (take_all size found (omega arith))) ∙ text in
    let same : n ≡ length (map pos found) = omega arith in
    (
      omega arith,
      omega (arith, ap length whole, length-append (map pos found) rest),
      ap₂ take same (sym whole) ∙ take_front (map pos found) rest,
    )

module _ (fp : Floats) where
  -- Once the expired elements of a range are listed and rescheduled, none of it is expired.
  none_expired :
      (env env' : AupEnv fp) (first_element num_elements now : ℕ) (entries : List ℤ)
      → first_element + num_elements ≤ length env.data_array
      → ((j : ℕ) (d : DataItem fp)
          → j < first_element + num_elements
          → get_elem? env.data_array j ≡ some d
          → ltb_ℤ (pos now) (next_time fp now d.flexible_validity_interval) ≡ true)
      → entries ≡ map pos (keep (expired_at fp env now) (range first_element num_elements))
      → ((j : ℕ) (d : DataItem fp)
          → get_elem? env.data_array j ≡ some d
          → get_elem? env'.data_array j
            ≡ some (if listed j entries then reschedule fp now d else d))
      → keep (expired_at fp env' now) (range first_element num_elements) ≡ []
  none_expired env env' first_element num_elements now entries h advance same at =
      keep_none (expired_at fp env' now) first_element num_elements λ j lo hi.
        let (d, e) = get_elem?-some env.data_array j (omega arith) in
        elim (Bool-cases (listed j entries)) [
          | inl l ↦
              expired_at_item fp env' now j (reschedule fp now d)
                (at j d e ∙ ap (λ b. some (if b then reschedule fp now d else d)) l)
              ∙ ap not (advance j d hi e)
          | inr l ↦
              expired_at_item fp env' now j d
                (at j d e ∙ ap (λ b. some (if b then reschedule fp now d else d)) l)
              ∙ elim (Bool-cases (is_expired fp now d)) [
                | inr fresh ↦ fresh
                | inl old ↦
                    let kept =
                      elem-keep (expired_at fp env now) first_element num_elements j lo hi
                        (expired_at_item fp env now j d e ∙ old) in
                    cc (
                      kept,
                      l,
                      same,
                      listed-map j
                          (keep (expired_at fp env now) (range first_element num_elements)),
                    )
              ]
        ]

  -- On a valid environment, if the call reports fewer expired elements than the array has room for,
  -- and half an interval moves the clock on for each element of the range, then after the reported elements are
  -- rescheduled the same call at the same time finds no expired element.
  pub no_more_expired :
      (env : AupEnv fp) (first_element num_elements : ℕ) (array reported : List ℤ) (n : ℕ)
      (current_time : Timeval)
      → IsValid fp env
      → first_element + num_elements ≤ env.num_elements
      → env.num_elements < 2 ^ 31
      → ((j : ℕ) (d : DataItem fp)
          → j < first_element + num_elements
          → get_elem? env.data_array j ≡ some d
          → ltb_ℤ
              (pos (msec current_time))
              (next_time fp (msec current_time) d.flexible_validity_interval)
            ≡ true)
      → get_n_expired fp env first_element num_elements (length array) array current_time
        ≡ done (n, reported)
      → n < length array
      → (env' : AupEnv fp) × (next_update_set fp env n reported current_time ≡ done env')
        × (get_n_expired fp env' first_element num_elements (length array) array current_time
            ≡ done (0, replicate (length array) minus_one))
  no_more_expired env first_element num_elements array reported n current_time v h small advance
        call some_left =
      let now = msec current_time in
      let size = length array in
      let found = keep (expired_at fp env now) (range first_element num_elements) in
      let spec = get_n_expired_lem fp env first_element num_elements array current_time v h small in
      let (count, room, front) = reported_found size n found reported (sym spec ∙ call) some_left in
      let (env', set_call, v', same, at) =
        next_update_set_lem fp env n reported current_time v room (
          subst (All (EntryIn env.num_elements)) (sym front) (
            keep-range_in (expired_at fp env now) first_element num_elements env.num_elements h)) in
      let none_left =
        none_expired env env' first_element num_elements now (take n reported) (omega arith) advance
          front at in
      (
        env',
        set_call,
        get_n_expired_lem fp env' first_element num_elements array current_time v' (omega arith)
              (omega arith)
            ∙ ap (report size) none_left
            ∙ report_none size,
      )
