-- ===== src/Aup/Expired/Found.antt =====
-- Which items `chronos_aup_get_n_expired` reports.
use chronos_xserver.Prelude.{
  ℕ, zero, suc, ◌+◌, ◌-◌, ◌%◌, ◌^◌, ◌≤◌, ◌<◌, ◌≡◌, refl, sym, ap, ap₂, ◌∙◌, Bool, true, false,
  Option, none, some, List, [], ◌∷◌, ◌++◌, map, append-nil, append_assoc, arith, min, inl, inr,
  Bool-cases, ltb, lt→ltb, ◌==◌, if◌then◌else◌, length, get_elem?, get_elem?-some, set, take,
  replicate, length-append, length-map, ℤ, pos,
}
use mathlib.Core.List.{map-append}
use chronos_xserver.Floats.{Floats}
use chronos_xserver.Time.{Timeval, msec}
use chronos_xserver.Aup.{Call, done, aup_magic, minus_one, DataItem, AupEnv}
use chronos_xserver.Aup.Valid.{IsValid}
use chronos_xserver.Aup.Expired.{fill, is_expired, scan, get_n_expired}

-- `n` indices from `i` on
abbrev pub range : ℕ → ℕ → List ℕ
range i zero = []
range i (suc n) = i ∷ range (i + 1) n

abbrev pub keep {ℓ} : {A : Type ℓ} → (A → Bool) → List A → List A
keep p [] = []
keep p (x ∷ xs) = if p x then x ∷ keep p xs else keep p xs

pub keep-true {ℓ} :
    {A : Type ℓ} (p : A → Bool) (x : A) (xs : List A) → p x ≡ true → keep p (x ∷ xs) ≡ x ∷ keep p xs
keep-true p x xs e = ap (λ b. if b then x ∷ keep p xs else keep p xs) e

pub keep-false {ℓ} :
    {A : Type ℓ} (p : A → Bool) (x : A) (xs : List A) → p x ≡ false → keep p (x ∷ xs) ≡ keep p xs
keep-false p x xs e = ap (λ b. if b then x ∷ keep p xs else keep p xs) e

pub set-append {ℓ} :
    {A : Type ℓ} (xs : List A) (y v : A) (ys : List A) (i : ℕ)
    → i ≡ length xs
    → set (xs ++ (y ∷ ys)) i v ≡ xs ++ (v ∷ ys)
set-append [] y v ys zero e = refl
set-append [] y v ys (suc i) e = absurd (omega arith)
set-append (x ∷ xs) y v ys zero e = absurd (omega arith)
set-append (x ∷ xs) y v ys (suc i) e = ap (λ c. x ∷ c) (set-append xs y v ys i (omega arith))

fill_rest :
    (done_part rest : List ℤ) (i : ℕ)
    → i ≡ length done_part
    → fill (length rest) i (done_part ++ rest) ≡ done_part ++ replicate (length rest) minus_one
fill_rest done_part [] i e = refl
fill_rest done_part (x ∷ rest) i e =
    ap (λ c. fill (length rest) (i + 1) c)
      (set-append done_part x minus_one rest i e
        ∙ sym (append_assoc done_part (minus_one ∷ []) rest))
    ∙ fill_rest (done_part ++ (minus_one ∷ [])) rest (i + 1)
        (omega (arith, e, length-append done_part (minus_one ∷ [])))
    ∙ append_assoc done_part (minus_one ∷ []) (replicate (length rest) minus_one)

fill_lem : (array : List ℤ) → fill (length array) 0 array ≡ replicate (length array) minus_one
fill_lem array = fill_rest [] array 0 refl

-- The caller's array once `out` is in it and `found` is still to be written, in `room` slots.
abbrev filled : List ℕ → List ℕ → ℕ → List ℤ
filled out found room =
    map pos (out ++ take room found) ++ replicate (room - length found) minus_one

filled_nil :
    (out : List ℕ) (room : ℕ) → filled out [] room ≡ map pos out ++ replicate room minus_one
filled_nil out zero = ap (λ c. map pos c ++ []) (append-nil out)
filled_nil out (suc room) =
    ap₂ (λ c n. map pos c ++ replicate n minus_one) (append-nil out)
      (let same : suc room - 0 ≡ suc room = omega arith in same)

filled_full : (out found : List ℕ) → filled out found 0 ≡ map pos out ++ []
filled_full out found =
    ap₂ (λ c n. map pos c ++ replicate n minus_one) (append-nil out)
      (let none_left : 0 - length found ≡ 0 = omega arith in none_left)

filled_hit :
    (out found : List ℕ) (i room : ℕ)
    → filled (out ++ (i ∷ [])) found room ≡ filled out (i ∷ found) (suc room)
filled_hit out found i room =
    ap₂ (λ c n. map pos c ++ replicate n minus_one) (append_assoc out (i ∷ []) (take room found))
      (let same : room - length found ≡ suc room - suc (length found) = omega arith in same)

-- The store of a hit.
store_hit :
    (out : List ℕ) (i room num_found : ℕ)
    → num_found ≡ length out
    → set (map pos out ++ (minus_one ∷ replicate room minus_one)) num_found (pos i)
      ≡ map pos (out ++ (i ∷ [])) ++ replicate room minus_one
store_hit out i room num_found e =
    set-append (map pos out) minus_one (pos i) (replicate room minus_one) num_found
      (e ∙ sym (length-map out pos))
    ∙ sym (append_assoc (map pos out) (pos i ∷ []) (replicate room minus_one))
    ∙ ap (λ c. c ++ replicate room minus_one) (sym (map-append pos out (i ∷ [])))

module _ (fp : Floats) where
  abbrev pub expired_at : AupEnv fp → ℕ → ℕ → Bool
  expired_at env now i = elim (get_elem? env.data_array i) [
    | none ↦ false
    | some d ↦ is_expired fp now d
  ]

  pub expired_at_item :
      (env : AupEnv fp) (now i : ℕ) (d : DataItem fp)
      → get_elem? env.data_array i ≡ some d
      → expired_at env now i ≡ is_expired fp now d
  expired_at_item env now i d e =
      ap
        (λ (o : Option (DataItem fp)). elim o as (λ _. Bool) [
          | none ↦ false
          | some x ↦ is_expired fp now x
        ])
        e

  -- One round of the scan with room left: a hit is stored, a miss is passed over.
  scan_hit :
      (env : AupEnv fp) (now left i num_found size : ℕ) (array : List ℤ) (d : DataItem fp)
      → num_found < size
      → get_elem? env.data_array i ≡ some d
      → is_expired fp now d ≡ true
      → scan fp env now size (suc left) i num_found array
        ≡ scan fp env now size left (i + 1) (num_found + 1) (set array num_found (pos i))
  unfolding scan
  scan_hit env now left i num_found size array d more at_i hit =
      rw (lt→ltb num_found size more, at_i, hit)

  scan_miss :
      (env : AupEnv fp) (now left i num_found size : ℕ) (array : List ℤ) (d : DataItem fp)
      → num_found < size
      → get_elem? env.data_array i ≡ some d
      → is_expired fp now d ≡ false
      → scan fp env now size (suc left) i num_found array
        ≡ scan fp env now size left (i + 1) num_found array
  unfolding scan
  scan_miss env now left i num_found size array d more at_i miss =
      rw (lt→ltb num_found size more, at_i, miss)

  scan_lem :
      (env : AupEnv fp) (now left i room num_found size : ℕ) (out : List ℕ)
      → i + left ≤ length env.data_array
      → num_found ≡ length out
      → size ≡ num_found + room
      → let found = keep (expired_at env now) (range i left) in
        scan fp env now size left i num_found (map pos out ++ replicate room minus_one)
        ≡ done (num_found + min room (length found), filled out found room)
  unfolding scan
  scan_lem env now zero i room num_found size out h e s =
      ap₂ (λ n c. done (n, c)) (omega arith) (sym (filled_nil out room))
  scan_lem env now (suc left) i zero num_found size out h e s =
      let full : ltb num_found size ≡ false = ground arith in
      rw full (ap₂ (λ n c. done (n, c)) (omega arith) (sym (filled_full out _)))
  scan_lem env now (suc left) i (suc room) num_found size out h e s =
      let (d, at_i) = get_elem?-some env.data_array i (omega arith) in
      let found = keep (expired_at env now) (range (i + 1) left) in
      let all = keep (expired_at env now) (range i (suc left)) in
      let array = map pos out ++ replicate (suc room) minus_one in
      let report : List ℕ → Call (ℕ × List ℤ) =
        λ l. done (num_found + min (suc room) (length l), filled out l (suc room)) in
      elim (Bool-cases (is_expired fp now d)) [
        | inl hit ↦
            let kept : all ≡ i ∷ found =
              keep-true (expired_at env now) i (range (i + 1) left)
                (expired_at_item env now i d at_i ∙ hit) in
            scan_hit env now left i num_found size array d (omega arith) at_i hit
            ∙ ap (λ c. scan fp env now size left (i + 1) (num_found + 1) c)
                (store_hit out i room num_found e)
            ∙ scan_lem env now left (i + 1) room (num_found + 1) size (out ++ (i ∷ []))
                (omega arith) (omega (arith, length-append out (i ∷ []))) (omega arith)
            ∙ ap₂ (λ n c. done (n, c)) (omega arith) (filled_hit out found i room)
            ∙ ap report (sym kept)
        | inr miss ↦
            let kept : all ≡ found =
              keep-false (expired_at env now) i (range (i + 1) left)
                (expired_at_item env now i d at_i ∙ miss) in
            scan_miss env now left i num_found size array d (omega arith) at_i miss
            ∙ scan_lem env now left (i + 1) (suc room) num_found size out (omega arith) e s
            ∙ ap report (sym kept)
      ]

  -- On a valid environment, for elements within it and an array of `array_sz` slots, the call ends
  -- and reports, in ascending order, the first expired elements, as many as fit: their number, and
  -- the array with their indices in front and -1 behind.
  pub get_n_expired_lem :
      (env : AupEnv fp) (first_element num_elements : ℕ) (array : List ℤ) (current_time : Timeval)
      → IsValid fp env
      → first_element + num_elements ≤ env.num_elements
      → env.num_elements < 2 ^ 31
      → let found = keep (expired_at env (msec current_time)) (range first_element num_elements) in
        let array_sz = length array in
        get_n_expired fp env first_element num_elements array_sz array current_time
        ≡ done (
          min array_sz (length found),
          map pos (take array_sz found) ++ replicate (array_sz - length found) minus_one,
        )
  unfolding get_n_expired
  get_n_expired_lem env first_element num_elements array current_time v h small =
      let m : (env.magic == aup_magic) ≡ true = ground arith in
      let fits : ltb (length array) (length array) ≡ false = ground arith in
      let rounds : (first_element + num_elements) % 2 ^ 32 - first_element ≡ num_elements =
        omega arith in
      rw (m, fits, rounds, fill_lem array)
        (scan_lem env (msec current_time) num_elements first_element (length array) 0 (length array)
            [] (omega arith) refl (omega arith)
          ∙ ap₂ (λ n c. done (n, c)) (omega arith) refl)
