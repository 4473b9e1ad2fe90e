-- ===== src/Aup/Expired.antt =====
-- aup.c: `chronos_aup_get_n_expired` and `chronos_aup_next_update_set`.
pub mod Found
pub mod Schedule
pub mod Cycle
use chronos_xserver.Prelude.{
  ℕ, zero, suc, ◌+◌, ◌-◌, ◌%◌, ◌^◌, Bool, true, false, not, Option, none, some, List, [], ◌∷◌, ltb,
  if◌then◌else◌, length, get_elem?, set, take, ℤ, pos, negsuc, ltb_ℤ,
}
use chronos_xserver.Floats.{Floats}
use chronos_xserver.Time.{Timeval, msec}
use chronos_xserver.Aup.{
  Call, done, aborted, overrun, ◌>>=◌, ◌>>◌, minus_one, DataItem, AupEnv, magic_check, update_item,
}

-- The first loop of `chronos_aup_get_n_expired`: `array[i] = -1`, with `left` rounds to go.
abbrev pub fill : ℕ → ℕ → List ℤ → List ℤ
fill zero i array = array
fill (suc left) i array = fill left (i + 1) (set array i minus_one)

module _ (fp : Floats) where
  open fp use {Float, widen, double_of, literal, add_d, mul_d, trunc_d}

  -- `time_to_next_update <= current_time_msec`
  abbrev pub is_expired : ℕ → DataItem fp → Bool
  is_expired now d = not (ltb_ℤ (pos now) d.time_to_next_update)

  -- The second loop, with `left` rounds to go from index `i`.
  unfoldable pub scan : AupEnv fp → ℕ → ℕ → ℕ → ℕ → ℕ → List ℤ → Call (ℕ × List ℤ)
  scan env now size zero i num_found array = done (num_found, array)
  scan env now size (suc left) i num_found array =
      let hit = scan env now size left (i + 1) (num_found + 1) (set array num_found (pos i)) in
      let miss = scan env now size left (i + 1) num_found array in
      if ltb num_found size
      then elim (get_elem? env.data_array i) [
        | none ↦ overrun
        | some d ↦ if is_expired now d then hit else miss
      ]
      else done (num_found, array)

  -- The bound `first_element + num_elements` is an `unsigned int`. The array is the caller's, with
  -- as many slots as the list has elements.
  unfoldable pub get_n_expired : AupEnv fp → ℕ → ℕ → ℕ → List ℤ → Timeval → Call (ℕ × List ℤ)
  get_n_expired env first_element num_elements array_sz array current_time = do
    magic_check fp env
    if ltb (length array) array_sz
        then overrun
        else scan env (msec current_time) array_sz
            ((first_element + num_elements) % 2 ^ 32 - first_element) first_element 0
            (fill array_sz 0 array)

  -- `current_time_msec + 0.5 * flexible_validity_interval`, as a `long long`
  abbrev pub next_time : ℕ → Float → ℤ
  next_time now interval =
      trunc_d (add_d (double_of (pos now)) (mul_d (literal 1 2) (widen interval)))

  abbrev pub reschedule : ℕ → DataItem fp → DataItem fp
  reschedule now d = record d { time_to_next_update = next_time now d.flexible_validity_interval }

  -- the loop over the entries of the array; a negative entry is passed over
  unfoldable pub set_each : ℕ → List ℤ → AupEnv fp → Call (AupEnv fp)
  set_each now [] env = done env
  set_each now (negsuc n ∷ entries) env = set_each now entries env
  set_each now (pos i ∷ entries) env = do
    env' ← update_item fp env i (reschedule now)
    set_each now entries env'

  unfoldable pub next_update_set : AupEnv fp → ℕ → List ℤ → Timeval → Call (AupEnv fp)
  next_update_set env array_sz array current_time = do
    magic_check fp env
    if ltb (length array) array_sz
        then overrun
        else set_each (msec current_time) (take array_sz array) env
