-- ===== src/Aup/Expired/Schedule.antt =====
-- `chronos_aup_next_update_set`, and how it works together with `chronos_aup_get_n_expired`.
use chronos_xserver.Prelude.{
  ℕ, ◌≤◌, ◌<◌, ◌≡◌, refl, ◌∙◌, Bool, true, false, ◌||◌, some, List, [], ◌∷◌, arith, ltb, ◌==◌,
  if◌then◌else◌, length, get_elem?, take, All, ℤ, pos, negsuc,
}
use chronos_xserver.Floats.{Floats}
use chronos_xserver.Time.{Timeval, msec}
use chronos_xserver.Aup.{done, aup_magic, DataItem, AupEnv}
use chronos_xserver.Aup.Valid.{IsValid, update_item-Changed}
use chronos_xserver.Aup.Expired.{reschedule, set_each, next_update_set}

-- `j` is an entry of the array
abbrev pub listed : ℕ → List ℤ → Bool
listed j [] = false
listed j (pos i ∷ entries) = i == j || listed j entries
listed j (negsuc n ∷ entries) = listed j entries

abbrev pub EntryIn : ℕ → ℤ → Type 0
EntryIn n (pos i) = i < n
EntryIn n (negsuc k) = Unit

module _ (fp : Floats) where
  pub set_each_lem :
      (now : ℕ) (entries : List ℤ) (env : AupEnv fp)
      → IsValid fp env
      → All (EntryIn env.num_elements) entries
      → (env' : AupEnv fp) × (set_each fp now entries env ≡ done env')
        × IsValid fp env'
        × (env'.num_elements ≡ env.num_elements)
        × ((j : ℕ) (d : DataItem fp)
            → get_elem? env.data_array j ≡ some d
            → get_elem? env'.data_array j
              ≡ some (if listed j entries then reschedule fp now d else d))
  unfolding set_each
  set_each_lem now [] env v w = (env, refl, v, refl, λ j d e. e)
  set_each_lem now (negsuc n ∷ entries) env v (_, w) = set_each_lem now entries env v w
  set_each_lem now (pos i ∷ entries) env v (h, w) =
      let (env₁, e₁, v₁, n₁, at₁) =
        update_item-Changed fp env i (reschedule fp now) v (omega arith) in
      let (env₂, e₂, v₂, n₂, at₂) = set_each_lem now entries env₁ v₁ (rw n₁ w) in
      (env₂, rw (e₁, e₂), v₂, n₂ ∙ n₁, λ j d e. at₂ j _ (at₁ j d e) ∙ ground arith)

  -- On a valid environment, for an array whose entries are negative or elements of it, the call
  -- ends, keeps it valid, sets the next update time of exactly the listed elements to half of their
  -- interval from now, and changes nothing else.
  pub next_update_set_lem :
      (env : AupEnv fp) (array_sz : ℕ) (array : List ℤ) (current_time : Timeval)
      → IsValid fp env
      → array_sz ≤ length array
      → All (EntryIn env.num_elements) (take array_sz array)
      → (env' : AupEnv fp) × (next_update_set fp env array_sz array current_time ≡ done env')
        × IsValid fp env'
        × (env'.num_elements ≡ env.num_elements)
        × ((j : ℕ) (d : DataItem fp)
            → get_elem? env.data_array j ≡ some d
            → get_elem? env'.data_array j
              ≡ some (
                  if listed j (take array_sz array)
                  then reschedule fp (msec current_time) d
                  else d))
  unfolding next_update_set
  next_update_set_lem env array_sz array current_time v room w =
      let m : (env.magic == aup_magic) ≡ true = ground arith in
      let fits : ltb (length array) array_sz ≡ false = ground arith in
      rw (m, fits) (set_each_lem (msec current_time) (take array_sz array) env v w)
