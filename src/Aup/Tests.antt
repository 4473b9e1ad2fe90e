-- ===== src/Aup/Tests.antt =====
-- The update policy at concrete inputs, over fixed-point numbers in thousandths: three items with
-- an interval of 1000 ms and beta 2.0, the values of server_config.h.
use chronos_xserver.Prelude.{
  ℕ, zero, suc, ◌<◌, ◌≡◌, refl, sym, ap, true, some, List, [], ◌∷◌, ◌++◌, arith, min, map, length,
  get_elem?, take, replicate, if◌then◌else◌, ℤ, pos, pos_part, ltb_ℤ, ◌-◌,
}
use mathlib.Core.Option.{some-injective}
use chronos_xserver.Floats.{thousandths}
use chronos_xserver.Time.{Timeval, msec}
use chronos_xserver.Aup.{
  done, minus_one, DataItem, AupEnv, env_alloc, init_items, zero_item, zero_f, aup_magic,
}
use chronos_xserver.Aup.Valid.{IsValid}
use chronos_xserver.Aup.Counts.{Event, accessed, updated}
use chronos_xserver.Aup.Expired.{get_n_expired, next_time, next_update_set, scan}
use chronos_xserver.Aup.Expired.Found.{range, keep, expired_at, get_n_expired_lem}
use chronos_xserver.Aup.Expired.Cycle.{no_more_expired}
use chronos_xserver.Aup.Relax.{relax, relax_item, relax_target, relax_items, sum_extension}
use chronos_xserver.Aup.Relax.Effect.{is_relaxed, relax_effect, Band, relax-Band, env_alloc-Band}

abbrev pub three : AupEnv thousandths
three = record {
  magic = aup_magic;
  env_beta = 2000;
  p_ext = 1000;
  num_elements = 3;
  data_array = init_items thousandths 1000000 2000 3 0 ++ (zero_item thousandths ∷ []);
}

allocated : env_alloc thousandths true (pos 3) 1000000 2000 ≡ done (some three)
unfolding env_alloc
allocated = refl

pub three-IsValid : IsValid thousandths three
three-IsValid = omega arith

three-Band : Band thousandths three
three-Band = env_alloc-Band thousandths true 3 1000000 2000 refl refl allocated

abbrev noon : Timeval
noon = record { tv_sec = 43200; tv_usec = 2500 }

abbrev slots : List ℤ
slots = pos 7 ∷ pos 7 ∷ pos 7 ∷ pos 7 ∷ []

-- Every item of a new environment is due.
all_due :
    get_n_expired thousandths three 1 2 4 slots noon
    ≡ done (2, pos 1 ∷ pos 2 ∷ minus_one ∷ minus_one ∷ [])
unfolding get_n_expired scan
all_due = refl

get_n_expired_lem_example :
    let found = keep (expired_at thousandths three (msec noon)) (range 1 2) in
    get_n_expired thousandths three 1 2 4 slots noon
    ≡ done (min 4 (length found), map pos (take 4 found) ++ replicate (4 - length found) minus_one)
get_n_expired_lem_example =
    get_n_expired_lem thousandths three 1 2 slots noon three-IsValid (omega arith) (omega arith)

due_in_half_a_second :
    (d : DataItem thousandths)
    → d.flexible_validity_interval ≡ 1000000
    → ltb_ℤ (pos (msec noon)) (next_time thousandths (msec noon) d.flexible_validity_interval)
      ≡ true
due_in_half_a_second d e = rw e

due_later :
    (j : ℕ) (d : DataItem thousandths)
    → j < 3
    → get_elem? three.data_array j ≡ some d
    → ltb_ℤ (pos (msec noon)) (next_time thousandths (msec noon) d.flexible_validity_interval)
      ≡ true
due_later zero d h e =
    due_in_half_a_second d (ap (λ x. x.flexible_validity_interval) (sym (some-injective _ _ e)))
due_later (suc zero) d h e =
    due_in_half_a_second d (ap (λ x. x.flexible_validity_interval) (sym (some-injective _ _ e)))
due_later (suc (suc zero)) d h e =
    due_in_half_a_second d (ap (λ x. x.flexible_validity_interval) (sym (some-injective _ _ e)))
due_later (suc (suc (suc j))) d h e = absurd (omega arith)

no_more_expired_example :
    (env' : AupEnv thousandths) × (next_update_set thousandths three 2
        (pos 1 ∷ pos 2 ∷ minus_one ∷ minus_one ∷ [])
        noon
      ≡ done env')
    × (get_n_expired thousandths env' 1 2 4 slots noon
        ≡ done (0, minus_one ∷ minus_one ∷ minus_one ∷ minus_one ∷ []))
no_more_expired_example =
    no_more_expired thousandths three 1 2 slots (pos 1 ∷ pos 2 ∷ minus_one ∷ minus_one ∷ []) 2 noon
      three-IsValid (omega arith) (omega arith) (λ j d h e. due_later j d h e) all_due (omega arith)

abbrev traffic : List (Event thousandths)
traffic = updated 1 ∷ accessed 0 ∷ updated 1 ∷ []

relax_effect_example :
    (env' : AupEnv thousandths) × (relax thousandths three 1000 ≡ done env')
    × IsValid thousandths env'
    × (env'.num_elements ≡ 3)
    × ((j : ℕ) (d : DataItem thousandths)
        → get_elem? three.data_array j ≡ some d
        → get_elem? env'.data_array j
          ≡ some (
              if is_relaxed thousandths 3
                (pos_part (relax_target thousandths 3 1000))
                three.data_array
                j
                d
              then relax_item thousandths d
              else d))
    × (env'.p_ext
        ≡ thousandths.div_f
            (sum_extension thousandths (zero_f thousandths) (take 3 env'.data_array))
            (thousandths.float_of (pos 3)))
relax_effect_example = relax_effect thousandths three 1000 three-IsValid

-- The same items, the second updated twice and not read, each item's interval as it was.
abbrev busy : AupEnv thousandths
busy = record {
  magic = aup_magic;
  env_beta = 2000;
  p_ext = 1000;
  num_elements = 1;
  data_array =
      record (zero_item thousandths) {
        update_frequency = 2;
        flexible_validity_interval = 1000000;
        absolute_validity_interval = 1000000;
        beta = 2000;
      }
      ∷ zero_item thousandths
      ∷ [];
}

-- Relaxing at degree 1.0 gives the item 1.1 times its interval.
abbrev eased : AupEnv thousandths
eased = record busy {
  p_ext = 1100;
  data_array =
      record (zero_item thousandths) {
        update_frequency = 2;
        flexible_validity_interval = 1100000;
        absolute_validity_interval = 1000000;
        beta = 2000;
      }
      ∷ zero_item thousandths
      ∷ [];
}

busy-relax : relax thousandths busy 1000 ≡ done eased
unfolding relax relax_items sum_extension relax_target
busy-relax = refl

busy-Band : Band thousandths busy
busy-Band zero d h e = rw (← some-injective _ _ e)
busy-Band (suc j) d h e = absurd (omega arith)

relax-Band_example : Band thousandths eased
relax-Band_example = relax-Band thousandths busy eased 1000 (omega arith) busy-Band busy-relax
