-- ===== src/Ac/Tests.antt =====
-- The admission controller at concrete inputs.
use chronos_xserver.Prelude.{ℕ, ◌≡◌, refl, Bool, false, [], ◌∷◌, pos, ◌-ℤ◌}
use chronos_xserver.Ac.{AcEnv, wait_decrease, Round, finished, wait}
use chronos_xserver.Ac.Drain.{is_positive, wait_ends, Explained, wait-Explained}

abbrev waiting_for : ℕ → AcEnv
waiting_for n = record { num_txn_to_wait = pos n }

-- one transaction is done during each sleep
abbrev busy : Round
busy = record { die = 0; others = λ env. (wait_decrease 0 0 env).1 }

one_left : (wait_decrease 0 0 (waiting_for 1)).1 ≡ waiting_for 0
unfolding wait_decrease ◌-ℤ◌
one_left = refl

wait_ends_example :
    (b : Bool) × (e : AcEnv) × (wait (busy ∷ busy ∷ []) (waiting_for 1) ≡ finished b e)
    × (is_positive e ≡ false)
unfolding wait_decrease ◌-ℤ◌
wait_ends_example = wait_ends (busy ∷ busy ∷ []) (waiting_for 1) 1 (refl, (refl, tt)) refl

wait-Explained_example :
    Explained false (busy ∷ []) (waiting_for 1) (wait (busy ∷ []) (waiting_for 1))
wait-Explained_example = wait-Explained (busy ∷ []) (waiting_for 1)
