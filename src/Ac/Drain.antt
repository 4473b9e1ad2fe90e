-- ===== src/Ac/Drain.antt =====
-- How the count of transactions to wait for runs down, and when a waiting thread goes on.
use chronos_xserver.Prelude.{
  ℕ, zero, suc, ◌-◌, ◌<◌, ◌≡◌, ◌≢◌, refl, ap, ◌∙◌, Bool, true, false, some, List, [], ◌∷◌, arith,
  ◌==◌, ℤ, pos, ◌-ℤ◌, ◌≤ℤ◌, ltb_ℤ, inl, inr, Bool-cases, All, ==→eq, ==→ne, if◌then◌else◌, length,
  get_elem?,
}
use chronos_xserver.Ac.{
  AcEnv, wait_decrease, wait_set, Round, AcWaited, finished, asked_to_die, still_waiting, wait_loop,
  wait,
}

abbrev pub IsNonneg : AcEnv → Type 0
IsNonneg env = pos 0 ≤ℤ env.num_txn_to_wait

-- Both calls keep the count from falling below zero, whatever the lock calls answer.
pub calls-IsNonneg :
    (lock_rc unlock_rc : ℕ) (num_waits : ℤ) (env : AcEnv)
    → IsNonneg env
    → IsNonneg (wait_decrease lock_rc unlock_rc env).1
      × IsNonneg (wait_set lock_rc unlock_rc num_waits env).1
unfolding wait_decrease wait_set ◌-ℤ◌
calls-IsNonneg lock_rc unlock_rc num_waits env v = ground arith

-- `k` calls of `chronos_ac_wait_decrease`
abbrev pub decrease_times : ℕ → AcEnv → AcEnv
decrease_times zero env = env
decrease_times (suc k) env = decrease_times k (wait_decrease 0 0 env).1

decrease_one :
    (n : ℕ)
    → (wait_decrease 0 0 (record { num_txn_to_wait = pos n })).1
      ≡ record { num_txn_to_wait = pos (n - 1) }
unfolding wait_decrease ◌-ℤ◌
decrease_one n = ground arith

decrease_count :
    (k n : ℕ)
    → decrease_times k (record { num_txn_to_wait = pos n })
      ≡ record { num_txn_to_wait = pos (n - k) }
decrease_count zero n = ap (λ m. record { num_txn_to_wait = pos m }) (omega arith)
decrease_count (suc k) n =
    ap (decrease_times k) (decrease_one n)
    ∙ decrease_count k (n - 1)
    ∙ ap (λ m. record { num_txn_to_wait = pos m }) (omega arith)

-- After the count is set to `n > 0`, `k` decreases bring it to `n - k`, and to 0 from the `n`th on.
pub set_then_decrease :
    (n k : ℕ) (env : AcEnv)
    → 0 < n
    → decrease_times k (wait_set 0 0 (pos n) env).1 ≡ record { num_txn_to_wait = pos (n - k) }
unfolding wait_set
set_then_decrease n k env h =
    let set_to : (wait_set 0 0 (pos n) env).1 ≡ record { num_txn_to_wait = pos n } = ground arith in
    ap (decrease_times k) set_to ∙ decrease_count k n

-- the count, once the first `k` rounds have passed
abbrev pub after_rounds : ℕ → List Round → AcEnv → AcEnv
after_rounds zero rounds env = env
after_rounds (suc k) [] env = env
after_rounds (suc k) (r ∷ rounds) env = after_rounds k rounds (r.others env)

abbrev pub is_positive : AcEnv → Bool
is_positive env = ltb_ℤ (pos 0) env.num_txn_to_wait

-- The first `k` rounds went on: each found a positive count, and was not asked to die.
abbrev pub WentOn : ℕ → List Round → AcEnv → Type 0
WentOn zero rounds env = Unit {0}
WentOn (suc k) [] env = ⊥
WentOn (suc k) (r ∷ rounds) env =
    (is_positive env ≡ true) × (r.die ≢ 1) × WentOn k rounds (r.others env)

-- What the outcome of the wait says of the rounds; the flag of a wait that has ended says whether
-- there was a round.
abbrev pub Explained : Bool → List Round → AcEnv → AcWaited → Type 0
Explained b rounds env (finished b' e) =
    (k : ℕ) × WentOn k rounds env
    × (e ≡ after_rounds k rounds env)
    × (is_positive e ≡ false)
    × (b' ≡ (if k == 0 then b else true))
Explained b rounds env (asked_to_die e) =
    (k : ℕ) × WentOn k rounds env
    × (e ≡ after_rounds k rounds env)
    × (is_positive e ≡ true)
    × (r : Round) × (get_elem? rounds k ≡ some r)
    × (r.die ≡ 1)
Explained b rounds env (still_waiting e) =
    WentOn (length rounds) rounds env
    × (e ≡ after_rounds (length rounds) rounds env)
    × (is_positive e ≡ true)

Explained-later :
    (b : Bool) (r : Round) (rounds : List Round) (env : AcEnv) (w : AcWaited)
    → is_positive env ≡ true
    → r.die ≢ 1
    → Explained true rounds (r.others env) w
    → Explained b (r ∷ rounds) env w
Explained-later b r rounds env (finished b' e) up on (zero, went, same, stop, flag) =
    (1, (up, on, went), same, stop, flag)
Explained-later b r rounds env (finished b' e) up on (suc k, went, same, stop, flag) =
    (suc (suc k), (up, on, went), same, stop, flag ∙ ground arith)
Explained-later b r rounds env (asked_to_die e) up on (k, went, same, more, r', at, asked) =
    (suc k, (up, on, went), same, more, r', at, asked)
Explained-later b r rounds env (still_waiting e) up on (went, same, more) =
    ((up, on, went), same, more)

wait_loop-Explained :
    (b : Bool) (rounds : List Round) (env : AcEnv) → Explained b rounds env (wait_loop b rounds env)
unfolding wait_loop
wait_loop-Explained b [] env = elim (Bool-cases (is_positive env)) [
  | inl e ↦ rw e (tt, refl, e)
  | inr e ↦ rw e (0, tt, refl, e, refl)
]
wait_loop-Explained b (r ∷ rounds) env = elim (Bool-cases (is_positive env)) [
  | inr e ↦ rw e (0, tt, refl, e, refl)
  | inl e ↦ elim (Bool-cases (r.die == 1)) [
    | inl d ↦ rw (e, d) (0, tt, refl, e, r, refl, ==→eq _ _ d)
    | inr d ↦
        rw (e, d)
          (Explained-later b r rounds env _ e (==→ne _ _ d)
            (wait_loop-Explained true rounds (r.others env)))
  ]
]

wait_loop_ends :
    (b : Bool) (rounds : List Round) (env : AcEnv) (k : ℕ)
    → All (λ r. (r.die == 1) ≡ false) rounds
    → is_positive (after_rounds k rounds env) ≡ false
    → (b' : Bool) × (e : AcEnv) × (wait_loop b rounds env ≡ finished b' e) × (is_positive e ≡ false)
unfolding wait_loop
wait_loop_ends b [] env zero alive low = (b, env, rw low, low)
wait_loop_ends b [] env (suc k) alive low = (b, env, rw low, low)
wait_loop_ends b (r ∷ rounds) env zero alive low = (b, env, rw low, low)
wait_loop_ends b (r ∷ rounds) env (suc k) (a, alive) low = elim (Bool-cases (is_positive env)) [
  | inr e ↦ (b, env, rw e, e)
  | inl e ↦
      let (b', last, ends, stop) = wait_loop_ends true rounds (r.others env) k alive low in
      (b', last, rw (e, a) ends, stop)
]

-- However the wait stands after a list of rounds: the rounds behind it all found a positive count and
-- a `timeToDie` that did not answer 1. It has ended at a count that is not positive, and the flag
-- says whether there was such a round; or it has ended at a positive count in a round in which
-- `timeToDie` answers 1; or all rounds are behind it and the count is still positive. In each case
-- the count is as the rounds behind it left it.
pub wait-Explained :
    (rounds : List Round) (env : AcEnv) → Explained false rounds env (wait rounds env)
unfolding wait
wait-Explained rounds env = wait_loop-Explained false rounds env

-- If no round asks to die and the count is not positive once some of the rounds have passed, the
-- wait is over by then, at a count that is not positive.
pub wait_ends :
    (rounds : List Round) (env : AcEnv) (k : ℕ)
    → All (λ r. (r.die == 1) ≡ false) rounds
    → is_positive (after_rounds k rounds env) ≡ false
    → (b : Bool) × (e : AcEnv) × (wait rounds env ≡ finished b e) × (is_positive e ≡ false)
unfolding wait
wait_ends rounds env k alive low = wait_loop_ends false rounds env k alive low
