-- ===== src/Ac.antt =====
-- chronos_ac.c: the admission controller, a count of transactions to wait for under a spin lock.
-- The answers of the pthread calls are arguments, and so is what other threads do during a sleep.
pub mod Drain
mod Tests
use chronos_xserver.Prelude.{
  ℕ, Bool, true, false, ◌&&◌, Option, none, some, List, [], ◌∷◌, ◌==◌, not, if◌then◌else◌, ℤ, pos,
  ◌-ℤ◌, ltb_ℤ,
}
use chronos_xserver.Config.{server_success, server_fail}

-- `chronos_ac_env_t`, less the lock and the function pointer
pub record AcEnv : Type 0 where
  pub num_txn_to_wait : ℤ

unfoldable pub env_alloc : Bool → ℕ → Option AcEnv
env_alloc calloc_ok spin_init_rc =
    if calloc_ok && spin_init_rc == 0 then some (record { num_txn_to_wait = pos 0 }) else none

-- `pthread_spin_lock`, the guarded section, `pthread_spin_unlock`: a status other than 0 of either
-- is turned into CHRONOS_SERVER_FAIL.
abbrev pub locked : ℕ → ℕ → (AcEnv → AcEnv) → AcEnv → ℕ × AcEnv
locked lock_rc unlock_rc section env =
    if lock_rc == 0
    then (if unlock_rc == 0 then (server_success, section env) else (server_fail, section env))
    else (server_fail, env)

abbrev pub decrease : AcEnv → AcEnv
decrease env =
    if ltb_ℤ (pos 0) env.num_txn_to_wait
    then record { num_txn_to_wait = env.num_txn_to_wait -ℤ pos 1 }
    else env

unfoldable pub wait_decrease : ℕ → ℕ → AcEnv → ℕ × AcEnv
wait_decrease lock_rc unlock_rc env = locked lock_rc unlock_rc decrease env

abbrev pub set_waits : ℤ → AcEnv → AcEnv
set_waits num_waits env =
    if ltb_ℤ (pos 0) num_waits then record { num_txn_to_wait = num_waits } else env

unfoldable pub wait_set : ℕ → ℕ → ℤ → AcEnv → ℕ × AcEnv
wait_set lock_rc unlock_rc num_waits env = locked lock_rc unlock_rc (set_waits num_waits) env

-- One round of `chronos_ac_wait`: what `timeToDie` answers, and what the other threads do during the
-- sleep behind it.
pub record Round : Type 0 where
  pub die : ℕ
  pub others : AcEnv → AcEnv

-- How the wait stands after a list of rounds. The call returns CHRONOS_SERVER_SUCCESS in the first
-- two cases; the flag is `did_wait`.
pub data AcWaited : Type 0 where
  finished : Bool → AcEnv → AcWaited
  asked_to_die : AcEnv → AcWaited
  still_waiting : AcEnv → AcWaited

pub wait_loop : Bool → List Round → AcEnv → AcWaited
wait_loop did_wait [] env =
    if ltb_ℤ (pos 0) env.num_txn_to_wait then still_waiting env else finished did_wait env
wait_loop did_wait (r ∷ rounds) env =
    let rest = wait_loop true rounds (r.others env) in
    if ltb_ℤ (pos 0) env.num_txn_to_wait
    then (if r.die == 1 then asked_to_die env else rest)
    else finished did_wait env

pub wait : List Round → AcEnv → AcWaited
wait rounds env = wait_loop false rounds env
