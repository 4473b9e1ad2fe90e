-- ===== src/Monitor/Policy.antt =====
-- What `qosManager` and `adaptive_update_policy` do in each running mode.
use chronos_xserver.Prelude.{
  ℕ, ◌<◌, ◌≡◌, refl, ◌∙◌, true, some, arith, ◌⊎◌, inl, inr, Bool-cases, get_elem?, if◌then◌else◌,
  lt→ltb, ◌==◌, ℤ, pos, ◌≤ℤ◌, ltb_ℤ, pos_part,
}
use chronos_xserver.Config.{mode_ac, mode_aup, mode_ac_aup}
use chronos_xserver.Floats.{Floats}
use chronos_xserver.Ac.{AcEnv, wait_set}
use chronos_xserver.Aup.{done, DataItem, AupEnv}
use chronos_xserver.Aup.Valid.{IsValid}
use chronos_xserver.Aup.Counts.{cleared, reset_all_lem}
use chronos_xserver.Aup.Relax.{relax_item, relax_target}
use chronos_xserver.Aup.Relax.Effect.{is_relaxed, relax_effect}
use chronos_xserver.Monitor.{
  ServerContext, is_full_or, num_waits, qos_manager, adaptive_update_policy,
}

module _ (fp : Floats) where
  open fp use {Double, narrow}

  -- The count handed to `chronos_ac_wait_set` is at most the size of the queue.
  num_waits-bound :
      (smoth : Double) (enqueued : ℕ) → num_waits fp smoth (pos enqueued) ≤ℤ pos enqueued
  num_waits-bound smoth enqueued = ground arith

  set_waits-range :
      (lock_rc unlock_rc : ℕ) (w limit : ℤ) (env : AcEnv)
      → w ≤ℤ limit
      → ((wait_set lock_rc unlock_rc w env).1 ≡ env)
        ⊎ ((pos 1 ≤ℤ (wait_set lock_rc unlock_rc w env).1.num_txn_to_wait)
            × ((wait_set lock_rc unlock_rc w env).1.num_txn_to_wait ≤ℤ limit))
  unfolding wait_set
  set_waits-range lock_rc unlock_rc w limit env h = elim (Bool-cases (lock_rc == 0)) [
    | inr e ↦ inl (rw e refl)
    | inl e ↦ elim (Bool-cases (ltb_ℤ (pos 0) w)) [
      | inr l ↦ inl (ground arith)
      | inl l ↦ inr (ground arith, ground arith)
    ]
  ]

  -- After `qosManager` the admission controller is unchanged, or, only in the modes AC and AC_AUP,
  -- waits for at least one transaction and at most as many as the user queue holds.
  pub qos_manager-bounds :
      (lock_rc unlock_rc enqueued : ℕ) (c : ServerContext fp)
      → let c' = qos_manager fp lock_rc unlock_rc enqueued c in
        (c'.ac_env ≡ c.ac_env)
        ⊎ (((c.running_mode ≡ mode_ac_aup) ⊎ (c.running_mode ≡ mode_ac))
            × (pos 1 ≤ℤ c'.ac_env.num_txn_to_wait)
            × (c'.ac_env.num_txn_to_wait ≤ℤ pos enqueued))
  unfolding qos_manager
  qos_manager-bounds lock_rc unlock_rc enqueued c =
      let w = num_waits fp c.smoth_degree_timing_violation (pos enqueued) in
      elim (Bool-cases (is_full_or fp mode_ac c)) [
        | inr e ↦ inl (rw e refl)
        | inl e ↦
            elim (set_waits-range lock_rc unlock_rc w (pos enqueued) c.ac_env
              (num_waits-bound c.smoth_degree_timing_violation enqueued)) [
                | inl same ↦ inl (rw e same)
                | inr bounds ↦ inr (rw e (ground arith, bounds.0, bounds.1))
              ]
      ]

  -- In the modes AUP and AC_AUP the update policy ends on a valid environment and keeps it valid:
  -- the items that `chronos_aup_relax` picks for the smoothed degree, by the counts of the period,
  -- get the longer interval, and then both counts of every element are zero.
  pub adaptive_update_policy_lem :
      (c : ServerContext fp)
      → IsValid fp c.aup_env
      → is_full_or fp mode_aup c ≡ true
      → let n = c.aup_env.num_elements in
        let target = pos_part (relax_target fp n (narrow c.smoth_degree_timing_violation)) in
        (env : AupEnv fp) × (adaptive_update_policy fp c ≡ done (record c { aup_env = env }))
        × IsValid fp env
        × (env.num_elements ≡ n)
        × ((j : ℕ) (d : DataItem fp)
            → j < n
            → get_elem? c.aup_env.data_array j ≡ some d
            → get_elem? env.data_array j
              ≡ some (
                  cleared fp (
                    if is_relaxed fp n target c.aup_env.data_array j d
                    then relax_item fp d
                    else d)))
  unfolding adaptive_update_policy
  adaptive_update_policy_lem c v on =
      let (env₁, e₁, v₁, n₁, at₁, mean) =
        relax_effect fp c.aup_env (narrow c.smoth_degree_timing_violation) v in
      let (env₂, e₂, v₂, n₂, at₂) = reset_all_lem fp env₁ v₁ in
      (
        env₂,
        rw (on, e₁, e₂) refl,
        v₂,
        n₂ ∙ n₁,
        λ j d h at. at₂ j _ (at₁ j d at) ∙ rw (n₁, lt→ltb j c.aup_env.num_elements h) refl,
      )
