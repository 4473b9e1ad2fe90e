-- ===== src/Worker/Progress.antt =====
-- How soon the processing thread serves the requests of the user queue.
use chronos_xserver.Prelude.{
  ℕ, zero, suc, ◌+◌, ◌-◌, ◌*◌, ◌≤◌, ◌<◌, ◌≡◌, refl, sym, ap, ◌∙◌, List, [], ◌∷◌, ◌++◌, arith, ◌⊎◌,
  inl, inr, length, length-append, take, drop, take-append-drop,
}
use chronos_xserver.Floats.{Floats}
use chronos_xserver.Queue.Fifo.{contents, length-contents}
use chronos_xserver.Args.{UserTxnTypes}
use chronos_xserver.Process.{Benchmark}
use chronos_xserver.Worker.{World, Pc, top, refresh, user, serve, clock, Local}
use chronos_xserver.Worker.Valid.{IsRunning, serves, rank, round_steps}
use chronos_xserver.Worker.Trace.{
  Info, Trace, stop, runs, puts_user, puts_system, changes, step-Moves, grown, user_grown-IsRunning,
  sys_grown-IsRunning, changed-IsRunning, Trace-fifo,
}

module _ {A : Type 0} where
  take_of_append : (m : ℕ) (xs ys : List A) → m ≤ length xs → take m (xs ++ ys) ≡ take m xs
  take_of_append zero xs ys h = refl
  take_of_append (suc m) [] ys h = absurd (omega arith)
  take_of_append (suc m) (x ∷ xs) ys h = ap (λ l. x ∷ l) (take_of_append m xs ys (omega arith))

rank-pos : (pc : Pc) → 0 < rank pc
rank-pos top = omega arith
rank-pos (refresh n) = omega arith
rank-pos user = omega arith
rank-pos serve = omega arith
rank-pos clock = omega arith

module _ (fp : Floats) (types : UserTxnTypes) (update_stock : ℕ) {Key Order Price : Type 0}
    (bench : Benchmark Key Order Price) where
  -- Either the `m` requests at the front have been served, or each step was paid for.
  enough_or_paid :
      {n : ℕ} {ins outs sys_ins sys_outs : List (Info Key Order Price)} {l l' : Local}
      {w w' : World fp Key Order Price} (m : ℕ)
      → IsRunning l.pc w
      → m ≤ w.user_queue.occupied
      → Trace fp types update_stock bench n ins outs sys_ins sys_outs l w l' w'
      → (m ≤ length outs) ⊎ (n + rank l'.pc ≤ rank l.pc + round_steps * length outs)
  enough_or_paid m v h stop = inr (omega arith)
  enough_or_paid zero v h (runs i e run) = inl (omega arith)
  enough_or_paid (suc m) v h (runs {n = n} {outs = outs} {l = l} {l₁} {w = w} {w₁} i e run) =
      let moves = step-Moves fp types update_stock bench i l l₁ w w₁ v e in
      let s = serves l.pc w in
      let taken : length (s ++ outs) ≡ length s + length outs = length-append s outs in
      let left : w.user_queue.occupied ≡ length s + w₁.user_queue.occupied =
        sym (length-contents w.user_queue v.users)
        ∙ ap length moves.user_fifo
        ∙ length-append s (contents w₁.user_queue)
        ∙ ap (λ k. length s + k) (length-contents w₁.user_queue moves.running.users) in
      let paid = moves.closer (omega arith) in
      elim (enough_or_paid (suc m - length s) moves.running (omega arith) run) [
        | inl enough ↦ inl (omega arith)
        | inr rest ↦ inr (omega arith)
      ]
  enough_or_paid m v h (puts_user {l = l} {w = w} {q = q} info has_fp t e run) =
      let (last, more, valid) =
        grown fp types update_stock bench info has_fp t w.user_queue q v.users e in
      enough_or_paid m (user_grown-IsRunning fp types update_stock bench l.pc info has_fp t w q v e)
        (omega arith) run
  enough_or_paid m v h (puts_system {l = l} {w = w} {q = q} info has_fp t e run) =
      enough_or_paid m (sys_grown-IsRunning fp types update_stock bench l.pc info has_fp t w q v e)
        h run
  enough_or_paid m v h (changes {l = l} {w = w} c warming_up time_to_die cells run) =
      enough_or_paid m
        (changed-IsRunning fp types update_stock bench l.pc w c warming_up time_to_die cells v) h
        run

  -- No user request waits for ever, and refresh requests do not starve it: of the requests stored
  -- in the user queue, the `m + 1` oldest have been served, in order and before any other, once the
  -- running thread has made the `rank` steps to the next user request (1029 at most), and 1029
  -- steps for each of `m` further rounds, whatever other threads do in between.
  pub Trace-serves :
      {n : ℕ} {ins outs sys_ins sys_outs : List (Info Key Order Price)} {l l' : Local}
      {w w' : World fp Key Order Price} (m : ℕ)
      → IsRunning l.pc w
      → m < w.user_queue.occupied
      → Trace fp types update_stock bench n ins outs sys_ins sys_outs l w l' w'
      → rank l.pc + round_steps * m ≤ n
      → (later : List (Info Key Order Price)) × (outs
          ≡ take (suc m) (contents w.user_queue) ++ later)
  Trace-serves {ins = ins} {outs} {l = l} {l'} {w} {w'} m v h run long =
      let c = contents w.user_queue in
      let enough : suc m ≤ length outs = elim (enough_or_paid (suc m) v h run) [
        | inl e ↦ e
        | inr paid ↦ omega (arith, rank-pos l'.pc)
      ] in
      let same : take (suc m) outs ≡ take (suc m) c =
        sym (take_of_append (suc m) outs (contents w'.user_queue) enough)
        ∙ ap (take (suc m)) (sym (Trace-fifo fp types update_stock bench v run).0)
        ∙ take_of_append (suc m) c ins (omega (arith, length-contents w.user_queue v.users)) in
      (
        drop (suc m) outs,
        sym (take-append-drop (suc m) outs) ∙ ap (λ x. x ++ drop (suc m) outs) same,
      )
