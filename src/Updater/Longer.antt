-- ===== src/Updater/Longer.antt =====
-- What a cycle of an update thread that need not wait leaves of the two queues.
use chronos_xserver.Prelude.{
  ℕ, zero, suc, ◌+◌, ◌≤◌, ◌≡◌, refl, sym, subst, ap, ◌∙◌, Bool, true, false, Option, none, some,
  List, [], ◌∷◌, ◌++◌, arith, ◌==◌, if◌then◌else◌, length, length-append, ℤ,
}
use chronos_xserver.Config.{server_success, mode_aup}
use chronos_xserver.Floats.{Floats}
use chronos_xserver.Queue.{
  TxnInfo, Queue, Outcome, success, failed, invalid_argument, waiting, fault, enqueue_transaction,
}
use chronos_xserver.Queue.Api.{deliver, new_info, enqueue_system_transaction}
use chronos_xserver.Queue.Valid.{IsValid}
use chronos_xserver.Queue.Fifo.{contents, length-contents}
use chronos_xserver.Queue.Calls.{Enqueued, enqueue_transaction-Enqueued}
use chronos_xserver.Queue.History.{Seen-at_once}
use chronos_xserver.Aup.{Call, done, aborted, overrun, AupEnv}
use chronos_xserver.Monitor.{is_full_or}
use chronos_xserver.Process.{Packet}
use chronos_xserver.Worker.{World}
use chronos_xserver.Updater.{
  Updater, CycleInput, Cycled, goes_on, leaves, waits, crashed, nothing_to_do, enqueued, send,
  rescheduled, scanned_for, cycle,
}

occupied-longer :
    {R : Type 0} (q p q' : Queue R) (info : TxnInfo R)
    → p ≡ q
    → IsValid q
    → IsValid q'
    → contents q' ≡ contents p ++ (info ∷ [])
    → q.occupied ≤ q'.occupied
occupied-longer q p q' info e v v' last =
    let len : q'.occupied ≡ q.occupied + 1 =
      sym (length-contents q' v')
      ∙ ap length last
      ∙ length-append (contents p) (info ∷ [])
      ∙ ap (λ n. n + 1) (ap (λ x. length (contents x)) e ∙ length-contents q v) in
    omega arith

module _ {fp : Floats} {Key Order Price : Type 0} where
  -- The user queue is as it was, and the system queue is not shorter.
  pub record IsLonger (w w' : World fp Key Order Price) : Type 0 where
    pub users : w'.user_queue ≡ w.user_queue
    pub systems : w.sys_queue.occupied ≤ w'.sys_queue.occupied

  abbrev pub Longer : World fp Key Order Price → Cycled (World fp Key Order Price) → Type 0
  Longer w (goes_on l w') = IsLonger w w'
  Longer w (leaves w') = IsLonger w w'
  Longer w (waits w') = IsLonger w w'
  Longer w crashed = Unit {0}

  same :
      (w w' : World fp Key Order Price)
      → w'.user_queue ≡ w.user_queue
      → w'.sys_queue ≡ w.sys_queue
      → IsLonger w w'
  same w w' users systems = record { users = users; systems = rw systems (omega arith) }

  if-Longer :
      (w : World fp Key Order Price) (t : Bool) (a b : Cycled (World fp Key Order Price))
      → Longer w a
      → Longer w b
      → Longer w (if t then a else b)
  if-Longer w true a b ha hb = ha
  if-Longer w false a b ha hb = hb

  nothing_to_do-Longer :
      (i : CycleInput Key Order Price) (l : Updater) (w w' : World fp Key Order Price)
      → IsLonger w w'
      → Longer w (nothing_to_do i l w')
  nothing_to_do-Longer i l w w' h = if-Longer w i.dying (leaves w') (goes_on l w') h h

  enqueued-Longer :
      (blank p : Packet Key Order Price) (i : CycleInput Key Order Price) (l : Updater)
      (w w₁ : World fp Key Order Price) (has_fp : Bool) (o : Outcome (Packet Key Order Price) ℕ)
      → w₁.user_queue ≡ w.user_queue
      → w₁.sys_queue ≡ w.sys_queue
      → IsValid w₁.sys_queue
      → Enqueued (new_info blank p i.now none none) has_fp [] w₁.sys_queue o
      → Longer w (enqueued i l w₁ (deliver (λ _. tt) o))
  enqueued-Longer blank p i l w w₁ has_fp (success q t) users systems v
        (seen_q, seen, last, ticket, req, v') =
      let longer : IsLonger w (record w₁ { sys_queue = q }) = record {
        users = users;
        systems =
            subst (λ x. x.occupied ≤ q.occupied) systems
              (occupied-longer w₁.sys_queue seen_q q _ (Seen-at_once seen) v v' last);
      } in
      if-Longer w (i.free_rc == server_success) (nothing_to_do i l (record w₁ { sys_queue = q }))
        (leaves (record w₁ { sys_queue = q }))
        (nothing_to_do-Longer i l w (record w₁ { sys_queue = q }) longer) longer
  enqueued-Longer blank p i l w w₁ has_fp (failed q) users systems v (seen, v', e) =
      same w (record w₁ { sys_queue = q }) users (Seen-at_once seen ∙ systems)
  enqueued-Longer blank p i l w w₁ has_fp (waiting q) users systems v (seen, v', e) =
      same w (record w₁ { sys_queue = q }) users (Seen-at_once seen ∙ systems)
  enqueued-Longer blank p i l w w₁ has_fp invalid_argument users systems v h = absurd h
  enqueued-Longer blank p i l w w₁ has_fp fault users systems v h = absurd h

module _ {fp : Floats} {Key Order Price : Type 0} (blank : Packet Key Order Price) where
  send-Longer :
      (i : CycleInput Key Order Price) (l : Updater) (w w₁ : World fp Key Order Price)
      (o : Option (Packet Key Order Price))
      → i.wakeups ≡ []
      → w₁.user_queue ≡ w.user_queue
      → w₁.sys_queue ≡ w.sys_queue
      → IsValid w₁.sys_queue
      → Longer w (send blank i l w₁ o)
  unfolding enqueue_system_transaction
  send-Longer i l w w₁ none quiet users systems v = same w w₁ users systems
  send-Longer i l w w₁ (some p) quiet users systems v =
      let info = new_info blank p i.now none none in
      let fp₁ = w₁.sys_queue.has_die_fp in
      subst
        (λ ws. Longer w (
          enqueued i l w₁
            (deliver (λ _. tt) (enqueue_transaction info fp₁ ws (some w₁.sys_queue)))))
        (sym quiet)
        (enqueued-Longer blank p i l w w₁ fp₁ _ users systems v
          (enqueue_transaction-Enqueued info fp₁ [] w₁.sys_queue tt v))

  rescheduled-Longer :
      (i : CycleInput Key Order Price) (l : Updater) (w : World fp Key Order Price)
      (r : Call (AupEnv fp))
      → i.wakeups ≡ []
      → IsValid w.sys_queue
      → Longer w (rescheduled blank i l w r)
  rescheduled-Longer i l w (done env) quiet v = send-Longer i l w _ _ quiet refl refl v
  rescheduled-Longer i l w aborted quiet v = tt
  rescheduled-Longer i l w overrun quiet v = tt

  scanned_for-Longer :
      (i : CycleInput Key Order Price) (l : Updater) (w : World fp Key Order Price)
      (r : Call (ℕ × List ℤ))
      → i.wakeups ≡ []
      → IsValid w.sys_queue
      → Longer w (scanned_for blank i l w r)
  scanned_for-Longer i l w (done (zero, list)) quiet v =
      nothing_to_do-Longer i _ w w (same w w refl refl)
  scanned_for-Longer i l w (done (suc n, list)) quiet v = rescheduled-Longer i _ w _ quiet v
  scanned_for-Longer i l w aborted quiet v = tt
  scanned_for-Longer i l w overrun quiet v = tt

  pub cycle-Longer :
      (i : CycleInput Key Order Price) (l : Updater) (w : World fp Key Order Price)
      → i.wakeups ≡ []
      → IsValid w.sys_queue
      → Longer w (cycle blank i l w)
  unfolding cycle
  cycle-Longer i l w quiet v =
      if-Longer w (is_full_or fp mode_aup w.context) _ _ (scanned_for-Longer i l w _ quiet v)
        (send-Longer i l w w _ quiet refl refl v)
