-- ===== src/Queue/Api/AtOnce.antt =====
-- The two dequeue calls of chronos_queue.h on a queue that holds a request.
use chronos_xserver.Prelude.{
  ◌<◌, ◌≡◌, refl, ap, Bool, true, false, ◌⊎◌, inl, inr, some, List, [], ◌∷◌, arith, leb, ◌&&◌,
  Bool-cases, if◌then◌else◌,
}
use chronos_xserver.Queue.{
  TxnInfo, Queue, Wakeup, Outcome, success, failed, waiting, wait_while, dequeue_transaction,
}
use chronos_xserver.Queue.Api.{
  deliver, store_all, dequeue_system_transaction, dequeue_user_transaction,
}
use chronos_xserver.Queue.Valid.{IsValid, after_take}
use chronos_xserver.Queue.Fifo.{contents}
use chronos_xserver.Queue.Calls.{dequeue_transaction-at_once}

module _ {R : Type 0} (ws : List (Wakeup R)) (q : Queue R) (v : IsValid q)
    (some_stored : 0 < q.occupied) where
  -- The oldest request, out of the system queue.
  pub dequeue_system_transaction-at_once :
      (info : TxnInfo R) × (dequeue_system_transaction true true ws (some q)
        ≡ success (after_take q) (info.request, info.txn_enqueue))
      × (contents q ≡ info ∷ contents (after_take q))
  unfolding dequeue_system_transaction
  dequeue_system_transaction-at_once =
      let (info, out, split) = dequeue_transaction-at_once q.has_die_fp ws q v some_stored in
      (info, ap (deliver (λ i. (i.request, i.txn_enqueue))) out, split)

  -- The oldest request, out of the user queue.
  pub dequeue_user_transaction-at_once :
      (info : TxnInfo R) × (dequeue_user_transaction true true ws (some q)
        ≡ success
            (after_take q)
            (info.request, info.txn_enqueue, info.ticket, info.txn_done, info.txn_rc))
      × (contents q ≡ info ∷ contents (after_take q))
  unfolding dequeue_user_transaction
  dequeue_user_transaction-at_once =
      let (info, out, split) = dequeue_transaction-at_once q.has_die_fp ws q v some_stored in
      (
        info,
        ap
            (λ o.
              store_all true
                (deliver (λ i. (i.request, i.txn_enqueue, i.ticket, i.txn_done, i.txn_rc)) o))
            out,
        split,
      )

-- The wake-ups of a wait in which the others do nothing: none, or one.
abbrev pub idle : {R : Type 0} → Bool → Bool → List (Wakeup R)
idle woken die = if woken then record { others = λ q. q; die = die } ∷ [] else []

-- On an empty queue a call waits on, or fails because it was asked to die; the queue is untouched.
abbrev pub Nothing : {R A : Type 0} → Bool → Queue R → Outcome R A → Type 0
Nothing die q o = (o ≡ waiting q) ⊎ ((o ≡ failed q) × (die ≡ true))

dequeue_transaction-Nothing :
    {R : Type 0} (woken die has_fp : Bool) (q : Queue R)
    → q.occupied ≡ 0
    → Nothing die q (dequeue_transaction has_fp (idle woken die) (some q))
unfolding dequeue_transaction wait_while
dequeue_transaction-Nothing false die has_fp q empty =
    let e : leb q.occupied 0 ≡ true = ground arith in inl (rw e refl)
dequeue_transaction-Nothing true die has_fp q empty =
    let e : leb q.occupied 0 ≡ true = ground arith in
    elim (Bool-cases (has_fp && die)) [
      | inl d ↦ inr (rw (e, d) refl, ground arith)
      | inr d ↦ inl (rw (e, d) refl)
    ]

module _ {R : Type 0} (woken die : Bool) (q : Queue R) (empty : q.occupied ≡ 0) where
  pub dequeue_system_transaction-Nothing :
      Nothing die q (dequeue_system_transaction true true (idle woken die) (some q))
  unfolding dequeue_system_transaction
  dequeue_system_transaction-Nothing =
      elim (dequeue_transaction-Nothing woken die q.has_die_fp q empty) [
        | inl e ↦ inl (rw e refl)
        | inr (e, d) ↦ inr (rw e refl, d)
      ]

  pub dequeue_user_transaction-Nothing :
      Nothing die q (dequeue_user_transaction true true (idle woken die) (some q))
  unfolding dequeue_user_transaction
  dequeue_user_transaction-Nothing =
      elim (dequeue_transaction-Nothing woken die q.has_die_fp q empty) [
        | inl e ↦ inl (rw e refl)
        | inr (e, d) ↦ inr (rw e refl, d)
      ]
