-- ===== src/Queue/Calls.antt =====
-- Whole calls of chronos_dequeue_transaction and chronos_enqueue_transaction: what they return on
-- every path, with any work of other threads during their waits.
use chronos_xserver.Prelude.{
  ℕ, ◌+◌, ◌<◌, ◌≡◌, refl, ap, ◌∙◌, Bool, true, false, ◌&&◌, some, List, [], ◌∷◌, ◌++◌, arith, inl,
  inr, Bool-cases,
}
use chronos_xserver.Config.{ready_queue_size}
use chronos_xserver.Queue.{
  TxnInfo, Queue, Wakeup, Waited, ready, asked_to_die, still_waiting, Outcome, success, failed,
  invalid_argument, waiting, fault, wait_while, is_empty, is_full, next_ticket, put_in,
  take_outcome, dequeue_waited, dequeue_transaction, enqueue_waited, enqueue_transaction,
}
use chronos_xserver.Queue.Valid.{IsValid, put_in-IsValid, after_take, after_take-IsValid}
use chronos_xserver.Queue.Fifo.{contents, contents-put_in, contents-take_out}

module _ {R : Type 0} where
  -- Other threads leave a valid queue valid, at each of the wake-ups.
  abbrev pub Keep : List (Wakeup R) → Type 0
  Keep [] = Unit
  Keep (w ∷ ws) = ((q : Queue R) → IsValid q → IsValid (w.others q)) × Keep ws

  -- The queues that the loop may see: the first, and what each wake-up makes of it.
  pub data Seen : List (Wakeup R) → Queue R → Queue R → Type 0 where
    now : {ws : List (Wakeup R)} {q : Queue R} → Seen ws q q
    later :
        {w : Wakeup R} {ws : List (Wakeup R)} {q p : Queue R}
        → Seen ws (w.others q) p
        → Seen (w ∷ ws) q p

  -- What a wait loop has established when it ends.
  abbrev pub Ended : (Queue R → Bool) → Bool → List (Wakeup R) → Queue R → Waited R → Type 0
  Ended test has_fp ws q (ready p) = Seen ws q p × IsValid p × (test p ≡ false)
  Ended test has_fp ws q (asked_to_die p) = Seen ws q p × IsValid p × (has_fp ≡ true)
  Ended test has_fp ws q (still_waiting p) = Seen ws q p × IsValid p × (test p ≡ true)

  later-Ended :
      (test : Queue R → Bool) (has_fp : Bool) (w : Wakeup R) (ws : List (Wakeup R)) (q : Queue R)
      (r : Waited R)
      → Ended test has_fp ws (w.others q) r
      → Ended test has_fp (w ∷ ws) q r
  later-Ended test has_fp w ws q (ready p) (s, v, e) = (later s, v, e)
  later-Ended test has_fp w ws q (asked_to_die p) (s, v, e) = (later s, v, e)
  later-Ended test has_fp w ws q (still_waiting p) (s, v, e) = (later s, v, e)

  pub wait_while-Ended :
      (test : Queue R → Bool) (has_fp : Bool) (ws : List (Wakeup R)) (q : Queue R)
      → Keep ws
      → IsValid q
      → Ended test has_fp ws q (wait_while test has_fp ws q)
  unfolding wait_while
  wait_while-Ended test has_fp [] q k v = elim (Bool-cases (test q)) [
    | inl e ↦ rw e (now, v, e)
    | inr e ↦ rw e (now, v, e)
  ]
  wait_while-Ended test has_fp (w ∷ ws) q (k, ks) v = elim (Bool-cases (test q)) [
    | inr e ↦ rw e (now, v, e)
    | inl e ↦ elim (Bool-cases (has_fp && w.die)) [
      | inl d ↦ rw (e, d) (later now, k q v, ground arith)
      | inr d ↦
          rw (e, d)
            (later-Ended test has_fp w ws q _
              (wait_while-Ended test has_fp ws (w.others q) ks (k q v)))
    ]
  ]

  -- How a dequeue call may end: with the oldest request of the queue that it last saw; asked to die,
  -- with that queue untouched; or waiting at an empty queue.
  abbrev pub Dequeued : Bool → List (Wakeup R) → Queue R → Outcome R (TxnInfo R) → Type 0
  Dequeued has_fp ws q (success q' info) =
      (p : Queue R) × Seen ws q p
      × (contents p ≡ info ∷ contents q')
      × (q'.occupied + 1 ≡ p.occupied)
      × (q'.ticket_req ≡ p.ticket_req)
      × IsValid q'
  Dequeued has_fp ws q (failed p) = Seen ws q p × IsValid p × (has_fp ≡ true)
  Dequeued has_fp ws q (waiting p) = Seen ws q p × IsValid p × (p.occupied ≡ 0)
  Dequeued has_fp ws q invalid_argument = ⊥
  Dequeued has_fp ws q fault = ⊥

  dequeue_waited-Dequeued :
      (has_fp : Bool) (ws : List (Wakeup R)) (q : Queue R) (r : Waited R)
      → Ended is_empty has_fp ws q r
      → Dequeued has_fp ws q (dequeue_waited r)
  dequeue_waited-Dequeued has_fp ws q (ready p) (s, v, e) =
      let pos : 0 < p.occupied = ground arith in
      let (info, out, split) = contents-take_out p v pos in
      rw out (p, s, split, omega arith, refl, after_take-IsValid p v pos)
  dequeue_waited-Dequeued has_fp ws q (asked_to_die p) (s, v, e) = (s, v, e)
  dequeue_waited-Dequeued has_fp ws q (still_waiting p) (s, v, e) = (s, v, ground arith)

  -- Whatever other threads do while it waits, as long as they keep the queue valid, the dequeue
  -- call on a valid queue never faults: it takes the oldest request of a queue that it saw, or
  -- fails with that queue untouched because a die function is set, or waits at an empty queue.
  pub dequeue_transaction-Dequeued :
      (has_fp : Bool) (ws : List (Wakeup R)) (q : Queue R)
      → Keep ws
      → IsValid q
      → Dequeued has_fp ws q (dequeue_transaction has_fp ws (some q))
  unfolding dequeue_transaction
  dequeue_transaction-Dequeued has_fp ws q k v =
      dequeue_waited-Dequeued has_fp ws q _ (wait_while-Ended is_empty has_fp ws q k v)

  -- How an enqueue call may end: with the request stamped and last in the queue that it last saw;
  -- asked to die, with that queue untouched; or waiting at a full queue.
  abbrev pub Enqueued : TxnInfo R → Bool → List (Wakeup R) → Queue R → Outcome R ℕ → Type 0
  Enqueued info has_fp ws q (success q' t) =
      (p : Queue R) × Seen ws q p
      × (contents q' ≡ contents p ++ (record info { ticket = t } ∷ []))
      × (t ≡ next_ticket p.ticket_req)
      × (q'.ticket_req ≡ t)
      × IsValid q'
  Enqueued info has_fp ws q (failed p) = Seen ws q p × IsValid p × (has_fp ≡ true)
  Enqueued info has_fp ws q (waiting p) = Seen ws q p × IsValid p × (p.occupied ≡ ready_queue_size)
  Enqueued info has_fp ws q invalid_argument = ⊥
  Enqueued info has_fp ws q fault = ⊥

  enqueue_waited-Enqueued :
      (info : TxnInfo R) (has_fp : Bool) (ws : List (Wakeup R)) (q : Queue R) (r : Waited R)
      → Ended is_full has_fp ws q r
      → Enqueued info has_fp ws q (enqueue_waited info r)
  unfolding put_in
  enqueue_waited-Enqueued info has_fp ws q (ready p) (s, v, e) =
      let room : p.occupied < ready_queue_size = ground arith in
      (p, s, contents-put_in info p v room, refl, refl, put_in-IsValid info p v room)
  enqueue_waited-Enqueued info has_fp ws q (asked_to_die p) (s, v, e) = (s, v, e)
  enqueue_waited-Enqueued info has_fp ws q (still_waiting p) (s, v, e) = (s, v, ground arith)

  -- Whatever other threads do while it waits, as long as they keep the queue valid, the enqueue
  -- call on a valid queue never faults: it appends the request, stamped with the next ticket, to a
  -- queue that it saw and hands that ticket out, or fails with that queue untouched because a die
  -- function is set, or waits at a full queue.
  pub enqueue_transaction-Enqueued :
      (info : TxnInfo R) (has_fp : Bool) (ws : List (Wakeup R)) (q : Queue R)
      → Keep ws
      → IsValid q
      → Enqueued info has_fp ws q (enqueue_transaction info has_fp ws (some q))
  unfolding enqueue_transaction
  enqueue_transaction-Enqueued info has_fp ws q k v =
      enqueue_waited-Enqueued info has_fp ws q _ (wait_while-Ended is_full has_fp ws q k v)

  wait_while-ready :
      (test : Queue R → Bool) (has_fp : Bool) (ws : List (Wakeup R)) (q : Queue R)
      → test q ≡ false
      → wait_while test has_fp ws q ≡ ready q
  unfolding wait_while
  wait_while-ready test has_fp [] q e = rw e
  wait_while-ready test has_fp (w ∷ ws) q e = rw e

  -- With room in the queue, the enqueue call does not wait and does not ask whether to die.
  pub enqueue_transaction-at_once :
      (info : TxnInfo R) (has_fp : Bool) (ws : List (Wakeup R)) (q : Queue R)
      → q.occupied < ready_queue_size
      → enqueue_transaction info has_fp ws (some q)
        ≡ success (put_in info q).0 (next_ticket q.ticket_req)
  unfolding enqueue_transaction put_in
  enqueue_transaction-at_once info has_fp ws q room =
      ap (enqueue_waited info) (wait_while-ready is_full has_fp ws q (ground arith))

  -- With a request stored, the dequeue call does not wait and does not ask whether to die: it takes
  -- the oldest request.
  pub dequeue_transaction-at_once :
      (has_fp : Bool) (ws : List (Wakeup R)) (q : Queue R)
      → IsValid q
      → 0 < q.occupied
      → (info : TxnInfo R) × (dequeue_transaction has_fp ws (some q) ≡ success (after_take q) info)
        × (contents q ≡ info ∷ contents (after_take q))
  unfolding dequeue_transaction
  dequeue_transaction-at_once has_fp ws q v pos =
      let (info, out, split) = contents-take_out q v pos in
      (
        info,
        ap dequeue_waited (wait_while-ready is_empty has_fp ws q (ground arith))
            ∙ ap take_outcome out,
        split,
      )
