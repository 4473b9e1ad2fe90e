-- ===== src/Queue/Api/Roundtrip.antt =====
-- The calls of chronos_queue.h, end to end.
use chronos_xserver.Prelude.{
  ℕ, ◌+◌, ◌<◌, ◌≡◌, ap, ◌∙◌, Bool, true, Option, some, [], ◌∷◌, ◌++◌, arith,
}
use chronos_xserver.Time.{Timeval}
use chronos_xserver.Queue.{TxnInfo, Queue, success, next_ticket, put_in, dequeue_transaction}
use chronos_xserver.Config.{ready_queue_size}
use chronos_xserver.Queue.Api.{
  deliver, store_all, new_info, dequeue_user_transaction, enqueue_user_transaction,
}
use chronos_xserver.Queue.Valid.{
  IsValid, after_take, after_take-IsValid, put_in-IsValid, occupied-put_in,
}
use chronos_xserver.Queue.Fifo.{contents, stamped, contents_of_empty, contents-put_in}
use chronos_xserver.Queue.Calls.{enqueue_transaction-at_once, dequeue_transaction-at_once}

module _ {R : Type 0} where
  pub put_then_take :
      (info : TxnInfo R) (has_fp : Bool) (q : Queue R)
      → IsValid q
      → q.occupied ≡ 0
      → (dequeue_transaction has_fp [] (some (put_in info q).0)
          ≡ success (after_take (put_in info q).0) (stamped info q))
        × IsValid (after_take (put_in info q).0)
  put_then_take info has_fp q v empty =
      let room : q.occupied < ready_queue_size = omega arith in
      let v' = put_in-IsValid info q v room in
      let grown : (put_in info q).0.occupied ≡ q.occupied + 1 = occupied-put_in info q in
      let pos : 0 < (put_in info q).0.occupied = omega arith in
      let (oldest, out, split) = dequeue_transaction-at_once has_fp [] (put_in info q).0 v' pos in
      let alone : contents (put_in info q).0 ≡ stamped info q ∷ [] =
        contents-put_in info q v room
        ∙ ap (λ c. c ++ (stamped info q ∷ [])) (contents_of_empty q empty) in
      let same : oldest ≡ stamped info q = cc (split, alone) in
      (
        out ∙ ap (success (after_take (put_in info q).0)) same,
        after_take-IsValid (put_in info q).0 v' pos,
      )

  -- On a valid empty queue, a user request goes in at once, stamped with the next ticket, and the
  -- next user dequeue call hands out that request, its time, that ticket and the two addresses,
  -- and leaves the queue valid and empty.
  pub user_roundtrip :
      (blank request : R) (ts : Timeval) (done_p rc_p : Option ℕ) (q : Queue R)
      → IsValid q
      → q.occupied ≡ 0
      → (mid out : Queue R) × (enqueue_user_transaction blank
            (some request)
            (some ts)
            true
            done_p
            rc_p
            []
            (some q)
          ≡ success mid (next_ticket q.ticket_req))
        × (dequeue_user_transaction true true [] (some mid)
            ≡ success out (request, ts, next_ticket q.ticket_req, done_p, rc_p))
        × IsValid out
        × (out.occupied ≡ 0)
  unfolding enqueue_user_transaction dequeue_user_transaction
  user_roundtrip blank request ts done_p rc_p q v empty =
      let info = new_info blank request ts done_p rc_p in
      let mid = (put_in info q).0 in
      let (taken, valid) = put_then_take info mid.has_die_fp q v empty in
      (
        mid,
        after_take mid,
        enqueue_transaction-at_once info q.has_die_fp [] q (omega arith),
        ap
            (λ o.
              store_all true
                (deliver (λ i. (i.request, i.txn_enqueue, i.ticket, i.txn_done, i.txn_rc)) o))
            taken,
        valid,
        omega (arith, occupied-put_in info q),
      )
