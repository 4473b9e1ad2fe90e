-- ===== src/Queue/Api.antt =====
-- The calls of chronos_queue.h: the checks of their arguments round the two transaction calls.
-- A pointer argument that is only written through is a flag, false for NULL.
pub mod Roundtrip
pub mod AtOnce
use chronos_xserver.Prelude.{ℕ, Bool, ◌&&◌, Option, none, some, List, if◌then◌else◌}
use chronos_xserver.Time.{Timeval}
use chronos_xserver.Queue.{
  TxnInfo, Queue, Wakeup, Outcome, success, failed, invalid_argument, waiting, fault,
  dequeue_transaction, enqueue_transaction, zero_info,
}

-- What a caller makes of the outcome of a transaction call.
abbrev pub deliver : {R A B : Type 0} → (A → B) → Outcome R A → Outcome R B
deliver f (success q a) = success q (f a)
deliver f (failed q) = failed q
deliver f invalid_argument = invalid_argument
deliver f (waiting q) = waiting q
deliver f fault = fault

-- Stores through pointers that may be NULL.
abbrev pub store_all : {R A : Type 0} → Bool → Outcome R A → Outcome R A
store_all ok (success q a) = if ok then success q a else fault
store_all ok o = o

-- What `chronos_dequeue_user_transaction` hands out: request, time, ticket, `txn_done`, `txn_rc`.
abbrev pub UserTxn : Type 0 → Type 0
UserTxn R = R × Timeval × ℕ × Option ℕ × Option ℕ

module _ {R : Type 0} where
  -- `timeToDieFp` is read through the queue pointer before that is compared with NULL.
  pub dequeue_system_transaction :
      Bool → Bool → List (Wakeup R) → Option (Queue R) → Outcome R (R × Timeval)
  dequeue_system_transaction request_ok ts_ok ws none =
      if request_ok && ts_ok then fault else invalid_argument
  dequeue_system_transaction request_ok ts_ok ws (some q) =
      if request_ok && ts_ok
      then deliver (λ i. (i.request, i.txn_enqueue)) (dequeue_transaction q.has_die_fp ws (some q))
      else invalid_argument

  -- The record that both enqueue calls build, over the zeroes of `memset`.
  abbrev pub new_info : R → R → Timeval → Option ℕ → Option ℕ → TxnInfo R
  new_info blank request ts done_p rc_p = record (zero_info blank) {
    request = request;
    txn_enqueue = ts;
    txn_done = done_p;
    txn_rc = rc_p;
  }

  -- `ticket_ret` is NULL: the ticket is dropped.
  unfoldable pub enqueue_system_transaction :
      R → Option R → Option Timeval → List (Wakeup R) → Option (Queue R) → Outcome R (Unit {0})
  enqueue_system_transaction blank (some request) (some ts) ws (some q) =
      deliver (λ _. tt)
        (enqueue_transaction (new_info blank request ts none none) q.has_die_fp ws (some q))
  enqueue_system_transaction blank (some request) (some ts) ws none = fault
  enqueue_system_transaction blank (some request) none ws q = invalid_argument
  enqueue_system_transaction blank none ts ws q = invalid_argument

  -- Only `ts` is compared with NULL; the flag `outs_ok` stands for the other four pointers.
  unfoldable pub dequeue_user_transaction :
      Bool → Bool → List (Wakeup R) → Option (Queue R) → Outcome R (UserTxn R)
  dequeue_user_transaction ts_ok outs_ok ws none = if ts_ok then fault else invalid_argument
  dequeue_user_transaction ts_ok outs_ok ws (some q) =
      if ts_ok
      then store_all outs_ok (
          deliver (λ i. (i.request, i.txn_enqueue, i.ticket, i.txn_done, i.txn_rc))
            (dequeue_transaction q.has_die_fp ws (some q)))
      else invalid_argument

  -- `requestP` is not compared with NULL.
  unfoldable pub enqueue_user_transaction :
      R
      → Option R
      → Option Timeval
      → Bool
      → Option ℕ
      → Option ℕ
      → List (Wakeup R)
      → Option (Queue R)
      → Outcome R ℕ
  enqueue_user_transaction blank request none ticket_ok done_p rc_p ws q = invalid_argument
  enqueue_user_transaction blank none (some ts) ticket_ok done_p rc_p ws q =
      if ticket_ok then fault else invalid_argument
  enqueue_user_transaction blank (some request) (some ts) ticket_ok done_p rc_p ws none =
      if ticket_ok then fault else invalid_argument
  enqueue_user_transaction blank (some request) (some ts) ticket_ok done_p rc_p ws (some q) =
      if ticket_ok
      then enqueue_transaction (new_info blank request ts done_p rc_p) q.has_die_fp ws (some q)
      else invalid_argument
