-- ===== src/Queue.antt =====
-- chronos_queue.c: the ready queue of transaction requests, a ring of 1024 slots under a mutex.
-- The type of a request is the parameter `R`; `blank` is the request whose bytes are all zero.
-- What happens while a caller waits on a condition variable is an argument (`Wakeup`).
pub mod Api
pub mod Window
pub mod Valid
pub mod Fifo
pub mod Calls
pub mod History
pub mod Refine
mod Tests
use chronos_xserver.Prelude.{
  ℕ, ◌+◌, ◌-◌, ◌%◌, ◌^◌, Bool, ◌&&◌, Option, none, some, List, [], ◌∷◌, leb, if◌then◌else◌,
  get_elem?, set, replicate,
}
use chronos_xserver.Config.{ready_queue_size}
use chronos_xserver.Time.{Timeval}

-- `txn_info_t`; the pointers `txn_done` and `txn_rc` are addresses, `none` is NULL.
pub record TxnInfo (R : Type 0) : Type 0 where
  pub txn_enqueue : Timeval
  pub ticket : ℕ
  pub txn_done : Option ℕ
  pub txn_rc : Option ℕ
  pub request : R

-- `chronos_queue_t`, less the mutex and the condition variables; `has_die_fp` says that the
-- pointer `timeToDieFp` is not NULL.
pub record Queue (R : Type 0) : Type 0 where
  pub txn_info_arr : List (TxnInfo R)
  pub occupied : ℕ
  pub nextin : ℕ
  pub nextout : ℕ
  pub ticket_req : ℕ
  pub ticket_done : ℕ
  pub has_die_fp : Bool

-- One return of `pthread_cond_timedwait`: what the other threads did to the queue while the mutex
-- was released, and what `timeToDieFp` answers afterwards.
pub record Wakeup (R : Type 0) : Type 0 where
  pub others : Queue R → Queue R
  pub die : Bool

-- How a wait loop stands after a list of wake-ups.
pub data Waited (R : Type 0) : Type 0 where
  ready : Queue R → Waited R
  asked_to_die : Queue R → Waited R
  still_waiting : Queue R → Waited R

-- How a call ends: with CHRONOS_SERVER_SUCCESS, the queue and what it wrote through its pointers;
-- with CHRONOS_SERVER_FAIL, asked to die or refusing a NULL argument; still in its wait loop; or
-- with an access through a NULL pointer or out of the array.
pub data Outcome (R A : Type 0) : Type 0 where
  success : Queue R → A → Outcome R A
  failed : Queue R → Outcome R A
  invalid_argument : Outcome R A
  waiting : Queue R → Outcome R A
  fault : Outcome R A

-- The memory that `memset` and `calloc` leave.
abbrev pub zero_time : Timeval
zero_time = record { tv_sec = 0; tv_usec = 0 }

-- `unsigned long long` increment
abbrev pub next_ticket : ℕ → ℕ
next_ticket t = (t + 1) % 2 ^ 64

module _ {R : Type 0} where
  abbrev pub zero_info : R → TxnInfo R
  zero_info blank = record {
    txn_enqueue = zero_time;
    ticket = 0;
    txn_done = none;
    txn_rc = none;
    request = blank;
  }

  -- `chronos_queue_alloc`; the flags say whether `calloc` and the three initialisations succeed.
  unfoldable pub alloc : R → Bool → Bool → Bool → Option (Queue R)
  alloc blank has_fp calloc_ok init_ok =
      if calloc_ok && init_ok
      then some (record {
        txn_info_arr = replicate ready_queue_size (zero_info blank);
        occupied = 0;
        nextin = 0;
        nextout = 0;
        ticket_req = 0;
        ticket_done = 0;
        has_die_fp = has_fp;
      })
      else none

  -- `while (test) { timedwait; if (timeToDieFp && timeToDieFp()) fail; }`
  unfoldable pub wait_while : (Queue R → Bool) → Bool → List (Wakeup R) → Queue R → Waited R
  wait_while test has_fp [] q = if test q then still_waiting q else ready q
  wait_while test has_fp (w ∷ ws) q =
      let q' = w.others q in
      let rest = wait_while test has_fp ws q' in
      if test q then (if has_fp && w.die then asked_to_die q' else rest) else ready q

  -- the tests of the two loops
  abbrev pub is_empty : Queue R → Bool
  is_empty q = leb q.occupied 0

  abbrev pub is_full : Queue R → Bool
  is_full q = leb ready_queue_size q.occupied

  -- The critical section of `chronos_dequeue_transaction`, behind its loop.
  unfoldable pub take_out : Queue R → Option (TxnInfo R × Queue R)
  take_out q = elim (get_elem? q.txn_info_arr q.nextout) [
    | none ↦ none
    | some info ↦
        some (
          info,
          record q { nextout = (q.nextout + 1) % ready_queue_size; occupied = q.occupied - 1 },
        )
  ]

  -- The critical section of `chronos_enqueue_transaction`, behind its loop: the second part is the
  -- ticket that goes through `ticket_ret`.
  unfoldable pub put_in : TxnInfo R → Queue R → Queue R × ℕ
  put_in info q =
      let t = next_ticket q.ticket_req in
      (
        record q {
          txn_info_arr = set q.txn_info_arr q.nextin (record info { ticket = t });
          ticket_req = t;
          nextin = (q.nextin + 1) % ready_queue_size;
          occupied = q.occupied + 1;
        },
        t,
      )

  abbrev pub take_outcome : Option (TxnInfo R × Queue R) → Outcome R (TxnInfo R)
  take_outcome none = fault
  take_outcome (some (info, q')) = success q' info

  abbrev pub dequeue_waited : Waited R → Outcome R (TxnInfo R)
  dequeue_waited (ready q) = take_outcome (take_out q)
  dequeue_waited (asked_to_die q) = failed q
  dequeue_waited (still_waiting q) = waiting q

  -- `chronos_dequeue_transaction`, for a `txnInfoP` that is not NULL.
  unfoldable pub dequeue_transaction :
      Bool → List (Wakeup R) → Option (Queue R) → Outcome R (TxnInfo R)
  dequeue_transaction has_fp ws none = invalid_argument
  dequeue_transaction has_fp ws (some q) = dequeue_waited (wait_while is_empty has_fp ws q)

  abbrev pub put_outcome : Queue R × ℕ → Outcome R ℕ
  put_outcome (q', t) = success q' t

  abbrev pub enqueue_waited : TxnInfo R → Waited R → Outcome R ℕ
  enqueue_waited info (ready q) = put_outcome (put_in info q)
  enqueue_waited info (asked_to_die q) = failed q
  enqueue_waited info (still_waiting q) = waiting q

  -- `chronos_enqueue_transaction`, for a `txnInfoP` that is not NULL.
  unfoldable pub enqueue_transaction :
      TxnInfo R → Bool → List (Wakeup R) → Option (Queue R) → Outcome R ℕ
  enqueue_transaction info has_fp ws none = invalid_argument
  enqueue_transaction info has_fp ws (some q) = enqueue_waited info (wait_while is_full has_fp ws q)

  -- `chronos_queue_size`, and its two synonyms
  unfoldable pub queue_size : Option (Queue R) → ℕ
  queue_size none = 0
  queue_size (some q) = q.occupied
