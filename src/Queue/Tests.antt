-- ===== src/Queue/Tests.antt =====
-- Runs of the ready queue at concrete inputs, with requests that are numbers.
use chronos_xserver.Prelude.{ℕ, ◌≡◌, refl, true, false, some, [], ◌∷◌, ◌++◌, arith, replicate}
use chronos_xserver.Config.{ready_queue_size}
use chronos_xserver.Queue.{
  TxnInfo, Queue, Wakeup, success, failed, alloc, zero_info, zero_time, put_in, enqueue_transaction,
  dequeue_transaction, wait_while,
}
use chronos_xserver.Queue.Api.{enqueue_user_transaction, dequeue_user_transaction}
use chronos_xserver.Queue.Api.Roundtrip.{put_then_take, user_roundtrip}
use chronos_xserver.Queue.Valid.{IsValid, alloc-IsValid, after_take}
use chronos_xserver.Queue.Fifo.{contents}
use chronos_xserver.Queue.Calls.{
  Dequeued, Enqueued, dequeue_transaction-Dequeued, enqueue_transaction-Enqueued,
  enqueue_transaction-at_once,
}
use chronos_xserver.Queue.Refine.{put, take, replies, ring_call, fifo_call, alloc-refines}
use chronos_xserver.Queue.History.{
  Run, stop, enqueue, dequeue, Run-fifo, tickets, tickets_from, tickets_in_order,
}

abbrev fresh : Queue ℕ
fresh = record {
  txn_info_arr = replicate ready_queue_size (zero_info 0);
  occupied = 0;
  nextin = 0;
  nextout = 0;
  ticket_req = 0;
  ticket_done = 0;
  has_die_fp = true;
}

allocated : alloc 0 true true true ≡ some fresh
unfolding alloc
allocated = refl

fresh-IsValid : IsValid fresh
fresh-IsValid = (alloc-IsValid 0 true true true allocated).0

abbrev order : TxnInfo ℕ
order = record (zero_info 0) { request = 77 }

abbrev stamped_order : TxnInfo ℕ
stamped_order = record order { ticket = 1 }

abbrev loaded : Queue ℕ
loaded = (put_in order fresh).0

-- a wake-up with nothing new
abbrev idle : Wakeup ℕ
idle = record { others = λ q. q; die = false }

in_and_out : Run fresh (stamped_order ∷ []) (stamped_order ∷ []) (after_take loaded)
in_and_out =
    enqueue order true 1 (enqueue_transaction-at_once order true [] fresh (omega arith))
      (dequeue stamped_order true (put_then_take order true fresh fresh-IsValid refl).0 stop)

Run-fifo_example :
    (contents fresh ++ (stamped_order ∷ []) ≡ (stamped_order ∷ []) ++ contents (after_take loaded))
    × IsValid (after_take loaded)
Run-fifo_example = Run-fifo fresh-IsValid in_and_out

tickets_in_order_example :
    tickets (stamped_order ∷ []) ++ tickets (contents (after_take loaded)) ≡ tickets_from 0 1
tickets_in_order_example = tickets_in_order 0 true true true allocated in_and_out

dequeue_transaction-Dequeued_example :
    Dequeued true (idle ∷ []) fresh (dequeue_transaction true (idle ∷ []) (some fresh))
dequeue_transaction-Dequeued_example =
    dequeue_transaction-Dequeued true (idle ∷ []) fresh ((λ q v. v), tt) fresh-IsValid

enqueue_transaction-Enqueued_example :
    Enqueued order true [] fresh (enqueue_transaction order true [] (some fresh))
enqueue_transaction-Enqueued_example =
    enqueue_transaction-Enqueued order true [] fresh tt fresh-IsValid

user_roundtrip_example :
    (mid out : Queue ℕ) × (enqueue_user_transaction 0
        (some 77)
        (some zero_time)
        true
        (some 4)
        (some 5)
        []
        (some fresh)
      ≡ success mid 1)
    × (dequeue_user_transaction true true [] (some mid)
        ≡ success out (77, zero_time, 1, some 4, some 5))
    × IsValid out
    × (out.occupied ≡ 0)
user_roundtrip_example = user_roundtrip 0 77 zero_time (some 4) (some 5) fresh fresh-IsValid refl

-- A caller that is asked to die leaves with CHRONOS_SERVER_FAIL, though a request has arrived.
dies_with_work :
    dequeue_transaction true (record { others = λ q. loaded; die = true } ∷ []) (some fresh)
    ≡ failed loaded
unfolding dequeue_transaction wait_while
dies_with_work = refl

alloc-refines_example :
    replies ring_call (put order ∷ take ∷ take ∷ []) fresh
    ≡ replies fifo_call (put order ∷ take ∷ take ∷ []) (record { entries = []; last_ticket = 0 })
alloc-refines_example =
    alloc-refines 0 true true true fresh (put order ∷ take ∷ take ∷ []) allocated
