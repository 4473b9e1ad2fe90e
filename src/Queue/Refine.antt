-- ===== src/Queue/Refine.antt =====
-- The ready queue against an abstract queue: a list of at most 1024 entries and the last ticket.
-- Callers that would wait are told so, and leave both as they are.
use chronos_xserver.Prelude.{
  ℕ, ◌<◌, ◌≡◌, refl, sym, ap, ap₂, ◌∙◌, Bool, true, false, some, List, [], ◌∷◌, ◌++◌, arith, inl,
  inr, Bool-cases, ltb, if◌then◌else◌, length,
}
use chronos_xserver.Config.{ready_queue_size}
use chronos_xserver.Queue.{
  TxnInfo, Queue, Outcome, success, failed, invalid_argument, waiting, fault, wait_while, is_empty,
  is_full, next_ticket, alloc, put_in, dequeue_transaction, enqueue_transaction,
}
use chronos_xserver.Queue.Valid.{
  IsValid, alloc-IsValid, put_in-IsValid, after_take, after_take-IsValid,
}
use chronos_xserver.Queue.Fifo.{contents, length-contents, contents_of_empty, contents-put_in}
use chronos_xserver.Queue.Calls.{enqueue_transaction-at_once, dequeue_transaction-at_once}

-- the abstract queue
pub record Fifo (R : Type 0) : Type 0 where
  pub entries : List (TxnInfo R)
  pub last_ticket : ℕ

-- A call of a caller, and what it is told: the ticket, the request, or to wait.
pub data Op (R : Type 0) : Type 0 where
  put : TxnInfo R → Op R
  take : Op R

pub data Reply (R : Type 0) : Type 0 where
  ticket_is : ℕ → Reply R
  got : TxnInfo R → Reply R
  wait : Reply R
  broken : Reply R

module _ {R : Type 0} where
  abbrev pub fifo_take : List (TxnInfo R) → ℕ → Reply R × Fifo R
  fifo_take [] t = (wait, record { entries = []; last_ticket = t })
  fifo_take (info ∷ rest) t = (got info, record { entries = rest; last_ticket = t })

  -- a call on the abstract queue
  abbrev pub fifo_call : Op R → Fifo R → Reply R × Fifo R
  fifo_call (put info) f =
      let t = next_ticket f.last_ticket in
      if ltb (length f.entries) ready_queue_size
      then (
        ticket_is t,
        record { entries = f.entries ++ (record info { ticket = t } ∷ []); last_ticket = t },
      )
      else (wait, f)
  fifo_call take f = fifo_take f.entries f.last_ticket

  abbrev pub told_ticket : Queue R → Outcome R ℕ → Reply R × Queue R
  told_ticket q (success q' t) = (ticket_is t, q')
  told_ticket q (waiting q') = (wait, q')
  told_ticket q (failed q') = (broken, q')
  told_ticket q invalid_argument = (broken, q)
  told_ticket q fault = (broken, q)

  abbrev pub told_request : Queue R → Outcome R (TxnInfo R) → Reply R × Queue R
  told_request q (success q' info) = (got info, q')
  told_request q (waiting q') = (wait, q')
  told_request q (failed q') = (broken, q')
  told_request q invalid_argument = (broken, q)
  told_request q fault = (broken, q)

  -- the same call on the ring, which nobody wakes up
  abbrev pub ring_call : Op R → Queue R → Reply R × Queue R
  ring_call (put info) q = told_ticket q (enqueue_transaction info q.has_die_fp [] (some q))
  ring_call take q = told_request q (dequeue_transaction q.has_die_fp [] (some q))

  -- the abstract queue that a ring stands for
  abbrev pub abstraction : Queue R → Fifo R
  abstraction q = record { entries = contents q; last_ticket = q.ticket_req }

  -- the replies to a sequence of calls
  abbrev pub replies : {S : Type 0} → (Op R → S → Reply R × S) → List (Op R) → S → List (Reply R)
  replies call [] s = []
  replies call (op ∷ ops) s = let r = call op s in r.0 ∷ replies call ops r.1

  -- One call: the same reply, and again an abstraction.
  Simulated : Op R → Queue R → Type 0
  Simulated op q =
      (q' : Queue R) × (reply : Reply R) × (ring_call op q ≡ (reply, q'))
      × (fifo_call op (abstraction q) ≡ (reply, abstraction q'))
      × IsValid q'

  put-Simulated : (info : TxnInfo R) (q : Queue R) → IsValid q → Simulated (put info) q
  unfolding put_in enqueue_transaction wait_while Simulated
  put-Simulated info q v =
      let len = length-contents q v in
      elim (Bool-cases (is_full q)) [
        | inr room ↦
            let more : q.occupied < ready_queue_size = ground arith in
            let fits : ltb (length (contents q)) ready_queue_size ≡ true = ground (arith, len) in
            (
              (put_in info q).0,
              ticket_is (next_ticket q.ticket_req),
              ap (told_ticket q) (enqueue_transaction-at_once info q.has_die_fp [] q more),
              rw fits (
                  ap
                    (λ c. (
                      ticket_is (next_ticket q.ticket_req),
                      record { entries = c; last_ticket = next_ticket q.ticket_req },
                    ))
                    (sym (contents-put_in info q v more))),
              put_in-IsValid info q v more,
            )
        | inl full ↦
            let full_list : ltb (length (contents q)) ready_queue_size ≡ false =
              ground (arith, len) in
            (q, wait, rw full refl, rw full_list refl, v)
      ]

  take-Simulated : (q : Queue R) → IsValid q → Simulated take q
  unfolding dequeue_transaction wait_while Simulated
  take-Simulated q v = elim (Bool-cases (is_empty q)) [
    | inr stored ↦
        let (info, out, split) = dequeue_transaction-at_once q.has_die_fp [] q v (ground arith) in
        (
          after_take q,
          got info,
          ap (told_request q) out,
          ap (λ c. fifo_take c q.ticket_req) split,
          after_take-IsValid q v (ground arith),
        )
    | inl empty ↦ (
      q,
      wait,
      rw empty refl,
      ap (λ c. fifo_take c q.ticket_req) (contents_of_empty q (ground arith))
          ∙ ap (λ c. (wait, record { entries = c; last_ticket = q.ticket_req }))
              (sym (contents_of_empty q (ground arith))),
      v,
    )
  ]

  call-Simulated : (op : Op R) (q : Queue R) → IsValid q → Simulated op q
  call-Simulated (put info) q v = put-Simulated info q v
  call-Simulated take q v = take-Simulated q v

  replies-abstraction :
      (ops : List (Op R)) (q : Queue R)
      → IsValid q
      → replies ring_call ops q ≡ replies fifo_call ops (abstraction q)
  unfolding Simulated
  replies-abstraction [] q v = refl
  replies-abstraction (op ∷ ops) q v =
      let (q', reply, ring, fifo, v') = call-Simulated op q v in
      rw (ring, fifo) (ap (λ rest. reply ∷ rest) (replies-abstraction ops q' v'))

  -- The ring refines the bounded first-in first-out list: from `chronos_queue_alloc` on, callers
  -- that put requests in and take them out, in any order and number, get the same tickets, the same
  -- requests and the same orders to wait as from a list of at most 1024 entries that stamps each
  -- with the next ticket; no call fails.
  pub alloc-refines :
      (blank : R) (has_fp calloc_ok init_ok : Bool) (q : Queue R) (ops : List (Op R))
      → alloc blank has_fp calloc_ok init_ok ≡ some q
      → replies ring_call ops q ≡ replies fifo_call ops (record { entries = []; last_ticket = 0 })
  alloc-refines blank has_fp calloc_ok init_ok q ops e =
      let (v, none_stored, no_ticket) = alloc-IsValid blank has_fp calloc_ok init_ok e in
      replies-abstraction ops q v
      ∙ ap₂ (λ c t. replies fifo_call ops (record { entries = c; last_ticket = t }))
          (contents_of_empty q none_stored) no_ticket
