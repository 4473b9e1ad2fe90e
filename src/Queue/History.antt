-- ===== src/Queue/History.antt =====
-- Interleavings of the two transaction calls of any number of threads on one queue. A call is one
-- step, since it holds the mutex from the end of its loop to its return; a call that waits has no
-- effect on the queue.
use chronos_xserver.Prelude.{
  ℕ, zero, suc, ◌≡◌, refl, sym, ap, ◌∙◌, Bool, some, List, [], ◌∷◌, ◌++◌, map, length, append-nil,
  append_assoc,
}
use chronos_xserver.Queue.{
  TxnInfo, Queue, success, next_ticket, alloc, dequeue_transaction, enqueue_transaction,
}
use chronos_xserver.Queue.Valid.{IsValid, alloc-IsValid}
use chronos_xserver.Queue.Fifo.{contents, contents_of_empty}
use chronos_xserver.Queue.Calls.{
  Dequeued, Enqueued, dequeue_transaction-Dequeued, enqueue_transaction-Enqueued, now, Seen,
}

-- the next `n` tickets after `t`, as `unsigned long long` counts them
abbrev pub tickets_from : ℕ → ℕ → List ℕ
tickets_from t zero = []
tickets_from t (suc n) = next_ticket t ∷ tickets_from (next_ticket t) n

module _ {R : Type 0} where
  -- A run from one queue to another: the requests that went in, as stamped, and those that came out.
  pub data Run : Queue R → List (TxnInfo R) → List (TxnInfo R) → Queue R → Type 0 where
    stop : {q : Queue R} → Run q [] [] q
    enqueue :
        {q q' r : Queue R} {ins outs : List (TxnInfo R)} (info : TxnInfo R) (has_fp : Bool) (t : ℕ)
        → enqueue_transaction info has_fp [] (some q) ≡ success q' t
        → Run q' ins outs r
        → Run q (record info { ticket = t } ∷ ins) outs r
    dequeue :
        {q q' r : Queue R} {ins outs : List (TxnInfo R)} (info : TxnInfo R) (has_fp : Bool)
        → dequeue_transaction has_fp [] (some q) ≡ success q' info
        → Run q' ins outs r
        → Run q ins (info ∷ outs) r

  -- a call that does not wait sees the queue as it was
  pub Seen-at_once : {q p : Queue R} → Seen [] q p → p ≡ q
  Seen-at_once now = refl

  pub enqueue_step :
      {q q' : Queue R} (info : TxnInfo R) (has_fp : Bool) (t : ℕ)
      → IsValid q
      → enqueue_transaction info has_fp [] (some q) ≡ success q' t
      → (contents q' ≡ contents q ++ (record info { ticket = t } ∷ []))
        × (t ≡ next_ticket q.ticket_req)
        × (q'.ticket_req ≡ t)
        × IsValid q'
  enqueue_step {q} {q'} info has_fp t v e =
      let spec : Enqueued info has_fp [] q (success q' t) =
        rw e at (enqueue_transaction-Enqueued info has_fp [] q tt v) in
      let (p, seen, last, ticket, req, valid) = spec in
      let same : p ≡ q = Seen-at_once seen in
      (
        last ∙ ap (λ c. contents c ++ (record info { ticket = t } ∷ [])) same,
        ticket ∙ ap (λ c. next_ticket c.ticket_req) same,
        req,
        valid,
      )

  dequeue_step :
      {q q' : Queue R} (info : TxnInfo R) (has_fp : Bool)
      → IsValid q
      → dequeue_transaction has_fp [] (some q) ≡ success q' info
      → (contents q ≡ info ∷ contents q') × (q'.ticket_req ≡ q.ticket_req) × IsValid q'
  dequeue_step {q} {q'} info has_fp v e =
      let spec : Dequeued has_fp [] q (success q' info) =
        rw e at (dequeue_transaction-Dequeued has_fp [] q tt v) in
      let (p, seen, first, less, req, valid) = spec in
      let same : p ≡ q = Seen-at_once seen in
      (ap contents (sym same) ∙ first, req ∙ ap (λ c. c.ticket_req) same, valid)

  -- On a valid queue, no interleaving of calls loses, duplicates or reorders a request: what was
  -- stored and what went in, in order, is what came out followed by what is stored; and the queue
  -- stays valid.
  pub Run-fifo :
      {q r : Queue R} {ins outs : List (TxnInfo R)}
      → IsValid q
      → Run q ins outs r
      → (contents q ++ ins ≡ outs ++ contents r) × IsValid r
  Run-fifo v stop = (append-nil _, v)
  Run-fifo v (enqueue {q = q} {ins = ins} info has_fp t e run) =
      let (last, ticket, req, v') = enqueue_step info has_fp t v e in
      let (rest, valid) = Run-fifo v' run in
      (
        sym (append_assoc (contents q) (record info { ticket = t } ∷ []) ins)
            ∙ ap (λ c. c ++ ins) (sym last)
            ∙ rest,
        valid,
      )
  Run-fifo v (dequeue {ins = ins} info has_fp e run) =
      let (first, req, v') = dequeue_step info has_fp v e in
      let (rest, valid) = Run-fifo v' run in
      (ap (λ c. c ++ ins) first ∙ ap (λ c. info ∷ c) rest, valid)

  abbrev pub tickets : List (TxnInfo R) → List ℕ
  tickets = map (λ i. i.ticket)

  Run-tickets :
      {q r : Queue R} {ins outs : List (TxnInfo R)}
      → IsValid q
      → Run q ins outs r
      → tickets ins ≡ tickets_from q.ticket_req (length ins)
  Run-tickets v stop = refl
  Run-tickets {q} v (enqueue {ins = ins} info has_fp t e run) =
      let (last, ticket, req, v') = enqueue_step info has_fp t v e in
      rw (Run-tickets v' run, req, ticket)
  Run-tickets {q} v (dequeue {ins = ins} info has_fp e run) =
      let (first, req, v') = dequeue_step info has_fp v e in rw (Run-tickets v' run, req)

  tickets-append : (xs ys : List (TxnInfo R)) → tickets (xs ++ ys) ≡ tickets xs ++ tickets ys
  tickets-append [] ys = refl
  tickets-append (x ∷ xs) ys = ap (λ c. x.ticket ∷ c) (tickets-append xs ys)

  -- From a new queue on, the tickets of the requests that came out, followed by those of the stored
  -- ones, are 1, 2, 3 and so on, modulo 2^64, one for each request that went in.
  pub tickets_in_order :
      (blank : R) (has_fp calloc_ok init_ok : Bool) {q r : Queue R} {ins outs : List (TxnInfo R)}
      → alloc blank has_fp calloc_ok init_ok ≡ some q
      → Run q ins outs r
      → tickets outs ++ tickets (contents r) ≡ tickets_from 0 (length ins)
  tickets_in_order blank has_fp calloc_ok init_ok {q} {r} {ins} {outs} e run =
      let (v, empty, fresh) = alloc-IsValid blank has_fp calloc_ok init_ok e in
      let (fifo, valid) = Run-fifo v run in
      sym (tickets-append outs (contents r))
      ∙ ap tickets (sym fifo)
      ∙ ap (λ c. tickets (c ++ ins)) (contents_of_empty q empty)
      ∙ Run-tickets v run
      ∙ ap (λ t. tickets_from t (length ins)) fresh
