-- ===== src/Handler/Served.antt =====
-- The handlers and the processing thread together: the client is told the status of its own
-- transaction.
use chronos_xserver.Prelude.{
  ℕ, ◌≡◌, ◌≢◌, refl, sym, subst, ap, ap₂, ◌∙◌, true, Option, none, some, List, [], ◌∷◌, ◌++◌, arith,
  All, if◌then◌else◌,
}
use chronos_xserver.Floats.{Floats}
use chronos_xserver.Queue.{TxnInfo, success}
use chronos_xserver.Queue.Api.{dequeue_user_transaction}
use chronos_xserver.Queue.Api.AtOnce.{dequeue_user_transaction-at_once}
use chronos_xserver.Queue.Valid.{after_take}
use chronos_xserver.Queue.Fifo.{contents}
use chronos_xserver.Aup.{done}
use chronos_xserver.Args.{UserTxnTypes}
use chronos_xserver.Monitor.{ServerContext}
use chronos_xserver.Process.{Packet, Benchmark, returned, process_user_transaction}
use chronos_xserver.Worker.{
  World, serve, clock, Local, Input, moved, crashed, goto, run_of, wakeups, store_cell, step,
  user_taken, answered,
}
use chronos_xserver.Worker.Valid.{IsRunning}
use chronos_xserver.Handler.{dispatched, await}
use chronos_xserver.Handler.Answers.{Waits, await-waited}

abbrev head_or : {A : Type 0} → A → List A → A
head_or x [] = x
head_or x (y ∷ ys) = y

abbrev tail_of : {A : Type 0} → List A → List A
tail_of [] = []
tail_of (y ∷ ys) = ys

-- what `*txn_rc` holds behind the run
abbrev pub status_of : ℕ → Option ℕ → ℕ
status_of before (some txn_rc) = txn_rc
status_of before none = before

-- the stores behind the run
abbrev pub cells_after : ℕ → ℕ → Option ℕ → (ℕ → ℕ) → ℕ → ℕ
cells_after done_p rc_p (some txn_rc) cells = store_cell done_p 1 (store_cell rc_p txn_rc cells)
cells_after done_p rc_p none cells = store_cell done_p 1 cells

cells_after-others :
    (done_p rc_p : ℕ) (txn_rc : Option ℕ) (cells : ℕ → ℕ) (p : ℕ)
    → p ≢ done_p
    → p ≢ rc_p
    → cells_after done_p rc_p txn_rc cells p ≡ cells p
cells_after-others done_p rc_p (some txn_rc) cells p d r = ground arith
cells_after-others done_p rc_p none cells p d r = ground arith

cells_after-done :
    (done_p rc_p : ℕ) (txn_rc : Option ℕ) (cells : ℕ → ℕ)
    → cells_after done_p rc_p txn_rc cells done_p ≡ 1
cells_after-done done_p rc_p (some txn_rc) cells = ground arith
cells_after-done done_p rc_p none cells = ground arith

cells_after-status :
    (done_p rc_p : ℕ) (txn_rc : Option ℕ) (cells : ℕ → ℕ)
    → done_p ≢ rc_p
    → cells_after done_p rc_p txn_rc cells rc_p ≡ status_of (cells rc_p) txn_rc
cells_after-status done_p rc_p (some txn_rc) cells apart = ground arith
cells_after-status done_p rc_p none cells apart = ground arith

module _ (fp : Floats) (types : UserTxnTypes) (update_stock : ℕ) {Key Order Price : Type 0}
    (bench : Benchmark Key Order Price) where
  -- the world behind a served request
  abbrev pub served_world :
      ℕ → ℕ → Option ℕ → ServerContext fp → World fp Key Order Price → World fp Key Order Price
  served_world done_p rc_p txn_rc c w = record w {
    context = c;
    user_queue = after_take w.user_queue;
    cells = cells_after done_p rc_p txn_rc w.cells;
  }

  answered_lem :
      (done_p rc_p rc : ℕ) (txn_rc : Option ℕ) (c : ServerContext fp) (l : Local)
      (w : World fp Key Order Price)
      → answered done_p rc_p l
          (record w { user_queue = after_take w.user_queue })
          (done (returned rc txn_rc c))
        ≡ moved (goto clock l) (served_world done_p rc_p txn_rc c w)
  answered_lem done_p rc_p rc (some txn_rc) c l w = refl
  answered_lem done_p rc_p rc none c l w = refl

  -- When the processing thread serves the oldest user request, whose handler waits at two different
  -- addresses and whose request has its magic number, and the run returns: the request is gone from the queue, the handler's next look at its
  -- flag ends its wait, and what it reads there is the status of that run, or what it was before if
  -- the run wrote none; no other address is written.
  pub serve-answers :
      (i : Input) (l : Local) (w : World fp Key Order Price)
      (info : TxnInfo (Packet Key Order Price)) (rest : List (TxnInfo (Packet Key Order Price)))
      (done_p rc_p rc : ℕ) (txn_rc : Option ℕ) (c : ServerContext fp) (p : ℕ)
      (first : World fp Key Order Price) (looks : List (World fp Key Order Price))
      → IsRunning serve w
      → contents w.user_queue ≡ info ∷ rest
      → info.txn_done ≡ some done_p
      → info.txn_rc ≡ some rc_p
      → info.request.magic_ok ≡ true
      → done_p ≢ rc_p
      → p ≢ done_p
      → p ≢ rc_p
      → All (Waits done_p) looks
      → process_user_transaction fp types update_stock bench
          (run_of i w)
          info.txn_enqueue
          info.request
          w.context
        ≡ done (returned rc txn_rc c)
      → (w' : World fp Key Order Price) × (step fp types update_stock bench i (goto serve l) w
          ≡ moved (goto clock l) w')
        × (w'.context ≡ c)
        × (contents w'.user_queue ≡ rest)
        × (w'.cells p ≡ w.cells p)
        × (await done_p rc_p first (looks ++ (w' ∷ []))
            ≡ dispatched w' (status_of (w.cells rc_p) txn_rc))
  unfolding step
  serve-answers i l w info rest done_p rc_p rc txn_rc c p first looks v stored has_done has_rc magic
        apart not_done not_rc waits run =
      let (oldest, out, split) =
        dequeue_user_transaction-at_once (wakeups i w) w.user_queue v.users v.promise in
      let same : oldest ≡ info = ap (head_or info) (sym split ∙ stored) in
      let q = after_take w.user_queue in
      let w' = served_world done_p rc_p txn_rc c w in
      let out' =
        subst
          (λ x.
            dequeue_user_transaction true true (wakeups i w) (some w.user_queue)
            ≡ success q (x.request, x.txn_enqueue, x.ticket, x.txn_done, x.txn_rc))
          same out in
      (
        w',
        ap (user_taken fp types update_stock bench i (goto serve l) w) out'
            ∙ ap₂
                (λ a b.
                  user_taken fp types update_stock bench i (goto serve l) w
                    (success q (info.request, info.txn_enqueue, info.ticket, a, b)))
                has_done has_rc
            ∙ ap
                (λ ok.
                  if ok
                  then answered done_p rc_p (goto serve l) (record w { user_queue = q })
                      (process_user_transaction fp types update_stock bench (run_of i w)
                        info.txn_enqueue info.request w.context)
                  else crashed)
                magic
            ∙ ap (answered done_p rc_p (goto serve l) (record w { user_queue = q })) run
            ∙ answered_lem done_p rc_p rc txn_rc c (goto serve l) w,
        refl,
        ap tail_of (sym split ∙ stored),
        cells_after-others done_p rc_p txn_rc w.cells p not_done not_rc,
        await-waited done_p rc_p first w' looks waits
              (λ unset. absurd (omega (arith, unset, cells_after-done done_p rc_p txn_rc w.cells)))
            ∙ ap (dispatched w') (cells_after-status done_p rc_p txn_rc w.cells apart),
      )
