-- ===== src/Worker/Trace.antt =====
-- Runs of the processing thread, interleaved with enqueue calls and other work of other threads.
use chronos_xserver.Prelude.{
  ℕ, suc, ◌+◌, ◌≤◌, ◌≡◌, sym, subst, ap, ◌∙◌, Bool, List, [], ◌∷◌, ◌++◌, some, arith, append-nil,
  append_assoc, length, length-append,
}
use chronos_xserver.Floats.{Floats}
use chronos_xserver.Queue.{TxnInfo, Queue, success, enqueue_transaction}
use chronos_xserver.Queue.Valid.{IsValid}
use chronos_xserver.Queue.Fifo.{contents, length-contents}
use chronos_xserver.Queue.History.{enqueue_step}
use chronos_xserver.Args.{UserTxnTypes}
use chronos_xserver.Monitor.{ServerContext}
use chronos_xserver.Process.{Packet, Benchmark}
use chronos_xserver.Worker.{World, Pc, top, refresh, user, serve, clock, Local, Input, moved, step}
use chronos_xserver.Worker.Valid.{IsRunning, Promise, serves, refreshes, Moves, Going}
use chronos_xserver.Worker.Moves.{step_at-Moves}

abbrev pub Info : Type 0 → Type 0 → Type 0 → Type 0
Info Key Order Price = TxnInfo (Packet Key Order Price)

-- a step that takes `s` from the front, and the run behind it
pub after_step :
    {A : Type 0} (c c₁ c' s ins outs : List A)
    → c ≡ s ++ c₁
    → c₁ ++ ins ≡ outs ++ c'
    → c ++ ins ≡ (s ++ outs) ++ c'
after_step c c₁ c' s ins outs e rest =
    ap (λ x. x ++ ins) e
    ∙ append_assoc s c₁ ins
    ∙ ap (λ x. s ++ x) rest
    ∙ sym (append_assoc s outs c')

-- a request put in at the end, and the run behind it
pub after_put :
    {A : Type 0} (c c₁ c' ins outs : List A) (info : A)
    → c₁ ≡ c ++ (info ∷ [])
    → c₁ ++ ins ≡ outs ++ c'
    → c ++ (info ∷ ins) ≡ outs ++ c'
after_put c c₁ c' ins outs info e rest =
    sym (append_assoc c (info ∷ []) ins) ∙ ap (λ x. x ++ ins) (sym e) ∙ rest

module _ (fp : Floats) (types : UserTxnTypes) (update_stock : ℕ) {Key Order Price : Type 0}
    (bench : Benchmark Key Order Price) where
  -- A run: the number of steps of the thread; the user requests that other threads put in and that
  -- the thread takes out; the same for the refresh requests; and its two ends.
  pub data Trace
      : ℕ
        → List (Info Key Order Price)
        → List (Info Key Order Price)
        → List (Info Key Order Price)
        → List (Info Key Order Price)
        → Local
        → World fp Key Order Price
        → Local
        → World fp Key Order Price
        → Type 0 where
    stop : {l : Local} {w : World fp Key Order Price} → Trace 0 [] [] [] [] l w l w
    runs :
        {n : ℕ} {ins outs sys_ins sys_outs : List (Info Key Order Price)} {l l₁ l' : Local}
        {w w₁ w' : World fp Key Order Price} (i : Input)
        → step fp types update_stock bench i l w ≡ moved l₁ w₁
        → Trace n ins outs sys_ins sys_outs l₁ w₁ l' w'
        → Trace (suc n) ins (serves l.pc w ++ outs) sys_ins (refreshes l.pc w ++ sys_outs) l w l' w'
    puts_user :
        {n : ℕ} {ins outs sys_ins sys_outs : List (Info Key Order Price)} {l l' : Local}
        {w w' : World fp Key Order Price} {q : Queue (Packet Key Order Price)}
        (info : Info Key Order Price) (has_fp : Bool) (t : ℕ)
        → enqueue_transaction info has_fp [] (some w.user_queue) ≡ success q t
        → Trace n ins outs sys_ins sys_outs l (record w { user_queue = q }) l' w'
        → Trace n (record info { ticket = t } ∷ ins) outs sys_ins sys_outs l w l' w'
    puts_system :
        {n : ℕ} {ins outs sys_ins sys_outs : List (Info Key Order Price)} {l l' : Local}
        {w w' : World fp Key Order Price} {q : Queue (Packet Key Order Price)}
        (info : Info Key Order Price) (has_fp : Bool) (t : ℕ)
        → enqueue_transaction info has_fp [] (some w.sys_queue) ≡ success q t
        → Trace n ins outs sys_ins sys_outs l (record w { sys_queue = q }) l' w'
        → Trace n ins outs (record info { ticket = t } ∷ sys_ins) sys_outs l w l' w'
    changes :
        {n : ℕ} {ins outs sys_ins sys_outs : List (Info Key Order Price)} {l l' : Local}
        {w w' : World fp Key Order Price} (c : ServerContext fp) (warming_up time_to_die : Bool)
        (cells : ℕ → ℕ)
        → Trace n ins outs sys_ins sys_outs l
            (record w {
              context = c;
              warming_up = warming_up;
              time_to_die = time_to_die;
              cells = cells;
            })
            l'
            w'
        → Trace n ins outs sys_ins sys_outs l w l' w'

  pub step-Moves :
      (i : Input) (l l' : Local) (w w' : World fp Key Order Price)
      → IsRunning l.pc w
      → step fp types update_stock bench i l w ≡ moved l' w'
      → Moves l.pc w l' w'
  unfolding step
  step-Moves i l l' w w' v e =
      subst (Going (Moves l.pc w)) e (step_at-Moves fp types update_stock bench l.pc i l w v)

  -- a queue that an enqueue call has grown
  pub grown :
      (info : Info Key Order Price) (has_fp : Bool) (t : ℕ) (q q' : Queue (Packet Key Order Price))
      → IsValid q
      → enqueue_transaction info has_fp [] (some q) ≡ success q' t
      → (contents q' ≡ contents q ++ (record info { ticket = t } ∷ []))
        × (q'.occupied ≡ q.occupied + 1)
        × IsValid q'
  grown info has_fp t q q' v e =
      let (last, ticket, req, v') = enqueue_step info has_fp t v e in
      (
        last,
        sym (length-contents q' v')
            ∙ ap length last
            ∙ length-append (contents q) _
            ∙ ap (λ n. n + 1) (length-contents q v),
        v',
      )

  -- What is promised of the queues holds of longer ones.
  pub Promise-longer :
      (pc : Pc) (w w' : World fp Key Order Price)
      → w.sys_queue.occupied ≤ w'.sys_queue.occupied
      → w.user_queue.occupied ≤ w'.user_queue.occupied
      → Promise pc w
      → Promise pc w'
  Promise-longer top w w' hs hu p = tt
  Promise-longer (refresh n) w w' hs hu p = omega arith
  Promise-longer user w w' hs hu p = tt
  Promise-longer serve w w' hs hu p = omega arith
  Promise-longer clock w w' hs hu p = tt

  pub user_grown-IsRunning :
      (pc : Pc) (info : Info Key Order Price) (has_fp : Bool) (t : ℕ) (w : World fp Key Order Price)
      (q : Queue (Packet Key Order Price))
      → IsRunning pc w
      → enqueue_transaction info has_fp [] (some w.user_queue) ≡ success q t
      → IsRunning pc (record w { user_queue = q })
  user_grown-IsRunning pc info has_fp t w q v e =
      let (last, more, v') = grown info has_fp t w.user_queue q v.users e in
      record {
        sys = v.sys;
        users = v';
        promise =
            Promise-longer pc w (record w { user_queue = q }) (omega arith) (omega arith) v.promise;
      }

  pub sys_grown-IsRunning :
      (pc : Pc) (info : Info Key Order Price) (has_fp : Bool) (t : ℕ) (w : World fp Key Order Price)
      (q : Queue (Packet Key Order Price))
      → IsRunning pc w
      → enqueue_transaction info has_fp [] (some w.sys_queue) ≡ success q t
      → IsRunning pc (record w { sys_queue = q })
  sys_grown-IsRunning pc info has_fp t w q v e =
      let (last, more, v') = grown info has_fp t w.sys_queue q v.sys e in
      record {
        sys = v';
        users = v.users;
        promise =
            Promise-longer pc w (record w { sys_queue = q }) (omega arith) (omega arith) v.promise;
      }

  pub changed-IsRunning :
      (pc : Pc) (w : World fp Key Order Price) (c : ServerContext fp)
      (warming_up time_to_die : Bool) (cells : ℕ → ℕ)
      → IsRunning pc w
      → IsRunning pc (record w {
        context = c;
        warming_up = warming_up;
        time_to_die = time_to_die;
        cells = cells;
      })
  changed-IsRunning pc w c a b m v = record {
    sys = v.sys;
    users = v.users;
    promise = Promise-longer pc w _ (omega arith) (omega arith) v.promise;
  }

  -- From a running thread on, in any interleaving: the thread takes the requests out of each queue
  -- in the order in which they were put in, without loss or repetition, and is still running.
  pub Trace-fifo :
      {n : ℕ} {ins outs sys_ins sys_outs : List (Info Key Order Price)} {l l' : Local}
      {w w' : World fp Key Order Price}
      → IsRunning l.pc w
      → Trace n ins outs sys_ins sys_outs l w l' w'
      → (contents w.user_queue ++ ins ≡ outs ++ contents w'.user_queue)
        × (contents w.sys_queue ++ sys_ins ≡ sys_outs ++ contents w'.sys_queue)
        × IsRunning l'.pc w'
  Trace-fifo v stop = (append-nil _, append-nil _, v)
  Trace-fifo v (runs {ins = ins} {outs} {sys_ins} {sys_outs} {l} {l₁} {w = w} {w₁} {w'} i e run) =
      let m = step-Moves i l l₁ w w₁ v e in
      let (users, systems, v') = Trace-fifo m.running run in
      (
        after_step _ _ _ (serves l.pc w) ins outs m.user_fifo users,
        after_step _ _ _ (refreshes l.pc w) sys_ins sys_outs m.sys_fifo systems,
        v',
      )
  Trace-fifo v (puts_user {ins = ins} {outs} {l = l} {w = w} {q = q} info has_fp t e run) =
      let (users, systems, v') = Trace-fifo (user_grown-IsRunning l.pc info has_fp t w q v e) run in
      let (last, more, valid) = grown info has_fp t w.user_queue q v.users e in
      (after_put _ _ _ ins outs _ last users, systems, v')
  Trace-fifo v
        (puts_system {sys_ins = sys_ins} {sys_outs} {l = l} {w = w} {q = q} info has_fp t e run) =
      let (users, systems, v') = Trace-fifo (sys_grown-IsRunning l.pc info has_fp t w q v e) run in
      let (last, more, valid) = grown info has_fp t w.sys_queue q v.sys e in
      (users, after_put _ _ _ sys_ins sys_outs _ last systems, v')
  Trace-fifo v (changes {l = l} {w = w} c warming_up time_to_die cells run) =
      Trace-fifo (changed-IsRunning l.pc w c warming_up time_to_die cells v) run
