-- ===== src/Worker/Valid.antt =====
-- The invariant of the processing thread, and what one of its steps does to the two queues.
use chronos_xserver.Prelude.{
  ℕ, suc, ◌+◌, ◌*◌, ◌≤◌, ◌<◌, ◌≡◌, refl, sym, subst, Bool, true, false, some, List, [], ◌∷◌, ◌++◌,
  arith, length, take, ltb, if◌then◌else◌,
}
use chronos_xserver.Config.{ready_queue_size}
use chronos_xserver.Floats.{Floats}
use chronos_xserver.Queue.{TxnInfo, Queue, queue_size}
use chronos_xserver.Queue.Valid.{IsValid, after_take, after_take-IsValid}
use chronos_xserver.Queue.Fifo.{contents}
use chronos_xserver.Process.{Packet}
use chronos_xserver.Worker.{
  World, Pc, top, refresh, user, serve, clock, Local, Stepped, moved, exits, crashed, hangs, goto,
}

-- The most steps that may pass before the next user request is served, while there is one.
abbrev pub rank : Pc → ℕ
rank top = ready_queue_size + 4
rank (refresh n) = n + 3
rank user = 2
rank serve = 1
rank clock = ready_queue_size + 5

abbrev pub round_steps : ℕ
round_steps = ready_queue_size + 5

module _ {R : Type 0} (q : Queue R) where
  pub stored_le : queue_size (some q) ≤ q.occupied
  unfolding queue_size
  stored_le = omega arith

  pub all_in : IsValid q → queue_size (some q) + 3 + 1 ≤ ready_queue_size + 4
  unfolding queue_size
  all_in v = omega (arith, v.occupied_le)

  pub stored : ltb 0 (queue_size (some q)) ≡ true → 0 < q.occupied
  unfolding queue_size
  stored e = ground arith

  pub not_stored : ltb 0 (queue_size (some q)) ≡ false → ¬ (0 < q.occupied)
  unfolding queue_size
  not_stored e h = ground arith

module _ {fp : Floats} {Key Order Price : Type 0} where
  -- What the program counter promises of the queues.
  abbrev pub Promise : Pc → World fp Key Order Price → Type 0
  Promise top w = Unit {0}
  Promise (refresh n) w = n ≤ w.sys_queue.occupied
  Promise user w = Unit {0}
  Promise serve w = 0 < w.user_queue.occupied
  Promise clock w = Unit {0}

  pub record IsRunning (pc : Pc) (w : World fp Key Order Price) : Type 0 where
    pub sys : IsValid w.sys_queue
    pub users : IsValid w.user_queue
    pub promise : Promise pc w

  -- the requests that a step takes out of the user queue and of the system queue
  abbrev pub serves : Pc → World fp Key Order Price → List (TxnInfo (Packet Key Order Price))
  serves serve w = take 1 (contents w.user_queue)
  serves _ w = []

  abbrev pub refreshes : Pc → World fp Key Order Price → List (TxnInfo (Packet Key Order Price))
  refreshes (refresh (suc n)) w = take 1 (contents w.sys_queue)
  refreshes _ w = []

  -- What a step leaves, if the thread goes on.
  pub record Moves (pc : Pc) (w : World fp Key Order Price) (l' : Local)
      (w' : World fp Key Order Price) : Type 0 where
    pub running : IsRunning l'.pc w'
    pub user_fifo : contents w.user_queue ≡ serves pc w ++ contents w'.user_queue
    pub sys_fifo : contents w.sys_queue ≡ refreshes pc w ++ contents w'.sys_queue
    pub closer :
        0 < w.user_queue.occupied → rank l'.pc + 1 ≤ rank pc + round_steps * length (serves pc w)

  -- A predicate of where the thread goes on.
  abbrev pub Going :
      (Local → World fp Key Order Price → Type 0) → Stepped (World fp Key Order Price) → Type 0
  Going P (moved l w) = P l w
  Going P (exits w) = Unit {0}
  Going P crashed = Unit {0}
  Going P hangs = Unit {0}

  pub Going-map :
      {P Q : Local → World fp Key Order Price → Type 0}
      → ((l : Local) (w : World fp Key Order Price) → P l w → Q l w)
      → (s : Stepped (World fp Key Order Price)) → Going P s
      → Going Q s
  Going-map f (moved l w) p = f l w p
  Going-map f (exits w) p = tt
  Going-map f crashed p = tt
  Going-map f hangs p = tt

  pub if-Going :
      (P : Local → World fp Key Order Price → Type 0) (t : Bool)
      (a b : Stepped (World fp Key Order Price))
      → (t ≡ true → Going P a)
      → (t ≡ false → Going P b)
      → Going P (if t then a else b)
  if-Going P true a b ha hb = ha refl
  if-Going P false a b ha hb = hb refl

  -- a step that leaves both queues
  pub quiet-Moves :
      (pc : Pc) (w : World fp Key Order Price) (l' : Local) (w' : World fp Key Order Price)
      → IsRunning pc w
      → w'.sys_queue ≡ w.sys_queue
      → w'.user_queue ≡ w.user_queue
      → serves pc w ≡ []
      → refreshes pc w ≡ []
      → Promise l'.pc w'
      → (0 < w.user_queue.occupied → rank l'.pc + 1 ≤ rank pc)
      → Moves pc w l' w'
  quiet-Moves pc w l' w' v sys users no_serve no_refresh promise closer = record {
    running = record {
      sys = subst IsValid (sym sys) v.sys;
      users = subst IsValid (sym users) v.users;
      promise = promise;
    };
    user_fifo = rw (no_serve, users) refl;
    sys_fifo = rw (no_refresh, sys) refl;
    closer = λ some_user. omega (arith, closer some_user);
  }

  -- a step that took the oldest user request
  pub served-Moves :
      (l : Local) (w w' : World fp Key Order Price) (info : TxnInfo (Packet Key Order Price))
      → IsRunning serve w
      → contents w.user_queue ≡ info ∷ contents (after_take w.user_queue)
      → w'.sys_queue ≡ w.sys_queue
      → w'.user_queue ≡ after_take w.user_queue
      → Moves serve w (goto clock l) w'
  served-Moves l w w' info v split sys users = record {
    running = record {
      sys = subst IsValid (sym sys) v.sys;
      users = subst IsValid (sym users) (after_take-IsValid w.user_queue v.users v.promise);
      promise = tt;
    };
    user_fifo = rw (users, split) refl;
    sys_fifo = rw sys refl;
    closer = λ _. rw split (omega arith);
  }
