-- ===== src/Updater/Serves.antt =====
-- The update threads against the processing threads: what a cycle puts into the system queue can be
-- served.
use chronos_xserver.Prelude.{
  ℕ, zero, suc, ◌+◌, ◌^◌, ◌≤◌, ◌<◌, ◌≡◌, refl, sym, subst, ◌∙◌, Bool, false, Option, none, some,
  List, map, arith, All, inl, inr, Bool-cases, ◌==◌, ◌||◌, length, length-take, take, ℤ, pos,
}
use chronos_xserver.Config.{
  server_success, mode_aup, mode_ac_aup, ready_queue_size, num_stock_updates_per_update_thread,
}
use chronos_xserver.Floats.{Floats}
use chronos_xserver.Time.{msec}
use chronos_xserver.Queue.{Queue, Outcome, success, failed, invalid_argument, waiting, fault}
use chronos_xserver.Queue.Api.{deliver, new_info, enqueue_system_transaction}
use chronos_xserver.Queue.Valid
use chronos_xserver.Queue.Fifo.{contents}
use chronos_xserver.Queue.Calls.{Enqueued, enqueue_transaction-Enqueued}
use chronos_xserver.Aup.{done}
use chronos_xserver.Aup.Expired.{next_update_set}
use chronos_xserver.Aup.Expired.Found.{range, keep, expired_at}
use chronos_xserver.Aup.Expired.Schedule.{EntryIn, next_update_set_lem}
use chronos_xserver.Args.{UserTxnTypes}
use chronos_xserver.Monitor.{ServerContext, is_full_or}
use chronos_xserver.Process.{Packet}
use chronos_xserver.Process.Refresh.{IndexOf}
use chronos_xserver.Process.Safe.{IsRefresh}
use chronos_xserver.Worker.{World}
use chronos_xserver.Worker.Safe.{Serviceable}
use chronos_xserver.Updater.{
  Updater, CycleInput, Cycled, goes_on, leaves, waits, crashed, nothing_to_do, enqueued, send,
  rescheduled, scanned_for, cycle,
}
use chronos_xserver.Updater.Cycle.{due, Fits, due_in, scanned}
use chronos_xserver.Updater.Fit.{
  IsFit, KeepFit, KeepFit-Keep, Seen-IsFit, Creates, created-IsRefresh, EntryIn-IndexOf, All-last,
}

module _ (fp : Floats) (elements : ℕ) where
  -- An update thread between two cycles. Without the update policy its list is the one of the start.
  pub record IsReady (l : Updater) (c : ServerContext fp) : Type 0 where
    pub inside : l.first_symbol + l.num_updates ≤ elements
    pub slots : length l.update_list ≡ num_stock_updates_per_update_thread
    pub listed :
        is_full_or fp mode_aup c ≡ false
        → (l.num_elements ≤ length l.update_list)
          × All (IndexOf elements) (take l.num_elements l.update_list)

-- The context matters by its running mode alone.
pub mode-IsReady :
    {fp : Floats} {elements : ℕ} (u : Updater) (c c' : ServerContext fp)
    → c'.running_mode ≡ c.running_mode
    → IsReady fp elements u c
    → IsReady fp elements u c'
mode-IsReady u c c' same r = record {
  inside = r.inside;
  slots = r.slots;
  listed = λ off. r.listed (subst (λ m. (m == mode_ac_aup || m == mode_aup) ≡ false) same off);
}

module _ (fp : Floats) (types : UserTxnTypes) {Key Order Price : Type 0} (elements : ℕ) where
  -- A world whose requests can be served, with a valid system queue.
  pub record IsServed (w : World fp Key Order Price) : Type 0 where
    pub serviceable : Serviceable fp types elements w
    pub ring : Valid.IsValid w.sys_queue

  -- A cycle that keeps all this and does not crash.
  abbrev pub Serves : Cycled (World fp Key Order Price) → Type 0
  Serves (goes_on l w) = IsServed w × IsReady fp elements l w.context
  Serves (leaves w) = IsServed w
  Serves (waits w) = IsServed w × (w.sys_queue.occupied ≡ ready_queue_size)
  Serves crashed = ⊥

  nothing_to_do-Serves :
      (i : CycleInput Key Order Price) (l : Updater) (w : World fp Key Order Price)
      → IsServed w
      → IsReady fp elements l w.context
      → Serves (nothing_to_do i l w)
  nothing_to_do-Serves i l w s r = elim (Bool-cases i.dying) [
    | inl e ↦ rw e s
    | inr e ↦ rw e (s, r)
  ]

  fit : (w : World fp Key Order Price) → IsServed w → IsFit elements w.sys_queue
  fit w s = record { ring = s.ring; requests = s.serviceable.refreshes }

  grown-IsServed :
      (w : World fp Key Order Price) (q : Queue (Packet Key Order Price))
      → IsServed w
      → IsFit elements q
      → IsServed (record w { sys_queue = q })
  grown-IsServed w q s f = record {
    serviceable = record {
      env = s.serviceable.env;
      users = s.serviceable.users;
      refreshes = f.requests;
    };
    ring = f.ring;
  }

module _ (fp : Floats) (types : UserTxnTypes) {Key Order Price : Type 0}
    (blank : Packet Key Order Price) (elements : ℕ) where
  enqueued-Serves :
      (i : CycleInput Key Order Price) (l : Updater) (w : World fp Key Order Price)
      (p : Packet Key Order Price) (has_fp : Bool) (o : Outcome (Packet Key Order Price) ℕ)
      → KeepFit elements i.wakeups
      → IsServed fp types elements w
      → IsReady fp elements l w.context
      → IsRefresh elements p
      → Enqueued (new_info blank p i.now none none) has_fp i.wakeups w.sys_queue o
      → Serves fp types elements (enqueued i l w (deliver (λ _. tt) o))
  enqueued-Serves i l w p has_fp (success q t) k s r f (seen_q, seen, last, ticket, req, v) =
      let before =
        Seen-IsFit elements i.wakeups w.sys_queue seen_q k (fit fp types elements w s) seen in
      let after = subst (All (λ info. IsRefresh elements info.request)) (sym last) (
        All-last (λ info. IsRefresh elements info.request) (contents seen_q) _ before.requests f) in
      let served = grown-IsServed fp types elements w q s (record { ring = v; requests = after }) in
      elim (Bool-cases (i.free_rc == server_success)) [
        | inl e ↦
            rw e (nothing_to_do-Serves fp types elements i l (record w { sys_queue = q }) served r)
        | inr e ↦ rw e served
      ]
  enqueued-Serves i l w p has_fp (failed q) k s r f (seen, v, e) =
      grown-IsServed fp types elements w q s
        (Seen-IsFit elements i.wakeups w.sys_queue q k (fit fp types elements w s) seen)
  enqueued-Serves i l w p has_fp (waiting q) k s r f (seen, v, e) = (
    grown-IsServed fp types elements w q s
        (Seen-IsFit elements i.wakeups w.sys_queue q k (fit fp types elements w s) seen),
    e,
  )
  enqueued-Serves i l w p has_fp invalid_argument k s r f h = absurd h
  enqueued-Serves i l w p has_fp fault k s r f h = absurd h

  send-Serves :
      (i : CycleInput Key Order Price) (l : Updater) (w : World fp Key Order Price)
      (o : Option (Packet Key Order Price))
      → KeepFit elements i.wakeups
      → IsServed fp types elements w
      → IsReady fp elements l w.context
      → ((p : Packet Key Order Price) → o ≡ some p → IsRefresh elements p)
      → Serves fp types elements (send blank i l w o)
  unfolding enqueue_system_transaction
  send-Serves i l w none k s r f = s
  send-Serves i l w (some p) k s r f =
      enqueued-Serves i l w p w.sys_queue.has_die_fp _ k s r (f p refl) (
        enqueue_transaction-Enqueued (new_info blank p i.now none none) w.sys_queue.has_die_fp
          i.wakeups w.sys_queue (KeepFit-Keep elements i.wakeups k) s.ring)

  rescheduled-Serves :
      (i : CycleInput Key Order Price) (l : Updater) (w : World fp Key Order Price)
      → KeepFit elements i.wakeups
      → IsServed fp types elements w
      → IsReady fp elements l w.context
      → Creates i.create
      → l.num_elements ≤ length l.update_list
      → All (EntryIn w.context.aup_env.num_elements) (take l.num_elements l.update_list)
      → All (IndexOf elements) (take l.num_elements l.update_list)
      → Serves fp types elements (
          rescheduled blank i l w
            (next_update_set fp w.context.aup_env l.num_elements l.update_list i.scheduled))
  rescheduled-Serves i l w k s r creates short entries indices =
      let (v, size) = s.serviceable.env in
      let (env, set_call, v', same, at) =
        next_update_set_lem fp w.context.aup_env l.num_elements l.update_list i.scheduled v short
          entries in
      let w₁ = record w { context = record w.context { aup_env = env } } in
      rw set_call (
        send-Serves i l w₁ (i.create l.num_elements l.update_list) k
          (record {
            serviceable = record {
              env = (v', same ∙ size);
              users = s.serviceable.users;
              refreshes = s.serviceable.refreshes;
            };
            ring = s.ring;
          })
          (record { inside = r.inside; slots = r.slots; listed = r.listed })
          (λ p.
            created-IsRefresh i.create elements l.num_elements l.update_list p creates short r.slots
              indices))

  scanned_for-Serves :
      (i : CycleInput Key Order Price) (l : Updater) (w : World fp Key Order Price) (n : ℕ)
      (list : List ℤ)
      → KeepFit elements i.wakeups
      → IsServed fp types elements w
      → IsReady fp elements (record l { num_elements = n; update_list = list }) w.context
      → Creates i.create
      → n ≤ length list
      → All (EntryIn w.context.aup_env.num_elements) (take n list)
      → All (IndexOf elements) (take n list)
      → Serves fp types elements (scanned_for blank i l w (done (n, list)))
  scanned_for-Serves i l w zero list k s r creates short entries indices =
      nothing_to_do-Serves fp types elements i _ w s r
  scanned_for-Serves i l w (suc n) list k s r creates short entries indices =
      rescheduled-Serves i (record l { num_elements = suc n; update_list = list }) w k s r creates
        short entries indices

  -- If all stored requests can be served, the range of an update thread lies in the environment, and
  -- the library builds requests that name the listed items: a cycle, in any mode and with any work
  -- of other threads that keeps the system queue like that, does not fail an assertion or touch
  -- memory out of the array or the environment, it waits only at a full queue, and all stored
  -- requests can still be served.
  pub cycle-Serves :
      (i : CycleInput Key Order Price) (l : Updater) (w : World fp Key Order Price)
      → elements < 2 ^ 31
      → KeepFit elements i.wakeups
      → IsServed fp types elements w
      → IsReady fp elements l w.context
      → Creates i.create
      → Serves fp types elements (cycle blank i l w)
  unfolding cycle
  cycle-Serves i l w small k s r creates =
      let (v, size) = s.serviceable.env in
      let c = w.context in
      elim (Bool-cases (is_full_or fp mode_aup c)) [
        | inr off ↦ rw off (
            send-Serves i l w (i.create l.num_elements l.update_list) k s r (λ p.
              created-IsRefresh i.create elements l.num_elements l.update_list p creates
                (r.listed off).0 r.slots (r.listed off).1))
        | inl on ↦
            let fits : Fits fp l c.aup_env = record {
              valid = v;
              inside = omega (arith, r.inside);
              small = omega arith;
              slots = r.slots;
            } in
            let (list, call, slots, front) = scanned fp i.scanned l c.aup_env fits in
            let found = due fp i.scanned l c.aup_env in
            let entries = due_in fp i.scanned l c.aup_env fits in
            let short : length found ≤ num_stock_updates_per_update_thread = omega (
              arith,
              length-take num_stock_updates_per_update_thread (
                  keep (expired_at fp c.aup_env (msec i.scanned))
                    (range l.first_symbol l.num_updates)),
            ) in
            rw (on, call)
              (scanned_for-Serves i l w (length found) list k s
                (record { inside = r.inside; slots = slots; listed = λ off. absurd (ground arith) })
                creates (omega arith)
                (subst (All (EntryIn c.aup_env.num_elements)) (sym front) entries)
                (subst (All (IndexOf elements)) (sym front) (
                  EntryIn-IndexOf elements found
                    (subst (λ n. All (EntryIn n) (map pos found)) size entries))))
      ]
