-- ===== src/Updater/Cycle.antt =====
-- What one cycle of an update thread does in the modes with the update policy.
use chronos_xserver.Prelude.{
  ℕ, zero, suc, ◌+◌, ◌-◌, ◌^◌, ◌≤◌, ◌<◌, ◌≡◌, refl, sym, subst, ap, ◌∙◌, true, none, some, List, [],
  ◌∷◌, ◌++◌, map, arith, min, All, ◌==◌, if◌then◌else◌, length, length-append, length-map,
  length-take, length-replicate, get_elem?, take, replicate, ℤ, pos,
}
use chronos_xserver.Config.{
  server_success, mode_aup, ready_queue_size, num_stock_updates_per_update_thread,
}
use chronos_xserver.Floats.{Floats}
use chronos_xserver.Time.{Timeval, msec}
use chronos_xserver.Queue.{TxnInfo, Queue, put_in, next_ticket}
use chronos_xserver.Queue.Api.{deliver, new_info, enqueue_system_transaction}
use chronos_xserver.Queue.Valid.{put_in-IsValid}
use chronos_xserver.Queue.Valid
use chronos_xserver.Queue.Fifo.{contents, contents-put_in}
use chronos_xserver.Queue.Calls.{enqueue_transaction-at_once}
use chronos_xserver.Aup.{done, minus_one, DataItem, AupEnv}
use chronos_xserver.Aup.Valid.{IsValid}
use chronos_xserver.Aup.Kept.{Gives, ItemsOnly, next_update_set-ItemsOnly}
use chronos_xserver.Aup.Expired.{get_n_expired, reschedule}
use chronos_xserver.Aup.Expired.Found.{range, keep, expired_at, get_n_expired_lem}
use chronos_xserver.Aup.Expired.Schedule.{listed, EntryIn, next_update_set_lem}
use chronos_xserver.Aup.Expired.Cycle.{take_front, keep-range_in}
use chronos_xserver.Monitor.{is_full_or}
use chronos_xserver.Process.{Packet}
use chronos_xserver.Worker.{World}
use chronos_xserver.Updater.{
  Updater, CycleInput, Cycled, leaves, nothing_to_do, enqueued, send, rescheduled, scanned_for,
  cycle,
}

module _ (P : ℤ → Type 0) where
  pub All-take : (n : ℕ) (xs : List ℤ) → All P xs → All P (take n xs)
  All-take zero xs h = tt
  All-take (suc n) [] h = tt
  All-take (suc n) (x ∷ xs) (h, hs) = (h, All-take n xs hs)

map-take : (n : ℕ) (xs : List ℕ) → map pos (take n xs) ≡ take n (map pos xs)
map-take zero xs = refl
map-take (suc n) [] = refl
map-take (suc n) (x ∷ xs) = ap (λ l. pos x ∷ l) (map-take n xs)

module _ (fp : Floats) where
  -- The items of the thread's range that a cycle refreshes: the first that are expired.
  abbrev pub due : Timeval → Updater → AupEnv fp → List ℕ
  due now l env =
      take num_stock_updates_per_update_thread
        (keep (expired_at fp env (msec now)) (range l.first_symbol l.num_updates))

  -- The range of the thread lies in the environment, and its array has its 30 slots.
  pub record Fits (l : Updater) (env : AupEnv fp) : Type 0 where
    pub valid : IsValid fp env
    pub inside : l.first_symbol + l.num_updates ≤ env.num_elements
    pub small : env.num_elements < 2 ^ 31
    pub slots : length l.update_list ≡ num_stock_updates_per_update_thread

  pub due_in :
      (now : Timeval) (l : Updater) (env : AupEnv fp)
      → Fits l env
      → All (EntryIn env.num_elements) (map pos (due now l env))
  due_in now l env fits =
      subst (All (EntryIn env.num_elements)) (sym (map-take num_stock_updates_per_update_thread _))
        (All-take (EntryIn env.num_elements) num_stock_updates_per_update_thread _ (
          keep-range_in (expired_at fp env (msec now)) l.first_symbol l.num_updates env.num_elements
            fits.inside))

  -- what `chronos_aup_get_n_expired` hands to the cycle
  pub scanned :
      (now : Timeval) (l : Updater) (env : AupEnv fp)
      → Fits l env
      → (list : List ℤ) × (get_n_expired fp env l.first_symbol l.num_updates
            num_stock_updates_per_update_thread l.update_list now
          ≡ done (length (due now l env), list))
        × (length list ≡ num_stock_updates_per_update_thread)
        × (take (length (due now l env)) list ≡ map pos (due now l env))
  scanned now l env fits =
      let size = num_stock_updates_per_update_thread in
      let all = keep (expired_at fp env (msec now)) (range l.first_symbol l.num_updates) in
      let found = due now l env in
      let behind = replicate (size - length all) minus_one in
      let list = map pos found ++ behind in
      let count : length found ≡ min size (length all) = length-take size all in
      let whole : length list ≡ size = omega (
        arith,
        length-append (map pos found) behind,
        length-map found pos,
        count,
        length-replicate (size - length all) minus_one,
      ) in
      (
        list,
        subst
            (λ n.
              get_n_expired fp env l.first_symbol l.num_updates n l.update_list now
              ≡ done (length found, list))
            fits.slots
            (get_n_expired_lem fp env l.first_symbol l.num_updates l.update_list now fits.valid
                fits.inside fits.small
              ∙ ap
                  (λ n. done (
                    min n (length all),
                    map pos (take n all) ++ replicate (n - length all) minus_one,
                  ))
                  fits.slots
              ∙ ap (λ n. done (n, list)) (sym count)),
        whole,
        ap (λ n. take n list) (sym (length-map found pos)) ∙ take_front (map pos found) behind,
      )

-- A queue behind one call that has put an entry in. With the ring valid, the entries and the counters
-- are all that callers can see of it.
pub record IsPutIn {R : Type 0} (info : TxnInfo R) (q q' : Queue R) : Type 0 where
  pub last : contents q' ≡ contents q ++ (info ∷ [])
  pub ring : Valid.IsValid q'
  pub counter : q'.ticket_req ≡ next_ticket q.ticket_req
  pub dequeued : q'.ticket_done ≡ q.ticket_done
  pub die_fp : q'.has_die_fp ≡ q.has_die_fp

module _ (fp : Floats) {Key Order Price : Type 0} (blank : Packet Key Order Price) where
  -- the world behind a refresh request
  abbrev pub requested :
      World fp Key Order Price
      → AupEnv fp
      → Queue (Packet Key Order Price)
      → World fp Key Order Price
  requested w env q = record w { context = record w.context { aup_env = env }; sys_queue = q }

  -- the entry of the queue for a refresh request
  abbrev pub entry :
      Packet Key Order Price
      → CycleInput Key Order Price
      → Queue (Packet Key Order Price)
      → TxnInfo (Packet Key Order Price)
  entry p i q = record (new_info blank p i.now none none) { ticket = next_ticket q.ticket_req }

  -- A request in a queue with room.
  pub send-room :
      (i : CycleInput Key Order Price) (l : Updater) (w : World fp Key Order Price)
      (p : Packet Key Order Price)
      → Valid.IsValid w.sys_queue
      → w.sys_queue.occupied < ready_queue_size
      → (q' : Queue (Packet Key Order Price)) × (send blank i l w (some p) ≡ (
          if i.free_rc == server_success
          then nothing_to_do i l (record w { sys_queue = q' })
          else leaves (record w { sys_queue = q' })))
        × IsPutIn (entry p i w.sys_queue) w.sys_queue q'
  unfolding enqueue_system_transaction put_in
  send-room i l w p v room =
      let info = new_info blank p i.now none none in
      (
        (put_in info w.sys_queue).0,
        ap (λ o. enqueued i l w (deliver (λ _. tt) o))
            (enqueue_transaction-at_once info w.sys_queue.has_die_fp i.wakeups w.sys_queue room),
        record {
          last = contents-put_in info w.sys_queue v room;
          ring = put_in-IsValid info w.sys_queue v room;
          counter = refl;
          dequeued = refl;
          die_fp = refl;
        },
      )

  -- How a cycle ends that has found the items of a list.
  abbrev pub CycleOf :
      CycleInput Key Order Price
      → Updater
      → World fp Key Order Price
      → Packet Key Order Price
      → List ℕ
      → List ℤ
      → Cycled (World fp Key Order Price)
      → Type 0
  CycleOf i l w p [] list r =
      r ≡ nothing_to_do i (record l { num_elements = 0; update_list = list }) w
  CycleOf i l w p (x ∷ found) list r =
      (env : AupEnv fp) × (q : Queue (Packet Key Order Price)) × (r ≡ (
        if i.free_rc == server_success
        then nothing_to_do i (record l { num_elements = suc (length found); update_list = list })
            (requested w env q)
        else leaves (requested w env q)))
      × IsPutIn (entry p i w.sys_queue) w.sys_queue q
      × IsValid fp env
      × ItemsOnly fp w.context.aup_env env
      × ((j : ℕ) (d : DataItem fp)
          → get_elem? w.context.aup_env.data_array j ≡ some d
          → get_elem? env.data_array j
            ≡ some
                (if listed j (map pos (x ∷ found)) then reschedule fp (msec i.scheduled) d else d))

  cycle_found :
      (i : CycleInput Key Order Price) (l : Updater) (w : World fp Key Order Price)
      (p : Packet Key Order Price) (found : List ℕ) (list : List ℤ)
      → IsValid fp w.context.aup_env
      → Valid.IsValid w.sys_queue
      → w.sys_queue.occupied < ready_queue_size
      → All (EntryIn w.context.aup_env.num_elements) (map pos found)
      → length found ≤ length list
      → take (length found) list ≡ map pos found
      → i.create (length found) list ≡ some p
      → CycleOf i l w p found list (scanned_for blank i l w (done (length found, list)))
  cycle_found i l w p [] list v vq room entries slots front created = refl
  cycle_found i l w p (x ∷ found) list v vq room entries slots front created =
      let k = suc (length found) in
      let (env, set_call, v', same, at) =
        next_update_set_lem fp w.context.aup_env k list i.scheduled v slots
          (subst (All (EntryIn w.context.aup_env.num_elements)) (sym front) entries) in
      let w₁ = record w { context = record w.context { aup_env = env } } in
      let l₁ = record l { num_elements = k; update_list = list } in
      let (q, sent, last) = send-room i l₁ w₁ p vq room in
      (
        env,
        q,
        ap (rescheduled blank i l₁ w) set_call ∙ ap (send blank i l₁ w₁) created ∙ sent,
        last,
        v',
        subst (Gives (ItemsOnly fp w.context.aup_env)) set_call
            (next_update_set-ItemsOnly fp w.context.aup_env k list i.scheduled),
        λ j d e.
            at j d e
            ∙ ap
                (λ entries.
                  some (if listed j entries then reschedule fp (msec i.scheduled) d else d))
                front,
      )

  -- In the modes AUP and AC_AUP, with the range of the thread inside a valid environment of fewer than
  -- 2^31 items, an array of 30 slots, a valid system queue with room, and if the library builds the
  -- request `p` from the numbers of the expired items: a cycle that finds none leaves the world as it
  -- is; any other puts `p` at the end of the system queue, with the next ticket, and sets the next
  -- update time of exactly the first 30 expired items of the range. Nothing else changes, in the
  -- world, in the environment or in what callers see of the queue.
  pub cycle_lem :
      (i : CycleInput Key Order Price) (l : Updater) (w : World fp Key Order Price)
      (p : Packet Key Order Price)
      → Fits fp l w.context.aup_env
      → is_full_or fp mode_aup w.context ≡ true
      → Valid.IsValid w.sys_queue
      → w.sys_queue.occupied < ready_queue_size
      → ((list : List ℤ)
          → let found = due fp i.scanned l w.context.aup_env in
            take (length found) list ≡ map pos found → i.create (length found) list ≡ some p)
      → (list : List ℤ) × CycleOf i l w p
          (due fp i.scanned l w.context.aup_env)
          list
          (cycle blank i l w)
  unfolding cycle
  cycle_lem i l w p fits on vq room creates =
      let found = due fp i.scanned l w.context.aup_env in
      let (list, call, slots, front) = scanned fp i.scanned l w.context.aup_env fits in
      let short : length found ≤ num_stock_updates_per_update_thread = omega (
        arith,
        length-take num_stock_updates_per_update_thread (
            keep (expired_at fp w.context.aup_env (msec i.scanned))
              (range l.first_symbol l.num_updates)),
      ) in
      (
        list,
        rw (on, call)
            (cycle_found i l w p found list fits.valid vq room
              (due_in fp i.scanned l w.context.aup_env fits) (omega arith) front
              (creates list front)),
      )
