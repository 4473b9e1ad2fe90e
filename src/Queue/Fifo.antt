-- ===== src/Queue/Fifo.antt =====
-- The ring against a bounded first-in first-out list.
use chronos_xserver.Prelude.{◌<◌, ◌≡◌, ap, some, List, [], ◌∷◌, ◌++◌, arith, length}
use chronos_xserver.Config.{ready_queue_size}
use chronos_xserver.Queue.{TxnInfo, Queue, next_ticket, take_out, put_in}
use chronos_xserver.Queue.Window.{window, length-window, window-set, window_of_pos}
use chronos_xserver.Queue.Valid.{IsValid, after_take, take_out_of, oldest-some}

module _ {R : Type 0} where
  -- the stored requests, oldest first
  abbrev pub contents : Queue R → List (TxnInfo R)
  contents q = window q.txn_info_arr ready_queue_size q.nextout q.occupied

  pub length-contents : (q : Queue R) → IsValid q → length (contents q) ≡ q.occupied
  length-contents q v =
      length-window q.txn_info_arr ready_queue_size q.nextout q.occupied (omega arith) v.out_in

  pub contents_of_empty : (q : Queue R) → q.occupied ≡ 0 → contents q ≡ []
  contents_of_empty q e = ap (window q.txn_info_arr ready_queue_size q.nextout) e

  abbrev pub stamped : TxnInfo R → Queue R → TxnInfo R
  stamped info q = record info { ticket = next_ticket q.ticket_req }

  pub contents-put_in :
      (info : TxnInfo R) (q : Queue R)
      → IsValid q
      → q.occupied < ready_queue_size
      → contents (put_in info q).0 ≡ contents q ++ (stamped info q ∷ [])
  unfolding put_in
  contents-put_in info q v room =
      window-set q.txn_info_arr ready_queue_size (stamped info q) q.occupied q.nextout q.nextin
        (omega arith) v.out_in room v.in_at

  pub contents-take_out :
      (q : Queue R)
      → IsValid q
      → 0 < q.occupied
      → (info : TxnInfo R) × (take_out q ≡ some (info, after_take q))
        × (contents q ≡ info ∷ contents (after_take q))
  contents-take_out q v pos =
      let (info, e) = oldest-some q v in
      (
        info,
        take_out_of q info e,
        window_of_pos q.txn_info_arr ready_queue_size q.nextout q.occupied info pos e,
      )
