-- ===== src/Queue/Valid.antt =====
-- The representation invariant of `chronos_queue_t`, and what the two critical sections do to it.
use chronos_xserver.Prelude.{
  ◌+◌, ◌-◌, ◌%◌, ◌≤◌, ◌<◌, ◌≡◌, refl, ◌∙◌, Bool, some, arith, length, get_elem?, length-set,
  length-replicate, get_elem?-some,
}
use chronos_xserver.Config.{ready_queue_size}
use chronos_xserver.Queue.{TxnInfo, Queue, next_ticket, alloc, take_out, put_in, zero_info}

-- The indices stay in the array, and `nextin` is `occupied` slots past `nextout`.
pub record IsValid {R : Type 0} (q : Queue R) : Type 0 where
  pub slots : length q.txn_info_arr ≡ ready_queue_size
  pub out_in : q.nextout < ready_queue_size
  pub in_at : q.nextin ≡ (q.nextout + q.occupied) % ready_queue_size
  pub occupied_le : q.occupied ≤ ready_queue_size

module _ {R : Type 0} where
  pub alloc-IsValid :
      (blank : R) (has_fp calloc_ok init_ok : Bool) {q : Queue R}
      → alloc blank has_fp calloc_ok init_ok ≡ some q
      → IsValid q × (q.occupied ≡ 0) × (q.ticket_req ≡ 0)
  unfolding alloc
  alloc-IsValid blank has_fp calloc_ok init_ok e =
      ground (arith, length-replicate ready_queue_size (zero_info blank))

  -- With room left, the section of the enqueue call keeps the invariant.
  pub put_in-IsValid :
      (info : TxnInfo R) (q : Queue R)
      → IsValid q
      → q.occupied < ready_queue_size
      → IsValid (put_in info q).0
  unfolding put_in
  put_in-IsValid info q v room = record {
    slots =
        length-set q.txn_info_arr q.nextin (record info { ticket = next_ticket q.ticket_req })
        ∙ v.slots;
    out_in = v.out_in;
    in_at = omega (arith, v);
    occupied_le = omega arith;
  }

  pub occupied-put_in :
      (info : TxnInfo R) (q : Queue R) → (put_in info q).0.occupied ≡ q.occupied + 1
  unfolding put_in
  occupied-put_in info q = refl

  -- the queue once the oldest request is gone
  abbrev pub after_take : Queue R → Queue R
  after_take q = record q {
    nextout = (q.nextout + 1) % ready_queue_size;
    occupied = q.occupied - 1;
  }

  pub take_out_of :
      (q : Queue R) (info : TxnInfo R)
      → get_elem? q.txn_info_arr q.nextout ≡ some info
      → take_out q ≡ some (info, after_take q)
  unfolding take_out
  take_out_of q info e = rw (e, take_out)

  -- A valid queue has a readable slot at `nextout`.
  pub oldest-some :
      (q : Queue R)
      → IsValid q
      → (info : TxnInfo R) × (get_elem? q.txn_info_arr q.nextout ≡ some info)
  oldest-some q v = get_elem?-some q.txn_info_arr q.nextout (omega arith)

  -- With a request stored, the section of the dequeue call keeps the invariant.
  pub after_take-IsValid : (q : Queue R) → IsValid q → 0 < q.occupied → IsValid (after_take q)
  after_take-IsValid q v pos = record {
    slots = v.slots;
    out_in = omega arith;
    in_at = omega arith;
    occupied_le = omega arith;
  }
