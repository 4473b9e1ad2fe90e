-- ===== src/Handler/Answers.antt =====
-- What a handler tells its client: the status of its own transaction.
use chronos_xserver.Prelude.{
  ℕ, ◌<◌, ◌≡◌, ◌≢◌, refl, sym, ap, ◌∙◌, Bool, true, false, not, ◌&&◌, List, [], ◌∷◌, ◌++◌,
  append-nil, arith, inl, inr, ◌⊎◌, All, Bool-cases, ◌==◌, if◌then◌else◌, length,
}
use chronos_xserver.Floats.{Floats}
use chronos_xserver.Queue.{
  TxnInfo, Waited, ready, asked_to_die, still_waiting, put_in, enqueue_waited, enqueue_transaction,
}
use chronos_xserver.Queue.Api.{enqueue_user_transaction}
use chronos_xserver.Process.{Packet}
use chronos_xserver.Worker.{World}
use chronos_xserver.Handler.{
  ReadResult, ReadEnd, complete, read_failed, reading, WriteEnd, written, write_failed, writing,
  Dispatched, dispatched, refused, queueing, sleeping, broken, DispatchInput, await, queued,
  dispatch, Layout, RoundInput, Round, again, closes, stands, crashed, replied, reply, received,
  round,
}
use chronos_xserver.Handler.Stream.{
  data_of, read_request-ReadOf, ReadOf, WrittenOf, write_response-WrittenOf,
}

module _ {fp : Floats} {Key Order Price : Type 0} where
  -- A look that ends the wait for a transaction.
  abbrev pub Ends : ℕ → World fp Key Order Price → Type 0
  Ends done_p w = (w.cells done_p ≢ 0) ⊎ (w.time_to_die ≡ true)

  -- A look that does not.
  abbrev pub Waits : ℕ → World fp Key Order Price → Type 0
  Waits done_p w = (w.cells done_p ≡ 0) × (w.time_to_die ≡ false)

  -- The first of some looks that ends the wait.
  pub data FirstLook (done_p : ℕ)
      : List (World fp Key Order Price) → World fp Key Order Price → Type 0 where
    at_once :
        {w : World fp Key Order Price} {looks : List (World fp Key Order Price)}
        → Ends done_p w
        → FirstLook done_p (w ∷ looks) w
    later :
        {seen w : World fp Key Order Price} {looks : List (World fp Key Order Price)}
        → Waits done_p seen
        → FirstLook done_p looks w
        → FirstLook done_p (seen ∷ looks) w

  -- A status that was read at the first look that ends the wait.
  abbrev pub ReadAt :
      ℕ → ℕ → List (World fp Key Order Price) → Dispatched (World fp Key Order Price) → Type 0
  ReadAt done_p rc_p looks (dispatched w rc) = FirstLook done_p looks w × (rc ≡ w.cells rc_p)
  ReadAt done_p rc_p looks (refused w) = Unit {0}
  ReadAt done_p rc_p looks (queueing w) = Unit {0}
  ReadAt done_p rc_p looks (sleeping w) = Unit {0}
  ReadAt done_p rc_p looks broken = ⊥

  if-ReadAt :
      (done_p rc_p : ℕ) (looks : List (World fp Key Order Price)) (t : Bool)
      (a b : Dispatched (World fp Key Order Price))
      → (t ≡ true → ReadAt done_p rc_p looks a)
      → (t ≡ false → ReadAt done_p rc_p looks b)
      → ReadAt done_p rc_p looks (if t then a else b)
  if-ReadAt done_p rc_p looks true a b ha hb = ha refl
  if-ReadAt done_p rc_p looks false a b ha hb = hb refl

  later-ReadAt :
      (done_p rc_p : ℕ) (seen : World fp Key Order Price) (looks : List (World fp Key Order Price))
      (d : Dispatched (World fp Key Order Price))
      → Waits done_p seen
      → ReadAt done_p rc_p looks d
      → ReadAt done_p rc_p (seen ∷ looks) d
  later-ReadAt done_p rc_p seen looks (dispatched w rc) waits (first, e) = (later waits first, e)
  later-ReadAt done_p rc_p seen looks (refused w) waits h = h
  later-ReadAt done_p rc_p seen looks (queueing w) waits h = h
  later-ReadAt done_p rc_p seen looks (sleeping w) waits h = h
  later-ReadAt done_p rc_p seen looks broken waits h = h

  ends :
      (done_p : ℕ) (seen : World fp Key Order Price)
      → (seen.cells done_p == 0 && not seen.time_to_die) ≡ false
      → Ends done_p seen
  ends done_p seen over = elim (Bool-cases (seen.cells done_p == 0)) [
    | inr set ↦ inl (ground arith)
    | inl unset ↦ elim (Bool-cases seen.time_to_die) [
      | inl dying ↦ inr dying
      | inr going ↦ absurd (ground (arith, over, unset, going))
    ]
  ]

  waits :
      (done_p : ℕ) (seen : World fp Key Order Price)
      → (seen.cells done_p == 0 && not seen.time_to_die) ≡ true
      → Waits done_p seen
  waits done_p seen more = (ground (arith, more), ground (arith, more))

  await-ReadAt :
      (done_p rc_p : ℕ) (w : World fp Key Order Price) (looks : List (World fp Key Order Price))
      → ReadAt done_p rc_p looks (await done_p rc_p w looks)
  unfolding await
  await-ReadAt done_p rc_p w [] = tt
  await-ReadAt done_p rc_p w (seen ∷ looks) =
      if-ReadAt done_p rc_p (seen ∷ looks) (seen.cells done_p == 0 && not seen.time_to_die) _ _
        (λ more.
          later-ReadAt done_p rc_p seen looks _ (waits done_p seen more)
            (await-ReadAt done_p rc_p seen looks))
        (λ over. (at_once (ends done_p seen over), refl))

  pub await-waited :
      (done_p rc_p : ℕ) (w w' : World fp Key Order Price) (looks : List (World fp Key Order Price))
      → All (Waits done_p) looks
      → w'.cells done_p ≢ 0
      → await done_p rc_p w (looks ++ (w' ∷ [])) ≡ dispatched w' (w'.cells rc_p)
  unfolding await
  await-waited done_p rc_p w w' [] h set =
      let e : (w'.cells done_p == 0) ≡ false = ground (arith, set) in rw e refl
  await-waited done_p rc_p w w' (seen ∷ looks) ((unset, going), hs) set =
      let more : (seen.cells done_p == 0 && not seen.time_to_die) ≡ true =
        ground (arith, unset, going) in
      ap
        (λ t.
          if t
          then await done_p rc_p seen (looks ++ (w' ∷ []))
          else dispatched seen (seen.cells rc_p))
        more
      ∙ await-waited done_p rc_p seen w' looks hs set

  queued-ReadAt :
      (i : DispatchInput fp Key Order Price) (w : World fp Key Order Price)
      (info : TxnInfo (Packet Key Order Price)) (r : Waited (Packet Key Order Price))
      → ReadAt i.done_p i.rc_p i.looks (queued i w (enqueue_waited info r))
  unfolding put_in
  queued-ReadAt i w info (ready q) = await-ReadAt i.done_p i.rc_p _ i.looks
  queued-ReadAt i w info (asked_to_die q) = tt
  queued-ReadAt i w info (still_waiting q) = tt

  dispatch-ReadAt :
      (blank : Packet Key Order Price) (i : DispatchInput fp Key Order Price)
      (request : Packet Key Order Price) (w : World fp Key Order Price)
      → ReadAt i.done_p i.rc_p i.looks (dispatch blank i request w)
  unfolding dispatch enqueue_user_transaction enqueue_transaction
  dispatch-ReadAt blank i request w = queued-ReadAt i _ _ _

module _ {fp : Floats} {Key Order Price : Type 0} (layout : Layout Key Order Price) where
  -- A request that came in whole, as the first bytes of the stream.
  abbrev pub CameIn : RoundInput fp Key Order Price → List ℕ → Type 0
  CameIn i bytes =
      (length bytes ≡ layout.request_size)
      × (rest : List ReadResult) × (data_of i.reads ≡ bytes ++ data_of rest)

  -- The response to a request: its type, and the status at the first look of the round that ends the
  -- wait.
  abbrev pub ResponseTo :
      DispatchInput fp Key Order Price → List ℕ → World fp Key Order Price → List ℕ → Type 0
  ResponseTo i bytes w out =
      FirstLook i.done_p i.looks w
      × (out ≡ layout.encode (layout.decode bytes).txn_type (w.cells i.rc_p))

  -- How a round may stand.
  abbrev pub Told : RoundInput fp Key Order Price → Round (World fp Key Order Price) → Type 0
  Told i (again w out) = (bytes : List ℕ) × CameIn i bytes × ResponseTo i.dispatching bytes w out
  Told i (closes w out) =
      (out ≡ [])
      ⊎ ((bytes : List ℕ) × CameIn i bytes
          × (rest : List ℕ) × ResponseTo i.dispatching bytes w (out ++ rest))
  Told i (stands w out) =
      (out ≡ [])
      ⊎ ((bytes : List ℕ) × CameIn i bytes
          × (rest : List ℕ) × ResponseTo i.dispatching bytes w (out ++ rest)
          × (0 < length rest))
  Told i crashed =
      (bytes : List ℕ) × CameIn i bytes
      × (layout.txn_is_valid (layout.decode bytes).txn_type ≡ false)

  if-Told :
      (i : RoundInput fp Key Order Price) (t : Bool) (a b : Round (World fp Key Order Price))
      → Told i a
      → Told i b
      → Told i (if t then a else b)
  if-Told i true a b ha hb = ha
  if-Told i false a b ha hb = hb

  replied-Told :
      (i : RoundInput fp Key Order Price) (w : World fp Key Order Price) (bytes response : List ℕ)
      (r : WriteEnd)
      → CameIn i bytes
      → ResponseTo i.dispatching bytes w response
      → WrittenOf response r
      → Told i (replied i w r)
  replied-Told i w bytes response (written out) came (over, e) whole =
      if-Told i i.die_after _ _ (inr (bytes, came, [], (over, append-nil out ∙ whole ∙ e)))
        (bytes, came, (over, whole ∙ e))
  replied-Told i w bytes response (write_failed out) came (over, e) (rest, split) =
      inr (bytes, came, rest, (over, sym split ∙ e))
  replied-Told i w bytes response (writing out) came (over, e) (rest, split, more) =
      inr (bytes, came, rest, (over, sym split ∙ e), more)

module _ {fp : Floats} {Key Order Price : Type 0} (layout : Layout Key Order Price)
    (blank : Packet Key Order Price) where
  reply-Told :
      (i : RoundInput fp Key Order Price) (bytes : List ℕ)
      (d : Dispatched (World fp Key Order Price))
      → CameIn layout i bytes
      → ReadAt i.dispatching.done_p i.dispatching.rc_p i.dispatching.looks d
      → Told layout i (reply layout blank i (layout.decode bytes) d)
  reply-Told i bytes (dispatched w rc) came (over, e) =
      replied-Told layout i w bytes _ _ came
        (over, ap (layout.encode (layout.decode bytes).txn_type) e)
        (write_response-WrittenOf _ i.writes)
  reply-Told i bytes (refused w) came h = inl refl
  reply-Told i bytes (queueing w) came h = inl refl
  reply-Told i bytes (sleeping w) came h = inl refl
  reply-Told i bytes broken came h = absurd h

  received-Told :
      (i : RoundInput fp Key Order Price) (w : World fp Key Order Price) (r : ReadEnd)
      → ReadOf layout.request_size i.reads r
      → Told layout i (received layout blank i w r)
  received-Told i w (complete bytes rest) (len, split) =
      let came : CameIn layout i bytes = (len, rest, split) in
      elim (Bool-cases (layout.txn_is_valid (layout.decode bytes).txn_type)) [
        | inr invalid ↦ rw invalid (bytes, came, invalid)
        | inl valid ↦ rw valid (
            if-Told layout i i.die_admitted _ _ (inl refl) (
              reply-Told i bytes _ came
                (dispatch-ReadAt blank i.dispatching (layout.decode bytes) w)))
      ]
  received-Told i w read_failed h = inl refl
  received-Told i w (reading n) h = inl refl

  -- However a round of a handler ends, whatever the sockets give and other threads do: it goes on
  -- only if it has read one whole request and written one whole response, of the request's type and
  -- with the status at the first of its looks at which the transaction was done or the server dying;
  -- when
  -- the connection is closed or a loop waits, the client has got nothing or the front of such a
  -- response; and the process stops only at a request of an unknown type.
  pub round-Told :
      (i : RoundInput fp Key Order Price) (w : World fp Key Order Price)
      → Told layout i (round layout blank i w)
  unfolding round
  round-Told i w =
      if-Told layout i i.die_before _ _ (inl refl)
        (received-Told i w _ (read_request-ReadOf layout.request_size i.reads))
