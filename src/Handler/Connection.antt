-- ===== src/Handler/Connection.antt =====
-- startup_server.c: the whole of `daHandler` on one connection: its rounds, one after the other, on the
-- stream of the socket, and the close behind them.
use chronos_xserver.Prelude.{
  ℕ, ◌≡◌, refl, sym, subst, ap, ap₂, ◌∙◌, inl, inr, List, [], ◌∷◌, ◌++◌, map, if_cases, ◌⊎◌, arith,
  length,
}
use chronos_xserver.Floats.{Floats}
use chronos_xserver.Process.{Packet}
use chronos_xserver.Worker.{World}
use chronos_xserver.Handler.{
  DispatchInput, ReadResult, ReadEnd, complete, read_failed, reading, read_request, Layout,
  RoundInput, Round, again, closes, stands, crashed, received, round,
}
use chronos_xserver.Handler.Stream.{data_of, ReadOf, read_request-ReadOf}
use chronos_xserver.Handler.Answers.{ResponseTo, Told, round-Told}

-- How a connection stands, with the bytes that went to the client: in a round or between two; with
-- its socket closed and the job over; or with the process stopped.
pub data Connection : Type 0 where
  going : List ℕ → Connection
  closed : List ℕ → Connection
  stopped : List ℕ → Connection

-- what the client has got
abbrev pub sent : Connection → List ℕ
sent (going out) = out
sent (closed out) = out
sent (stopped out) = out

abbrev pub after : List ℕ → Connection → Connection
after out (going more) = going (out ++ more)
after out (closed more) = closed (out ++ more)
after out (stopped more) = stopped (out ++ more)

-- what is left of the stream for the next round
abbrev pub next_reads : ReadEnd → List ReadResult
next_reads (complete bytes rest) = rest
next_reads read_failed = []
next_reads (reading n) = []

abbrev pub then_rounds : {W : Type 0} → Round W → Connection → Connection
then_rounds (again w out) rest = after out rest
then_rounds (closes w out) rest = closed out
then_rounds (stands w out) rest = going out
then_rounds crashed rest = stopped []

module _ {fp : Floats} {Key Order Price : Type 0} (layout : Layout Key Order Price)
    (blank : Packet Key Order Price) where
  -- The rounds, each with its inputs and the world at its call of `dispatchTableFn`. What the socket
  -- gives is one stream, so the `reads` of the inputs do not count.
  unfoldable pub da_handler :
      List (RoundInput fp Key Order Price × World fp Key Order Price) → List ReadResult → Connection
  da_handler [] reads = going []
  da_handler ((i, w) ∷ rounds) reads =
      let rest = da_handler rounds (next_reads (read_request layout.request_size reads)) in
      then_rounds (round layout blank (record i { reads = reads }) w) rest

module _ (fp : Floats) {Key Order Price : Type 0} (layout : Layout Key Order Price) where
  -- A conversation, by what the dispatches of the rounds are given and the bytes of the client and
  -- of the server: whole requests, each with the response of its round, in the same order, and
  -- perhaps the front of the response to one more.
  pub data Talk : List (DispatchInput fp Key Order Price) → List ℕ → List ℕ → Type 0 where
    silent :
        (rounds : List (DispatchInput fp Key Order Price)) (came : List ℕ) → Talk rounds came []
    answered :
        {rounds : List (DispatchInput fp Key Order Price)} {came out : List ℕ}
        (bytes response : List ℕ) (i : DispatchInput fp Key Order Price)
        (seen : World fp Key Order Price)
        → length bytes ≡ layout.request_size
        → ResponseTo layout i bytes seen response
        → Talk rounds came out
        → Talk (i ∷ rounds) (bytes ++ came) (response ++ out)
    cut :
        (rounds : List (DispatchInput fp Key Order Price)) (came : List ℕ)
        (bytes front rest : List ℕ) (i : DispatchInput fp Key Order Price)
        (seen : World fp Key Order Price)
        → length bytes ≡ layout.request_size
        → ResponseTo layout i bytes seen (front ++ rest)
        → Talk (i ∷ rounds) (bytes ++ came) front

sent-after : (out : List ℕ) (c : Connection) → sent (after out c) ≡ out ++ sent c
sent-after out (going more) = refl
sent-after out (closed more) = refl
sent-after out (stopped more) = refl

same_front :
    {A : Type 0} (xs ys xs' ys' : List A)
    → length xs ≡ length xs'
    → xs ++ ys ≡ xs' ++ ys'
    → (xs ≡ xs') × (ys ≡ ys')
same_front [] ys [] ys' e h = (refl, h)
same_front [] ys (x' ∷ xs') ys' e h = absurd (omega arith)
same_front (x ∷ xs) ys [] ys' e h = absurd (omega arith)
same_front (x ∷ xs) ys (x' ∷ xs') ys' e h =
    let head : x ≡ x' = cc in
    let tail : xs ++ ys ≡ xs' ++ ys' = cc in
    let (fronts, rests) = same_front xs ys xs' ys' (omega arith) tail in
    (ap₂ (λ y zs. y ∷ zs) head fronts, rests)

module _ {fp : Floats} {Key Order Price : Type 0} (layout : Layout Key Order Price)
    (blank : Packet Key Order Price) where
  -- A round that goes on has read a whole request.
  received-complete :
      (i : RoundInput fp Key Order Price) (w w' : World fp Key Order Price) (r : ReadEnd)
      (out : List ℕ)
      → received layout blank i w r ≡ again w' out
      → (bytes : List ℕ) × (rest : List ReadResult) × (r ≡ complete bytes rest)
  received-complete i w w' (complete bytes rest) out e = (bytes, rest, refl)
  received-complete i w w' read_failed out e = absurd (cc e)
  received-complete i w w' (reading n) out e = absurd (cc e)

  round-complete :
      (i : RoundInput fp Key Order Price) (w w' : World fp Key Order Price) (out : List ℕ)
      → round layout blank i w ≡ again w' out
      → (bytes : List ℕ) × (rest : List ReadResult) × (read_request layout.request_size i.reads
          ≡ complete bytes rest)
  unfolding round
  round-complete i w w' out e =
      if_cases
        (λ r.
          r ≡ again w' out
          → (bytes : List ℕ) × (rest : List ReadResult) × (read_request layout.request_size i.reads
              ≡ complete bytes rest))
        i.die_before (closes w [])
        (received layout blank i w (read_request layout.request_size i.reads))
        (λ _ over. absurd (cc over))
        (λ _ goes. received-complete i w w' (read_request layout.request_size i.reads) out goes) e

  -- the conversation of a round that goes on, and of the rounds behind it
  again-Talk :
      (rounds : List (DispatchInput fp Key Order Price)) (i : RoundInput fp Key Order Price)
      (w w' : World fp Key Order Price) (out more : List ℕ)
      → round layout blank i w ≡ again w' out
      → Talk fp layout rounds (data_of (next_reads (read_request layout.request_size i.reads))) more
      → Talk fp layout (i.dispatching ∷ rounds) (data_of i.reads) (out ++ more)
  again-Talk rounds i w w' out more e rest =
      let (bytes, (size, left, split), told) =
        subst (Told layout i) e (round-Told layout blank i w) in
      let (bytes', rest', whole) = round-complete i w w' out e in
      let (whole_size, whole_split) : ReadOf layout.request_size i.reads (complete bytes' rest') =
        subst (ReadOf layout.request_size i.reads) whole
          (read_request-ReadOf layout.request_size i.reads) in
      let (same, same_rest) =
        same_front bytes (data_of left) bytes' (data_of rest') (size ∙ sym whole_size)
          (sym split ∙ whole_split) in
      subst (λ d. Talk fp layout (i.dispatching ∷ rounds) d (out ++ more)) (sym split)
        (answered bytes out i.dispatching w' size told (
          subst (λ d. Talk fp layout rounds d more)
            (ap (λ r. data_of (next_reads r)) whole ∙ sym same_rest) rest))

  -- the conversation of a round that closes the connection or waits
  last-Talk :
      (rounds : List (DispatchInput fp Key Order Price)) (i : RoundInput fp Key Order Price)
      (w w' : World fp Key Order Price) (out : List ℕ)
      → (round layout blank i w ≡ closes w' out) ⊎ (round layout blank i w ≡ stands w' out)
      → Talk fp layout (i.dispatching ∷ rounds) (data_of i.reads) out
  last-Talk rounds i w w' out (inl e) =
      elim (subst (Told layout i) e (round-Told layout blank i w)) [
        | inl nothing ↦ rw nothing (silent (i.dispatching ∷ rounds) (data_of i.reads))
        | inr (bytes, (size, left, split), rest, told) ↦
            subst (λ d. Talk fp layout (i.dispatching ∷ rounds) d out) (sym split)
              (cut rounds (data_of left) bytes out rest i.dispatching w' size told)
      ]
  last-Talk rounds i w w' out (inr e) =
      elim (subst (Told layout i) e (round-Told layout blank i w)) [
        | inl nothing ↦ rw nothing (silent (i.dispatching ∷ rounds) (data_of i.reads))
        | inr (bytes, (size, left, split), rest, told, more) ↦
            subst (λ d. Talk fp layout (i.dispatching ∷ rounds) d out) (sym split)
              (cut rounds (data_of left) bytes out rest i.dispatching w' size told)
      ]

  then_rounds-Talk :
      (rounds : List (DispatchInput fp Key Order Price)) (i : RoundInput fp Key Order Price)
      (w : World fp Key Order Price) (r : Round (World fp Key Order Price)) (rest : Connection)
      → round layout blank i w ≡ r
      → Talk fp layout rounds
          (data_of (next_reads (read_request layout.request_size i.reads)))
          (sent rest)
      → Talk fp layout (i.dispatching ∷ rounds) (data_of i.reads) (sent (then_rounds r rest))
  then_rounds-Talk rounds i w (again w' out) rest e more =
      rw (sent-after out rest) (again-Talk rounds i w w' out (sent rest) e more)
  then_rounds-Talk rounds i w (closes w' out) rest e more = last-Talk rounds i w w' out (inl e)
  then_rounds-Talk rounds i w (stands w' out) rest e more = last-Talk rounds i w w' out (inr e)
  then_rounds-Talk rounds i w crashed rest e more =
      silent (i.dispatching ∷ rounds) (data_of i.reads)

  -- What a connection has sent, however many rounds it has had, whatever its socket gives and other
  -- threads do: requests are read off the stream one after the other, each whole, and the bytes sent
  -- are one whole response to each of the first of them, in the same order, of the request's type and
  -- with the status that stands, at the first look of that round at which the transaction is done or
  -- the server dying, at the address of its status, and perhaps the front of the response to the
  -- next one; nothing else.
  pub da_handler-Talk :
      (rounds : List (RoundInput fp Key Order Price × World fp Key Order Price))
      (reads : List ReadResult)
      → Talk fp layout
          (map (λ r. r.0.dispatching) rounds)
          (data_of reads)
          (sent (da_handler layout blank rounds reads))
  unfolding da_handler
  da_handler-Talk [] reads = silent [] (data_of reads)
  da_handler-Talk ((i, w) ∷ rounds) reads =
      then_rounds-Talk (map (λ r. r.0.dispatching) rounds) (record i { reads = reads }) w
        (round layout blank (record i { reads = reads }) w) _ refl
        (da_handler-Talk rounds (next_reads (read_request layout.request_size reads)))
