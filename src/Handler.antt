-- ===== src/Handler.antt =====
-- startup_server.c: `dispatchTableFn` and `daHandler`, which read a request from a client, put it into
-- the user queue, wait for the processing thread, and write the response. What the sockets give is an
-- argument; the layouts of the two packets are parameters.
pub mod Stream
pub mod Answers
pub mod Served
pub mod Connection
mod Tests
use chronos_xserver.Prelude.{
  ℕ, zero, suc, ◌+◌, ◌-◌, Bool, true, false, ◌&&◌, ◌||◌, not, Option, none, some, List, [], ◌∷◌,
  ◌++◌, ◌==◌, if◌then◌else◌, length, take, drop, ℤ, leb,
}
use chronos_xserver.Config.{server_fail, mode_ac}
use chronos_xserver.Floats.{Floats}
use chronos_xserver.Time.{Timeval}
use chronos_xserver.Queue.{Wakeup, Outcome, success, failed, invalid_argument, waiting, fault}
use chronos_xserver.Queue.Api.{enqueue_user_transaction}
use chronos_xserver.Monitor.{ServerContext, is_full_or, admission_control}
use chronos_xserver.Process.{Packet}
use chronos_xserver.Worker.{World, store_cell}

-- What one call of `read` for one byte gives: an error, the end of the stream, or a byte.
pub data ReadResult : Type 0 where
  read_error : ReadResult
  end_of_stream : ReadResult
  byte : ℕ → ReadResult

-- How the read loop stands after a list of calls.
pub data ReadEnd : Type 0 where
  complete : List ℕ → List ReadResult → ReadEnd
  read_failed : ReadEnd
  reading : ℕ → ReadEnd

abbrev pub and_byte : ℕ → ReadEnd → ReadEnd
and_byte b (complete bytes rest) = complete (b ∷ bytes) rest
and_byte b read_failed = read_failed
and_byte b (reading n) = reading n

-- The loop over `to_read`. The end of the stream moves nothing on.
pub read_request : ℕ → List ReadResult → ReadEnd
read_request zero reads = complete [] reads
read_request (suc to_read) [] = reading (suc to_read)
read_request (suc to_read) (read_error ∷ reads) = read_failed
read_request (suc to_read) (end_of_stream ∷ reads) = read_request (suc to_read) reads
read_request (suc to_read) (byte b ∷ reads) = and_byte b (read_request to_read reads)

-- What one call of `write` gives: an error, or how many bytes it took.
pub data WriteResult : Type 0 where
  write_error : WriteResult
  took : ℕ → WriteResult

-- How the write loop stands after a list of calls, with the bytes that went out.
pub data WriteEnd : Type 0 where
  written : List ℕ → WriteEnd
  write_failed : List ℕ → WriteEnd
  writing : List ℕ → WriteEnd

abbrev pub behind : List ℕ → WriteEnd → WriteEnd
behind bytes (written more) = written (bytes ++ more)
behind bytes (write_failed more) = write_failed (bytes ++ more)
behind bytes (writing more) = writing (bytes ++ more)

-- The loop over `to_write`, for the bytes that are left; `write` takes no more than it is offered.
pub write_response : List ℕ → List WriteResult → WriteEnd
write_response [] writes = written []
write_response (b ∷ bytes) [] = writing []
write_response (b ∷ bytes) (write_error ∷ writes) = write_failed []
write_response (b ∷ bytes) (took n ∷ writes) =
    behind (take n (b ∷ bytes)) (write_response (drop n (b ∷ bytes)) writes)

-- How a call of `dispatchTableFn` stands: it has returned with success and a status; it has
-- failed; it waits for room in the queue, or for the transaction; or it is out of memory bounds.
pub data Dispatched (W : Type 0) : Type 0 where
  dispatched : W → ℕ → Dispatched W
  refused : W → Dispatched W
  queueing : W → Dispatched W
  sleeping : W → Dispatched W
  broken : Dispatched W

-- What a call of `dispatchTableFn` is given: the clock, the addresses of `txn_done` and `txn_rc`, the
-- wake-ups of the enqueue call, and the worlds at the tests of the loop that follows.
pub record DispatchInput (fp : Floats) (Key Order Price : Type 0) : Type 0 where
  pub now : Timeval
  pub done_p : ℕ
  pub rc_p : ℕ
  pub wakeups : List (Wakeup (Packet Key Order Price))
  pub looks : List (World fp Key Order Price)

module _ {fp : Floats} {Key Order Price : Type 0} where
  -- the loop `while (!txn_done && !time_to_die)`, and the read of `txn_rc` behind it
  pub await :
      ℕ
      → ℕ
      → World fp Key Order Price
      → List (World fp Key Order Price)
      → Dispatched (World fp Key Order Price)
  await done_p rc_p w [] = sleeping w
  await done_p rc_p w (seen ∷ looks) =
      let later = await done_p rc_p seen looks in
      if seen.cells done_p == 0 && not seen.time_to_die
      then later
      else dispatched seen (seen.cells rc_p)

  abbrev pub queued :
      DispatchInput fp Key Order Price
      → World fp Key Order Price
      → Outcome (Packet Key Order Price) ℕ
      → Dispatched (World fp Key Order Price)
  queued i w (success q ticket) = await i.done_p i.rc_p (record w { user_queue = q }) i.looks
  queued i w (failed q) = refused (record w { user_queue = q })
  queued i w (waiting q) = queueing (record w { user_queue = q })
  queued i w invalid_argument = refused w
  queued i w fault = broken

  -- `dispatchTableFn`, with the initial values of its two variables.
  pub dispatch :
      Packet Key Order Price
      → DispatchInput fp Key Order Price
      → Packet Key Order Price
      → World fp Key Order Price
      → Dispatched (World fp Key Order Price)
  dispatch blank i request w =
      let w' = record w { cells = store_cell i.done_p 0 (store_cell i.rc_p server_fail w.cells) } in
      queued i w' (
        enqueue_user_transaction blank (some request) (some i.now) true (some i.done_p)
          (some i.rc_p) i.wakeups (some w'.user_queue))

-- The layouts: the size of a request and what its bytes mean, the bytes of a response with a type
-- and a status, and CHRONOS_TXN_IS_VALID.
pub record Layout (Key Order Price : Type 0) : Type 0 where
  pub request_size : ℕ
  pub decode : List ℕ → Packet Key Order Price
  pub encode : ℕ → ℕ → List ℕ
  pub txn_is_valid : ℕ → Bool

-- What a round of the handler is given: what the socket gives, what `time_to_die` says at its
-- three tests, and the inputs of the dispatch.
pub record RoundInput (fp : Floats) (Key Order Price : Type 0) : Type 0 where
  pub reads : List ReadResult
  pub writes : List WriteResult
  pub die_before : Bool
  pub die_admitted : Bool
  pub die_after : Bool
  pub dispatching : DispatchInput fp Key Order Price

-- How a round stands, with the bytes that went to the client: behind its last test; with the
-- connection closed; in one of its waits; or with the process stopped.
pub data Round (W : Type 0) : Type 0 where
  again : W → List ℕ → Round W
  closes : W → List ℕ → Round W
  stands : W → List ℕ → Round W
  crashed : Round W

module _ {fp : Floats} {Key Order Price : Type 0} where
  abbrev pub replied :
      RoundInput fp Key Order Price
      → World fp Key Order Price
      → WriteEnd
      → Round (World fp Key Order Price)
  replied i w (written bytes) = if i.die_after then closes w bytes else again w bytes
  replied i w (write_failed bytes) = closes w bytes
  replied i w (writing bytes) = stands w bytes

  -- The sleep of the round, in milliseconds.
  pub round_sleep : World fp Key Order Price → Option ℤ
  round_sleep w = if is_full_or fp mode_ac w.context then admission_control fp w.context else none

module _ {fp : Floats} {Key Order Price : Type 0} (layout : Layout Key Order Price)
    (blank : Packet Key Order Price) where
  abbrev pub reply :
      RoundInput fp Key Order Price
      → Packet Key Order Price
      → Dispatched (World fp Key Order Price)
      → Round (World fp Key Order Price)
  reply i request (dispatched w txn_rc) =
      replied i w (write_response (layout.encode request.txn_type txn_rc) i.writes)
  reply i request (refused w) = closes w []
  reply i request (queueing w) = stands w []
  reply i request (sleeping w) = stands w []
  reply i request broken = crashed

  abbrev pub received :
      RoundInput fp Key Order Price
      → World fp Key Order Price
      → ReadEnd
      → Round (World fp Key Order Price)
  received i w (complete bytes rest) =
      let request = layout.decode bytes in
      if layout.txn_is_valid request.txn_type
      then (if i.die_admitted
          then closes w []
          else reply i request (dispatch blank i.dispatching request w))
      else crashed
  received i w read_failed = closes w []
  received i w (reading n) = stands w []

  -- One round of `daHandler`, with the world at the call of `dispatchTableFn`.
  pub round :
      RoundInput fp Key Order Price → World fp Key Order Price → Round (World fp Key Order Price)
  round i w =
      if i.die_before then closes w [] else received i w (read_request layout.request_size i.reads)
