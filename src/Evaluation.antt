-- ===== src/Evaluation.antt =====
-- startup_server.c: `runTxnEvaluation`, which runs one kind of transaction again and again and takes
-- its response times. The calls of the chronos and benchmark libraries and of the clock are
-- parameters: a `Turn` holds what they answer in one round of the loop.
pub mod Recorded
pub mod Round
pub mod Printed
pub mod Outcome
pub mod Completed
mod Tests
use chronos_xserver.Prelude.{
  ℕ, zero, suc, ◌+◌, Bool, false, Option, none, some, List, [], ◌∷◌, ◌==◌, if◌then◌else◌, map, pos,
}
use chronos_xserver.Config.{server_success, server_fail}
use chronos_xserver.Time.{Timeval}
use chronos_xserver.Aup.{Call, done, aborted, overrun, ◌>>=◌}
use chronos_xserver.Args.{UserTxnTypes, Settings, branch}
use chronos_xserver.Process.{Packet, Benchmark, entries, copied, appends}
use chronos_xserver.Stats.Response.{
  num_samples, Responses, capture_start, capture, Report, capture_print,
}

-- What the calls before the loop answer: the handles, the two ways to a benchmark context, and the
-- read of the portfolios.
pub record Setup : Type 0 where
  pub env_alloc : Bool
  pub env_cache_get : Bool
  pub client_cache_alloc : Bool
  pub initial_load : Bool
  pub handle_alloc : ℕ
  pub portfolios_stats_get : ℕ
  pub start : Timeval

-- What the calls of one round answer, with `none` for a NULL request. The clock is read at the end
-- of the round and again for the next one.
pub record Turn (Key Order Price : Type 0) : Type 0 where
  pub request_create : ℕ → ℕ → Option (Packet Key Order Price)
  pub bench : Benchmark Key Order Price
  pub data_packet_free : ℕ
  pub request_free : ℕ
  pub end : Timeval
  pub restart : Timeval

-- the locals that live across rounds, and the globals of the response times
pub record Evaluation : Type 0 where
  pub rc : ℕ
  pub num_success : ℕ
  pub num_failures : ℕ
  pub num_total_txns : ℕ
  pub responses : Responses

-- The `switch`: the transaction has run with a status, or the code jumps to `failXit`.
pub data TxnRun : Type 0 where
  ran : ℕ → TxnRun
  failed : TxnRun

-- A round: the loop goes on, or the function returns a code.
pub data Rounded : Type 0 where
  goes_on : Evaluation → Rounded
  returns : ℕ → Evaluation → Rounded

-- How `runTxnEvaluation` ends: its result, and what it has printed at the end, if it got there.
pub data Evaluated : Type 0 where
  returned : ℕ → Evaluation → Option Report → Evaluated

abbrev pub counted : ℕ → Responses → Evaluation → Evaluation
counted txn_rc r e = record {
  rc = server_success;
  num_success = if txn_rc == server_success then e.num_success + 1 else e.num_success;
  num_failures = if txn_rc == server_success then e.num_failures else e.num_failures + 1;
  num_total_txns = e.num_total_txns + 1;
  responses = r;
}

abbrev pub then_rounds : Rounded → (Evaluation → Call Rounded) → Call Rounded
then_rounds (goes_on e) rest = rest e
then_rounds (returns rc e) rest = done (returns rc e)

-- the prints behind the loop
abbrev pub finish : Bool → Bool → Rounded → Call Evaluated
finish print_samples opened (goes_on e) =
    capture_print print_samples opened e.responses >>= λ report.
    done (returned e.rc e (some report))
finish print_samples opened (returns rc e) = done (returned rc e none)

-- the calls before the loop
abbrev pub set_up : Setup → Settings → Bool
set_up setup s =
    if setup.env_alloc
    then (if setup.env_cache_get
        then (if setup.client_cache_alloc
            then (if (if s.initial_load == 0
                  then setup.handle_alloc == server_success
                  else setup.initial_load)
                then setup.portfolios_stats_get == server_success
                else false)
            else false)
        else false)
    else false

-- the locals as they are declared
abbrev pub first : Responses → Evaluation
first r = record {
  rc = server_success;
  num_success = 0;
  num_failures = 0;
  num_total_txns = 0;
  responses = r;
}

module _ {Key Order Price : Type 0} (types : UserTxnTypes) (update_stock : ℕ) where
  abbrev pub order_run :
      Turn Key Order Price → Packet Key Order Price → (List Order → ℕ) → Call TxnRun
  order_run turn packet execute =
      if turn.bench.data_packet_alloc packet.num_items == server_success
      then (entries packet.num_items packet.purchase_info >>= λ orders. done (
          if appends turn.bench [] orders
          then (if turn.data_packet_free == server_success then ran (execute orders) else failed)
          else failed))
      else done failed

  abbrev pub run_cases :
      ℕ → Turn Key Order Price → Packet Key Order Price → List (Bool × Call TxnRun)
  run_cases t turn packet =
      let n = packet.num_items in
      (
        t == types.view_stock,
        copied n packet.symbol_info >>= λ items.
            done (ran (turn.bench.view_stock2 n (map (λ e. e.1) items))),
      )
      ∷ (
        t == types.view_portfolio,
        copied n packet.portfolio_info >>= λ keys. done (ran (turn.bench.view_portfolio2 n keys)),
      )
      ∷ (t == types.purchase, order_run turn packet turn.bench.purchase2)
      ∷ (t == types.sale, order_run turn packet turn.bench.sell2)
      ∷ (
        t == update_stock,
        copied n packet.update_info >>= λ items.
            done (ran (turn.bench.refresh_quotes_list n (map (λ e. (e.1, e.2)) items))),
      )
      ∷ []

  -- A number that no case names stops at `assert(0)`.
  unfoldable pub run_txn : ℕ → Turn Key Order Price → Packet Key Order Price → Call TxnRun
  run_txn t turn packet = branch (run_cases t turn packet) aborted

  -- the steps behind the `switch`
  abbrev pub after_run : ℕ → Turn Key Order Price → Evaluation → TxnRun → Call Rounded
  after_run rep turn e failed = done (returns server_fail e)
  after_run rep turn e (ran txn_rc) =
      if turn.request_free == server_success
      then (capture rep turn.end turn.restart e.responses >>= λ r.
          done (goes_on (counted txn_rc r e)))
      else done (returns turn.request_free e)

  -- Without a request the code that is returned is the one of an earlier call.
  abbrev pub with_request :
      Settings
      → ℕ
      → Turn Key Order Price
      → Evaluation
      → Option (Packet Key Order Price)
      → Call Rounded
  with_request s rep turn e none = done (returns e.rc e)
  with_request s rep turn e (some packet) =
      run_txn s.evaluated_txn turn packet >>= after_run rep turn e

  -- one round
  unfoldable pub round : Settings → ℕ → Turn Key Order Price → Evaluation → Call Rounded
  round s rep turn e = with_request s rep turn e (turn.request_create s.txn_size s.evaluated_txn)

  -- the loop, with `left` rounds to go
  unfoldable pub rounds : Settings → ℕ → ℕ → (ℕ → Turn Key Order Price) → Evaluation → Call Rounded
  rounds s zero rep turns e = done (goes_on e)
  rounds s (suc left) rep turns e =
      round s rep (turns rep) e >>= λ r. then_rounds r (rounds s left (suc rep) turns)

  unfoldable pub run_txn_evaluation :
      Bool → Bool → Setup → (ℕ → Turn Key Order Price) → Settings → Responses → Call Evaluated
  run_txn_evaluation print_samples opened setup turns s r =
      if set_up setup s
      then (rounds s num_samples 0 turns (first (capture_start setup.start r))
          >>= finish print_samples opened)
      else done (returned server_fail (first r) none)
