-- ===== src/Handler/Tests.antt =====
-- A handler at concrete inputs: requests of one byte, which always mean the purchase of the tests of
-- the processing thread, and responses of two.
use chronos_xserver.Prelude.{ℕ, ◌≡◌, refl, true, false, some, List, [], ◌∷◌, arith}
use chronos_xserver.Floats.{thousandths}
use chronos_xserver.Queue.{enqueue_transaction, wait_while}
use chronos_xserver.Queue.Api.{enqueue_user_transaction}
use chronos_xserver.Queue.Fifo.{contents}
use chronos_xserver.Process.{appends, process_user_transaction}
use chronos_xserver.Process.Tests.{types, bench}
use chronos_xserver.Stats.Tests.{begun}
use chronos_xserver.Aup.{done}
use chronos_xserver.Process.{returned}
use chronos_xserver.Worker.{World, serve, clock, moved, goto, step, run_of}
use chronos_xserver.Worker.Tests.{
  purchase, order, fresh, world, input, begin, served_world, world-IsRunning,
}
use chronos_xserver.Handler.{
  ReadResult, end_of_stream, byte, took, dispatched, await, Layout, RoundInput, again, round,
  read_request, write_response, dispatch,
}
use chronos_xserver.Handler.Answers.{Told, round-Told}
use chronos_xserver.Handler.Connection.{going, sent, da_handler, Talk, da_handler-Talk}
use chronos_xserver.Handler.Served.{serve-answers}

abbrev layout : Layout ℕ ℕ ℕ
layout = record {
  request_size = 1;
  decode = λ bytes. purchase;
  encode = λ txn_type rc. txn_type ∷ rc ∷ [];
  txn_is_valid = λ txn_type. true;
}

-- The handler looks twice before it sees that the purchase is done.
abbrev round_input : RoundInput thousandths ℕ ℕ ℕ
round_input = record {
  reads = end_of_stream ∷ byte 65 ∷ [];
  writes = took 1 ∷ took 1 ∷ [];
  die_before = false;
  die_admitted = false;
  die_after = false;
  dispatching = record {
    now = begun;
    done_p = 8;
    rc_p = 9;
    wakeups = [];
    looks = world ∷ world ∷ served_world ∷ [];
  };
}

abbrev idle_world : World thousandths ℕ ℕ ℕ
idle_world = record world { user_queue = fresh }

round-Told_example : Told layout round_input (round layout purchase round_input idle_world)
round-Told_example = round-Told layout purchase round_input idle_world

purchase_runs :
    process_user_transaction thousandths types 4 bench
      (run_of input world)
      order.txn_enqueue
      order.request
      world.context
    ≡ done (returned 0 (some 0) served_world.context)
unfolding process_user_transaction appends
purchase_runs = refl

serve-answers_example :
    (w' : World thousandths ℕ ℕ ℕ) × (step thousandths types 4 bench input (goto serve begin) world
      ≡ moved (goto clock begin) w')
    × (w'.context ≡ served_world.context)
    × (contents w'.user_queue ≡ [])
    × (w'.cells 5 ≡ world.cells 5)
    × (await 8 9 world (world ∷ world ∷ w' ∷ []) ≡ dispatched w' 0)
serve-answers_example =
    serve-answers thousandths types 4 bench input begin world order [] 8 9 0 (some 0)
      served_world.context 5 world (world ∷ world ∷ []) world-IsRunning refl refl refl refl
      (omega arith) (omega arith) (omega arith) ((refl, refl), ((refl, refl), tt)) purchase_runs

purchase_answered : round layout purchase round_input idle_world ≡ again served_world (2 ∷ 0 ∷ [])
unfolding round read_request dispatch write_response await enqueue_user_transaction
    enqueue_transaction wait_while
purchase_answered = refl

-- Two requests that come in together, and their responses.
abbrev stream : List ReadResult
stream = byte 65 ∷ byte 66 ∷ []

da_handler-Talk_example :
    Talk thousandths layout
      (round_input.dispatching ∷ round_input.dispatching ∷ [])
      (65 ∷ 66 ∷ [])
      (sent (
        da_handler layout purchase
          ((round_input, idle_world) ∷ (round_input, idle_world) ∷ [])
          stream))
da_handler-Talk_example =
    da_handler-Talk layout purchase ((round_input, idle_world) ∷ (round_input, idle_world) ∷ [])
      stream

both_answered :
    da_handler layout purchase ((round_input, idle_world) ∷ (round_input, idle_world) ∷ []) stream
    ≡ going (2 ∷ 0 ∷ 2 ∷ 0 ∷ [])
unfolding da_handler round read_request dispatch write_response await enqueue_user_transaction
    enqueue_transaction wait_while
both_answered = refl
