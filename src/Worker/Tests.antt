-- ===== src/Worker/Tests.antt =====
-- The processing thread at concrete inputs: the three items, the context and the benchmark library
-- of the other tests, and one purchase in the user queue.
use chronos_xserver.Prelude.{
  ℕ, suc, ◌≡◌, refl, true, false, some, List, [], ◌∷◌, ◌++◌, arith, replicate, length-replicate, ap,
  take, pos,
}
use chronos_xserver.Floats.{thousandths}
use chronos_xserver.Queue.{
  TxnInfo, Queue, queue_size, zero_info, put_in, dequeue_transaction, wait_while, take_out,
}
use chronos_xserver.Queue.Api.{dequeue_user_transaction}
use chronos_xserver.Queue.Valid.{IsValid, after_take}
use chronos_xserver.Queue.Fifo.{contents}
use chronos_xserver.Queue.Calls.{enqueue_transaction-at_once}
use chronos_xserver.Aup.Tests.{three-IsValid}
use chronos_xserver.Ac.{wait_decrease}
use chronos_xserver.Stats.{update_thread_stats, thread_stats_alloc}
use chronos_xserver.Monitor.Tests.{context}
use chronos_xserver.Stats.Tests.{begun, over}
use chronos_xserver.Process.{Packet, appends, process_user_transaction}
use chronos_xserver.Process.Tests.{types, bench, run, packet}
use chronos_xserver.Process.Safe.{IsDistinct, purchases}
use chronos_xserver.Worker.{
  World, store_cell, user, serve, clock, Local, Input, moved, goto, step, start_thread,
}
use chronos_xserver.Worker.Valid.{IsRunning}
use chronos_xserver.Worker.Trace.{Trace, stop, runs, puts_user, Trace-fifo}
use chronos_xserver.Worker.Progress.{Trace-serves}
use chronos_xserver.Worker.Safe.{IsAnswerable, Serviceable}

abbrev pub purchase : Packet ℕ ℕ ℕ
purchase = record packet { txn_type = 2 }

-- its handler waits at address 8, for a status at address 9
abbrev pub order : TxnInfo (Packet ℕ ℕ ℕ)
order = record (zero_info packet) {
  txn_enqueue = begun;
  request = purchase;
  ticket = 1;
  txn_done = some 8;
  txn_rc = some 9;
}

abbrev pub fresh : Queue (Packet ℕ ℕ ℕ)
fresh = record {
  txn_info_arr = order ∷ replicate 1023 (zero_info packet);
  occupied = 0;
  nextin = 1;
  nextout = 1;
  ticket_req = 1;
  ticket_done = 0;
  has_die_fp = true;
}

pub fresh-IsValid : IsValid fresh
fresh-IsValid = record {
  slots = ap suc (length-replicate 1023 (zero_info packet));
  out_in = omega arith;
  in_at = refl;
  occupied_le = omega arith;
}

abbrev pub loaded : Queue (Packet ℕ ℕ ℕ)
loaded = record fresh { occupied = 1; nextout = 0 }

loaded-IsValid : IsValid loaded
loaded-IsValid = record {
  slots = ap suc (length-replicate 1023 (zero_info packet));
  out_in = omega arith;
  in_at = refl;
  occupied_le = omega arith;
}

abbrev pub world : World thousandths ℕ ℕ ℕ
world = record {
  context = context;
  sys_queue = fresh;
  user_queue = loaded;
  warming_up = false;
  time_to_die = false;
  cells = λ p. 0;
}

abbrev idle_world : World thousandths ℕ ℕ ℕ
idle_world = record world { user_queue = fresh }

abbrev pub input : Input
input = record { now = over; woken = false; run = run }

abbrev pub begin : Local
begin = start_thread (pos 60) begun begun

abbrev at_user : Local
at_user = goto user begin

abbrev pub at_serve : Local
at_serve = goto serve begin

pub world-IsRunning : IsRunning serve world
world-IsRunning = record { sys = fresh-IsValid; users = loaded-IsValid; promise = omega arith }

at_user-IsRunning : IsRunning user world
at_user-IsRunning = record { sys = fresh-IsValid; users = loaded-IsValid; promise = tt }

-- the world once the purchase has run
abbrev pub served_world : World thousandths ℕ ℕ ℕ
served_world = record world {
  context = record context {
    ac_env = (wait_decrease 0 0 context.ac_env).1;
    thread_stats_arr = update_thread_stats begun over (pos 500) 2 0 1 (thread_stats_alloc 2);
  };
  user_queue = after_take loaded;
  cells = store_cell 8 1 (store_cell 9 0 world.cells);
}

looks : step thousandths types 4 bench input at_user world ≡ moved at_serve world
unfolding step queue_size
looks = refl

pub serves_it :
    step thousandths types 4 bench input at_serve world ≡ moved (goto clock begin) served_world
unfolding step dequeue_user_transaction dequeue_transaction wait_while take_out
    process_user_transaction appends
serves_it = refl

pub distinct : IsDistinct types
distinct = record {
  stock_portfolio = omega arith;
  stock_purchase = omega arith;
  stock_sale = omega arith;
  portfolio_purchase = omega arith;
  portfolio_sale = omega arith;
  purchase_sale = omega arith;
}

order-IsAnswerable : IsAnswerable types 3 order
order-IsAnswerable = record {
  servable = purchases refl refl (omega arith);
  done_p = 8;
  has_done = refl;
  rc_p = 9;
  has_rc = refl;
}

pub world-Serviceable : Serviceable thousandths types 3 world
world-Serviceable = record {
  env = (three-IsValid, refl);
  users = (order-IsAnswerable, tt);
  refreshes = tt;
}

two_steps :
    Trace thousandths types 4 bench 2 []
      (order ∷ [])
      []
      []
      at_user
      world
      (goto clock begin)
      served_world
two_steps = runs input looks (runs input serves_it stop)

Trace-serves_example :
    (later : List (TxnInfo (Packet ℕ ℕ ℕ))) × (order ∷ [] ≡ take 1 (contents loaded) ++ later)
Trace-serves_example =
    Trace-serves thousandths types 4 bench 0 at_user-IsRunning (omega arith) two_steps (omega arith)

-- a second purchase comes in
abbrev more : Queue (Packet ℕ ℕ ℕ)
more = (put_in order (after_take loaded)).0

abbrev more_world : World thousandths ℕ ℕ ℕ
more_world = record served_world { user_queue = more }

served_and_put :
    Trace thousandths types 4 bench 2
      (record order { ticket = 2 } ∷ [])
      (order ∷ [])
      []
      []
      at_user
      world
      (goto clock begin)
      more_world
served_and_put = runs input looks (
    runs input serves_it (
      puts_user order true 2
        (enqueue_transaction-at_once order true [] (after_take loaded) (omega arith)) stop))

Trace-fifo_example :
    (contents loaded ++ (record order { ticket = 2 } ∷ []) ≡ (order ∷ []) ++ contents more)
    × (contents fresh ++ [] ≡ [] ++ contents fresh)
    × IsRunning clock more_world
Trace-fifo_example = Trace-fifo thousandths types 4 bench at_user-IsRunning served_and_put
