-- ===== src/System/Tests.antt =====
-- The threads on the world of the tests of the processing thread: an update thread puts a refresh of
-- two items in, and a handler a second purchase.
use chronos_xserver.Prelude.{
  ℕ, ◌≡◌, refl, sym, subst, inl, true, false, ◌&&◌, none, some, List, [], ◌∷◌, ◌++◌, arith,
  replicate, pos,
}
use chronos_xserver.Floats.{thousandths}
use chronos_xserver.Config.{ready_queue_size}
use chronos_xserver.Process.{Packet}
use chronos_xserver.Queue.{put_in, zero_info}
use chronos_xserver.Queue.Api.{new_info, enqueue_user_transaction}
use chronos_xserver.Queue.Calls.{enqueue_transaction-at_once}
use chronos_xserver.Stats.Tests.{begun}
use chronos_xserver.Process.Safe.{purchases}
use chronos_xserver.Process.Tests.{types, bench, packet}
use chronos_xserver.Worker.{World, step, store_cell}
use chronos_xserver.Worker.Tests.{
  purchase, world, loaded, at_serve, input, world-IsRunning, world-Serviceable, distinct,
}
use chronos_xserver.Updater.{CycleInput}
use chronos_xserver.Updater.Fit.{KeepFit, Creates}
use chronos_xserver.Updater.Thread.{Handles, prepared, Round, update_thread}
use chronos_xserver.Updater.Thread.Lives.{IsFair, Lives, update_thread-Lives}
use chronos_xserver.Updater.Serves.{Serves}
use chronos_xserver.Updater.Tests
use chronos_xserver.Queue.{dequeue_transaction, wait_while}
use chronos_xserver.Queue.Api.{dequeue_user_transaction}
use chronos_xserver.Queue.Valid.{after_take}
use chronos_xserver.Queue.Fifo.{contents}
use chronos_xserver.Worker.{moved, goto, clock}
use chronos_xserver.Worker.Shared
use chronos_xserver.Worker.Tests.{begin, serves_it, served_world, order}
use chronos_xserver.System.Pool.{Threads, put, Runs, rests, works, gives_up}
use chronos_xserver.System.Pool
use chronos_xserver.System.Pool.Fit.{IsFit}
use chronos_xserver.System.Pool.Order.{Runs-fifo}
use chronos_xserver.System.Boot.{Supply, first_context}
use chronos_xserver.Queue.{Queue}
use chronos_xserver.Aup
use chronos_xserver.Ac
use chronos_xserver.Args.{Settings, init_settings}
use chronos_xserver.Stats.{thread_stats_alloc, server_stats_alloc}
use chronos_xserver.Worker.Trace.{Info}
use chronos_xserver.Updater.Start.{started}
use chronos_xserver.Aup.{AupEnv, init_items, zero_item}
use chronos_xserver.Aup.Tests.{three}
use chronos_xserver.Monitor.Tests.{context}

-- Two threads are about to take the purchase: one runs it, and the other waits for the next one
-- until it is told to die.
abbrev both : Threads
both = put 1 (some at_serve) (put 0 (some at_serve) (λ j. none))

abbrev later_world : World thousandths ℕ ℕ ℕ
later_world = record served_world {
  user_queue = (put_in (new_info packet purchase begun (some 18) (some 19)) (after_take loaded)).0;
  cells = store_cell 18 0 (store_cell 19 1 served_world.cells);
}

waits_for_more :
    step thousandths types 4 bench input at_serve served_world ≡ moved at_serve served_world
unfolding step dequeue_user_transaction dequeue_transaction wait_while
waits_for_more = refl

two_threads :
    Runs thousandths types 4 bench packet 3 both
      (λ j. none)
      world
      (record (new_info packet purchase begun (some 18) (some 19)) { ticket = 2 } ∷ [])
      ((0, order) ∷ [])
      (put 1 none (put 1 (some at_serve) (put 0 (some (goto clock begin)) both)))
      (λ j. none)
      (record later_world { time_to_die = true })
unfolding enqueue_user_transaction
two_threads = works 0 input [] refl refl serves_it (
    works 1 input [] refl refl waits_for_more (
      Pool.dispatches purchase begun 18 19 2 (purchases refl refl (omega arith))
        (enqueue_transaction-at_once (new_info packet purchase begun (some 18) (some 19)) true []
          (after_take loaded) (omega arith))
        (Pool.dies (gives_up 1 refl (inl refl) refl rests))))

world-IsSound : Shared.IsSound thousandths types 3 world
world-IsSound = record {
  sys = world-IsRunning.sys;
  users = world-IsRunning.users;
  serviceable = world-Serviceable;
}

world-IsFit : IsFit thousandths types 3 (λ j. none) world
world-IsFit = record { sound = world-IsSound; ready = λ j u at. absurd (cc at) }

Runs-fifo_example :
    IsFit thousandths types 3 (λ j. none) (record later_world { time_to_die = true })
    × (contents loaded
          ++ (record (new_info packet purchase begun (some 18) (some 19)) { ticket = 2 } ∷ [])
        ≡ (order ∷ []) ++ contents later_world.user_queue)
Runs-fifo_example =
    Runs-fifo thousandths types 4 bench packet 3 distinct (omega arith) world-IsFit two_threads

-- An environment of thirty items, for one update thread.
abbrev thirty : AupEnv thousandths
thirty = record three {
  num_elements = 30;
  data_array = init_items thousandths 1000 1000 30 0 ++ (zero_item thousandths ∷ []);
}

abbrev large_world : World thousandths ℕ ℕ ℕ
large_world = record world { context = record context { aup_env = thirty } }

large_world-IsSound : Shared.IsSound thousandths types 30 large_world
large_world-IsSound = record {
  sys = world-IsRunning.sys;
  users = world-IsRunning.users;
  serviceable = record {
    env = (record { magic_set = refl; slots = refl }, refl);
    users = (
      record {
        servable = purchases refl refl (omega arith);
        done_p = 8;
        has_done = refl;
        rc_p = 9;
        has_rc = refl;
      },
      tt,
    );
    refreshes = tt;
  };
}

-- A start with thirty stocks and one update thread, and a purchase that is put in.
abbrev supply : Supply
supply = record {
  user_calloc_ok = true;
  user_init_ok = true;
  sys_calloc_ok = true;
  sys_init_ok = true;
  ac_calloc_ok = true;
  spin_init_rc = 0;
  thread_stats_ok = true;
  server_stats_ok = true;
  aup_calloc_ok = true;
  num_pkeys = pos 30;
}

abbrev settings : Settings
settings = init_settings types (λ text. pos 0)

abbrev first_env : AupEnv thousandths
first_env = record three {
  num_elements = 30;
  data_array = init_items thousandths 1000000 2000 30 0 ++ (zero_item thousandths ∷ []);
}

abbrev new_queue : Queue (Packet ℕ ℕ ℕ)
new_queue = record {
  txn_info_arr = replicate ready_queue_size (zero_info packet);
  occupied = 0;
  nextin = 0;
  nextout = 0;
  ticket_req = 0;
  ticket_done = 0;
  has_die_fp = true;
}

abbrev first_world : World thousandths ℕ ℕ ℕ
first_world = record {
  context =
      first_context thousandths settings (thread_stats_alloc 1) (server_stats_alloc (pos 500))
        (record { num_txn_to_wait = pos 0 }) first_env;
  sys_queue = new_queue;
  user_queue = new_queue;
  warming_up = true;
  time_to_die = false;
  cells = λ p. 0;
}

abbrev info : Info ℕ ℕ ℕ
info = new_info packet purchase begun (some 18) (some 19)

abbrev next_world : World thousandths ℕ ℕ ℕ
next_world = record first_world {
  user_queue = (put_in info new_queue).0;
  cells = store_cell 18 0 (store_cell 19 1 (λ p. 0));
}

-- Update thread 0 with its thirty items: a cycle, and one behind which it is told to die.
abbrev last_input : CycleInput ℕ ℕ ℕ
last_input = record Tests.input { dying = true }

abbrev two_rounds : List (Round (World thousandths ℕ ℕ ℕ) ℕ ℕ ℕ)
two_rounds =
    record { others = λ w. w; input = Tests.input }
    ∷ record { others = λ w. w; input = last_input }
    ∷ []

abbrev handles : Handles
handles = record {
  chronos_env = true;
  chronos_cache = true;
  range_set = λ first num. 0;
  client_cache = true;
}

rounds-IsFair :
    (i : CycleInput ℕ ℕ ℕ)
    → i.wakeups ≡ []
    → Creates i.create
    → IsFair thousandths types 30 (record { others = λ w. w; input = i })
rounds-IsFair i quiet creates = record {
  keeps = λ w s. s;
  mode = λ w. refl;
  fit = subst (KeepFit 30) (sym quiet) tt;
  names = creates;
}

update_thread-Lives_example :
    Lives thousandths types 30
      (true && prepared handles (started 0))
      (update_thread packet true handles 0 30 (replicate 30 (pos 0)) two_rounds large_world)
update_thread-Lives_example =
    update_thread-Lives thousandths types packet 30 true handles 0 (replicate 30 (pos 0)) two_rounds
      large_world (omega arith) (omega arith) refl
      (
        rounds-IsFair Tests.input refl Tests.create-Creates,
        (rounds-IsFair last_input refl Tests.create-Creates, tt),
      )
      (record { serviceable = large_world-IsSound.serviceable; ring = large_world-IsSound.sys })
