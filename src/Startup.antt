-- ===== src/Startup.antt =====
-- startup_server.c: `main`, as the events that it causes: what it acquires, which threads it starts and
-- joins, and what it releases. What the calls return is an argument. The build without LITMUS_RT and
-- with both kinds of transactions is modelled. The number of stocks is taken to be positive, which
-- chronos_aup_env_alloc asserts (System/Boot has this assertion).
pub mod Orderly
pub mod Main
mod Tests
use chronos_xserver.Prelude.{
  ℕ, zero, suc, ◌+◌, ◌-◌, Bool, true, false, ◌&&◌, List, [], ◌∷◌, ◌++◌, ◌==◌, if◌then◌else◌, ℤ,
  pos_part,
}
use chronos_xserver.Config.{server_success, server_fail, mode_evaluation}
use chronos_xserver.Args.{Settings, Parsed, accepted, rejected, exited}

pub data Thread : Type 0 where
  processing : ℕ → Thread
  updating : ℕ → Thread
  listening : Thread

-- what the server context holds, and the context itself
pub data Resource : Type 0 where
  context : Resource
  user_queue : Resource
  sys_queue : Resource
  ac_env : Resource
  start_threads_mutex : Resource
  start_threads_wait : Resource
  thread_stats : Resource
  performance_stats : Resource
  stats_file : Resource
  benchmark : Resource
  aup_env : Resource

pub data Event : Type 0 where
  acquires : Resource → Event
  starts : Thread → Event
  joins : Thread → Event
  releases : Resource → Event

-- What the calls return: whether a resource is created; the calls that only read from the benchmark;
-- the attributes and the structures of the threads; `pthread_create`; and `runTxnEvaluation`.
pub record Boot : Type 0 where
  pub created : Resource → Bool
  pub portfolios_read : Bool
  pub stocks_read : Bool
  pub attributes_set : Bool
  pub processing_info : Bool
  pub update_info : Bool
  pub listener_info : Bool
  pub starts_up : Thread → Bool
  pub evaluation_rc : ℕ

-- A part of the start: its events, and whether it came to its end.
abbrev pub Part : Type 0
Part = List Event × Bool

abbrev pub and_then : Part → Part → Part
and_then (es, true) (fs, ok) = (es ++ fs, ok)
and_then (es, false) part = (es, false)

abbrev pub check : Bool → Part
check ok = ([], ok)

pub acquire_each : (Resource → Bool) → List Resource → Part
acquire_each created [] = ([], true)
acquire_each created (r ∷ rs) =
    if created r then and_then (acquires r ∷ [], true) (acquire_each created rs) else ([], false)

-- the loops round `pthread_create`, with `left` rounds to go
pub start_each : (Thread → Bool) → (ℕ → Thread) → ℕ → ℕ → Part
start_each starts_up thread zero i = ([], true)
start_each starts_up thread (suc left) i =
    if starts_up (thread i)
    then and_then (starts (thread i) ∷ [], true) (start_each starts_up thread left (i + 1))
    else ([], false)

-- the loops round `pthread_join`, whose results are only logged
pub join_each : (ℕ → Thread) → ℕ → ℕ → List Event
join_each thread zero i = []
join_each thread (suc left) i = joins (thread i) ∷ join_each thread left (i + 1)

-- from the queues to the environment of the update policy
abbrev pub acquire_all : Boot → Part
acquire_all b =
    and_then
      (acquire_each b.created (
        user_queue ∷ sys_queue ∷ ac_env ∷ start_threads_mutex ∷ start_threads_wait ∷ thread_stats
        ∷ performance_stats ∷ stats_file ∷ benchmark ∷ []))
      (and_then (check (b.portfolios_read && b.stocks_read))
        (acquire_each b.created (aup_env ∷ [])))

-- from the attributes to the listener
abbrev pub start_all : Boot → Settings → Part
start_all b s = and_then (check (b.attributes_set && b.processing_info)) (
    and_then (start_each b.starts_up processing (pos_part s.num_server_threads) 0) (
      and_then (check b.update_info) (
        and_then (start_each b.starts_up updating (pos_part s.num_update_threads) 0)
          (and_then (check b.listener_info) (start_each b.starts_up (λ i. listening) 1 0)))))

abbrev pub join_all : Settings → List Event
join_all s =
    joins listening
    ∷ (join_each updating (pos_part s.num_update_threads) 0
        ++ join_each processing (pos_part s.num_server_threads) 0)

-- The part behind `cleanup`, for a context that is not NULL. What was not created is NULL there, or all
-- zeroes.
abbrev pub cleanup : List Event
cleanup =
    releases user_queue
    ∷ releases sys_queue
    ∷ releases ac_env
    ∷ releases start_threads_wait
    ∷ releases start_threads_mutex
    ∷ releases thread_stats
    ∷ releases performance_stats
    ∷ releases aup_env
    ∷ releases benchmark
    ∷ releases stats_file
    ∷ releases context
    ∷ []

abbrev pub finished : Settings → Part → ℕ × List Event
finished s (es, true) = (server_success, es ++ (join_all s ++ cleanup))
finished s (es, false) = (server_fail, es ++ cleanup)

-- behind `processArguments`; `exit(0)` in there ends the process
abbrev pub configured : Boot → Parsed → ℕ × List Event
configured b (accepted s) =
    if s.running_mode == mode_evaluation
    then (if b.evaluation_rc == server_success then server_success else server_fail, cleanup)
    else finished s (and_then (acquire_all b) (start_all b s))
configured b rejected = (server_fail, cleanup)
configured b exited = (0, [])

-- `main`: the status of the process and the events, for an outcome of `processArguments`.
pub main : Boot → Parsed → ℕ × List Event
main b parsed =
    let r = configured b parsed in
    if b.created context then (r.0, acquires context ∷ r.1) else (server_fail, [])
