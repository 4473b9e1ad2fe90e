-- ===== src/Lib.antt =====
-- Verification of the Chronos server, a transaction server with a real-time flavour: clients send
-- requests over TCP, handler threads put them into a ready queue, processing threads take them out
-- and run them on a database, update threads put refresh requests into a second queue, and a
-- performance monitor slows arriving requests down, or stretches the intervals at which data items
-- are refreshed, when transactions take too long.
--
-- Which file models what, by paths from the repository's root:
--   Prelude    native numbers, lists, options and integers, with the lemmas and rulesets that the
--              parts share (Prelude/Tests, Prelude/Lists, Prelude/Int)
--   Config     the constants of server_config.h and common.h, and the mode numbers of
--              startup_server.c
--   Floats     the operations on `float` and `double` as a record of parameters, and a fixed-point
--              instance for runs at concrete inputs
--   Time       `struct timeval`, diff_time and udiff_time of stats.c
--   Queue      chronos_queue.c: `Queue` is chronos_queue_t, `take_out` and `put_in` are the critical
--              sections, `wait_while` is the loop round pthread_cond_timedwait; Queue/Api has the
--              four calls of chronos_queue.h, Queue/History the interleavings of calls,
--              Queue/Refine the abstract queue that the ring implements
--   Aup        aup.c: the environment and its counters; Aup/Expired has chronos_aup_get_n_expired
--              and chronos_aup_next_update_set, Aup/Relax has chronos_aup_relax, Aup/Kept which
--              fields of the environment calls leave alone
--   Ac         chronos_ac.c: wait_decrease, wait_set and wait of the admission controller
--   Stats      stats.c: update_thread_stats and the getters; Stats/Aggregate has
--              aggregate_thread_stats and the two sums of a period, Stats/Response has the macros
--              RTCAPTURE of stats.h, init_stats_struct and print_stats_to_csv
--   Monitor    performance_monitor.c, and of startup_server.c aggregateStats, performanceMonitor,
--              in_period_ds, qosManager, adaptive_update_policy and admission_control;
--              Monitor/Row has stats_print
--   Args       of startup_server.c initProcessArguments and processArguments
--   Process    of startup_server.c processUserTransaction (Process/View, Process/Fate) and
--              processRefreshTransaction (Process/Refresh), over the benchmark library as parameters
--              (Process/Safe: which requests they run to their end, Process/Mode: that they keep the
--              running mode)
--   Worker     of startup_server.c the loop of processThread as a machine of single steps
--              (Worker/Valid, Worker/Moves), its traces together with other threads (Worker/Trace,
--              Worker/Progress), and what keeps it from stopping the process, alone (Worker/Safe)
--              and among other processing threads (Worker/Shared)
--   Updater    of startup_server.c updateThread: one cycle of its loop (Updater/Cycle), its start
--              (Updater/Start), its requests against the processing thread (Updater/Fit,
--              Updater/Longer, Updater/Serves), and the thread from its start to its end
--              (Updater/Thread)
--   Handler    of startup_server.c dispatchTableFn and daHandler: the loops over the socket
--              (Handler/Stream), one round (Handler/Answers), the rounds of a connection
--              (Handler/Connection), and the round together with the processing thread
--              (Handler/Served)
--   Listener   of startup_server.c daListener: its loop (Listener/Jobs) and the calls round it
--              (Listener/Setup)
--   System     these threads together on one world; System/Pool has any number of processing
--              threads (System/Pool/Fit, System/Pool/Order), on the world that main sets up
--              (System/Boot)
--   Evaluation of startup_server.c runTxnEvaluation: the state of its loop (Evaluation/Recorded,
--              Evaluation/Round), its ends (Evaluation/Outcome, Evaluation/Completed) and the output
--              (Evaluation/Printed)
--   Startup    of startup_server.c main: the events of a start and an end (Startup/Orderly,
--              Startup/Main)
-- Files named Tests hold runs at concrete inputs.
--
-- How the code is modelled. A C function is a function from the state and its arguments to the state
-- and its result. Failing assertions and accesses out of an array are results of their own (`Call`
-- for aup.c, `Outcome` for the queue). What other threads do while a caller waits, what the lock
-- calls, the clock and `timeToDie` answer, and what getopt_long, atoi and the floating-point
-- operations return, are arguments. The loops over arrays are structural recursion over the number
-- of rounds that are left, so no fuel runs out; the wait loops run over the list of wake-ups that
-- happen, and their result says so when the list ends and the loop does not.
-- The calls of the benchmark library are one set of functions for all steps of the processing
-- threads, and one for each round of the evaluation: within that, what they answer depends on their
-- arguments alone, not on the state of the database. Whether the magic number of a request is right
-- is a flag of the packet, since the macro that asserts it is the library's.
--
-- The threads meet in `World` (Worker): the server context, both queues, the flags and the variables
-- that waiting handlers own, by address. A step of the processing thread is the code between two
-- tests of its loop, so that the run of one request is one step; a cycle of an update thread and a
-- dispatch of a handler act on the world where they enter the queue, and what others do while they
-- wait is an argument. System takes one processing thread, the default of server_config.h;
-- System/Pool takes any number and lets their steps follow each other in any order, but not overlap:
-- the races of two threads on the counters of the context within a step are not modelled.
--
-- Bounds. Tickets wrap at 2^64 and the bound of chronos_aup_get_n_expired at 2^32, as `unsigned`
-- types do. Counters of type `long long` and times in milliseconds do not overflow in the model:
-- they would have to count for millions of years. Of the `int`s that are counted up, the ring
-- positions and `occupied` are bounded by a theorem; the number that the listener gives its
-- handlers is not, and does not wrap in the model.
--
-- Not modelled: the status lines that are printed, the dump calls of aup.c, the usage text, the
-- statistics file but for its lines, freeing of memory, the order in which stores of one thread
-- reach another, samplingThread and waitPeriod, which only disabled code calls, the build with
-- LITMUS_RT, and thpool.c, which is a copy of a library.
pub mod Prelude
pub mod Config
pub mod Evaluation
pub mod Floats
pub mod Time
pub mod Queue
pub mod Aup
pub mod Ac
pub mod Stats
pub mod Monitor
pub mod Args
pub mod Process
pub mod Worker
pub mod Handler
pub mod Updater
pub mod System
pub mod Listener
pub mod Startup
