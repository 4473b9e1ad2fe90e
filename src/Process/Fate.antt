-- ===== src/Process/Fate.antt =====
-- All ways in which `processUserTransaction` can go, for every type of transaction.
use chronos_xserver.Prelude.{
  if_cases, ◌==◌, ℕ, Option, none, some, List, inl, inr, Bool-cases, if◌then◌else◌, map, ℤ,
}
use chronos_xserver.Config.{server_success, server_fail, mode_ac, mode_aup}
use chronos_xserver.Floats.{Floats}
use chronos_xserver.Time.{Timeval}
use chronos_xserver.Aup.{Call, done, aborted, overrun, ◌>>=◌, AupEnv, af_incr}
use chronos_xserver.Ac.{wait_decrease}
use chronos_xserver.Args.{UserTxnTypes}
use chronos_xserver.Args.Accepted.{branch-All}
use chronos_xserver.Stats.{update_thread_stats}
use chronos_xserver.Monitor.{ServerContext, is_full_or}
use chronos_xserver.Process.{
  Packet, Benchmark, Run, OrderEnd, ran, gave_up, freeing, UserEnd, returned, still_freeing,
  entries, copied, count_each, count_in_mode, finish_user, finish_order, order_call, user_cases,
  process_user_transaction,
}

module _ (fp : Floats) (run : Run) (enqueued : Timeval) (txn_type : ℕ) (c : ServerContext fp) where
  -- The call reports the transaction once and decreases the admission controller once, in the modes
  -- that have it, and returns CHRONOS_SERVER_SUCCESS; or it returns CHRONOS_SERVER_FAIL and leaves
  -- the context as it was; or it is still trying to free a data packet, stops at an assertion or
  -- leaves its memory.
  pub data Fate : Call (UserEnd (ServerContext fp)) → Type 0 where
    reported :
        (txn_rc : ℕ) (env : AupEnv fp)
        → Fate (
            done (
              returned server_success (some txn_rc) (record c {
                aup_env = env;
                ac_env =
                    if is_full_or fp mode_ac c
                    then (wait_decrease run.lock_rc run.unlock_rc c.ac_env).1
                    else c.ac_env;
                thread_stats_arr =
                    if run.warming_up
                    then c.thread_stats_arr
                    else update_thread_stats enqueued run.finish_time c.desired_delay_bound_ms
                        txn_type txn_rc run.thread_num c.thread_stats_arr;
              })))
    untouched : (txn_rc : Option ℕ) → Fate (done (returned server_fail txn_rc c))
    frees_on : Fate (done still_freeing)
    asserts : Fate aborted
    overruns : Fate overrun

  bind-Fate :
      {A : Type 0} (m : Call A) (f : A → Call (UserEnd (ServerContext fp)))
      → ((a : A) → Fate (f a))
      → Fate (m >>= f)
  bind-Fate (done a) f h = h a
  bind-Fate aborted f h = asserts
  bind-Fate overrun f h = overruns

  counted_env-Fate :
      (txn_rc : ℕ) (m : Call (AupEnv fp))
      → Fate (
          m >>= (λ env. done (record c { aup_env = env })) >>= λ c'.
          done (finish_user fp run enqueued txn_type txn_rc c'))
  counted_env-Fate txn_rc (done env) = reported txn_rc env
  counted_env-Fate txn_rc aborted = asserts
  counted_env-Fate txn_rc overrun = overruns

  counted-Fate :
      (idx : List ℤ) (txn_rc : ℕ)
      → Fate (
          count_in_mode fp (af_incr fp) idx c >>= λ c'.
          done (finish_user fp run enqueued txn_type txn_rc c'))
  counted-Fate idx txn_rc = elim (Bool-cases (is_full_or fp mode_aup c)) [
    | inr e ↦ rw e (reported txn_rc c.aup_env)
    | inl e ↦ rw e (counted_env-Fate txn_rc (count_each fp (af_incr fp) idx c.aup_env))
  ]

  order-Fate : (o : OrderEnd) → Fate (done (finish_order fp run enqueued txn_type c o))
  order-Fate (ran txn_rc) = reported txn_rc c.aup_env
  order-Fate (gave_up txn_rc) = untouched txn_rc
  order-Fate freeing = frees_on

-- Whatever the request, the answers of the benchmark library and the state, the call goes one of the
-- ways of `Fate`: in particular it never returns CHRONOS_SERVER_FAIL after it has reported a
-- transaction or counted an access, and CHRONOS_SERVER_SUCCESS only with the
-- report made, unless the server warms up.
pub process_user_transaction-Fate :
    (fp : Floats) (types : UserTxnTypes) (update_stock : ℕ) {Key Order Price : Type 0}
    (bench : Benchmark Key Order Price) (run : Run) (enqueued : Timeval)
    (packet : Packet Key Order Price) (c : ServerContext fp)
    → Fate fp run enqueued packet.txn_type c
        (process_user_transaction fp types update_stock bench run enqueued packet c)
unfolding process_user_transaction
process_user_transaction-Fate fp types update_stock bench run enqueued packet c =
    let t = packet.txn_type in
    let n = packet.num_items in
    let P = Fate fp run enqueued t c in
    let order : (execute : _)
        → P (order_call fp types update_stock bench run enqueued packet c execute) =
      λ execute.
        if_cases P (bench.data_packet_alloc n == server_success) _ _
          (λ _.
            bind-Fate fp run enqueued t c (entries n packet.purchase_info) _
              (λ orders. order-Fate fp run enqueued t c _))
          (λ _. order-Fate fp run enqueued t c (gave_up none)) in
    branch-All P (user_cases fp types update_stock bench run enqueued packet c) aborted
      (
        λ _. bind-Fate fp run enqueued t c (copied n packet.symbol_info) _ (λ items.
            counted-Fate fp run enqueued t c (map (λ e. e.0) items)
              (bench.view_stock2 n (map (λ e. e.1) items))),
        (
          λ _.
              bind-Fate fp run enqueued t c (copied n packet.portfolio_info) _
                (λ keys. reported (bench.view_portfolio2 n keys) c.aup_env),
          (λ _. order bench.purchase2, (λ _. order bench.sell2, tt)),
        ),
      )
      asserts
