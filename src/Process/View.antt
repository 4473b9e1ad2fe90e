-- ===== src/Process/View.antt =====
-- What a view of stocks does to the statistics, to the admission controller and to the update policy.
use chronos_xserver.Prelude.{
  ℕ, ◌≤◌, ◌≡◌, refl, true, some, arith, All, ◌==◌, if◌then◌else◌, length, take, map, get_elem?,
  pos_part,
}
use chronos_xserver.Config.{server_success, mode_ac, mode_aup, max_data_items_per_xact}
use chronos_xserver.Floats.{Floats}
use chronos_xserver.Time.{Timeval}
use chronos_xserver.Aup.{done, AupEnv, DataItem, af_incr}
use chronos_xserver.Aup.Valid.{IsValid}
use chronos_xserver.Aup.Counts.{accessed, counted}
use chronos_xserver.Ac.{wait_decrease}
use chronos_xserver.Args.{UserTxnTypes}
use chronos_xserver.Stats.{update_thread_stats}
use chronos_xserver.Monitor.{ServerContext, is_full_or}
use chronos_xserver.Process.{Packet, Benchmark, Run, returned, process_user_transaction}
use chronos_xserver.Process.Refresh.{
  IndexOf, events, count_in_mode_lem, count_in_mode-ItemsOnly, copied-take,
}
use chronos_xserver.Aup.Kept.{ItemsOnly, incr-ItemsOnly}

module _ (fp : Floats) (types : UserTxnTypes) (update_stock : ℕ) {Key Order Price : Type 0}
    (bench : Benchmark Key Order Price) where
  -- A view of at most 100 stocks that the request holds, at elements of a valid update policy
  -- environment, ends with CHRONOS_SERVER_SUCCESS and hands out the status of the database. In the
  -- modes AC and AC_AUP the admission controller is decreased once; unless the server warms up, the
  -- view is reported once, with that status; and in the modes AUP and AC_AUP each element's access
  -- count grows by its occurrences among the stocks. Nothing else
  -- changes: not the rest of the environment either.
  pub process_user_transaction_lem :
      (run : Run) (enqueued : Timeval) (packet : Packet Key Order Price) (c : ServerContext fp)
      → packet.txn_type ≡ types.view_stock
      → IsValid fp c.aup_env
      → pos_part packet.num_items ≤ max_data_items_per_xact
      → pos_part packet.num_items ≤ length packet.symbol_info
      → All
          (IndexOf c.aup_env.num_elements)
          (map (λ e. e.0) (take (pos_part packet.num_items) packet.symbol_info))
      → let items = take (pos_part packet.num_items) packet.symbol_info in
        let idx = map (λ e. e.0) items in
        let txn_rc = bench.view_stock2 packet.num_items (map (λ e. e.1) items) in
        (env : AupEnv fp) × (process_user_transaction fp types update_stock bench run enqueued
            packet c
          ≡ done (
              returned server_success (some txn_rc) (record c {
                aup_env = env;
                ac_env =
                    if is_full_or fp mode_ac c
                    then (wait_decrease run.lock_rc run.unlock_rc c.ac_env).1
                    else c.ac_env;
                thread_stats_arr =
                    if run.warming_up
                    then c.thread_stats_arr
                    else update_thread_stats enqueued run.finish_time c.desired_delay_bound_ms
                        packet.txn_type txn_rc run.thread_num c.thread_stats_arr;
              })))
        × IsValid fp env
        × ItemsOnly fp c.aup_env env
        × ((j : ℕ) (d : DataItem fp)
            → get_elem? c.aup_env.data_array j ≡ some d
            → get_elem? env.data_array j
              ≡ some
                  (if is_full_or fp mode_aup c then counted fp j (events fp accessed idx) d else d))
  unfolding process_user_transaction
  process_user_transaction_lem run enqueued packet c is_view v small enough h =
      let idx = map (λ e. e.0) (take (pos_part packet.num_items) packet.symbol_info) in
      let first : (packet.txn_type == types.view_stock) ≡ true = ground arith in
      let (env, counted_in, v', at) =
        count_in_mode_lem fp (af_incr fp) accessed (λ i es env. refl) (λ n i inside. inside) idx c v
          h in
      (
        env,
        rw (first, copied-take packet.num_items packet.symbol_info small enough, counted_in) refl,
        v',
        count_in_mode-ItemsOnly fp (af_incr fp) (λ env i. (incr-ItemsOnly fp env i).0) idx c env
            counted_in,
        at,
      )
