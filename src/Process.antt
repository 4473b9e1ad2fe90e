-- ===== src/Process.antt =====
-- startup_server.c: `processRefreshTransaction` and `processUserTransaction`, which run one dequeued
-- request. The calls of the benchmark library are parameters, and so are the clock, the answers of
-- the lock calls and the flag `warming_up`. The magic numbers of the context and of the thread, which
-- nothing changes after the start, are taken to be right.
pub mod Refresh
pub mod View
pub mod Fate
pub mod Mode
pub mod Safe
pub mod Tests
use chronos_xserver.Prelude.{
  ℕ, Bool, true, false, ◌++◌, Option, none, some, List, [], ◌∷◌, ltb, ◌==◌, if◌then◌else◌, length,
  take, map, ℤ, pos, pos_part,
}
use chronos_xserver.Config.{server_success, server_fail, mode_ac, mode_aup, max_data_items_per_xact}
use chronos_xserver.Floats.{Floats}
use chronos_xserver.Time.{Timeval}
use chronos_xserver.Aup.{Call, done, aborted, overrun, ◌>>=◌, AupEnv, af_incr, uf_incr}
use chronos_xserver.Ac.{wait_decrease}
use chronos_xserver.Stats.{update_thread_stats}
use chronos_xserver.Args.{UserTxnTypes, branch}
use chronos_xserver.Monitor.{ServerContext, is_full_or}

-- What `chronosRequestPacket_t` carries, by the fields that these functions read: keys are symbols
-- and accounts, an order is one entry of `purchaseInfo`. What CHRONOS_REQUEST_MAGIC_CHECK asserts of
-- the magic number is a flag: the macro and the number are the library's.
pub record Packet (Key Order Price : Type 0) : Type 0 where
  pub magic_ok : Bool
  pub txn_type : ℕ
  pub num_items : ℤ
  pub symbol_info : List (ℤ × Key)
  pub portfolio_info : List Key
  pub purchase_info : List Order
  pub update_info : List (ℤ × Key × Price)

-- What the calls of the benchmark library answer: functions of their arguments, so that two calls
-- with the same arguments answer the same. `data_packet_append` is given the entries of the packet,
-- the new one last.
pub record Benchmark (Key Order Price : Type 0) : Type 0 where
  pub view_stock2 : ℤ → List Key → ℕ
  pub view_portfolio2 : ℤ → List Key → ℕ
  pub data_packet_alloc : ℤ → ℕ
  pub data_packet_append : List Order → ℕ
  pub purchase2 : List Order → ℕ
  pub sell2 : List Order → ℕ
  pub refresh_quotes_list : ℤ → List (Key × Price) → ℕ

-- What else the run of one request depends on. `frees` is what the calls of
-- benchmark_data_packet_free return, one after the other.
pub record Run : Type 0 where
  pub warming_up : Bool
  pub thread_num : ℕ
  pub finish_time : Timeval
  pub lock_rc : ℕ
  pub unlock_rc : ℕ
  pub frees : List ℕ

-- The first entries of an array of the request.
abbrev pub entries : {A : Type 0} → ℤ → List A → Call (List A)
entries n xs = if ltb (length xs) (pos_part n) then overrun else done (take (pos_part n) xs)

-- The same, where they are copied to local arrays of 100 slots.
abbrev pub copied : {A : Type 0} → ℤ → List A → Call (List A)
copied n xs = if ltb max_data_items_per_xact (pos_part n) then overrun else entries n xs

-- How the part of a purchase or a sale with its data packet ends: with the status of the
-- transaction; with a jump to `failXit` that comes out; or in the loop there, which frees the packet
-- until a call succeeds. The second keeps the status, if it was written before.
pub data OrderEnd : Type 0 where
  ran : ℕ → OrderEnd
  gave_up : Option ℕ → OrderEnd
  freeing : OrderEnd

-- the part behind `failXit`, with a packet to free
pub fail_exit : Option ℕ → List ℕ → OrderEnd
fail_exit txn_rc [] = freeing
fail_exit txn_rc (r ∷ frees) =
    let again = fail_exit txn_rc frees in if r == server_success then gave_up txn_rc else again

-- the packet is freed after the transaction
abbrev pub free_packet : ℕ → List ℕ → OrderEnd
free_packet txn_rc [] = freeing
free_packet txn_rc (r ∷ frees) =
    if r == server_success then ran txn_rc else fail_exit (some txn_rc) frees

-- How `processUserTransaction` ends: its result, `*txn_rc` if it was written, and the context.
pub data UserEnd (Context : Type 0) : Type 0 where
  returned : ℕ → Option ℕ → Context → UserEnd Context
  still_freeing : UserEnd Context

module _ (fp : Floats) where
  -- the loops over `idx_list`
  pub count_each : (AupEnv fp → ℤ → Call (AupEnv fp)) → List ℤ → AupEnv fp → Call (AupEnv fp)
  count_each incr [] env = done env
  count_each incr (i ∷ idx) env = incr env i >>= count_each incr idx

  -- in the modes AUP and AC_AUP
  abbrev pub count_in_mode :
      (AupEnv fp → ℤ → Call (AupEnv fp)) → List ℤ → ServerContext fp → Call (ServerContext fp)
  count_in_mode incr idx c =
      if is_full_or fp mode_aup c
      then (count_each incr idx c.aup_env >>= λ env. done (record c { aup_env = env }))
      else done c

  -- the update of the statistics
  abbrev pub report_end : Run → Timeval → ℕ → ℕ → ServerContext fp → ServerContext fp
  report_end run enqueued txn_type txn_rc c = record c {
    thread_stats_arr =
        if run.warming_up
        then c.thread_stats_arr
        else update_thread_stats enqueued run.finish_time c.desired_delay_bound_ms txn_type txn_rc
            run.thread_num c.thread_stats_arr;
  }

  -- the steps behind the `switch`
  abbrev pub finish_user : Run → Timeval → ℕ → ℕ → ServerContext fp → UserEnd (ServerContext fp)
  finish_user run enqueued txn_type txn_rc c =
      let c' = record c {
        ac_env =
            if is_full_or fp mode_ac c
            then (wait_decrease run.lock_rc run.unlock_rc c.ac_env).1
            else c.ac_env;
      } in
      returned server_success (some txn_rc) (report_end run enqueued txn_type txn_rc c')

  abbrev pub finish_order :
      Run → Timeval → ℕ → ServerContext fp → OrderEnd → UserEnd (ServerContext fp)
  finish_order run enqueued txn_type c (ran txn_rc) = finish_user run enqueued txn_type txn_rc c
  finish_order run enqueued txn_type c (gave_up txn_rc) = returned server_fail txn_rc c
  finish_order run enqueued txn_type c freeing = still_freeing

module _ {Key Order Price : Type 0} (bench : Benchmark Key Order Price) where
  -- all entries can be appended to the data packet
  unfoldable pub appends : List Order → List Order → Bool
  appends before [] = true
  appends before (x ∷ orders) =
      let rest = appends (before ++ (x ∷ [])) orders in
      if bench.data_packet_append (before ++ (x ∷ [])) == server_success then rest else false

module _ (fp : Floats) (types : UserTxnTypes) (update_stock : ℕ) {Key Order Price : Type 0}
    (bench : Benchmark Key Order Price) where
  -- `none` is a NULL request.
  pub process_refresh_transaction :
      Run
      → Timeval
      → Option (Packet Key Order Price)
      → ServerContext fp
      → Call (ℕ × ServerContext fp)
  process_refresh_transaction run enqueued none c = done (server_fail, c)
  process_refresh_transaction run enqueued (some packet) c = do
    items ← copied packet.num_items packet.update_info
    let txn_rc = bench.refresh_quotes_list packet.num_items (map (λ e. (e.1, e.2)) items) in
        count_in_mode fp (uf_incr fp) (map (λ e. e.0) items)
          (report_end fp run enqueued update_stock txn_rc c)
        >>= λ c'. done (server_success, c')

  -- what is done with the data packet
  abbrev pub order_txn : (List Order → ℕ) → List Order → List ℕ → OrderEnd
  order_txn execute orders frees =
      if appends bench [] orders then free_packet (execute orders) frees else fail_exit none frees

  -- the cases of a purchase and of a sale
  abbrev pub order_call :
      Run
      → Timeval
      → Packet Key Order Price
      → ServerContext fp
      → (List Order → ℕ)
      → Call (UserEnd (ServerContext fp))
  order_call run enqueued packet c execute =
      if bench.data_packet_alloc packet.num_items == server_success
      then (entries packet.num_items packet.purchase_info >>= λ orders.
          done
            (finish_order fp run enqueued packet.txn_type c (order_txn execute orders run.frees)))
      else done (finish_order fp run enqueued packet.txn_type c (gave_up none))

  abbrev pub user_cases :
      Run
      → Timeval
      → Packet Key Order Price
      → ServerContext fp
      → List (Bool × Call (UserEnd (ServerContext fp)))
  user_cases run enqueued packet c =
      let t = packet.txn_type in
      let n = packet.num_items in
      (
        t == types.view_stock,
        copied n packet.symbol_info >>= λ items.
            count_in_mode fp (af_incr fp) (map (λ e. e.0) items) c >>= λ c'.
            done (finish_user fp run enqueued t (bench.view_stock2 n (map (λ e. e.1) items)) c'),
      )
      ∷ (
        t == types.view_portfolio,
        copied n packet.portfolio_info >>= λ keys.
            done (finish_user fp run enqueued t (bench.view_portfolio2 n keys) c),
      )
      ∷ (t == types.purchase, order_call run enqueued packet c bench.purchase2)
      ∷ (t == types.sale, order_call run enqueued packet c bench.sell2)
      ∷ []

  -- For pointers that are not NULL. A type of transaction that no case names stops at `assert(0)`.
  unfoldable pub process_user_transaction :
      Run → Timeval → Packet Key Order Price → ServerContext fp → Call (UserEnd (ServerContext fp))
  process_user_transaction run enqueued packet c = branch (user_cases run enqueued packet c) aborted
