-- ===== src/Process/Refresh.antt =====
-- What a refresh transaction does to the statistics and to the update policy.
use chronos_xserver.Prelude.{
  ℕ, ◌≤◌, ◌<◌, ◌≡◌, refl, sym, subst, if_cases, fun_ext, ap, ◌∙◌, some, List, [], ◌∷◌, arith, All,
  inl, inr, Bool-cases, if◌then◌else◌, length, take, map, get_elem?, ℤ, pos, negsuc, pos_part,
}
use chronos_xserver.Config.{server_success, mode_aup, max_data_items_per_xact}
use chronos_xserver.Floats.{Floats}
use chronos_xserver.Time.{Timeval}
use chronos_xserver.Aup.Kept.{Gives, ItemsOnly, then-ItemsOnly}
use chronos_xserver.Aup.{Call, done, aborted, overrun, ◌>>=◌, AupEnv, DataItem, uf_incr}
use chronos_xserver.Aup.Valid.{IsValid}
use chronos_xserver.Aup.Counts.{Event, updated, Within, play, counted, play-counts}
use chronos_xserver.Args.{UserTxnTypes}
use chronos_xserver.Stats.{update_thread_stats}
use chronos_xserver.Monitor.{ServerContext, is_full_or}
use chronos_xserver.Process.{
  Packet, Benchmark, Run, copied, count_each, count_in_mode, report_end,
  process_refresh_transaction,
}

-- An index of an array of `n` elements.
abbrev pub IndexOf : ℕ → ℤ → Type 0
IndexOf n (pos i) = i < n
IndexOf n (negsuc i) = ⊥

module _ (fp : Floats) where
  -- the events of a list of indices
  abbrev pub events : (ℕ → Event fp) → List ℤ → List (Event fp)
  events event idx = map (λ i. event (pos_part i)) idx

  module _ (incr : AupEnv fp → ℤ → Call (AupEnv fp)) (event : ℕ → Event fp)
      (plays : (i : ℕ) (es : List (Event fp)) (env : AupEnv fp)
        → play fp (event i ∷ es) env ≡ (incr env (pos i) >>= play fp es))
      (inside : (n i : ℕ) → i < n → Within fp n (event i)) where
    events-Within :
        (n : ℕ) (idx : List ℤ) → All (IndexOf n) idx → All (Within fp n) (events event idx)
    events-Within n [] h = tt
    events-Within n (pos i ∷ idx) (h, hs) = (inside n i h, events-Within n idx hs)
    events-Within n (negsuc i ∷ idx) (h, hs) = absurd h

    count_each-play :
        (n : ℕ) (idx : List ℤ) (env : AupEnv fp)
        → All (IndexOf n) idx
        → count_each fp incr idx env ≡ play fp (events event idx) env
    unfolding count_each
    count_each-play n [] env h = refl
    count_each-play n (pos i ∷ idx) env (h, hs) =
        ap (λ k. incr env (pos i) >>= k) (fun_ext (λ e. count_each-play n idx e hs))
        ∙ sym (plays i (events event idx) env)
    count_each-play n (negsuc i ∷ idx) env (h, hs) = absurd h

    -- In the modes AUP and AC_AUP the loop counts every index, in the other modes none.
    pub count_in_mode_lem :
        (idx : List ℤ) (c : ServerContext fp)
        → IsValid fp c.aup_env
        → All (IndexOf c.aup_env.num_elements) idx
        → (env : AupEnv fp) × (count_in_mode fp incr idx c ≡ done (record c { aup_env = env }))
          × IsValid fp env
          × ((j : ℕ) (d : DataItem fp)
              → get_elem? c.aup_env.data_array j ≡ some d
              → get_elem? env.data_array j
                ≡ some (if is_full_or fp mode_aup c then counted fp j (events event idx) d else d))
    count_in_mode_lem idx c v h = elim (Bool-cases (is_full_or fp mode_aup c)) [
      | inr e ↦ (c.aup_env, rw e refl, v, λ j d at. rw e at)
      | inl e ↦
          let n = c.aup_env.num_elements in
          let (env, played, v', at) =
            play-counts fp (events event idx) c.aup_env v (events-Within n idx h) in
          (
            env,
            rw (e, count_each-play n idx c.aup_env h, played) refl,
            v',
            λ j d here. rw e (at j d here),
          )
    ]

module _ (fp : Floats) (incr : AupEnv fp → ℤ → Call (AupEnv fp))
    (kept : (env : AupEnv fp) (i : ℤ) → Gives (ItemsOnly fp env) (incr env i)) where
  count_each-ItemsOnly :
      (idx : List ℤ) (env : AupEnv fp) → Gives (ItemsOnly fp env) (count_each fp incr idx env)
  unfolding count_each
  count_each-ItemsOnly [] env = refl
  count_each-ItemsOnly (i ∷ idx) env =
      then-ItemsOnly fp env (incr env i) (count_each fp incr idx) (kept env i)
        (count_each-ItemsOnly idx)

  in_context :
      (c : ServerContext fp) (m : Call (AupEnv fp))
      → Gives (ItemsOnly fp c.aup_env) m
      → Gives
          (λ c'. ItemsOnly fp c.aup_env c'.aup_env)
          (m >>= λ env. done (record c { aup_env = env }))
  in_context c (done env) same = same
  in_context c aborted same = tt
  in_context c overrun same = tt

  -- The counting changes nothing but items of the environment.
  pub count_in_mode-ItemsOnly :
      (idx : List ℤ) (c : ServerContext fp) (env : AupEnv fp)
      → count_in_mode fp incr idx c ≡ done (record c { aup_env = env })
      → ItemsOnly fp c.aup_env env
  count_in_mode-ItemsOnly idx c env e = subst (Gives (λ c'. ItemsOnly fp c.aup_env c'.aup_env)) e (
      if_cases (Gives (λ c'. ItemsOnly fp c.aup_env c'.aup_env)) (is_full_or fp mode_aup c) _ _
        (λ _. in_context c (count_each fp incr idx c.aup_env) (count_each-ItemsOnly idx c.aup_env))
        (λ _. refl))

-- Entries that are there and fit the local arrays are copied.
pub copied-take :
    {A : Type 0} (n : ℤ) (xs : List A)
    → pos_part n ≤ max_data_items_per_xact
    → pos_part n ≤ length xs
    → copied n xs ≡ done (take (pos_part n) xs)
copied-take n xs small enough = ground arith

module _ (fp : Floats) (types : UserTxnTypes) (update_stock : ℕ) {Key Order Price : Type 0}
    (bench : Benchmark Key Order Price) where
  -- A refresh of at most 100 items that the request holds, at elements of a valid update policy
  -- environment, ends with CHRONOS_SERVER_SUCCESS, also if the database refuses it. Unless the
  -- server warms up, it is reported once, with the status of the database, as a refresh of this
  -- thread; in the modes AUP and AC_AUP each element's update count grows by its occurrences among
  -- the items, and in the other modes no item changes.
  pub process_refresh_transaction_lem :
      (run : Run) (enqueued : Timeval) (packet : Packet Key Order Price) (c : ServerContext fp)
      → IsValid fp c.aup_env
      → pos_part packet.num_items ≤ max_data_items_per_xact
      → pos_part packet.num_items ≤ length packet.update_info
      → All
          (IndexOf c.aup_env.num_elements)
          (map (λ e. e.0) (take (pos_part packet.num_items) packet.update_info))
      → let items = take (pos_part packet.num_items) packet.update_info in
        let idx = map (λ e. e.0) items in
        let txn_rc = bench.refresh_quotes_list packet.num_items (map (λ e. (e.1, e.2)) items) in
        (env : AupEnv fp) × (process_refresh_transaction fp types update_stock bench run enqueued
            (some packet)
            c
          ≡ done (
            server_success,
            record c {
              aup_env = env;
              thread_stats_arr =
                  if run.warming_up
                  then c.thread_stats_arr
                  else update_thread_stats enqueued run.finish_time c.desired_delay_bound_ms
                      update_stock txn_rc run.thread_num c.thread_stats_arr;
            },
          ))
        × IsValid fp env
        × ((j : ℕ) (d : DataItem fp)
            → get_elem? c.aup_env.data_array j ≡ some d
            → get_elem? env.data_array j
              ≡ some
                  (if is_full_or fp mode_aup c then counted fp j (events fp updated idx) d else d))
  unfolding process_refresh_transaction
  process_refresh_transaction_lem run enqueued packet c v small enough h =
      let items = take (pos_part packet.num_items) packet.update_info in
      let idx = map (λ e. e.0) items in
      let txn_rc = bench.refresh_quotes_list packet.num_items (map (λ e. (e.1, e.2)) items) in
      let (env, counted_in, v', at) =
        count_in_mode_lem fp (uf_incr fp) updated (λ i es env. refl) (λ n i inside. inside) idx
          (report_end fp run enqueued update_stock txn_rc c) v h in
      (
        env,
        rw (copied-take packet.num_items packet.update_info small enough, counted_in) refl,
        v',
        at,
      )
