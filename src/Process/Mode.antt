-- ===== src/Process/Mode.antt =====
-- What a refresh transaction leaves of the running mode.
use chronos_xserver.Prelude.{ℕ, ◌≡◌, refl, some, List, if_cases, ℤ, map}
use chronos_xserver.Config.{server_success, mode_aup}
use chronos_xserver.Floats.{Floats}
use chronos_xserver.Time.{Timeval}
use chronos_xserver.Aup.{Call, done, aborted, overrun, ◌>>=◌, AupEnv, uf_incr}
use chronos_xserver.Aup.Kept.{Gives, bind-Gives}
use chronos_xserver.Args.{UserTxnTypes}
use chronos_xserver.Monitor.{ServerContext, is_full_or}
use chronos_xserver.Process.{
  Packet, Benchmark, Run, copied, count_each, count_in_mode, report_end,
  process_refresh_transaction,
}

bind-map :
    {A B : Type 0} (P : A → Type 0) (Q : B → Type 0) (m : Call A) (f : A → B)
    → ((a : A) → P a → Q (f a))
    → Gives P m
    → Gives Q (m >>= λ a. done (f a))
bind-map P Q (done a) f h g = h a g
bind-map P Q aborted f h g = tt
bind-map P Q overrun f h g = tt

module _ (fp : Floats) (types : UserTxnTypes) (update_stock : ℕ) {Key Order Price : Type 0}
    (bench : Benchmark Key Order Price) where
  count_in_mode-Gives :
      (incr : AupEnv fp → ℤ → Call (AupEnv fp)) (idx : List ℤ) (c : ServerContext fp)
      → Gives (λ c'. c'.running_mode ≡ c.running_mode) (count_in_mode fp incr idx c)
  count_in_mode-Gives incr idx c =
      if_cases (Gives (λ c'. c'.running_mode ≡ c.running_mode)) (is_full_or fp mode_aup c) _ _
        (λ _.
          bind-Gives (λ c'. c'.running_mode ≡ c.running_mode) (count_each fp incr idx c.aup_env) _
            (λ env. refl))
        (λ _. refl)

  -- No refresh changes the running mode.
  pub process_refresh_transaction-Gives :
      (run : Run) (enqueued : Timeval) (packet : Packet Key Order Price) (c : ServerContext fp)
      → Gives
          (λ r. r.1.running_mode ≡ c.running_mode)
          (process_refresh_transaction fp types update_stock bench run enqueued (some packet) c)
  unfolding process_refresh_transaction
  process_refresh_transaction-Gives run enqueued packet c =
      bind-Gives (λ r. r.1.running_mode ≡ c.running_mode)
        (copied packet.num_items packet.update_info) _
        (λ items.
          let counted =
            report_end fp run enqueued update_stock
              (bench.refresh_quotes_list packet.num_items (map (λ e. (e.1, e.2)) items)) c in
          let idx = map (λ e. e.0) items in
          bind-map (λ c'. c'.running_mode ≡ c.running_mode) (λ r. r.1.running_mode ≡ c.running_mode)
            (count_in_mode fp (uf_incr fp) idx counted) (λ c'. (server_success, c'))
            (λ c' same. same) (count_in_mode-Gives (uf_incr fp) idx counted))
