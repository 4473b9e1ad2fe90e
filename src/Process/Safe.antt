-- ===== src/Process/Safe.antt =====
-- Which requests the two processing functions run to their end, without an assertion or an access
-- out of memory, and what that leaves of the update policy environment.
use chronos_xserver.Prelude.{
  ℕ, ◌≤◌, ◌<◌, ◌≡◌, ◌≢◌, ◌∙◌, true, false, some, List, [], ◌∷◌, arith, All, inl, inr, Bool-cases,
  ◌==◌, length, take, map, ℤ, pos, negsuc, pos_part,
}
use chronos_xserver.Config.{server_success, mode_aup, max_data_items_per_xact}
use chronos_xserver.Floats.{Floats}
use chronos_xserver.Time.{Timeval}
use chronos_xserver.Aup.{Call, done, aborted, overrun, ◌>>=◌, AupEnv, af_incr, uf_incr}
use chronos_xserver.Aup.Valid.{IsValid, counter_calls}
use chronos_xserver.Args.{UserTxnTypes}
use chronos_xserver.Monitor.{ServerContext, is_full_or}
use chronos_xserver.Process.{
  Packet, Benchmark, Run, fail_exit, UserEnd, returned, still_freeing, entries, count_each,
  count_in_mode, report_end, finish_order, appends, order_txn, order_call,
  process_refresh_transaction, process_user_transaction,
}
use chronos_xserver.Process.Refresh.{IndexOf, copied-take}

-- A call that ends, with a result of which `P` holds.
abbrev pub Ends : {A : Type 0} → (A → Type 0) → Call A → Type 0
Ends P (done a) = P a
Ends P aborted = ⊥
Ends P overrun = ⊥

pub entries-take :
    {A : Type 0} (n : ℤ) (xs : List A)
    → pos_part n ≤ length xs
    → entries n xs ≡ done (take (pos_part n) xs)
entries-take n xs enough = ground arith

pub Ends-map :
    {A : Type 0} (P Q : A → Type 0) (m : Call A) → ((a : A) → P a → Q a) → Ends P m → Ends Q m
Ends-map P Q (done a) h p = h a p
Ends-map P Q aborted h p = p
Ends-map P Q overrun h p = p

pub bind-Ends :
    {A B : Type 0} (P : A → Type 0) (Q : B → Type 0) (m : Call A) (f : A → Call B)
    → Ends P m
    → ((a : A) → P a → Ends Q (f a))
    → Ends Q (m >>= f)
bind-Ends P Q (done a) f p h = h a p
bind-Ends P Q aborted f p h = absurd p
bind-Ends P Q overrun f p h = absurd p

-- The numbers of the four user transactions differ.
pub record IsDistinct (types : UserTxnTypes) : Type 0 where
  pub stock_portfolio : types.view_stock ≢ types.view_portfolio
  pub stock_purchase : types.view_stock ≢ types.purchase
  pub stock_sale : types.view_stock ≢ types.sale
  pub portfolio_purchase : types.view_portfolio ≢ types.purchase
  pub portfolio_sale : types.view_portfolio ≢ types.sale
  pub purchase_sale : types.purchase ≢ types.sale

module _ {Key Order Price : Type 0} where
  -- A refresh with its magic number, of at most 100 items that the request holds, at elements of the environment.
  pub record IsRefresh (elements : ℕ) (packet : Packet Key Order Price) : Type 0 where
    pub magic : packet.magic_ok ≡ true
    pub small : pos_part packet.num_items ≤ max_data_items_per_xact
    pub enough : pos_part packet.num_items ≤ length packet.update_info
    pub indices :
        All
          (IndexOf elements)
          (map (λ e. e.0) (take (pos_part packet.num_items) packet.update_info))

  -- A user transaction with its magic number, of a known type, with the items that its type reads.
  pub data IsServable (types : UserTxnTypes) (elements : ℕ) (packet : Packet Key Order Price)
      : Type 0 where
    views_stock :
        packet.magic_ok ≡ true
        → packet.txn_type ≡ types.view_stock
        → pos_part packet.num_items ≤ max_data_items_per_xact
        → pos_part packet.num_items ≤ length packet.symbol_info
        → All
            (IndexOf elements)
            (map (λ e. e.0) (take (pos_part packet.num_items) packet.symbol_info))
        → IsServable types elements packet
    views_portfolio :
        packet.magic_ok ≡ true
        → packet.txn_type ≡ types.view_portfolio
        → pos_part packet.num_items ≤ max_data_items_per_xact
        → pos_part packet.num_items ≤ length packet.portfolio_info
        → IsServable types elements packet
    purchases :
        packet.magic_ok ≡ true
        → packet.txn_type ≡ types.purchase
        → pos_part packet.num_items ≤ length packet.purchase_info
        → IsServable types elements packet
    sells :
        packet.magic_ok ≡ true
        → packet.txn_type ≡ types.sale
        → pos_part packet.num_items ≤ length packet.purchase_info
        → IsServable types elements packet

  pub IsServable-magic :
      (types : UserTxnTypes) (elements : ℕ) (packet : Packet Key Order Price)
      → IsServable types elements packet
      → packet.magic_ok ≡ true
  IsServable-magic types elements packet (views_stock magic is_view small enough indices) = magic
  IsServable-magic types elements packet (views_portfolio magic is_view small enough) = magic
  IsServable-magic types elements packet (purchases magic is_purchase enough) = magic
  IsServable-magic types elements packet (sells magic is_sale enough) = magic

module _ (fp : Floats) where
  -- a valid environment with a given number of elements
  abbrev pub IsEnv : ℕ → AupEnv fp → Type 0
  IsEnv n env = IsValid fp env × (env.num_elements ≡ n)

  -- What a user transaction leaves: it has returned, with the environment kept.
  abbrev pub Returned : ℕ → UserEnd (ServerContext fp) → Type 0
  Returned n (returned rc txn_rc c) = IsEnv n c.aup_env
  Returned n still_freeing = ⊥

  af_incr-Ends :
      (n : ℕ) (env : AupEnv fp) (i : ℕ)
      → IsEnv n env
      → i < n
      → Ends (IsEnv n) (af_incr fp env (pos i))
  af_incr-Ends n env i (v, size) h =
      let (env₁, e₁, v₁, n₁, at₁) = (counter_calls fp env i v (omega arith)).0 in
      rw e₁ (v₁, n₁ ∙ size)

  uf_incr-Ends :
      (n : ℕ) (env : AupEnv fp) (i : ℕ)
      → IsEnv n env
      → i < n
      → Ends (IsEnv n) (uf_incr fp env (pos i))
  uf_incr-Ends n env i (v, size) h =
      let (env₁, e₁, v₁, n₁, at₁) = (counter_calls fp env i v (omega arith)).1 in
      rw e₁ (v₁, n₁ ∙ size)

  module _ (n : ℕ) (incr : AupEnv fp → ℤ → Call (AupEnv fp))
      (ends : (env : AupEnv fp) (i : ℕ)
        → IsEnv n env
        → i < n
        → Ends (IsEnv n) (incr env (pos i))) where
    count_each-Ends :
        (idx : List ℤ) (env : AupEnv fp)
        → IsEnv n env
        → All (IndexOf n) idx
        → Ends (IsEnv n) (count_each fp incr idx env)
    unfolding count_each
    count_each-Ends [] env v h = v
    count_each-Ends (pos i ∷ idx) env v (h, hs) =
        bind-Ends (IsEnv n) (IsEnv n) (incr env (pos i)) (count_each fp incr idx) (ends env i v h)
          (λ env₁ v₁. count_each-Ends idx env₁ v₁ hs)
    count_each-Ends (negsuc i ∷ idx) env v (h, hs) = absurd h

    count_in_mode-Ends :
        (idx : List ℤ) (c : ServerContext fp)
        → IsEnv n c.aup_env
        → All (IndexOf n) idx
        → Ends (λ c'. IsEnv n c'.aup_env) (count_in_mode fp incr idx c)
    count_in_mode-Ends idx c v h = elim (Bool-cases (is_full_or fp mode_aup c)) [
      | inr e ↦ rw e v
      | inl e ↦ rw e (
          bind-Ends (IsEnv n) (λ c'. IsEnv n c'.aup_env) (count_each fp incr idx c.aup_env)
            (λ env. done (record c { aup_env = env })) (count_each-Ends idx c.aup_env v h)
            (λ env v'. v'))
    ]

module _ (fp : Floats) (types : UserTxnTypes) (update_stock : ℕ) {Key Order Price : Type 0}
    (bench : Benchmark Key Order Price) where
  -- The run of a refresh that fits ends, and keeps the environment.
  pub process_refresh_transaction-Ends :
      (n : ℕ) (run : Run) (enqueued : Timeval) (packet : Packet Key Order Price)
      (c : ServerContext fp)
      → IsEnv fp n c.aup_env
      → IsRefresh n packet
      → Ends
          (λ r. IsEnv fp n r.1.aup_env)
          (process_refresh_transaction fp types update_stock bench run enqueued (some packet) c)
  unfolding process_refresh_transaction
  process_refresh_transaction-Ends n run enqueued packet c v f =
      rw (copied-take packet.num_items packet.update_info f.small f.enough) (
        bind-Ends (λ c'. IsEnv fp n c'.aup_env) (λ r. IsEnv fp n r.1.aup_env) _
          (λ c'. done (server_success, c'))
          (count_in_mode-Ends fp n (uf_incr fp) (uf_incr-Ends fp n) _
            (report_end fp run enqueued update_stock
              (bench.refresh_quotes_list packet.num_items
                (map (λ e. (e.1, e.2)) (take (pos_part packet.num_items) packet.update_info)))
              c)
            v f.indices)
          (λ c' v'. v'))

  order_txn-Returned :
      (n : ℕ) (run : Run) (frees : List ℕ) (enqueued : Timeval) (t : ℕ) (c : ServerContext fp)
      (execute : List Order → ℕ) (orders : List Order)
      → IsEnv fp n c.aup_env
      → run.frees ≡ server_success ∷ frees
      → Returned fp n (
          finish_order fp run enqueued t c
            (order_txn fp types update_stock bench execute orders run.frees))
  unfolding fail_exit
  order_txn-Returned n run frees enqueued t c execute orders v e =
      elim (Bool-cases (appends bench [] orders)) [
        | inl all ↦ rw (all, e) v
        | inr stops ↦ rw (stops, e) v
      ]

  order_call-Ends :
      (n : ℕ) (run : Run) (frees : List ℕ) (enqueued : Timeval) (packet : Packet Key Order Price)
      (c : ServerContext fp) (execute : List Order → ℕ)
      → IsEnv fp n c.aup_env
      → run.frees ≡ server_success ∷ frees
      → pos_part packet.num_items ≤ length packet.purchase_info
      → Ends (Returned fp n) (order_call fp types update_stock bench run enqueued packet c execute)
  order_call-Ends n run frees enqueued packet c execute v e enough =
      rw (entries-take packet.num_items packet.purchase_info enough)
        (elim (Bool-cases (bench.data_packet_alloc packet.num_items == server_success)) [
          | inl fits ↦
              rw fits (order_txn-Returned n run frees enqueued packet.txn_type c execute _ v e)
          | inr fails ↦ rw fails v
        ])

  -- The run of a user transaction that fits returns, and keeps the environment, if the first call
  -- that frees a data packet succeeds.
  pub process_user_transaction-Ends :
      (n : ℕ) (run : Run) (frees : List ℕ) (enqueued : Timeval) (packet : Packet Key Order Price)
      (c : ServerContext fp)
      → IsDistinct types
      → IsEnv fp n c.aup_env
      → run.frees ≡ server_success ∷ frees
      → IsServable types n packet
      → Ends
          (Returned fp n)
          (process_user_transaction fp types update_stock bench run enqueued packet c)
  unfolding process_user_transaction
  process_user_transaction-Ends n run frees enqueued packet c d v e
        (views_stock magic is small enough indices) =
      let t₁ : (packet.txn_type == types.view_stock) ≡ true = ground arith in
      rw (t₁, copied-take packet.num_items packet.symbol_info small enough)
        (bind-Ends (λ c'. IsEnv fp n c'.aup_env) (Returned fp n) _ _
          (count_in_mode-Ends fp n (af_incr fp) (af_incr-Ends fp n) _ c v indices) (λ c' v'. v'))
  process_user_transaction-Ends n run frees enqueued packet c d v e
        (views_portfolio magic is small enough) =
      let t₁ : (packet.txn_type == types.view_stock) ≡ false = ground arith in
      let t₂ : (packet.txn_type == types.view_portfolio) ≡ true = ground arith in
      rw (t₁, t₂, copied-take packet.num_items packet.portfolio_info small enough) v
  process_user_transaction-Ends n run frees enqueued packet c d v e (purchases magic is enough) =
      let t₁ : (packet.txn_type == types.view_stock) ≡ false = ground arith in
      let t₂ : (packet.txn_type == types.view_portfolio) ≡ false = ground arith in
      let t₃ : (packet.txn_type == types.purchase) ≡ true = ground arith in
      rw (t₁, t₂, t₃) (order_call-Ends n run frees enqueued packet c bench.purchase2 v e enough)
  process_user_transaction-Ends n run frees enqueued packet c d v e (sells magic is enough) =
      let t₁ : (packet.txn_type == types.view_stock) ≡ false = ground arith in
      let t₂ : (packet.txn_type == types.view_portfolio) ≡ false = ground arith in
      let t₃ : (packet.txn_type == types.purchase) ≡ false = ground arith in
      let t₄ : (packet.txn_type == types.sale) ≡ true = ground arith in
      rw (t₁, t₂, t₃, t₄) (order_call-Ends n run frees enqueued packet c bench.sell2 v e enough)
