-- ===== src/Evaluation/Round.antt =====
-- What one round of `runTxnEvaluation` does, and when it asserts or leaves its memory.
use chronos_xserver.Prelude.{
  ℕ, suc, ◌+◌, ◌≤◌, ◌<◌, ◌≡◌, ◌≢◌, refl, sym, subst, ◌∙◌, inl, inr, false, none, some, List, [],
  ◌⊎◌, true, All, map, arith, Bool-cases, Option-cases, ◌==◌, ==→eq, eq→==, ==→ne, length, take, ℤ,
  pos, pos_part,
}
use chronos_xserver.Config.{server_success, server_fail, max_data_items_per_xact}
use chronos_xserver.Time.{udiff_time}
use chronos_xserver.Aup.{Call, done, aborted, overrun, ◌>>=◌}
use chronos_xserver.Args.{UserTxnTypes, Settings}
use chronos_xserver.Args.Accepted.{
  IsChoice, chose_view_stock, chose_view_portfolio, chose_purchase, chose_sale, chose_refresh,
  Chosen, branch-Chosen, branch-Any,
}
use chronos_xserver.Process.{Packet, copied, appends}
use chronos_xserver.Process.Refresh.{copied-take}
use chronos_xserver.Process.Safe.{entries-take}
use chronos_xserver.Stats.Response.{num_samples, Responses, capture}
use chronos_xserver.Evaluation.{
  Turn, Evaluation, TxnRun, ran, failed, Rounded, goes_on, returns, counted, order_run, run_cases,
  run_txn, after_run, round,
}
use chronos_xserver.Evaluation.Recorded.{Results, Recorded, IsOutside, Captured, capture-Captured}

-- An evaluation of refreshes, whose number no case of the `switch` has.
pub record IsUnnamed (types : UserTxnTypes) (update_stock : ℕ) (s : Settings) : Type 0 where
  pub refreshes : s.evaluated_txn ≡ types.txn_max
  pub other : update_stock ≢ types.txn_max

module _ {Key Order Price : Type 0} (types : UserTxnTypes) (update_stock : ℕ) where
  -- A request of type `t` with `n` items, which are there.
  pub record IsCreated (n t : ℕ) (packet : Packet Key Order Price) : Type 0 where
    pub items : packet.num_items ≡ pos n
    pub symbols : t ≡ types.view_stock → n ≤ length packet.symbol_info
    pub accounts : t ≡ types.view_portfolio → n ≤ length packet.portfolio_info
    pub purchases : t ≡ types.purchase → n ≤ length packet.purchase_info
    pub sales : t ≡ types.sale → n ≤ length packet.purchase_info
    pub updates : t ≡ update_stock → n ≤ length packet.update_info

  -- The status that a request of type `t` gets from the benchmark library.
  pub data Answered (t : ℕ) (turn : Turn Key Order Price) (packet : Packet Key Order Price)
      : ℕ → Type 0 where
    stock_viewed :
        t ≡ types.view_stock
        → Answered t turn packet (
            turn.bench.view_stock2 packet.num_items
              (map (λ e. e.1) (take (pos_part packet.num_items) packet.symbol_info)))
    portfolio_viewed :
        t ≡ types.view_portfolio
        → Answered t turn packet (
            turn.bench.view_portfolio2 packet.num_items
              (take (pos_part packet.num_items) packet.portfolio_info))
    purchased :
        t ≡ types.purchase
        → Answered t turn packet
            (turn.bench.purchase2 (take (pos_part packet.num_items) packet.purchase_info))
    sold :
        t ≡ types.sale
        → Answered t turn packet
            (turn.bench.sell2 (take (pos_part packet.num_items) packet.purchase_info))
    refreshed :
        t ≡ update_stock
        → Answered t turn packet (
            turn.bench.refresh_quotes_list packet.num_items
              (map (λ e. (e.1, e.2)) (take (pos_part packet.num_items) packet.update_info)))

  -- Why an order is not carried out, or its data packet not released.
  pub data NotOrdered (turn : Turn Key Order Price) (packet : Packet Key Order Price) : Type 0 where
    not_allocated :
        turn.bench.data_packet_alloc packet.num_items ≢ server_success → NotOrdered turn packet
    not_appended :
        appends turn.bench [] (take (pos_part packet.num_items) packet.purchase_info) ≡ false
        → NotOrdered turn packet
    not_released : turn.data_packet_free ≢ server_success → NotOrdered turn packet

  -- Why a round is the last one, and with which code.
  pub data Stops (s : Settings) (turn : Turn Key Order Price) : ℕ → Type 0 where
    no_request : turn.request_create s.txn_size s.evaluated_txn ≡ none → Stops s turn server_success
    not_ordered :
        (packet : Packet Key Order Price)
        → turn.request_create s.txn_size s.evaluated_txn ≡ some packet
        → NotOrdered turn packet
        → Stops s turn server_fail
    not_freed : turn.request_free ≢ server_success → Stops s turn turn.request_free

  -- A round that has got its request and a status for it.
  pub record HasStatus (s : Settings) (turn : Turn Key Order Price) (txn_rc : ℕ) : Type 0 where
    pub packet : Packet Key Order Price
    pub created : turn.request_create s.txn_size s.evaluated_txn ≡ some packet
    pub status : Answered s.evaluated_txn turn packet txn_rc

  -- The numbers of successes and failures among the first rounds.
  pub data Counts (s : Settings) (turns : ℕ → Turn Key Order Price) : ℕ → ℕ → ℕ → Type 0 where
    no_round : Counts s turns 0 0 0
    success :
        {k a b : ℕ}
        → Counts s turns k a b
        → HasStatus s (turns k) server_success
        → Counts s turns (suc k) (a + 1) b
    failure :
        {k a b : ℕ} (txn_rc : ℕ)
        → Counts s turns k a b
        → HasStatus s (turns k) txn_rc
        → txn_rc ≢ server_success
        → Counts s turns (suc k) a (b + 1)

  -- The counts and the response times after `k` rounds.
  pub record IsCounted (s : Settings) (turns : ℕ → Turn Key Order Price) (times : ℕ → ℤ) (k : ℕ)
      (e : Evaluation) : Type 0 where
    pub rc : e.rc ≡ server_success
    pub total : e.num_total_txns ≡ k
    pub counts : Counts s turns k e.num_success e.num_failures
    pub recorded : Recorded times k e.responses

  abbrev Ran : ℕ → Turn Key Order Price → Packet Key Order Price → TxnRun → Type 0
  Ran t turn packet (ran txn_rc) = Answered t turn packet txn_rc
  Ran t turn packet failed = NotOrdered turn packet

  abbrev RunEnds : Settings → Turn Key Order Price → Packet Key Order Price → Call TxnRun → Type 0
  RunEnds s turn packet =
      Results (Ran s.evaluated_txn turn packet) (IsUnnamed types update_stock s) ⊥

  order_run-RunEnds :
      (s : Settings) (turn : Turn Key Order Price) (packet : Packet Key Order Price)
      (execute : List Order → ℕ)
      → pos_part packet.num_items ≤ length packet.purchase_info
      → Answered s.evaluated_txn turn packet
          (execute (take (pos_part packet.num_items) packet.purchase_info))
      → RunEnds s turn packet (order_run types update_stock turn packet execute)
  order_run-RunEnds s turn packet execute enough status =
      rw (entries-take packet.num_items packet.purchase_info enough)
        (elim (Bool-cases (turn.bench.data_packet_alloc packet.num_items == server_success)) [
          | inr e ↦ rw e (not_allocated (==→ne _ _ e))
          | inl e ↦
              elim (Bool-cases
                (appends turn.bench [] (take (pos_part packet.num_items) packet.purchase_info))) [
                  | inr stops ↦ rw (e, stops) (not_appended stops)
                  | inl all ↦ elim (Bool-cases (turn.data_packet_free == server_success)) [
                    | inr kept ↦ rw (e, all, kept) (not_released (==→ne _ _ kept))
                    | inl free ↦ rw (e, all, free) status
                  ]
                ]
        ])

  copied-RunEnds :
      {A : Type 0} (n : ℤ) (xs : List A) (s : Settings) (turn : Turn Key Order Price)
      (packet : Packet Key Order Price) (execute : List A → ℕ)
      → pos_part n ≤ max_data_items_per_xact
      → pos_part n ≤ length xs
      → Answered s.evaluated_txn turn packet (execute (take (pos_part n) xs))
      → RunEnds s turn packet (copied n xs >>= λ items. done (ran (execute items)))
  copied-RunEnds n xs s turn packet execute small enough status =
      rw (copied-take n xs small enough) status

  choice-Chosen :
      (t : ℕ) (turn : Turn Key Order Price) (packet : Packet Key Order Price)
      → IsChoice types t
      → Chosen (run_cases types update_stock t turn packet)
        ⊎ ((t ≡ types.txn_max) × (update_stock ≢ types.txn_max))
  choice-Chosen t turn packet (chose_view_stock e) = inl (inl (eq→== _ _ e))
  choice-Chosen t turn packet (chose_view_portfolio e) = inl (inr (inl (eq→== _ _ e)))
  choice-Chosen t turn packet (chose_purchase e) = inl (inr (inr (inl (eq→== _ _ e))))
  choice-Chosen t turn packet (chose_sale e) = inl (inr (inr (inr (inl (eq→== _ _ e)))))
  choice-Chosen t turn packet (chose_refresh e) =
      elim (Bool-cases (update_stock == types.txn_max)) [
        | inl same ↦ inl (inr (inr (inr (inr (inl (eq→== _ _ (e ∙ sym (==→eq _ _ same))))))))
        | inr other ↦ inr (e, ==→ne _ _ other)
      ]

  pub run_txn-RunEnds :
      (s : Settings) (turn : Turn Key Order Price) (packet : Packet Key Order Price)
      → s.txn_size ≤ max_data_items_per_xact
      → IsChoice types s.evaluated_txn
      → IsCreated s.txn_size s.evaluated_txn packet
      → RunEnds s turn packet (run_txn types update_stock s.evaluated_txn turn packet)
  unfolding run_txn
  run_txn-RunEnds s turn packet small choice c =
      let t = s.evaluated_txn in
      let size : pos_part packet.num_items ≡ s.txn_size = rw c.items refl in
      let all : All (λ p. p.0 ≡ true → RunEnds s turn packet p.1)
          (run_cases types update_stock t turn packet) =
        (
          λ e.
              copied-RunEnds packet.num_items packet.symbol_info s turn packet _ (omega arith)
                (omega (arith, c.symbols (==→eq _ _ e))) (stock_viewed (==→eq _ _ e)),
          (
            λ e.
                copied-RunEnds packet.num_items packet.portfolio_info s turn packet _ (omega arith)
                  (omega (arith, c.accounts (==→eq _ _ e))) (portfolio_viewed (==→eq _ _ e)),
            (
              λ e.
                  order_run-RunEnds s turn packet turn.bench.purchase2
                    (omega (arith, c.purchases (==→eq _ _ e))) (purchased (==→eq _ _ e)),
              (
                λ e.
                    order_run-RunEnds s turn packet turn.bench.sell2
                      (omega (arith, c.sales (==→eq _ _ e))) (sold (==→eq _ _ e)),
                (
                  λ e.
                      copied-RunEnds packet.num_items packet.update_info s turn packet _
                        (omega arith) (omega (arith, c.updates (==→eq _ _ e)))
                        (refreshed (==→eq _ _ e)),
                  tt,
                ),
              ),
            ),
          ),
        ) in
      elim (choice-Chosen t turn packet choice) [
        | inl chosen ↦
            branch-Chosen (RunEnds s turn packet) (run_cases types update_stock t turn packet)
              aborted all chosen
        | inr (refreshes, other) ↦
            branch-Any (RunEnds s turn packet) (run_cases types update_stock t turn packet) aborted
              all (record { refreshes = refreshes; other = other })
      ]

  -- What a round leaves: one more transaction is counted and timed, or nothing has changed and the
  -- code is returned for a reason.
  abbrev pub Left : Settings → (ℕ → Turn Key Order Price) → (ℕ → ℤ) → ℕ → Rounded → Type 0
  Left s turns times k (goes_on e) =
      IsCounted s turns times (suc k) e × (e.responses.xact_start ≡ (turns k).restart)
  Left s turns times k (returns rc e) = IsCounted s turns times k e × Stops s (turns k) rc

  -- How a round ends.
  abbrev pub RoundEnds : Settings → (ℕ → Turn Key Order Price) → (ℕ → ℤ) → ℕ → Call Rounded → Type 0
  RoundEnds s turns times k =
      Results (Left s turns times k) (IsUnnamed types update_stock s) (IsOutside (times k))

  counted-IsCounted :
      (s : Settings) (turns : ℕ → Turn Key Order Price) (times : ℕ → ℤ) (k txn_rc : ℕ)
      (r : Responses) (e : Evaluation)
      → IsCounted s turns times k e
      → HasStatus s (turns k) txn_rc
      → Recorded times (suc k) r
      → IsCounted s turns times (suc k) (counted txn_rc r e)
  counted-IsCounted s turns times k txn_rc r e c status rec = record {
    rc = refl;
    total = omega (arith, c.total);
    counts = elim (Bool-cases (txn_rc == server_success)) [
      | inl good ↦
          rw good (success c.counts (subst (HasStatus s (turns k)) (==→eq _ _ good) status))
      | inr bad ↦ rw bad (failure txn_rc c.counts status (==→ne _ _ bad))
    ];
    recorded = rec;
  }

  -- the capture behind a transaction
  timed :
      (s : Settings) (turns : ℕ → Turn Key Order Price) (times : ℕ → ℤ) (k txn_rc : ℕ)
      (e : Evaluation) (m : Call Responses)
      → IsCounted s turns times k e
      → HasStatus s (turns k) txn_rc
      → Captured times k (turns k).restart m
      → RoundEnds s turns times k (m >>= λ r. done (goes_on (counted txn_rc r e)))
  timed s turns times k txn_rc e (done r) c status (rec, start) =
      (counted-IsCounted s turns times k txn_rc r e c status rec, start)
  timed s turns times k txn_rc e aborted c status h = absurd h
  timed s turns times k txn_rc e overrun c status h = h

  after_run-RoundEnds :
      (s : Settings) (turns : ℕ → Turn Key Order Price) (times : ℕ → ℤ) (k : ℕ)
      (packet : Packet Key Order Price) (e : Evaluation) (run : TxnRun)
      → k < num_samples
      → IsCounted s turns times k e
      → udiff_time e.responses.xact_start (turns k).end ≡ times k
      → (turns k).request_create s.txn_size s.evaluated_txn ≡ some packet
      → Ran s.evaluated_txn (turns k) packet run
      → RoundEnds s turns times k (after_run types update_stock k (turns k) e run)
  after_run-RoundEnds s turns times k packet e failed small c clock created why =
      (c, not_ordered packet created why)
  after_run-RoundEnds s turns times k packet e (ran txn_rc) small c clock created status =
      elim (Bool-cases ((turns k).request_free == server_success)) [
        | inr kept ↦ rw kept (c, not_freed (==→ne _ _ kept))
        | inl free ↦ rw free (
            timed s turns times k txn_rc e (capture k (turns k).end (turns k).restart e.responses) c
              (record { packet = packet; created = created; status = status })
              (capture-Captured times k e.responses (turns k).end (turns k).restart small c.recorded
                clock))
      ]

  -- the steps behind the `switch`
  then_after :
      (s : Settings) (turns : ℕ → Turn Key Order Price) (times : ℕ → ℤ) (k : ℕ)
      (packet : Packet Key Order Price) (e : Evaluation) (m : Call TxnRun)
      → RunEnds s (turns k) packet m
      → ((run : TxnRun)
          → Ran s.evaluated_txn (turns k) packet run
          → RoundEnds s turns times k (after_run types update_stock k (turns k) e run))
      → RoundEnds s turns times k (m >>= after_run types update_stock k (turns k) e)
  then_after s turns times k packet e (done run) h f = f run h
  then_after s turns times k packet e aborted h f = h
  then_after s turns times k packet e overrun h f = absurd h

  pub round-RoundEnds :
      (s : Settings) (turns : ℕ → Turn Key Order Price) (times : ℕ → ℤ) (k : ℕ) (e : Evaluation)
      → s.txn_size ≤ max_data_items_per_xact
      → IsChoice types s.evaluated_txn
      → ((packet : Packet Key Order Price)
          → (turns k).request_create s.txn_size s.evaluated_txn ≡ some packet
          → IsCreated s.txn_size s.evaluated_txn packet)
      → k < num_samples
      → IsCounted s turns times k e
      → udiff_time e.responses.xact_start (turns k).end ≡ times k
      → RoundEnds s turns times k (round types update_stock s k (turns k) e)
  unfolding round
  round-RoundEnds s turns times k e short choice creates small c clock =
      elim (Option-cases ((turns k).request_create s.txn_size s.evaluated_txn)) [
        | inl none_left ↦
            rw none_left (c, subst (Stops s (turns k)) (sym c.rc) (no_request none_left))
        | inr (packet, created) ↦ rw created (
            then_after s turns times k packet e
              (run_txn types update_stock s.evaluated_txn (turns k) packet)
              (run_txn-RunEnds s (turns k) packet short choice (creates packet created))
              (λ run. after_run-RoundEnds s turns times k packet e run small c clock created))
      ]
