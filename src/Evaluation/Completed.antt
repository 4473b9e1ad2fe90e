-- ===== src/Evaluation/Completed.antt =====
-- The evaluation when every call of the libraries succeeds.
use chronos_xserver.Prelude.{
  ℕ, ◌≡◌, refl, subst, Bool, true, some, List, [], take, ℤ, pos, pos_part, ltb_ℤ, false,
}
use chronos_xserver.Config.{server_success}
use chronos_xserver.Time.{Timeval}
use chronos_xserver.Aup.{Call, done, aborted, overrun}
use chronos_xserver.Args.{UserTxnTypes, Settings, Getopt, accepted, process_arguments}
use chronos_xserver.Process.{Packet, appends}
use chronos_xserver.Process.Safe.{Ends}
use chronos_xserver.Stats.Response.{num_samples, no_responses, init_stats_struct, Report}
use chronos_xserver.Evaluation.{
  Setup, Turn, Evaluation, Evaluated, returned, set_up, run_txn_evaluation,
}
use chronos_xserver.Evaluation.Round.{
  IsCounted, not_allocated, not_appended, not_released, Stops, no_request, not_ordered, not_freed,
}
use chronos_xserver.Evaluation.Printed.{Reported}
use chronos_xserver.Evaluation.Outcome.{
  took, IsKept, Ended, Outcome, completed, stopped, not_set_up, run_txn_evaluation-Outcome,
}

-- A round whose calls all succeed.
pub record IsWilling {Key Order Price : Type 0} (s : Settings) (turn : Turn Key Order Price)
    : Type 0 where
  pub packet : Packet Key Order Price
  pub created : turn.request_create s.txn_size s.evaluated_txn ≡ some packet
  pub allocated : turn.bench.data_packet_alloc packet.num_items ≡ server_success
  pub appended :
      appends turn.bench [] (take (pos_part packet.num_items) packet.purchase_info) ≡ true
  pub released : turn.data_packet_free ≡ server_success
  pub freed : turn.request_free ≡ server_success

module _ {Key Order Price : Type 0} (types : UserTxnTypes) (update_stock : ℕ) (s : Settings)
    (turns : ℕ → Turn Key Order Price) where
  IsWilling-Stops :
      (turn : Turn Key Order Price) (rc : ℕ)
      → IsWilling s turn
      → Stops types update_stock s turn rc
      → ⊥
  IsWilling-Stops turn rc w (no_request e) = cc
  IsWilling-Stops turn rc w (not_ordered packet created (not_allocated h)) =
      let same : w.packet ≡ packet = cc in
      absurd (
        h (subst (λ p. turn.bench.data_packet_alloc p.num_items ≡ server_success) same w.allocated))
  IsWilling-Stops turn rc w (not_ordered packet created (not_appended e)) =
      let same : w.packet ≡ packet = cc in
      absurd (
        cc (
          subst (λ p. appends turn.bench [] (take (pos_part p.num_items) p.purchase_info) ≡ true)
              same w.appended,
          e,
        ))
  IsWilling-Stops turn rc w (not_ordered packet created (not_released h)) = absurd (h w.released)
  IsWilling-Stops turn rc w (not_freed h) = absurd (h w.freed)

  -- All rounds are done, counted and recorded, and reported.
  abbrev pub Completed : Bool → Bool → Timeval → Evaluated → Type 0
  Completed print_samples opened start result =
      (e : Evaluation) × (report : Report) × (result ≡ returned server_success e (some report))
      × IsCounted types update_stock s turns (took start turns) num_samples e
      × Reported (took start turns) print_samples opened report

  completes :
      (print_samples opened : Bool) (setup : Setup) (result : Evaluated)
      → set_up setup s ≡ true
      → ((k : ℕ) → IsWilling s (turns k))
      → Outcome types update_stock s turns print_samples opened setup result
      → Completed print_samples opened setup.start result
  completes print_samples opened setup result up willing
        (completed {e = e} {report = report} c reported) =
      (e, report, refl, c, reported)
  completes print_samples opened setup result up willing (stopped k rc small c why) =
      absurd (IsWilling-Stops (turns k) rc (willing k) why)
  completes print_samples opened setup result up willing (not_set_up e) = absurd (cc (up, e))

  finishes :
      (print_samples opened : Bool) (setup : Setup) (m : Call Evaluated)
      → set_up setup s ≡ true
      → ((k : ℕ) → IsWilling s (turns k))
      → (s.evaluated_txn ≡ types.txn_max → update_stock ≡ types.txn_max)
      → ((k : ℕ) → ltb_ℤ (took setup.start turns k) (pos 0) ≡ false)
      → Ended types update_stock s turns print_samples opened setup m
      → Ends (Completed print_samples opened setup.start) m
  finishes print_samples opened setup (done result) up willing named forward h =
      completes print_samples opened setup result up willing h
  finishes print_samples opened setup aborted up willing named forward h =
      absurd (h.other (named h.refreshes))
  finishes print_samples opened setup overrun up willing named forward (k, small, out) =
      absurd (cc (out.back, forward k))

  -- Conditions: the configuration is one that `processArguments` accepts, and the arrays are those
  -- that `init_stats_struct` has allocated; every request that is created is of the type asked for
  -- and holds the number of items asked for; every call of the set-up and of the rounds succeeds;
  -- no round ends at an earlier time than it began; and CHRONOS_USER_TXN_MAX, if it is what is
  -- evaluated, is the number of a refresh. Then all 1000 rounds are done, and the result is
  -- CHRONOS_SERVER_SUCCESS. The counts of successes and failures are those of the statuses of the
  -- 1000 transactions, which need not succeed. What is printed is for each bin the number of the
  -- times in it (with `print_samples`), the sum of the times, the greatest and the least of them
  -- and 0, and, if the file can be opened, the 1000 times in order.
  pub run_txn_evaluation-Completed :
      (atoi : List ℕ → ℤ) (os : List Getopt) (print_samples opened : Bool) (setup : Setup)
      → process_arguments types atoi os ≡ accepted s
      → IsKept types update_stock s turns
      → set_up setup s ≡ true
      → ((k : ℕ) → IsWilling s (turns k))
      → (s.evaluated_txn ≡ types.txn_max → update_stock ≡ types.txn_max)
      → ((k : ℕ) → ltb_ℤ (took setup.start turns k) (pos 0) ≡ false)
      → Ends (Completed print_samples opened setup.start) (
          run_txn_evaluation types update_stock print_samples opened setup turns s
            (init_stats_struct true true no_responses))
  run_txn_evaluation-Completed atoi os print_samples opened setup accepts kept up willing named
        forward =
      finishes print_samples opened setup _ up willing named forward (
        run_txn_evaluation-Outcome types update_stock s turns atoi os print_samples opened setup
          accepts kept)
