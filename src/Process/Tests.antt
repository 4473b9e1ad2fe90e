-- ===== src/Process/Tests.antt =====
-- One refresh and one view of two stocks at concrete inputs, over the three items of Aup/Tests and
-- a benchmark library whose calls succeed.
use chronos_xserver.Prelude.{ℕ, ◌≡◌, refl, false, some, [], ◌∷◌, arith, get_elem?, pos, true}
use chronos_xserver.Config.{server_success, server_fail}
use chronos_xserver.Floats.{thousandths}
use chronos_xserver.Aup.{done, AupEnv, DataItem}
use chronos_xserver.Aup.Valid.{IsValid}
use chronos_xserver.Aup.Kept.{ItemsOnly}
use chronos_xserver.Aup.Counts.{accessed, updated, counted}
use chronos_xserver.Aup.Tests.{three-IsValid, three}
use chronos_xserver.Args.{UserTxnTypes}
use chronos_xserver.Stats.{update_thread_stats, thread_stats_alloc}
use chronos_xserver.Stats.Tests.{begun, over}
use chronos_xserver.Ac.{wait_decrease}
use chronos_xserver.Monitor.Tests.{context}
use chronos_xserver.Process.{
  Packet, Benchmark, Run, returned, fail_exit, appends, process_refresh_transaction,
  process_user_transaction,
}
use chronos_xserver.Process.Refresh.{events, process_refresh_transaction_lem}
use chronos_xserver.Process.View.{process_user_transaction_lem}
use chronos_xserver.Process.Fate.{Fate, process_user_transaction-Fate}

abbrev pub types : UserTxnTypes
types = record { view_stock = 0; view_portfolio = 1; purchase = 2; sale = 3; txn_max = 4 }

abbrev pub bench : Benchmark ℕ ℕ ℕ
bench = record {
  view_stock2 = λ n keys. 0;
  view_portfolio2 = λ n keys. 0;
  data_packet_alloc = λ n. 0;
  data_packet_append = λ orders. 0;
  purchase2 = λ orders. 0;
  sell2 = λ orders. 1;
  refresh_quotes_list = λ n items. 0;
}

abbrev pub run : Run
run = record {
  warming_up = false;
  thread_num = 1;
  finish_time = over;
  lock_rc = 0;
  unlock_rc = 0;
  frees = 0 ∷ [];
}

-- two items, one element twice
abbrev pub packet : Packet ℕ ℕ ℕ
packet = record {
  magic_ok = true;
  txn_type = 0;
  num_items = pos 2;
  symbol_info = (pos 1, 70) ∷ (pos 1, 70) ∷ [];
  portfolio_info = [];
  purchase_info = 5 ∷ 6 ∷ [];
  update_info = (pos 1, 70, 9) ∷ (pos 2, 71, 9) ∷ [];
}

process_refresh_transaction_lem_example :
    (env : AupEnv thousandths) × (process_refresh_transaction thousandths types 4 bench run begun
        (some packet)
        context
      ≡ done (
        server_success,
        record context {
          aup_env = env;
          thread_stats_arr = update_thread_stats begun over (pos 500) 4 0 1 (thread_stats_alloc 2);
        },
      ))
    × IsValid thousandths env
    × ((j : ℕ) (d : DataItem thousandths)
        → get_elem? three.data_array j ≡ some d
        → get_elem? env.data_array j
          ≡ some (counted thousandths j (events thousandths updated (pos 1 ∷ pos 2 ∷ [])) d))
process_refresh_transaction_lem_example =
    process_refresh_transaction_lem thousandths types 4 bench run begun packet context three-IsValid
      (omega arith) (omega arith) (omega arith)

process_user_transaction_lem_example :
    (env : AupEnv thousandths) × (process_user_transaction thousandths types 4 bench run begun
        packet context
      ≡ done (
          returned server_success (some 0) (record context {
            aup_env = env;
            ac_env = (wait_decrease 0 0 context.ac_env).1;
            thread_stats_arr =
                update_thread_stats begun over (pos 500) 0 0 1 (thread_stats_alloc 2);
          })))
    × IsValid thousandths env
    × ItemsOnly thousandths three env
    × ((j : ℕ) (d : DataItem thousandths)
        → get_elem? three.data_array j ≡ some d
        → get_elem? env.data_array j
          ≡ some (counted thousandths j (events thousandths accessed (pos 1 ∷ pos 1 ∷ [])) d))
process_user_transaction_lem_example =
    process_user_transaction_lem thousandths types 4 bench run begun packet context refl
      three-IsValid (omega arith) (omega arith) (omega arith)

-- A sale whose packet cannot be freed at once gives up, though it was carried out.
abbrev sale : Packet ℕ ℕ ℕ
sale = record packet { txn_type = 3 }

abbrev stubborn : Run
stubborn = record run { frees = 1 ∷ 0 ∷ [] }

sale_gives_up :
    process_user_transaction thousandths types 4 bench stubborn begun sale context
    ≡ done (returned server_fail (some 1) context)
unfolding process_user_transaction appends fail_exit
sale_gives_up = refl

process_user_transaction-Fate_example :
    Fate thousandths stubborn begun 3 context
      (process_user_transaction thousandths types 4 bench stubborn begun sale context)
process_user_transaction-Fate_example =
    process_user_transaction-Fate thousandths types 4 bench stubborn begun sale context
