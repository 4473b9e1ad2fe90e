-- ===== src/Args/Tests.antt =====
-- `processArguments` at concrete command lines, with an `atoi` for texts of digits.
use chronos_xserver.Prelude.{ℕ, ◌+◌, ◌-◌, ◌*◌, ◌≤◌, ◌≡◌, ◌≢◌, refl, List, [], ◌∷◌, ℤ, pos}
use chronos_xserver.Config.{mode_ac, mode_ac_aup, max_data_items_per_xact}
use chronos_xserver.Args.{
  UserTxnTypes, Settings, Getopt, bytes, accepted, init_settings, apply_option, check_settings,
  process_options, process_arguments,
}
use chronos_xserver.Args.Accepted.{IsUsable, process_arguments-IsUsable, process_arguments-mode}
use chronos_xserver.Args.Last.{TakesLast, process_arguments-TakesLast}

abbrev types : UserTxnTypes
types = record { view_stock = 0; view_portfolio = 1; purchase = 2; sale = 3; txn_max = 4 }

abbrev digits_from : ℕ → List ℕ → ℕ
digits_from n [] = n
digits_from n (b ∷ bs) = digits_from (n * 10 + (b - b'0')) bs

abbrev atoi : List ℕ → ℤ
atoi text = pos (digits_from 0 text)

-- -m ac_aup -p 4000 -c 3 -p 6000
abbrev command_line : List Getopt
command_line =
    record { c = b'm'; option_index = 0; optarg = bytes "ac_aup" }
    ∷ record { c = b'p'; option_index = 0; optarg = bytes "4000" }
    ∷ record { c = b'c'; option_index = 0; optarg = bytes "3" }
    ∷ record { c = b'p'; option_index = 0; optarg = bytes "6000" }
    ∷ []

abbrev settings : Settings
settings = record (init_settings types atoi) {
  running_mode = mode_ac;
  num_clients_threads = pos 3;
  server_port = pos 6000;
}

command_line-accepted : process_arguments types atoi command_line ≡ accepted settings
unfolding process_arguments process_options apply_option check_settings
command_line-accepted = refl

process_arguments-IsUsable_example : IsUsable types atoi settings × (50 ≤ max_data_items_per_xact)
process_arguments-IsUsable_example =
    process_arguments-IsUsable types atoi command_line settings command_line-accepted

process_arguments-mode_example : settings.running_mode ≢ mode_ac_aup
process_arguments-mode_example =
    process_arguments-mode types atoi command_line settings command_line-accepted

process_arguments-TakesLast_example :
    TakesLast types atoi command_line (init_settings types atoi) settings
process_arguments-TakesLast_example =
    process_arguments-TakesLast types atoi command_line settings command_line-accepted
