-- ===== src/Args.antt =====
-- startup_server.c: `initProcessArguments` and `processArguments`, which fill the configuration
-- fields of `chronosServerContext_t` from the command line. `getopt_long` and `atoi` are the C
-- library's: the list of what the calls of the first return, and the function `atoi`, are arguments.
-- Texts are lists of bytes, less the closing NUL. The build is the one without LITMUS_RT.
pub mod Accepted
pub mod Last
mod Tests
use Prim.Native.Char.{code}
use Prim.Native.String.{String}
use chronos_xserver.Prelude.{
  ℕ, ◌+◌, ◌-◌, ◌*◌, ◌%◌, ◌^◌, Bool, true, false, ◌&&◌, List, [], ◌∷◌, ltb, ◌==◌, if◌then◌else◌, ℤ,
  pos, negsuc, ltb_ℤ,
}
use chronos_xserver.Config.{
  mode_base, mode_ac, mode_aup, mode_ac_aup, mode_evaluation, num_stock_updates_per_update_thread,
  max_data_items_per_xact,
}

-- The values of `chronosUserTransaction_t`, an enumeration of chronos_transactions.h.
pub record UserTxnTypes : Type 0 where
  pub view_stock : ℕ
  pub view_portfolio : ℕ
  pub purchase : ℕ
  pub sale : ℕ
  pub txn_max : ℕ

-- the configuration fields of `chronosServerContext_t` that are integers
pub record Settings : Type 0 where
  pub running_mode : ℕ
  pub evaluated_txn : ℕ
  pub txn_size : ℕ
  pub debug_level : ℤ
  pub server_port : ℤ
  pub initial_load : ℕ
  pub duration_sec : ℤ
  pub num_clients_threads : ℤ
  pub num_update_threads : ℤ
  pub num_updates_per_update_thread : ℤ
  pub num_server_threads : ℤ
  pub initial_validity_interval_ms : ℤ
  pub desired_delay_bound_ms : ℤ

-- What one call of `getopt_long` returns before -1: its result, the index of a long option, and
-- `optarg`, empty where that is NULL and not read.
pub record Getopt : Type 0 where
  pub c : ℕ
  pub option_index : ℕ
  pub optarg : List ℕ

-- the bytes of a text in ASCII
abbrev pub bytes : String → List ℕ
bytes String.[] = []
bytes (String.◌∷◌ ch s) = code ch ∷ bytes s

-- `strncmp(name, arg, strlen(name)) == 0`
abbrev pub begins : List ℕ → List ℕ → Bool
begins [] arg = true
begins (b ∷ name) [] = false
begins (b ∷ name) (a ∷ arg) = b == a && begins name arg

-- a value of type `int`, assigned to an `unsigned int`
abbrev pub unsigned_int : ℤ → ℕ
unsigned_int (pos n) = n % 2 ^ 32
unsigned_int (negsuc n) = 2 ^ 32 - 1 - n % 2 ^ 32

-- A `switch`, or a chain of `else if`: tests with what to do, and what to do when all fail.
abbrev pub branch {ℓ} : {A : Type ℓ} → List (Bool × A) → A → A
branch [] otherwise = otherwise
branch ((test, a) ∷ cases) otherwise = if test then a else branch cases otherwise

-- How the handling of one option ends: with a break, a jump to `failXit`, or `exit(0)`.
pub data Applied : Type 0 where
  next : Settings → Applied
  invalid : Applied
  help_shown : Applied

-- How `processArguments` ends: it returns CHRONOS_SERVER_SUCCESS or CHRONOS_SERVER_FAIL, or the
-- process exits.
pub data Parsed : Type 0 where
  accepted : Settings → Parsed
  rejected : Parsed
  exited : Parsed

abbrev pub set_mode : List ℕ → Settings → Applied
set_mode arg s =
    if begins (bytes "base") arg
    then next (record s { running_mode = mode_base })
    else if begins (bytes "ac") arg
    then next (record s { running_mode = mode_ac })
    else if begins (bytes "aup") arg
    then next (record s { running_mode = mode_aup })
    else if begins (bytes "ac_aup") arg
    then next (record s { running_mode = mode_ac_aup })
    else invalid

abbrev pub go_on : Applied → (Settings → Parsed) → Parsed
go_on (next s) rest = rest s
go_on invalid rest = rejected
go_on help_shown rest = exited

module _ (types : UserTxnTypes) (atoi : List ℕ → ℤ) where
  abbrev pub init_settings : Settings
  init_settings = record {
    running_mode = mode_base;
    evaluated_txn = types.view_stock;
    txn_size = 50;
    debug_level = pos 0;
    server_port = pos 5000;
    initial_load = 0;
    duration_sec = pos (15 * 60);
    num_clients_threads = pos 10;
    num_update_threads = pos 1;
    num_updates_per_update_thread = pos num_stock_updates_per_update_thread;
    num_server_threads = pos 1;
    initial_validity_interval_ms = pos 1000;
    desired_delay_bound_ms = pos 500;
  }

  abbrev pub evaluated_cases : List ℕ → Settings → List (Bool × Applied)
  evaluated_cases arg s =
      (begins (bytes "view_stock") arg, next (record s { evaluated_txn = types.view_stock }))
      ∷ (
        begins (bytes "view_portfolio") arg,
        next (record s { evaluated_txn = types.view_portfolio }),
      )
      ∷ (begins (bytes "purchase_stock") arg, next (record s { evaluated_txn = types.purchase }))
      ∷ (begins (bytes "sell_stock") arg, next (record s { evaluated_txn = types.sale }))
      ∷ (begins (bytes "refresh_stock") arg, next (record s { evaluated_txn = types.txn_max }))
      ∷ []

  abbrev pub set_evaluated : List ℕ → Settings → Applied
  set_evaluated arg s = branch (evaluated_cases arg s) invalid

  abbrev pub set_txn_size : List ℕ → Settings → Settings
  set_txn_size arg s =
      let size = unsigned_int (atoi arg) in
      record s {
        txn_size = if ltb max_data_items_per_xact size then max_data_items_per_xact else size;
      }

  abbrev pub long_cases : ℕ → List ℕ → Settings → List (Bool × Applied)
  long_cases index arg s =
      (index == 2, next s)
      ∷ (index == 0, next (record s { running_mode = mode_evaluation }))
      ∷ (index == 1, set_evaluated arg s)
      ∷ (index == 3, next (record s { initial_load = 1 }))
      ∷ (index == 5, next (set_txn_size arg s))
      ∷ []

  -- `case 0`: long options without a letter; index 2, "print-samples", has a flag.
  abbrev pub long_option : ℕ → List ℕ → Settings → Applied
  long_option index arg s = branch (long_cases index arg s) (next s)

  abbrev pub option_cases : Getopt → Settings → List (Bool × Applied)
  option_cases o s =
      (o.c == 0, long_option o.option_index o.optarg s)
      ∷ (o.c == b'm', set_mode o.optarg s)
      ∷ (o.c == b'c', next (record s { num_clients_threads = atoi o.optarg }))
      ∷ (o.c == b't', next (record s { num_server_threads = atoi o.optarg }))
      ∷ (o.c == b'v', next (record s { initial_validity_interval_ms = atoi o.optarg }))
      ∷ (o.c == b'u', next (record s { num_update_threads = atoi o.optarg }))
      ∷ (o.c == b'r', next (record s { duration_sec = atoi o.optarg }))
      ∷ (o.c == b'p', next (record s { server_port = atoi o.optarg }))
      ∷ (o.c == b'D', next (record s { desired_delay_bound_ms = atoi o.optarg }))
      ∷ (o.c == b'd', next (record s { debug_level = atoi o.optarg }))
      ∷ (o.c == b'h', help_shown)
      ∷ []

  -- the `switch`
  unfoldable pub apply_option : Getopt → Settings → Applied
  apply_option o s = branch (option_cases o s) invalid

  -- the checks behind the loop
  unfoldable pub check_settings : Settings → Parsed
  check_settings s =
      if ltb_ℤ s.num_clients_threads (pos 1)
      then rejected
      else if ltb_ℤ s.initial_validity_interval_ms (pos 1)
      then rejected
      else if ltb_ℤ s.num_update_threads (pos 1)
      then rejected
      else if ltb_ℤ s.server_port (pos 1)
      then rejected
      else accepted s

  -- the loop, one round for each element, and the checks
  unfoldable pub process_options : List Getopt → Settings → Parsed
  process_options [] s = check_settings s
  process_options (o ∷ os) s = go_on (apply_option o s) (process_options os)

  unfoldable pub process_arguments : List Getopt → Parsed
  process_arguments os = process_options os init_settings
