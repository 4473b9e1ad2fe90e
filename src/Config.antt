-- ===== src/Config.antt =====
-- The constants of server_config.h and common.h that the components read.
use chronos_xserver.Prelude.{ℕ, ◌/◌}

-- CHRONOS_SERVER_SUCCESS and CHRONOS_SERVER_FAIL
abbrev pub server_success : ℕ
server_success = 0

abbrev pub server_fail : ℕ
server_fail = 1

-- CHRONOS_READY_QUEUE_SIZE
abbrev pub ready_queue_size : ℕ
ready_queue_size = 1024

-- CHRONOS_NUM_STOCK_UPDATES_PER_UPDATE_THREAD
abbrev pub num_stock_updates_per_update_thread : ℕ
num_stock_updates_per_update_thread = 30

-- CHRONOS_SAMPLING_PERIOD_SEC and CHRONOS_SAMPLING_SLOTS
abbrev pub sampling_period_sec : ℕ
sampling_period_sec = 30

abbrev pub sampling_slots : ℕ
sampling_slots = 60 / sampling_period_sec

-- CHRONOS_SERVER_MODE_BASE, _AC, _AUP and _AC_AUP, and CHRONOS_SERVER_XACT_EVALUATION_MODE
abbrev pub mode_base : ℕ
mode_base = 0

abbrev pub mode_ac : ℕ
mode_ac = 1

abbrev pub mode_aup : ℕ
mode_aup = 2

abbrev pub mode_ac_aup : ℕ
mode_ac_aup = 3

abbrev pub mode_evaluation : ℕ
mode_evaluation = 4

-- CHRONOS_MAX_DATA_ITEMS_PER_XACT
abbrev pub max_data_items_per_xact : ℕ
max_data_items_per_xact = 100

-- CHRONOS_WARMUP_DURATION_SEC
abbrev pub warmup_duration_sec : ℕ
warmup_duration_sec = 60

-- CHRONOS_TCP_QUEUE
abbrev pub tcp_queue : ℕ
tcp_queue = 2048
