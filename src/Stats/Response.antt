-- ===== src/Stats/Response.antt =====
-- The response times of stats.h and stats.c: the macros RTCAPTURE_START, RTCAPTURE and
-- RTCAPTURE_PRINT, `init_stats_struct` and `print_stats_to_csv`, with the globals they use. An
-- array is empty for NULL. Sums and counts do not overflow their `long` and `int` here.
use chronos_xserver.Prelude.{
  ℕ, zero, suc, ◌+◌, ◌-◌, ◌*◌, ◌/◌, ◌%◌, ◌^◌, Bool, Option, none, some, List, [], ◌∷◌, ltb,
  if◌then◌else◌, length, get_elem?, set, replicate, ℤ, pos, negsuc, ◌+ℤ◌, ◌-ℤ◌, ltb_ℤ,
}
use chronos_xserver.Time.{Timeval, udiff_time}
use chronos_xserver.Aup.{Call, done, overrun, ◌>>=◌}

-- RTINCR, RTBINS and NUM_SAMPLES
abbrev pub rt_incr : ℕ
rt_incr = 1000

abbrev pub rt_bins : ℕ
rt_bins = 10000000 / rt_incr

abbrev pub num_samples : ℕ
num_samples = 1000

-- the globals, but for `xact_end` and `sample_response`, which every capture writes before it reads
pub record Responses : Type 0 where
  pub rtus : List ℕ
  pub response_times_array : List ℤ
  pub rtusum : ℤ
  pub max_response_time : ℤ
  pub min_response_time : ℤ
  pub xact_start : Timeval

-- as the program starts
abbrev pub no_responses : Responses
no_responses = record {
  rtus = [];
  response_times_array = [];
  rtusum = pos 0;
  max_response_time = pos 0;
  min_response_time = pos 0;
  xact_start = record { tv_sec = 0; tv_usec = 0 };
}

-- The arguments are the answers of `calloc`, which nothing checks.
unfoldable pub init_stats_struct : Bool → Bool → Responses → Responses
init_stats_struct rtus_ok times_ok r = record r {
  rtus = if rtus_ok then replicate (rt_bins + 1) 0 else [];
  response_times_array = if times_ok then replicate num_samples (pos 0) else [];
}

-- RTCAPTURE_START
abbrev pub capture_start : Timeval → Responses → Responses
capture_start clock r = record r { xact_start = clock }

-- the conversion of a `long int` to an `int`
abbrev pub int_of : ℤ → ℤ
int_of (pos n) =
    if ltb (n % 2 ^ 32) (2 ^ 31) then pos (n % 2 ^ 32) else negsuc (2 ^ 32 - 1 - n % 2 ^ 32)
int_of (negsuc n) =
    if ltb (n % 2 ^ 32) (2 ^ 31) then negsuc (n % 2 ^ 32) else pos (2 ^ 32 - 1 - n % 2 ^ 32)

-- the division of C, by a positive number
abbrev pub div_ℤ : ℤ → ℕ → ℤ
div_ℤ (pos n) d = pos (n / d)
div_ℤ (negsuc n) d = pos 0 -ℤ pos (suc n / d)

-- an access to an element of an array
abbrev pub found : {A : Type 0} → Option A → Call A
found none = overrun
found (some a) = done a

abbrev pub count_at : List ℕ → ℕ → Call (List ℕ)
count_at rtus i = found (get_elem? rtus i) >>= λ n. done (set rtus i (n + 1))

-- `rtus[i]++`
abbrev pub count_bin : List ℕ → ℤ → Call (List ℕ)
count_bin rtus (pos i) = count_at rtus i
count_bin rtus (negsuc i) = overrun

abbrev pub store_time : List ℤ → ℕ → ℤ → Call (List ℤ)
store_time times i t = if ltb i (length times) then done (set times i t) else overrun

-- the index of the bin of a sample
abbrev pub bin_index : ℤ → ℤ
bin_index sample =
    if ltb_ℤ sample (pos (rt_bins * rt_incr)) then div_ℤ (int_of sample) rt_incr else pos rt_bins

-- RTCAPTURE, in the round `current_rep`, with what the two calls of `gettimeofday` answer.
unfoldable pub capture : ℕ → Timeval → Timeval → Responses → Call Responses
capture current_rep end restart r =
    let sample = udiff_time r.xact_start end in
    count_bin r.rtus (bin_index sample) >>= λ rtus.
    store_time r.response_times_array (current_rep % num_samples) sample >>= λ times. done (record {
      rtus = rtus;
      response_times_array = times;
      rtusum = r.rtusum +ℤ sample;
      max_response_time = if ltb_ℤ r.max_response_time sample then sample else r.max_response_time;
      min_response_time = if ltb_ℤ sample r.min_response_time then sample else r.min_response_time;
      xact_start = restart;
    })

-- the first elements of an array, read one after the other from index `i`
unfoldable pub read_from : {A : Type 0} → List A → ℕ → ℕ → Call (List A)
read_from xs zero i = done []
read_from xs (suc left) i =
    found (get_elem? xs i) >>= λ x. read_from xs left (suc i) >>= λ rest. done (x ∷ rest)

-- `print_stats_to_csv`: what it returns and the rows of the file. The argument says whether the
-- file is opened.
unfoldable pub print_stats_to_csv : Bool → Responses → Call (ℕ × List ℤ)
print_stats_to_csv opened r =
    if opened
    then (if ltb 0 (length r.response_times_array)
        then (read_from r.response_times_array num_samples 0 >>= λ rows. done (0, rows))
        else done (1, []))
    else done (1, [])

-- What RTCAPTURE_PRINT writes: the counts of the bins with `print_samples`, the three numbers, and
-- the rows of the file.
pub record Report : Type 0 where
  pub bins : List ℕ
  pub total : ℤ
  pub greatest : ℤ
  pub least : ℤ
  pub rows : List ℤ

unfoldable pub capture_print : Bool → Bool → Responses → Call Report
capture_print print_samples opened r =
    (if print_samples then read_from r.rtus (rt_bins + 1) 0 else done []) >>= λ bins.
    print_stats_to_csv opened r >>= λ csv. done (record {
      bins = bins;
      total = r.rtusum;
      greatest = r.max_response_time;
      least = r.min_response_time;
      rows = csv.1;
    })
