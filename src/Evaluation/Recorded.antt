-- ===== src/Evaluation/Recorded.antt =====
-- What the globals of the response times hold after some captures.
use chronos_xserver.Prelude.{
  ℕ, zero, suc, ◌+◌, ◌/◌, ◌%◌, ◌≤◌, ◌<◌, ◌≡◌, refl, ◌∙◌, ◌⊎◌, inl, inr, true, some, List, [], ◌∷◌,
  arith, min, Bool-cases, ltb, ◌==◌, if◌then◌else◌, length, get_elem?, set, replicate, length-set,
  length-replicate, get_elem?-set_self, get_elem?-set_ne, get_elem?-set_apply, ℕ_discrete, ℤ, pos,
  sym, subst, ap, pos_part, Bool, false, negsuc, ◌+ℤ◌, ◌≤ℤ◌, ltb_ℤ, none,
}
use chronos_xserver.Time.{Timeval, udiff_time}
use chronos_xserver.Aup.{Call, done, aborted, overrun, ◌>>=◌}
use chronos_xserver.Stats.Response.{
  rt_incr, rt_bins, num_samples, Responses, no_responses, init_stats_struct, capture_start,
  count_at, count_bin, store_time, bin_index, capture,
}

-- A call by how it ends: with a result, at an assertion, or at an access out of an array.
abbrev pub Results : {A : Type 0} → (A → Type 0) → Type 0 → Type 0 → Call A → Type 0
Results P Asserts Overruns (done a) = P a
Results P Asserts Overruns aborted = Asserts
Results P Asserts Overruns overrun = Overruns

pub bind-Results :
    {A B : Type 0} (P : A → Type 0) (Q : B → Type 0) (Asserts Overruns : Type 0) (m : Call A)
    (f : A → Call B)
    → Results P Asserts Overruns m
    → ((a : A) → P a → Results Q Asserts Overruns (f a))
    → Results Q Asserts Overruns (m >>= f)
bind-Results P Q Asserts Overruns (done a) f p h = h a p
bind-Results P Q Asserts Overruns aborted f p h = p
bind-Results P Q Asserts Overruns overrun f p h = p

-- The bin of a response time in microseconds: whole milliseconds, or the last bin from 10 s on. For a
-- clock that went back it is what the conversions of C make of the negative time.
abbrev pub bin_of : ℤ → ℤ
bin_of (pos t) = pos (min (t / rt_incr) rt_bins)
bin_of (negsuc t) = bin_index (negsuc t)

abbrev pub is_at : ℤ → ℕ → Bool
is_at (pos i) b = i == b
is_at (negsuc i) b = false

-- how many of the first response times are in a bin
abbrev pub tally : (ℕ → ℤ) → ℕ → ℕ → ℕ
tally times b zero = 0
tally times b (suc k) = tally times b k + (if is_at (bin_of (times k)) b then 1 else 0)

-- their sum
abbrev pub sum : (ℕ → ℤ) → ℕ → ℤ
sum times zero = pos 0
sum times (suc k) = sum times k +ℤ times k

-- the greatest of them and 0
pub record IsGreatest (times : ℕ → ℤ) (k : ℕ) (m : ℤ) : Type 0 where
  pub above : (i : ℕ) → i < k → times i ≤ℤ m
  pub not_below : pos 0 ≤ℤ m
  pub attained : (m ≡ pos 0) ⊎ ((i : ℕ) × (i < k) × (times i ≡ m))

-- the least of them and 0
pub record IsLeast (times : ℕ → ℤ) (k : ℕ) (m : ℤ) : Type 0 where
  pub below : (i : ℕ) → i < k → m ≤ℤ times i
  pub not_above : m ≤ℤ pos 0
  pub attained : (m ≡ pos 0) ⊎ ((i : ℕ) × (i < k) × (times i ≡ m))

-- The globals after the captures of the first `k` response times.
pub record Recorded (times : ℕ → ℤ) (k : ℕ) (r : Responses) : Type 0 where
  pub bins : length r.rtus ≡ rt_bins + 1
  pub tallied : (b : ℕ) → b < rt_bins + 1 → get_elem? r.rtus b ≡ some (tally times b k)
  pub slots : length r.response_times_array ≡ num_samples
  pub stored :
      (i : ℕ)
      → i < num_samples
      → get_elem? r.response_times_array i ≡ some (if ltb i k then times i else pos 0)
  pub total : r.rtusum ≡ sum times k
  pub greatest : IsGreatest times k r.max_response_time
  pub least : IsLeast times k r.min_response_time

-- A negative response time whose bin is none of the array.
pub record IsOutside (t : ℤ) : Type 0 where
  pub back : ltb_ℤ t (pos 0) ≡ true
  pub no_bin : (b : ℕ) → b < rt_bins + 1 → is_at (bin_of t) b ≡ false

bin_index-bin_of : (t : ℤ) → bin_index t ≡ bin_of t
bin_index-bin_of (pos t) = ground arith
bin_index-bin_of (negsuc t) = refl

count_at-set :
    (rtus : List ℕ) (i n : ℕ)
    → get_elem? rtus i ≡ some n
    → count_at rtus i ≡ done (set rtus i (n + 1))
count_at-set rtus i n e = rw e refl

store_time-set :
    (times : List ℤ) (i : ℕ) (t : ℤ)
    → i < length times
    → store_time times i t ≡ done (set times i t)
store_time-set times i t h = ground arith

longer :
    (times : ℕ → ℤ) (k : ℕ) (m : ℤ)
    → (m ≡ pos 0) ⊎ ((i : ℕ) × (i < k) × (times i ≡ m))
    → (m ≡ pos 0) ⊎ ((i : ℕ) × (i < suc k) × (times i ≡ m))
longer times k m (inl e) = inl e
longer times k m (inr (i, h, e)) = inr (i, omega arith, e)

below_suc : (i k : ℕ) → i < suc k → (i < k) ⊎ (i ≡ k)
below_suc i k h = omega arith

greater :
    (times : ℕ → ℤ) (k : ℕ) (m : ℤ)
    → IsGreatest times k m
    → IsGreatest times (suc k) (if ltb_ℤ m (times k) then times k else m)
greater times k m g = elim (Bool-cases (ltb_ℤ m (times k))) [
  | inl e ↦ rw e (record {
    above = λ i h. elim (below_suc i k h) [
      | inl before ↦ ground (arith, g.above i before, e)
      | inr same ↦ ground (arith, same)
    ];
    not_below = ground (arith, g.not_below, e);
    attained = inr (k, omega arith, refl);
  })
  | inr e ↦ rw e (record {
    above = λ i h. elim (below_suc i k h) [
      | inl before ↦ g.above i before
      | inr same ↦ subst (λ j. times j ≤ℤ m) (sym same) (ground (arith, e))
    ];
    not_below = g.not_below;
    attained = longer times k m g.attained;
  })
]

lesser :
    (times : ℕ → ℤ) (k : ℕ) (m : ℤ)
    → IsLeast times k m
    → IsLeast times (suc k) (if ltb_ℤ (times k) m then times k else m)
lesser times k m g = elim (Bool-cases (ltb_ℤ (times k) m)) [
  | inl e ↦ rw e (record {
    below = λ i h. elim (below_suc i k h) [
      | inl before ↦ ground (arith, g.below i before, e)
      | inr same ↦ ground (arith, same)
    ];
    not_above = ground (arith, g.not_above, e);
    attained = inr (k, omega arith, refl);
  })
  | inr e ↦ rw e (record {
    below = λ i h. elim (below_suc i k h) [
      | inl before ↦ g.below i before
      | inr same ↦ subst (λ j. m ≤ℤ times j) (sym same) (ground (arith, e))
    ];
    not_above = g.not_above;
    attained = longer times k m g.attained;
  })
]

counted_more :
    (rtus : List ℕ) (i j n m : ℕ)
    → get_elem? rtus i ≡ some n
    → get_elem? rtus j ≡ some m
    → get_elem? (set rtus i (n + 1)) j ≡ some (m + (if i == j then 1 else 0))
counted_more rtus i j n m e e' = get_elem?-set_apply rtus i j (λ x. x + 1) n m e e' ∙ ground arith

stored_more :
    (slots : List ℤ) (times : ℕ → ℤ) (k i : ℕ)
    → k < length slots
    → get_elem? slots i ≡ some (if ltb i k then times i else pos 0)
    → get_elem? (set slots k (times k)) i ≡ some (if ltb i (suc k) then times i else pos 0)
stored_more slots times k i h e = elim (ℕ_discrete k i) [
  | yes same ↦ rw (← same, get_elem?-set_self slots k (times k) h) (ground arith)
  | no other ↦ rw (get_elem?-set_ne slots (times k) other, e) (ground arith)
]

-- what a capture of the `k`th response time leaves, for the index of its bin
abbrev stepped : (ℕ → ℤ) → ℕ → Timeval → Responses → ℤ → Call Responses
stepped times k restart r index = count_bin r.rtus index >>= λ rtus.
    store_time r.response_times_array (k % num_samples) (times k) >>= λ slots. done (record {
      rtus = rtus;
      response_times_array = slots;
      rtusum = r.rtusum +ℤ times k;
      max_response_time =
          if ltb_ℤ r.max_response_time (times k) then times k else r.max_response_time;
      min_response_time =
          if ltb_ℤ (times k) r.min_response_time then times k else r.min_response_time;
      xact_start = restart;
    })

-- the results of a capture
abbrev pub Captured : (ℕ → ℤ) → ℕ → Timeval → Call Responses → Type 0
Captured times k restart =
    Results (λ r'. Recorded times (suc k) r' × (r'.xact_start ≡ restart)) ⊥ (IsOutside (times k))

get_elem?-none : {A : Type 0} (xs : List A) (i : ℕ) → length xs ≤ i → get_elem? xs i ≡ none
get_elem?-none [] i h = refl
get_elem?-none (x ∷ xs) zero h = absurd (omega arith)
get_elem?-none (x ∷ xs) (suc i) h = get_elem?-none xs i (omega arith)

outside : (t : ℤ) (b : ℕ) → bin_of t ≡ pos b → ltb b (rt_bins + 1) ≡ false → IsOutside t
outside (pos t) b at big =
    let same : min (t / rt_incr) rt_bins ≡ b = ap pos_part at in absurd (ground (arith, same, big))
outside (negsuc t) b at big = record {
  back = ground arith;
  no_bin = λ j h. subst (λ i. is_at i j ≡ false) (sym at) (ground (arith, big, h));
}

before_all : (t : ℤ) (b : ℕ) → bin_of t ≡ negsuc b → IsOutside t
before_all (pos t) b at = absurd (cc at)
before_all (negsuc t) b at = record {
  back = ground arith;
  no_bin = λ j h. subst (λ i. is_at i j ≡ false) (sym at) refl;
}

stepped-Captured :
    (times : ℕ → ℤ) (k : ℕ) (r : Responses) (restart : Timeval) (index : ℤ)
    → k < num_samples
    → Recorded times k r
    → bin_of (times k) ≡ index
    → Captured times k restart (stepped times k restart r index)
stepped-Captured times k r restart (negsuc b) small rec at = before_all (times k) b at
stepped-Captured times k r restart (pos b) small rec at = elim (Bool-cases (ltb b (rt_bins + 1))) [
  | inr big ↦
      rw (get_elem?-none r.rtus b (ground (arith, big, rec.bins))) (outside (times k) b at big)
  | inl inside ↦
      let counted = rec.tallied b (ground (arith, inside)) in
      let here : k % num_samples ≡ k = omega arith in
      rw
        (
          count_at-set r.rtus b _ counted,
          here,
          store_time-set r.response_times_array k (times k) (omega (arith, rec.slots)),
        )
        (
          record {
            bins = length-set r.rtus b _ ∙ rec.bins;
            tallied = λ j h.
                subst
                  (λ i.
                    get_elem? (set r.rtus b (tally times b k + 1)) j
                    ≡ some (tally times j k + (if is_at i j then 1 else 0)))
                  (sym at) (counted_more r.rtus b j _ _ counted (rec.tallied j h));
            slots = length-set r.response_times_array k _ ∙ rec.slots;
            stored = λ i h.
                stored_more r.response_times_array times k i (omega (arith, rec.slots))
                  (rec.stored i h);
            total = ap (λ x. x +ℤ times k) rec.total;
            greatest = greater times k r.max_response_time rec.greatest;
            least = lesser times k r.min_response_time rec.least;
          },
          refl,
        )
]

-- A capture records one more response time and starts the next; or the clock has gone back, and the
-- bin of the negative time is not in the array.
pub capture-Captured :
    (times : ℕ → ℤ) (k : ℕ) (r : Responses) (end restart : Timeval)
    → k < num_samples
    → Recorded times k r
    → udiff_time r.xact_start end ≡ times k
    → Captured times k restart (capture k end restart r)
unfolding capture
capture-Captured times k r end restart small rec clock =
    rw (clock, bin_index-bin_of (times k))
      (stepped-Captured times k r restart (bin_of (times k)) small rec refl)

get_elem?-replicate : {A : Type 0} (n i : ℕ) (a : A) → i < n → get_elem? (replicate n a) i ≡ some a
get_elem?-replicate zero i a h = absurd (omega arith)
get_elem?-replicate (suc n) zero a h = refl
get_elem?-replicate (suc n) (suc i) a h = get_elem?-replicate n i a (omega arith)

-- The arrays that `init_stats_struct` allocates are ready for the first capture.
pub init-Recorded :
    (times : ℕ → ℤ) (clock : Timeval)
    → Recorded times 0 (capture_start clock (init_stats_struct true true no_responses))
unfolding init_stats_struct
init-Recorded times clock = record {
  bins = length-replicate {A = ℕ} (rt_bins + 1) 0;
  tallied = λ b h. get_elem?-replicate (rt_bins + 1) b 0 h;
  slots = length-replicate num_samples (pos 0);
  stored = λ i h. get_elem?-replicate num_samples i (pos 0) h ∙ ground arith;
  total = refl;
  greatest = record {
    above = λ i h. absurd (omega arith);
    not_below = omega arith;
    attained = inl refl;
  };
  least = record {
    below = λ i h. absurd (omega arith);
    not_above = omega arith;
    attained = inl refl;
  };
}
