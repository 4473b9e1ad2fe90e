-- ===== src/Evaluation/Printed.antt =====
-- What `runTxnEvaluation` prints at its end, from the globals that its captures have filled.
use chronos_xserver.Prelude.{
  ℕ, zero, suc, ◌+◌, ◌≡◌, refl, sym, Bool, true, false, some, List, [], ◌∷◌, arith, ltb,
  if◌then◌else◌, length, get_elem?, get_elem?-some, drop, pos, ◌∙◌, ◌<◌, ℤ, Bool-cases, inl, inr,
}
use chronos_xserver.Aup.{done}
use chronos_xserver.Process.Safe.{Ends}
use chronos_xserver.Stats.Response.{
  rt_bins, num_samples, Responses, read_from, print_stats_to_csv, Report, capture_print,
}
use chronos_xserver.Evaluation.Recorded.{tally, sum, IsGreatest, IsLeast, Recorded}

drop-get :
    {A : Type 0} (xs : List A) (i : ℕ) (x : A)
    → get_elem? xs i ≡ some x
    → drop i xs ≡ x ∷ drop (suc i) xs
drop-get [] i x e = absurd (cc e)
drop-get (y ∷ xs) zero x e = ground arith
drop-get (y ∷ xs) (suc i) x e = drop-get xs i x e

drop-length : {A : Type 0} (xs : List A) → drop (length xs) xs ≡ []
drop-length [] = refl
drop-length (x ∷ xs) = drop-length xs

-- Reading up to the end gives the rest of the array.
read_from-drop :
    {A : Type 0} (xs : List A) (left i : ℕ)
    → i + left ≡ length xs
    → read_from xs left i ≡ done (drop i xs)
unfolding read_from
read_from-drop xs zero i h =
    let end : i ≡ length xs = omega arith in rw end (rw (drop-length xs) refl)
read_from-drop xs (suc left) i h =
    let (x, at) = get_elem?-some xs i (omega arith) in
    rw (at, read_from-drop xs left (suc i) (omega arith), drop-get xs i x at) refl

-- The report on `num_samples` response times.
pub record Reported (times : ℕ → ℤ) (print_samples opened : Bool) (report : Report) : Type 0 where
  pub bins : length report.bins ≡ (if print_samples then rt_bins + 1 else 0)
  pub tallied :
      print_samples ≡ true
      → (b : ℕ) → b < rt_bins + 1
      → get_elem? report.bins b ≡ some (tally times b num_samples)
  pub rows : length report.rows ≡ (if opened then num_samples else 0)
  pub in_order :
      opened ≡ true → (i : ℕ) → i < num_samples → get_elem? report.rows i ≡ some (times i)
  pub total : report.total ≡ sum times num_samples
  pub greatest : IsGreatest times num_samples report.greatest
  pub least : IsLeast times num_samples report.least

bins_read :
    (times : ℕ → ℤ) (k : ℕ) (print_samples : Bool) (r : Responses)
    → Recorded times k r
    → (if print_samples then read_from r.rtus (rt_bins + 1) 0 else done [])
      ≡ done (if print_samples then r.rtus else [])
bins_read times k true r rec = read_from-drop r.rtus (rt_bins + 1) 0 (sym rec.bins)
bins_read times k false r rec = refl

rows_read :
    (times : ℕ → ℤ) (k : ℕ) (opened : Bool) (r : Responses)
    → Recorded times k r
    → print_stats_to_csv opened r ≡ done (if opened then (0, r.response_times_array) else (1, []))
unfolding print_stats_to_csv
rows_read times k true r rec =
    let filled : ltb 0 (length r.response_times_array) ≡ true = rw rec.slots refl in
    rw (filled, read_from-drop r.response_times_array num_samples 0 (sym rec.slots)) refl
rows_read times k false r rec = refl

below : {A : Type 0} (i n : ℕ) (x y : A) → i < n → some (if ltb i n then x else y) ≡ some x
below i n x y h = ground (arith, h)

pub capture_print-Reported :
    (times : ℕ → ℤ) (print_samples opened : Bool) (r : Responses)
    → Recorded times num_samples r
    → Ends (Reported times print_samples opened) (capture_print print_samples opened r)
unfolding capture_print
capture_print-Reported times print_samples opened r rec =
    rw (bins_read times num_samples print_samples r rec, rows_read times num_samples opened r rec)
      (record {
        bins = elim (Bool-cases print_samples) [ inl e ↦ rw e rec.bins | inr e ↦ rw e refl ];
        tallied = λ e b h. rw e (rec.tallied b h);
        rows = elim (Bool-cases opened) [ inl e ↦ rw e rec.slots | inr e ↦ rw e refl ];
        in_order = λ e i h. rw e (rec.stored i h ∙ below i num_samples (times i) (pos 0) h);
        total = rec.total;
        greatest = rec.greatest;
        least = rec.least;
      })
