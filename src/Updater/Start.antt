-- ===== src/Updater/Start.antt =====
-- The start of an update thread.
use chronos_xserver.Prelude.{
  ℕ, zero, suc, ◌+◌, ◌*◌, ◌≤◌, ◌<◌, ◌≡◌, refl, sym, subst, ap, ◌∙◌, true, List, [], ◌∷◌, ◌++◌, map,
  append_assoc, arith, All, ltb, lt→ltb, length, length-append, ℤ, pos,
}
use chronos_xserver.Config.{num_stock_updates_per_update_thread}
use chronos_xserver.Floats.{Floats}
use chronos_xserver.Aup.{done, ◌>>=◌}
use chronos_xserver.Aup.Expired.Found.{range, set-append}
use chronos_xserver.Monitor.{ServerContext}
use chronos_xserver.Process.Refresh.{IndexOf}
use chronos_xserver.Updater.{Updater, list_from, start_updater}
use chronos_xserver.Updater.Cycle.{All-take}
use chronos_xserver.Updater.Serves.{IsReady}

list_from_rest :
    (before rest : List ℤ) (i f : ℕ)
    → i ≡ length before
    → list_from (length rest) i f (before ++ rest)
      ≡ done (before ++ map pos (range (i + f) (length rest)))
unfolding list_from
list_from_rest before [] i f e = refl
list_from_rest before (x ∷ rest) i f e =
    let more : ltb i (length (before ++ (x ∷ rest))) ≡ true =
      lt→ltb i (length (before ++ (x ∷ rest))) (omega (arith, length-append before (x ∷ rest))) in
    rw more (
      ap (list_from (length rest) (i + 1) f) (
        set-append before x (pos (i + f)) rest i e
        ∙ sym (append_assoc before (pos (i + f) ∷ []) rest))
      ∙ list_from_rest (before ++ (pos (i + f) ∷ [])) rest (i + 1) f
          (omega (arith, e, length-append before (pos (i + f) ∷ [])))
      ∙ ap done (
          append_assoc before (pos (i + f) ∷ []) (map pos (range (i + 1 + f) (length rest)))
          ∙ ap (λ k. before ++ (pos (i + f) ∷ map pos (range k (length rest)))) (omega arith)))

range-IndexOf : (elements i n : ℕ) → i + n ≤ elements → All (IndexOf elements) (map pos (range i n))
range-IndexOf elements i zero h = tt
range-IndexOf elements i (suc n) h =
    let inside : i < elements = omega arith in
    (inside, range-IndexOf elements (i + 1) n (omega arith))

-- The values of the local variables of update thread `thread_num`, with 30 items to a thread.
abbrev pub started : ℕ → Updater
started thread_num = record {
  first_symbol = thread_num * 30;
  num_updates = 30;
  num_elements = 30;
  update_list = map pos (range (thread_num * 30) 30);
}

-- With 30 items to a thread, an update thread fills its list with its own 30 items, whatever was in
-- the array, and is ready for its cycles if they are items of the environment.
pub start_updater-IsReady :
    (fp : Floats) (elements thread_num : ℕ) (array : List ℤ) (c : ServerContext fp)
    → length array ≡ num_stock_updates_per_update_thread
    → (thread_num + 1) * 30 ≤ elements
    → (start_updater thread_num 30 array ≡ done (started thread_num))
      × IsReady fp elements (started thread_num) c
unfolding start_updater
start_updater-IsReady fp elements thread_num array c slots h =
    let first = thread_num * 30 in
    let list = map pos (range first 30) in
    (
      ap (λ r. r >>= λ filled. done (record (started thread_num) { update_list = filled }))
          (subst (λ n. list_from n 0 first array ≡ done (map pos (range first n))) slots
            (list_from_rest [] array 0 first refl
              ∙ ap (λ k. done (map pos (range k (length array)))) (omega arith))),
      record {
        inside = omega arith;
        slots = refl;
        listed = λ _. (
          omega arith,
          All-take (IndexOf elements) 30 list (range-IndexOf elements first 30 (omega arith)),
        );
      },
    )
