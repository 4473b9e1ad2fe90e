-- ===== src/Queue/Window.antt =====
-- The slots of a ring that hold requests, oldest first, read off the array and the two indices.
use native.Mathlib.Nat.{mod-add-mod, mod-eq_of_lt, mod-eq-sub-mod}
use native.Mathlib.Numerals.{add-one}
use chronos_xserver.Prelude.{
  ℕ, zero, suc, ◌+◌, ◌-◌, ◌%◌, ◌≤◌, ◌<◌, ◌≡◌, ◌≢◌, refl, ap, ◌∙◌, Option, none, some, List, [], ◌∷◌,
  ◌++◌, arith, dec_lt, ltb, lt→ltb, if◌then◌else◌, length, get_elem?, get_elem?-some, set,
  get_elem?-set_self, get_elem?-set_ne,
}

module _ {ℓ} {A : Type ℓ} where
  abbrev pub cons_some : Option A → List A → List A
  cons_some none xs = xs
  cons_some (some x) xs = x ∷ xs

  -- the `n` slots from index `h` on, going round at `size`
  abbrev pub window : List A → ℕ → ℕ → ℕ → List A
  window buf size h zero = []
  window buf size h (suc n) = cons_some (get_elem? buf h) (window buf size ((h + 1) % size) n)

  cons_some-append : (o : Option A) (xs ys : List A) → cons_some o (xs ++ ys) ≡ cons_some o xs ++ ys
  cons_some-append none xs ys = refl
  cons_some-append (some x) xs ys = refl

  pub length-window :
      (buf : List A) (size h n : ℕ)
      → size ≤ length buf
      → h < size
      → length (window buf size h n) ≡ n
  length-window buf size h zero b hh = refl
  length-window buf size h (suc n) b hh =
      let (x, e) = get_elem?-some buf h (omega arith) in
      rw e (ap suc (length-window buf size ((h + 1) % size) n b (omega arith)))

  -- `window` matches on `suc`, the code tests `occupied <= 0`
  pub window_of_pos :
      (buf : List A) (size h n : ℕ) (x : A)
      → 0 < n
      → get_elem? buf h ≡ some x
      → window buf size h n ≡ x ∷ window buf size ((h + 1) % size) (n - 1)
  window_of_pos buf size h zero x p e = absurd (omega arith)
  window_of_pos buf size h (suc n) x p e =
      rw e (ap (λ k. x ∷ window buf size ((h + 1) % size) k) (omega arith))

-- Reducing an index that is less than two turns round the ring.
pub mod_once : (a size : ℕ) → a < size + size → a % size ≡ (if ltb a size then a else a - size)
mod_once a size h = elim (dec_lt a size) [
  | yes below ↦ rw (lt→ltb a size below) (mod-eq_of_lt below)
  | no above ↦ ground (
    arith,
    mod-eq-sub-mod {n = a} {m = size} (omega arith),
    mod-eq_of_lt {n = a - size} {m = size} (omega arith),
  )
]

-- The index past a window that does not fill the ring is not the window's first.
next-ne-first : (size h k : ℕ) → h < size → suc k < size → (h + suc k) % size ≢ h
next-ne-first size h k hh hk = ground (arith, mod_once (h + suc k) size (omega arith))

module _ {ℓ} {A : Type ℓ} where
  window-set-suc :
      (buf : List A) (size : ℕ) (x : A) (n h i : ℕ)
      → size ≤ length buf
      → h < size
      → n < size
      → i ≡ (h + n) % size
      → window (set buf i x) size h (suc n) ≡ window buf size h n ++ (x ∷ [])
  window-set-suc buf size x zero h i hs hh hn e =
      let at_h : i ≡ h = ground (arith, mod_once (h + 0) size (omega arith)) in
      rw (at_h, get_elem?-set_self buf h x (omega arith))
  window-set-suc buf size x (suc n) h i hs hh hn e =
      let apart : i ≢ h = omega (arith, next-ne-first size h n hh (omega arith)) in
      let shift : i ≡ ((h + 1) % size + n) % size =
        e ∙ rw mod-add-mod (ap (λ k. k % size) (omega arith)) in
      rw
        (
          get_elem?-set_ne buf x apart,
          window-set-suc buf size x n ((h + 1) % size) i hs (omega arith) (omega arith) shift,
        )
        (cons_some-append (get_elem? buf h) (window buf size ((h + 1) % size) n) (x ∷ []))

  -- A store just past a window extends it by that element.
  pub window-set :
      (buf : List A) (size : ℕ) (x : A) (n h i : ℕ)
      → size ≤ length buf
      → h < size
      → n < size
      → i ≡ (h + n) % size
      → window (set buf i x) size h (n + 1) ≡ window buf size h n ++ (x ∷ [])
  window-set buf size x n h i hs hh hn e =
      rw (add-one n) (window-set-suc buf size x n h i hs hh hn e)
