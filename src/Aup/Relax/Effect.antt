-- ===== src/Aup/Relax/Effect.antt =====
-- Which items `chronos_aup_relax` changes, and the band in which it keeps their intervals.
use chronos_xserver.Prelude.{
  ℕ, zero, suc, ◌+◌, ◌<◌, ◌≡◌, refl, sym, subst, ap, ◌∙◌, Bool, true, false, ◌&&◌, some, List, [],
  ◌∷◌, ◌++◌, arith, inl, inr, Bool-cases, ltb, ◌==◌, if◌then◌else◌, length, get_elem?,
  get_elem?-some, take, pos, pos_part,
}
use mathlib.Core.Option.{some-injective}
use chronos_xserver.Floats.{Floats}
use chronos_xserver.Aup.{
  done, aup_magic, DataItem, AupEnv, zero_f, zero_item, init_items, env_alloc,
}
use chronos_xserver.Aup.Valid.{IsValid, env_alloc_items}
use chronos_xserver.Aup.Relax.{
  relax_target, is_cold, in_band, longer, relax_item, relax_items, sum_extension, relax,
}

module _ (fp : Floats) where
  open fp use {Float, le_f, mul_f, div_f, float_of}

  -- the cold items among the first `i`
  abbrev pub cold_count : ℕ → List (DataItem fp) → ℕ
  cold_count zero ds = 0
  cold_count (suc i) [] = 0
  cold_count (suc i) (d ∷ ds) = (if is_cold fp d then 1 else 0) + cold_count i ds

  -- an item in reach of the loop, cold, and among the first `target` cold ones
  abbrev pub is_relaxed : ℕ → ℕ → List (DataItem fp) → ℕ → DataItem fp → Bool
  is_relaxed left target ds i d = ltb i left && is_cold fp d && ltb (cold_count i ds) target

  relax_items_lem :
      (left target : ℕ) (ds : List (DataItem fp)) (i : ℕ) (d : DataItem fp)
      → get_elem? ds i ≡ some d
      → get_elem? (relax_items fp left target ds) i
        ≡ some (if is_relaxed left target ds i d then relax_item fp d else d)
  unfolding relax_items
  relax_items_lem zero target ds i d e = ground arith
  relax_items_lem (suc left) zero ds i d e = ground arith
  relax_items_lem (suc left) (suc target) [] i d e = cc
  relax_items_lem (suc left) (suc target) (x ∷ ds) zero d e = ground arith
  relax_items_lem (suc left) (suc target) (x ∷ ds) (suc i) d e =
      relax_items_lem left (if is_cold fp x then target else suc target) ds i d e
      ∙ ap (λ b. some (if b then relax_item fp d else d)) (ground arith)

  length-relax_items :
      (left target : ℕ) (ds : List (DataItem fp))
      → length (relax_items fp left target ds) ≡ length ds
  unfolding relax_items
  length-relax_items zero target ds = refl
  length-relax_items (suc left) zero ds = refl
  length-relax_items (suc left) (suc target) [] = refl
  length-relax_items (suc left) (suc target) (x ∷ ds) =
      ap suc (length-relax_items left (if is_cold fp x then target else suc target) ds)

  -- `chronos_aup_relax` on a valid environment ends and keeps it valid. Among the first
  -- `MIN(num_elements, ds_k * num_elements)` elements with fewer accesses than updates, each whose
  -- interval, 1.1 times as long, lies between the absolute interval and beta times that gets the
  -- longer interval; nothing else changes in any item; and `p_ext` is the mean of the quotients of
  -- the new flexible and the absolute intervals.
  pub relax_effect :
      (env : AupEnv fp) (ds_k : Float)
      → IsValid fp env
      → (env' : AupEnv fp) × (relax fp env ds_k ≡ done env')
        × IsValid fp env'
        × (env'.num_elements ≡ env.num_elements)
        × ((j : ℕ) (d : DataItem fp)
            → get_elem? env.data_array j ≡ some d
            → get_elem? env'.data_array j
              ≡ some (
                  if is_relaxed env.num_elements
                    (pos_part (relax_target fp env.num_elements ds_k))
                    env.data_array
                    j
                    d
                  then relax_item fp d
                  else d))
        × (env'.p_ext
            ≡ div_f
                (sum_extension fp (zero_f fp) (take env.num_elements env'.data_array))
                (float_of (pos env.num_elements)))
  unfolding relax
  relax_effect env ds_k v =
      let m : (env.magic == aup_magic) ≡ true = ground arith in
      let fits : ltb (length env.data_array) env.num_elements ≡ false = ground arith in
      let target = pos_part (relax_target fp env.num_elements ds_k) in
      let items = relax_items fp env.num_elements target env.data_array in
      (
        record env {
          data_array = items;
          p_ext =
              div_f (sum_extension fp (zero_f fp) (take env.num_elements items))
                (float_of (pos env.num_elements));
        },
        rw (m, fits),
        record {
          magic_set = v.magic_set;
          slots = length-relax_items env.num_elements target env.data_array ∙ v.slots;
        },
        refl,
        relax_items_lem env.num_elements target env.data_array,
        refl,
      )

  -- the flexible interval of every element lies in its band
  abbrev pub Band : AupEnv fp → Type 0
  Band env =
      (j : ℕ) (d : DataItem fp)
      → j < env.num_elements
      → get_elem? env.data_array j ≡ some d
      → in_band fp d d.flexible_validity_interval ≡ true

  relax_item-band :
      (d : DataItem fp)
      → in_band fp d d.flexible_validity_interval ≡ true
      → in_band fp (relax_item fp d) (relax_item fp d).flexible_validity_interval ≡ true
  relax_item-band d b = elim (Bool-cases (in_band fp d (longer fp d))) [
    | inl e ↦ rw e e
    | inr e ↦ rw e b
  ]

  -- If in a valid environment the flexible interval of every element lies between the absolute
  -- interval and beta times that, then this holds after `chronos_aup_relax` too.
  pub relax-Band :
      (env env' : AupEnv fp) (ds_k : Float)
      → IsValid fp env
      → Band env
      → relax fp env ds_k ≡ done env'
      → Band env'
  relax-Band env env' ds_k v b call j d' h e' =
      let (env₁, e₁, v₁, n₁, at₁, p₁) = relax_effect env ds_k v in
      let same : env₁ ≡ env' = cc (e₁, call) in
      let n' : env'.num_elements ≡ env.num_elements = ap (λ x. x.num_elements) (sym same) ∙ n₁ in
      let (d, e) = get_elem?-some env.data_array j (omega arith) in
      let flag =
        is_relaxed env.num_elements (pos_part (relax_target fp env.num_elements ds_k))
          env.data_array j d in
      let item : (if flag then relax_item fp d else d) ≡ d' =
        some-injective _ _ (sym (at₁ j d e) ∙ ap (λ x. get_elem? x.data_array j) same ∙ e') in
      let band = b j d (omega arith) e in
      subst (λ x. in_band fp x x.flexible_validity_interval ≡ true) item
        (elim flag
          as (λ f.
            in_band fp (if f then relax_item fp d else d)
              (if f then relax_item fp d else d).flexible_validity_interval
            ≡ true) [ true ↦ relax_item-band d band | false ↦ band ])

  -- Item `j` of those that the creation of an environment sets up.
  init_items_at :
      (avi beta : Float) (left i j : ℕ) (rest : List (DataItem fp)) (d : DataItem fp)
      → j < left
      → get_elem? (init_items fp avi beta left i ++ rest) j ≡ some d
      → (d.absolute_validity_interval ≡ avi)
        × (d.flexible_validity_interval ≡ avi)
        × (d.beta ≡ beta)
  init_items_at avi beta zero i j rest d h e = absurd (omega arith)
  init_items_at avi beta (suc left) i zero rest d h e =
      let same = some-injective _ _ e in
      (
        ap (λ x. x.absolute_validity_interval) (sym same),
        ap (λ x. x.flexible_validity_interval) (sym same),
        ap (λ x. x.beta) (sym same),
      )
  init_items_at avi beta (suc left) i (suc j) rest d h e =
      init_items_at avi beta left (i + 1) j rest d (omega arith) e

  -- In a new environment every flexible interval lies in its band, if the given interval is at most
  -- itself (it is no NaN) and at most beta times itself.
  pub env_alloc-Band :
      (calloc_ok : Bool) (n : ℕ) (avi beta : Float) {env : AupEnv fp}
      → le_f avi avi ≡ true
      → le_f avi (mul_f beta avi) ≡ true
      → env_alloc fp calloc_ok (pos n) avi beta ≡ done (some env)
      → Band env
  env_alloc-Band calloc_ok n avi beta {env} lo hi call j d h e =
      let (items, count) = env_alloc_items fp calloc_ok n avi beta call in
      let (a, f, b) =
        init_items_at avi beta n 0 j (zero_item fp ∷ []) d (omega arith)
          (ap (λ l. get_elem? l j) (sym items) ∙ e) in
      rw (a, f, b, lo, hi)
