-- ===== src/Aup/Relax.antt =====
-- aup.c: `chronos_aup_relax`, which lengthens the validity intervals of the first cold items.
pub mod Effect
use chronos_xserver.Prelude.{
  ℕ, zero, suc, ◌+◌, Bool, true, false, ◌&&◌, List, [], ◌∷◌, ltb, if◌then◌else◌, length, take, ℤ,
  pos, pos_part,
}
use chronos_xserver.Floats.{Floats}
use chronos_xserver.Aup.{
  Call, done, aborted, overrun, ◌>>=◌, ◌>>◌, DataItem, AupEnv, magic_check, zero_f,
}

module _ (fp : Floats) where
  open fp use {
    Float, widen, narrow, float_of, literal, mul_f, add_f, div_f, le_f, lt_f, mul_d, trunc_f,
  }

  -- `MIN(num_elements, ds_k * num_elements)`, as an `int`
  unfoldable pub relax_target : ℕ → Float → ℤ
  relax_target num_elements ds_k =
      let all = float_of (pos num_elements) in
      let part = mul_f ds_k all in trunc_f (if lt_f all part then all else part)

  -- fewer accesses than updates
  abbrev pub is_cold : DataItem fp → Bool
  is_cold d = ltb d.access_frequency d.update_frequency

  -- `avi <= tmp && tmp <= beta * avi`
  abbrev pub in_band : DataItem fp → Float → Bool
  in_band d t =
      le_f d.absolute_validity_interval t && le_f t (mul_f d.beta d.absolute_validity_interval)

  -- `1.1 * flexible_validity_interval`, as a `float`
  abbrev pub longer : DataItem fp → Float
  longer d = narrow (mul_d (literal 11 10) (widen d.flexible_validity_interval))

  -- the branch for a cold item
  abbrev pub relax_item : DataItem fp → DataItem fp
  relax_item d =
      if in_band d (longer d) then record d { flexible_validity_interval = longer d } else d

  -- The first loop, with `left` items and `target` relaxations to go. A negative target does as 0.
  unfoldable pub relax_items : ℕ → ℕ → List (DataItem fp) → List (DataItem fp)
  relax_items zero target ds = ds
  relax_items (suc left) zero ds = ds
  relax_items (suc left) (suc target) [] = []
  relax_items (suc left) (suc target) (d ∷ ds) =
      (if is_cold d then relax_item d else d)
      ∷ relax_items left (if is_cold d then target else suc target) ds

  -- the second loop
  unfoldable pub sum_extension : Float → List (DataItem fp) → Float
  sum_extension p_ext [] = p_ext
  sum_extension p_ext (d ∷ ds) =
      sum_extension (add_f p_ext (div_f d.flexible_validity_interval d.absolute_validity_interval))
        ds

  unfoldable pub relax : AupEnv fp → Float → Call (AupEnv fp)
  relax env ds_k = do
    magic_check fp env
    if ltb (length env.data_array) env.num_elements
        then overrun
        else let target = pos_part (relax_target env.num_elements ds_k) in
          let items = relax_items env.num_elements target env.data_array in
          let total = sum_extension (zero_f fp) (take env.num_elements items) in
          done (record env {
            data_array = items;
            p_ext = div_f total (float_of (pos env.num_elements));
          })
