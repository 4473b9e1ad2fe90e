-- ===== src/Aup/Valid.antt =====
-- The invariant of an update policy environment, its creation, and what the counters count.
use chronos_xserver.Prelude.{
  ℕ, zero, suc, ◌+◌, ◌<◌, ◌≡◌, refl, sym, subst, ap, ◌∙◌, Bool, true, some, [], ◌∷◌, ◌++◌, arith,
  ◌==◌, if◌then◌else◌, lt→ltb, length, get_elem?, set, length-set, get_elem?-some,
  get_elem?-set_apply, pos,
}
use chronos_xserver.Floats.{Floats}
use chronos_xserver.Aup.{
  Call, done, aup_magic, DataItem, AupEnv, init_items, env_alloc, zero_item, ◌>>=◌, ◌>>◌,
  magic_check, checked_index, update_item, with_access, with_update, af_incr, af_reset, uf_incr,
  uf_reset,
}

module _ (fp : Floats) where
  open fp use {Float, lt_f, le_f, mul_f}

  pub record IsValid (env : AupEnv fp) : Type 0 where
    pub magic_set : env.magic ≡ aup_magic
    pub slots : length env.data_array ≡ env.num_elements + 1

  pub length-init_items :
      (avi beta : Float) (left i : ℕ) → length (init_items fp avi beta left i) ≡ left
  length-init_items avi beta zero i = refl
  length-init_items avi beta (suc left) i = ap suc (length-init_items avi beta left (i + 1))

  pub update_item-some :
      (env : AupEnv fp) (i : ℕ) (f : DataItem fp → DataItem fp) (d : DataItem fp)
      → get_elem? env.data_array i ≡ some d
      → update_item fp env i f ≡ done (record env { data_array = set env.data_array i (f d) })
  unfolding update_item
  update_item-some env i f d e = rw (e, update_item)

  pub set-IsValid :
      (env : AupEnv fp) (i : ℕ) (d : DataItem fp)
      → IsValid env
      → IsValid (record env { data_array = set env.data_array i d })
  set-IsValid env i d v = record {
    magic_set = v.magic_set;
    slots = length-set env.data_array i d ∙ v.slots;
  }

  -- What a change of item `i` by `f` comes to: the call ends, the environment is valid, and every
  -- item is as before but item `i`, which is changed by `f`.
  abbrev pub Changed : AupEnv fp → ℕ → (DataItem fp → DataItem fp) → Call (AupEnv fp) → Type 0
  Changed env i f call =
      (env' : AupEnv fp) × (call ≡ done env')
      × IsValid env'
      × (env'.num_elements ≡ env.num_elements)
      × ((j : ℕ) (d : DataItem fp)
          → get_elem? env.data_array j ≡ some d
          → get_elem? env'.data_array j ≡ some (if i == j then f d else d))

  pub update_item-Changed :
      (env : AupEnv fp) (i : ℕ) (f : DataItem fp → DataItem fp)
      → IsValid env
      → i < length env.data_array
      → Changed env i f (update_item fp env i f)
  update_item-Changed env i f v h =
      let (d, e) = get_elem?-some env.data_array i h in
      (
        record env { data_array = set env.data_array i (f d) },
        update_item-some env i f d e,
        set-IsValid env i (f d) v,
        refl,
        λ j d' e'. get_elem?-set_apply env.data_array i j f d d' e e',
      )

  -- At an item of a valid environment both assertions of a counter call hold.
  guards_pass :
      {B : Type 0} (env : AupEnv fp) (i : ℕ) (k : ℕ → Call B)
      → IsValid env
      → i < env.num_elements
      → (magic_check fp env >> (checked_index fp env (pos i) >>= k)) ≡ k i
  guards_pass env i k v h =
      let m : (env.magic == aup_magic) ≡ true = ground arith in rw (m, lt→ltb i env.num_elements h)

  call-Changed :
      (env : AupEnv fp) (i : ℕ) (f : DataItem fp → DataItem fp)
      → IsValid env
      → i < env.num_elements
      → Changed env i f
          (magic_check fp env >> (checked_index fp env (pos i) >>= λ n. update_item fp env n f))
  call-Changed env i f v h =
      subst (λ c. Changed env i f c) (sym (guards_pass env i (λ n. update_item fp env n f) v h))
        (update_item-Changed env i f v (omega arith))

  -- The four counter calls, each at an item of a valid environment.
  pub counter_calls :
      (env : AupEnv fp) (i : ℕ)
      → IsValid env
      → i < env.num_elements
      → Changed env i (λ d. with_access fp (d.access_frequency + 1) d) (af_incr fp env (pos i))
        × Changed env i (λ d. with_update fp (d.update_frequency + 1) d) (uf_incr fp env (pos i))
        × Changed env i (with_access fp 0) (af_reset fp env (pos i))
        × Changed env i (with_update fp 0) (uf_reset fp env (pos i))
  unfolding af_incr uf_incr af_reset uf_reset
  counter_calls env i v h = (
    call-Changed env i _ v h,
    call-Changed env i _ v h,
    call-Changed env i _ v h,
    call-Changed env i _ v h,
  )

  pub env_alloc_items :
      (calloc_ok : Bool) (n : ℕ) (avi beta : Float) {env : AupEnv fp}
      → env_alloc fp calloc_ok (pos n) avi beta ≡ done (some env)
      → (env.data_array ≡ init_items fp avi beta n 0 ++ (zero_item fp ∷ []))
        × (env.num_elements ≡ n)
  unfolding env_alloc
  env_alloc_items calloc_ok n avi beta e = ground arith
