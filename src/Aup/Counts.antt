-- ===== src/Aup/Counts.antt =====
-- What the access and update counts of an environment count.
use chronos_xserver.Prelude.{
  ℕ, zero, suc, ◌+◌, ◌≤◌, ◌<◌, ◌≡◌, refl, ap, ◌∙◌, Bool, true, ◌&&◌, some, List, [], ◌∷◌, arith,
  leb, ltb, ◌==◌, if◌then◌else◌, get_elem?, length-append, All, ℤ, pos, negsuc,
}
use chronos_xserver.Floats.{Floats}
use chronos_xserver.Aup.{
  Call, done, aup_magic, DataItem, AupEnv, init_items, env_alloc, zero_item, ◌>>=◌, with_access,
  with_update, af_incr, uf_incr, reset_from, reset_all,
}
use chronos_xserver.Aup.Valid.{IsValid, length-init_items, counter_calls}

module _ (fp : Floats) where
  open fp use {Float, lt_f}

  -- A created environment is valid and has the items that were asked for.
  pub env_alloc-IsValid :
      (calloc_ok : Bool) (num_elements : ℤ) (avi beta : Float) {env : AupEnv fp}
      → env_alloc fp calloc_ok num_elements avi beta ≡ done (some env)
      → IsValid fp env × (pos env.num_elements ≡ num_elements) × (0 < env.num_elements)
  unfolding env_alloc
  env_alloc-IsValid calloc_ok (negsuc n) avi beta e = ground arith
  env_alloc-IsValid calloc_ok (pos n) avi beta e = ground (
    arith,
    length-append (init_items fp avi beta n 0) (zero_item fp ∷ []),
    length-init_items fp avi beta n 0,
  )

  -- both counts at zero
  abbrev pub cleared : DataItem fp → DataItem fp
  cleared d = record d { access_frequency = 0; update_frequency = 0 }

  -- One round of the loop, seen at item `j`: the two resets of item `i`, then the rounds behind.
  one_round :
      (i j left : ℕ) (d : DataItem fp)
      → let d₁ : DataItem fp = if i == j then with_update fp 0 d else d in
        let d₂ : DataItem fp = if i == j then with_access fp 0 d₁ else d₁ in
        (if leb (i + 1) j && ltb j (i + 1 + left) then cleared d₂ else d₂)
        ≡ (if leb i j && ltb j (i + suc left) then cleared d else d)
  one_round i j left d = ground arith

  reset_from_lem :
      (left i : ℕ) (env : AupEnv fp)
      → IsValid fp env
      → i + left ≤ env.num_elements
      → (env' : AupEnv fp) × (reset_from fp left i env ≡ done env')
        × IsValid fp env'
        × (env'.num_elements ≡ env.num_elements)
        × ((j : ℕ) (d : DataItem fp)
            → get_elem? env.data_array j ≡ some d
            → get_elem? env'.data_array j
              ≡ some (if leb i j && ltb j (i + left) then cleared d else d))
  unfolding reset_from
  reset_from_lem zero i env v h = (env, refl, v, refl, λ j d e. ground arith)
  reset_from_lem (suc left) i env v h =
      let calls = counter_calls fp env i v (omega arith) in
      let (env₁, e₁, v₁, n₁, at₁) = calls.3 in
      let (env₂, e₂, v₂, n₂, at₂) = (counter_calls fp env₁ i v₁ (omega arith)).2 in
      let (env₃, e₃, v₃, n₃, at₃) = reset_from_lem left (i + 1) env₂ v₂ (omega arith) in
      (
        env₃,
        rw (e₁, e₂, e₃),
        v₃,
        omega arith,
        λ j d e. at₃ j _ (at₂ j _ (at₁ j d e)) ∙ ap some (one_round i j left d),
      )

  -- `chronos_aup_reset_all` on a valid environment ends, keeps it valid, sets both counts of every
  -- element to zero, and changes nothing else.
  pub reset_all_lem :
      (env : AupEnv fp)
      → IsValid fp env
      → (env' : AupEnv fp) × (reset_all fp env ≡ done env')
        × IsValid fp env'
        × (env'.num_elements ≡ env.num_elements)
        × ((j : ℕ) (d : DataItem fp)
            → get_elem? env.data_array j ≡ some d
            → get_elem? env'.data_array j ≡ some (if ltb j env.num_elements then cleared d else d))
  unfolding reset_all
  reset_all_lem env v =
      let (env', e, v', n, at) = reset_from_lem env.num_elements 0 env v (omega arith) in
      let m : (env.magic == aup_magic) ≡ true = ground arith in
      (env', rw m e, v', n, λ j d h. at j d h ∙ ground arith)

  -- what the server tells an environment about its items
  pub data Event : Type 0 where
    accessed : ℕ → Event
    updated : ℕ → Event

  abbrev pub play : List Event → AupEnv fp → Call (AupEnv fp)
  play [] env = done env
  play (accessed i ∷ es) env = af_incr fp env (pos i) >>= play es
  play (updated i ∷ es) env = uf_incr fp env (pos i) >>= play es

  abbrev pub accesses : ℕ → List Event → ℕ
  accesses j [] = 0
  accesses j (accessed i ∷ es) = (if i == j then 1 else 0) + accesses j es
  accesses j (updated i ∷ es) = accesses j es

  abbrev pub updates : ℕ → List Event → ℕ
  updates j [] = 0
  updates j (accessed i ∷ es) = updates j es
  updates j (updated i ∷ es) = (if i == j then 1 else 0) + updates j es

  abbrev pub Within : ℕ → Event → Type 0
  Within n (accessed i) = i < n
  Within n (updated i) = i < n

  abbrev pub counted : ℕ → List Event → DataItem fp → DataItem fp
  counted j es d = record d {
    access_frequency = d.access_frequency + accesses j es;
    update_frequency = d.update_frequency + updates j es;
  }

  -- On a valid environment, any sequence of counter increments at its elements ends, keeps it
  -- valid, and leaves every item as it was, its counts grown by the number of its accesses and of
  -- its updates.
  pub play-counts :
      (es : List Event) (env : AupEnv fp)
      → IsValid fp env
      → All (Within env.num_elements) es
      → (env' : AupEnv fp) × (play es env ≡ done env')
        × IsValid fp env'
        × ((j : ℕ) (d : DataItem fp)
            → get_elem? env.data_array j ≡ some d
            → get_elem? env'.data_array j ≡ some (counted j es d))
  play-counts [] env v w = (env, refl, v, λ j d e. ground arith)
  play-counts (accessed i ∷ es) env v (h, w) =
      let (env₁, e₁, v₁, n₁, at₁) = (counter_calls fp env i v h).0 in
      let (env₂, e₂, v₂, at₂) = play-counts es env₁ v₁ (rw n₁ w) in
      (env₂, rw (e₁, e₂), v₂, λ j d e. at₂ j _ (at₁ j d e) ∙ ground arith)
  play-counts (updated i ∷ es) env v (h, w) =
      let (env₁, e₁, v₁, n₁, at₁) = (counter_calls fp env i v h).1 in
      let (env₂, e₂, v₂, at₂) = play-counts es env₁ v₁ (rw n₁ w) in
      (env₂, rw (e₁, e₂), v₂, λ j d e. at₂ j _ (at₁ j d e) ∙ ground arith)
