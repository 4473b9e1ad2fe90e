-- ===== src/Aup/Kept.antt =====
-- What calls on the environment of the update policy leave of it: everything but its items.
use chronos_xserver.Prelude.{
  ℕ, ◌≡◌, refl, ◌∙◌, ap, none, some, Option, List, [], ◌∷◌, take, if_cases, ltb, length, ℤ, pos,
  negsuc, get_elem?, set,
}
use chronos_xserver.Floats.{Floats}
use chronos_xserver.Time.{Timeval, msec}
use chronos_xserver.Aup.{
  Call, done, aborted, overrun, ◌>>=◌, DataItem, AupEnv, update_item, af_incr, uf_incr,
  checked_index,
}
use chronos_xserver.Aup.Expired.{set_each, next_update_set}

-- A call whose result, if it has one, is as `P` says.
abbrev pub Gives : {A : Type 0} → (A → Type 0) → Call A → Type 0
Gives P (done a) = P a
Gives P aborted = Unit {0}
Gives P overrun = Unit {0}

pub bind-Gives :
    {A B : Type 0} (Q : B → Type 0) (m : Call A) (f : A → Call B)
    → ((a : A) → Gives Q (f a))
    → Gives Q (m >>= f)
bind-Gives Q (done a) f h = h a
bind-Gives Q aborted f h = tt
bind-Gives Q overrun f h = tt

bind_from :
    {A B : Type 0} (P : A → Type 0) (Q : B → Type 0) (m : Call A) (f : A → Call B)
    → Gives P m
    → ((a : A) → P a → Gives Q (f a))
    → Gives Q (m >>= f)
bind_from P Q (done a) f g h = h a g
bind_from P Q aborted f g h = tt
bind_from P Q overrun f g h = tt

map-Gives :
    {A : Type 0} {P Q : A → Type 0} (m : Call A) → ((a : A) → P a → Q a) → Gives P m → Gives Q m
map-Gives (done a) h g = h a g
map-Gives aborted h g = tt
map-Gives overrun h g = tt

module _ (fp : Floats) where
  -- Nothing but the items has changed.
  abbrev pub ItemsOnly : AupEnv fp → AupEnv fp → Type 0
  ItemsOnly env env' = env' ≡ record env { data_array = env'.data_array }

  ItemsOnly-trans : (a b c : AupEnv fp) → ItemsOnly a b → ItemsOnly b c → ItemsOnly a c
  ItemsOnly-trans a b c ab bc =
      bc ∙ ap {A = AupEnv fp} (λ e. record e { data_array = c.data_array }) ab

  changed :
      (env : AupEnv fp) (i : ℕ) (f : DataItem fp → DataItem fp) (o : Option (DataItem fp))
      → Gives (ItemsOnly env) (elim o [
        | none ↦ overrun
        | some d ↦ done (record env { data_array = set env.data_array i (f d) })
      ])
  changed env i f none = tt
  changed env i f (some d) = refl

  update_item-ItemsOnly :
      (env : AupEnv fp) (i : ℕ) (f : DataItem fp → DataItem fp)
      → Gives (ItemsOnly env) (update_item fp env i f)
  unfolding update_item
  update_item-ItemsOnly env i f = changed env i f (get_elem? env.data_array i)

  pub incr-ItemsOnly :
      (env : AupEnv fp) (i : ℤ)
      → Gives (ItemsOnly env) (af_incr fp env i) × Gives (ItemsOnly env) (uf_incr fp env i)
  unfolding af_incr uf_incr
  incr-ItemsOnly env i = (
    bind-Gives (ItemsOnly env) _ _ (λ _.
        bind-Gives (ItemsOnly env) (checked_index fp env i) _ (λ j. update_item-ItemsOnly env j _)),
    bind-Gives (ItemsOnly env) _ _ (λ _.
        bind-Gives (ItemsOnly env) (checked_index fp env i) _ (λ j. update_item-ItemsOnly env j _)),
  )

  -- one call behind another
  pub then-ItemsOnly :
      (env : AupEnv fp) (m : Call (AupEnv fp)) (f : AupEnv fp → Call (AupEnv fp))
      → Gives (ItemsOnly env) m
      → ((env₁ : AupEnv fp) → Gives (ItemsOnly env₁) (f env₁))
      → Gives (ItemsOnly env) (m >>= f)
  then-ItemsOnly env m f kept rest =
      bind_from (ItemsOnly env) (ItemsOnly env) m f kept (λ env₁ same.
        map-Gives (f env₁) (λ env₂ same₁. ItemsOnly-trans env env₁ env₂ same same₁) (rest env₁))

  set_each-ItemsOnly :
      (now : ℕ) (entries : List ℤ) (env : AupEnv fp)
      → Gives (ItemsOnly env) (set_each fp now entries env)
  unfolding set_each
  set_each-ItemsOnly now [] env = refl
  set_each-ItemsOnly now (negsuc n ∷ entries) env = set_each-ItemsOnly now entries env
  set_each-ItemsOnly now (pos i ∷ entries) env =
      then-ItemsOnly env _ (set_each fp now entries) (update_item-ItemsOnly env i _)
        (set_each-ItemsOnly now entries)

  -- A call of `chronos_aup_next_update_set` changes nothing but items.
  pub next_update_set-ItemsOnly :
      (env : AupEnv fp) (n : ℕ) (entries : List ℤ) (now : Timeval)
      → Gives (ItemsOnly env) (next_update_set fp env n entries now)
  unfolding next_update_set
  next_update_set-ItemsOnly env n entries now = bind-Gives (ItemsOnly env) _ _ (λ _.
      if_cases (Gives (ItemsOnly env)) (ltb (length entries) n) _ _ (λ _. tt)
        (λ _. set_each-ItemsOnly (msec now) (take n entries) env))
