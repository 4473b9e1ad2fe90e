-- ===== src/Args/Accepted.antt =====
-- What holds of every configuration that `processArguments` accepts.
use chronos_xserver.Prelude.{
  ℕ, ◌≤◌, ◌<◌, ◌≡◌, ◌≢◌, refl, subst, Bool, true, false, ◌⊎◌, inl, inr, List, [], ◌∷◌, arith, All,
  ℤ, pos, ◌≤ℤ◌,
}
use chronos_xserver.Config.{mode_ac_aup, max_data_items_per_xact}
use chronos_xserver.Args.{
  evaluated_cases, long_cases, option_cases, go_on, branch, UserTxnTypes, Settings, Getopt, bytes,
  begins, Applied, next, invalid, help_shown, Parsed, accepted, set_mode, init_settings,
  set_evaluated, long_option, apply_option, check_settings, process_options, process_arguments,
}

-- What "ac_aup" begins, "ac" begins too.
begins-ac : (arg : List ℕ) → begins (bytes "ac") arg ≡ false → begins (bytes "ac_aup") arg ≡ false
begins-ac [] e = refl
begins-ac (a ∷ []) e = ground arith
begins-ac (a ∷ b ∷ arg) e = ground arith

-- A predicate of the settings that the handling of an option goes on with.
abbrev pub Holds : (Settings → Type 0) → Applied → Type 0
Holds P (next s) = P s
Holds P invalid = Unit {0}
Holds P help_shown = Unit {0}

-- What all branches do right, each under its test, the whole does right.
pub branch-All :
    {A : Type 0} (Q : A → Type 0) (cases : List (Bool × A)) (otherwise : A)
    → All (λ p. p.0 ≡ true → Q p.1) cases
    → Q otherwise
    → Q (branch cases otherwise)
branch-All Q [] otherwise all rest = rest
branch-All Q ((true, a) ∷ cases) otherwise (this, all) rest = this refl
branch-All Q ((false, a) ∷ cases) otherwise (this, all) rest = branch-All Q cases otherwise all rest

-- One of the tests succeeds.
abbrev pub Chosen : {A : Type 0} → List (Bool × A) → Type 0
Chosen [] = ⊥
Chosen ((test, a) ∷ cases) = (test ≡ true) ⊎ Chosen cases

-- What all branches do right, the whole does right, if some test succeeds.
pub branch-Chosen :
    {A : Type 0} (Q : A → Type 0) (cases : List (Bool × A)) (otherwise : A)
    → All (λ p. p.0 ≡ true → Q p.1) cases
    → Chosen cases
    → Q (branch cases otherwise)
branch-Chosen Q [] otherwise all c = absurd c
branch-Chosen Q ((true, a) ∷ cases) otherwise (this, all) c = this refl
branch-Chosen Q ((false, a) ∷ cases) otherwise (this, all) (inl e) = absurd (cc e)
branch-Chosen Q ((false, a) ∷ cases) otherwise (this, all) (inr c) =
    branch-Chosen Q cases otherwise all c

-- What all branches and the last one do right, the whole does right.
pub branch-Any :
    {A : Type 0} (Q : A → Type 0) (cases : List (Bool × A)) (otherwise : A)
    → All (λ p. p.0 ≡ true → Q p.1) cases
    → Q otherwise
    → Q (branch cases otherwise)
branch-Any Q [] otherwise all last = last
branch-Any Q ((true, a) ∷ cases) otherwise (this, all) last = this refl
branch-Any Q ((false, a) ∷ cases) otherwise (this, all) last = branch-Any Q cases otherwise all last

-- the numbers of the transactions that can be chosen for the evaluation
pub data IsChoice (types : UserTxnTypes) (t : ℕ) : Type 0 where
  chose_view_stock : t ≡ types.view_stock → IsChoice types t
  chose_view_portfolio : t ≡ types.view_portfolio → IsChoice types t
  chose_purchase : t ≡ types.purchase → IsChoice types t
  chose_sale : t ≡ types.sale → IsChoice types t
  chose_refresh : t ≡ types.txn_max → IsChoice types t

abbrev Kept : UserTxnTypes → Settings → Type 0
Kept types s =
    (s.running_mode < mode_ac_aup ⊎ mode_ac_aup < s.running_mode)
    × (s.txn_size ≤ max_data_items_per_xact)
    × IsChoice types s.evaluated_txn

set_mode-Kept :
    (types : UserTxnTypes) (arg : List ℕ) (s : Settings)
    → Kept types s
    → Holds (Kept types) (set_mode arg s)
set_mode-Kept types arg s k = ground (arith, begins-ac arg)

module _ (types : UserTxnTypes) (atoi : List ℕ → ℤ) where
  set_evaluated-Kept :
      (arg : List ℕ) (s : Settings)
      → Kept types s
      → Holds (Kept types) (set_evaluated types atoi arg s)
  set_evaluated-Kept arg s k =
      branch-All (Holds (Kept types)) (evaluated_cases types atoi arg s) invalid
        (
          λ _. (k.0, k.1, chose_view_stock refl),
          (
            λ _. (k.0, k.1, chose_view_portfolio refl),
            (
              λ _. (k.0, k.1, chose_purchase refl),
              (λ _. (k.0, k.1, chose_sale refl), (λ _. (k.0, k.1, chose_refresh refl), tt)),
            ),
          ),
        )
        tt

  long_option-Kept :
      (i : ℕ) (arg : List ℕ) (s : Settings)
      → Kept types s
      → Holds (Kept types) (long_option types atoi i arg s)
  long_option-Kept i arg s k =
      branch-All (Holds (Kept types)) (long_cases types atoi i arg s) (next s)
        (
          λ _. k,
          (
            λ _. (inr (omega arith), k.1, k.2),
            (λ _. set_evaluated-Kept arg s k, (λ _. k, (λ _. (k.0, ground arith, k.2), tt))),
          ),
        )
        k

  apply_option-Kept :
      (o : Getopt) (s : Settings) → Kept types s → Holds (Kept types) (apply_option types atoi o s)
  unfolding apply_option
  apply_option-Kept o s k =
      branch-All (Holds (Kept types)) (option_cases types atoi o s) invalid
        (
          λ _. long_option-Kept o.option_index o.optarg s k,
          (
            λ _. set_mode-Kept types o.optarg s k,
            (
              λ _. k,
              (λ _. k, (λ _. k, (λ _. k, (λ _. k, (λ _. k, (λ _. k, (λ _. k, (λ _. tt, tt)))))))),
            ),
          ),
        )
        tt

  -- the bounds that the checks behind the loop ask for
  pub record IsUsable (s : Settings) : Type 0 where
    pub clients : pos 1 ≤ℤ s.num_clients_threads
    pub validity : pos 1 ≤ℤ s.initial_validity_interval_ms
    pub updates : pos 1 ≤ℤ s.num_update_threads
    pub port : pos 1 ≤ℤ s.server_port

  pub check_settings-accepted :
      (s s' : Settings) → check_settings types atoi s ≡ accepted s' → (s ≡ s') × IsUsable s
  unfolding check_settings
  check_settings-accepted s s' e = ground arith

  pub go_on-accepted :
      (P : Settings → Type 0) (a : Applied) (rest : Settings → Parsed) (s' : Settings)
      → Holds P a
      → go_on a rest ≡ accepted s'
      → (s : Settings) × P s × (rest s ≡ accepted s')
  go_on-accepted P (next s) rest s' k e = (s, k, e)
  go_on-accepted P invalid rest s' k e = cc
  go_on-accepted P help_shown rest s' k e = cc

  process_options-accepted :
      (os : List Getopt) (s s' : Settings)
      → Kept types s
      → process_options types atoi os s ≡ accepted s'
      → Kept types s' × IsUsable s'
  unfolding process_options
  process_options-accepted [] s s' k e =
      let (same, usable) = check_settings-accepted s s' e in
      (subst (Kept types) same k, subst IsUsable same usable)
  process_options-accepted (o ∷ os) s s' k e =
      let (s₁, k₁, e₁) =
        go_on-accepted (Kept types) (apply_option types atoi o s) (process_options types atoi os) s'
          (apply_option-Kept o s k) e in
      process_options-accepted os s₁ s' k₁ e₁

  -- A configuration that `processArguments` accepts has at least one client, a positive validity
  -- interval, at least one update thread and a positive port, and a transaction is at most 100 items
  -- long.
  pub process_arguments-IsUsable :
      (os : List Getopt) (s : Settings)
      → process_arguments types atoi os ≡ accepted s
      → IsUsable s × (s.txn_size ≤ max_data_items_per_xact)
  unfolding process_arguments
  process_arguments-IsUsable os s e =
      let (k, usable) =
        process_options-accepted os (init_settings types atoi) s
          (inl (omega arith), omega arith, chose_view_stock refl) e in
      (usable, k.1)

  -- No command line selects the mode AC_AUP: a name that "ac_aup" begins is taken for "ac".
  pub process_arguments-mode :
      (os : List Getopt) (s : Settings)
      → process_arguments types atoi os ≡ accepted s
      → s.running_mode ≢ mode_ac_aup
  unfolding process_arguments
  process_arguments-mode os s e =
      let (k, usable) =
        process_options-accepted os (init_settings types atoi) s
          (inl (omega arith), omega arith, chose_view_stock refl) e in
      omega (arith, k.0)

  -- The transaction that an accepted configuration evaluates is one of the four user transactions,
  -- or the number CHRONOS_USER_TXN_MAX, for a refresh.
  pub process_arguments-IsChoice :
      (os : List Getopt) (s : Settings)
      → process_arguments types atoi os ≡ accepted s
      → IsChoice types s.evaluated_txn
  unfolding process_arguments
  process_arguments-IsChoice os s e =
      (process_options-accepted os (init_settings types atoi) s
        (inl (omega arith), omega arith, chose_view_stock refl) e).0.2
