-- ===== src/Args/Last.antt =====
-- Which of several options counts: for the options with a number, the last one.
use chronos_xserver.Prelude.{
  ℕ, ◌≡◌, refl, subst, ◌⊎◌, inl, inr, Option, none, some, List, [], ◌∷◌, arith, ◌==◌, if◌then◌else◌,
  ℤ,
}
use chronos_xserver.Args.{
  evaluated_cases, long_cases, option_cases, UserTxnTypes, Settings, Getopt, Applied, next, invalid,
  help_shown, accepted, set_mode, init_settings, set_evaluated, long_option, apply_option,
  process_options, process_arguments,
}
use chronos_xserver.Args.Accepted.{Holds, branch-All, check_settings-accepted, go_on-accepted}

-- the argument of the last option with a letter
abbrev pub last_argument : ℕ → List Getopt → Option (List ℕ)
last_argument letter [] = none
last_argument letter (o ∷ os) = elim (last_argument letter os) [
  | some arg ↦ some arg
  | none ↦ if o.c == letter then some o.optarg else none
]

module _ (types : UserTxnTypes) (atoi : List ℕ → ℤ) where
  -- its number, and a default where the letter does not occur
  abbrev pub last_number : ℕ → List Getopt → ℤ → ℤ
  last_number letter os default = elim (last_argument letter os) [
    | some arg ↦ atoi arg
    | none ↦ default
  ]

  -- Every number of the second settings is the one of the last option with its letter, or the one
  -- of the first settings.
  pub record TakesLast (os : List Getopt) (s s' : Settings) : Type 0 where
    pub clients : s'.num_clients_threads ≡ last_number b'c' os s.num_clients_threads
    pub threads : s'.num_server_threads ≡ last_number b't' os s.num_server_threads
    pub validity :
        s'.initial_validity_interval_ms ≡ last_number b'v' os s.initial_validity_interval_ms
    pub updates : s'.num_update_threads ≡ last_number b'u' os s.num_update_threads
    pub duration : s'.duration_sec ≡ last_number b'r' os s.duration_sec
    pub port : s'.server_port ≡ last_number b'p' os s.server_port
    pub bound : s'.desired_delay_bound_ms ≡ last_number b'D' os s.desired_delay_bound_ms
    pub debug : s'.debug_level ≡ last_number b'd' os s.debug_level

  last_number-cons :
      (letter : ℕ) (o : Getopt) (os : List Getopt) (d m n : ℤ)
      → m ≡ last_number letter (o ∷ []) d
      → n ≡ last_number letter os m
      → n ≡ last_number letter (o ∷ os) d
  last_number-cons letter o os d m n em en = ground (arith, em)

  TakesLast-cons :
      (o : Getopt) (os : List Getopt) (s s₁ s' : Settings)
      → TakesLast (o ∷ []) s s₁
      → TakesLast os s₁ s'
      → TakesLast (o ∷ os) s s'
  TakesLast-cons o os s s₁ s' a b = record {
    clients = last_number-cons b'c' o os _ _ _ a.clients b.clients;
    threads = last_number-cons b't' o os _ _ _ a.threads b.threads;
    validity = last_number-cons b'v' o os _ _ _ a.validity b.validity;
    updates = last_number-cons b'u' o os _ _ _ a.updates b.updates;
    duration = last_number-cons b'r' o os _ _ _ a.duration b.duration;
    port = last_number-cons b'p' o os _ _ _ a.port b.port;
    bound = last_number-cons b'D' o os _ _ _ a.bound b.bound;
    debug = last_number-cons b'd' o os _ _ _ a.debug b.debug;
  }

  -- the eight numbers are the same
  record SameNumbers (s s' : Settings) : Type 0 where
    clients : s'.num_clients_threads ≡ s.num_clients_threads
    threads : s'.num_server_threads ≡ s.num_server_threads
    validity : s'.initial_validity_interval_ms ≡ s.initial_validity_interval_ms
    updates : s'.num_update_threads ≡ s.num_update_threads
    duration : s'.duration_sec ≡ s.duration_sec
    port : s'.server_port ≡ s.server_port
    bound : s'.desired_delay_bound_ms ≡ s.desired_delay_bound_ms
    debug : s'.debug_level ≡ s.debug_level

  SameNumbers-refl : (s : Settings) → SameNumbers s s
  SameNumbers-refl s = record {
    clients = refl;
    threads = refl;
    validity = refl;
    updates = refl;
    duration = refl;
    port = refl;
    bound = refl;
    debug = refl;
  }

  set_mode-SameNumbers : (arg : List ℕ) (s : Settings) → Holds (SameNumbers s) (set_mode arg s)
  set_mode-SameNumbers arg s = ground (arith, SameNumbers-refl s)

  set_evaluated-SameNumbers :
      (arg : List ℕ) (s : Settings) → Holds (SameNumbers s) (set_evaluated types atoi arg s)
  set_evaluated-SameNumbers arg s =
      let same : (t : ℕ) → SameNumbers s (record s { evaluated_txn = t }) =
        λ t. ground (arith, SameNumbers-refl s) in
      branch-All (Holds (SameNumbers s)) (evaluated_cases types atoi arg s) invalid
        (λ _. same _, (λ _. same _, (λ _. same _, (λ _. same _, (λ _. same _, tt))))) tt

  long_option-SameNumbers :
      (i : ℕ) (arg : List ℕ) (s : Settings) → Holds (SameNumbers s) (long_option types atoi i arg s)
  long_option-SameNumbers i arg s =
      branch-All (Holds (SameNumbers s)) (long_cases types atoi i arg s) (next s)
        (
          λ _. SameNumbers-refl s,
          (
            λ _. ground arith,
            (λ _. set_evaluated-SameNumbers arg s, (λ _. ground arith, (λ _. ground arith, tt))),
          ),
        )
        (SameNumbers-refl s)

  SameNumbers-TakesLast :
      (o : Getopt) (s s' : Settings)
      → (o.c ≡ 0) ⊎ (o.c ≡ b'm')
      → SameNumbers s s'
      → TakesLast (o ∷ []) s s'
  SameNumbers-TakesLast o s s' c same = ground arith

  Holds-map :
      (P Q : Settings → Type 0) (a : Applied) → ((s : Settings) → P s → Q s) → Holds P a → Holds Q a
  Holds-map P Q (next s) f h = f s h
  Holds-map P Q invalid f h = tt
  Holds-map P Q help_shown f h = tt

  apply_option-TakesLast :
      (o : Getopt) (s : Settings) → Holds (TakesLast (o ∷ []) s) (apply_option types atoi o s)
  unfolding apply_option
  apply_option-TakesLast o s =
      let P = TakesLast (o ∷ []) s in
      branch-All (Holds P) (option_cases types atoi o s) invalid
        (
          λ e.
              Holds-map (SameNumbers s) P (long_option types atoi o.option_index o.optarg s)
                (λ s'. SameNumbers-TakesLast o s s' (inl (ground arith)))
                (long_option-SameNumbers o.option_index o.optarg s),
          (
            λ e.
                Holds-map (SameNumbers s) P (set_mode o.optarg s)
                  (λ s'. SameNumbers-TakesLast o s s' (inr (ground arith)))
                  (set_mode-SameNumbers o.optarg s),
            (
              λ e. ground arith,
              (
                λ e. ground arith,
                (
                  λ e. ground arith,
                  (
                    λ e. ground arith,
                    (
                      λ e. ground arith,
                      (λ e. ground arith, (λ e. ground arith, (λ e. ground arith, (λ _. tt, tt)))),
                    ),
                  ),
                ),
              ),
            ),
          ),
        )
        tt

  process_options-TakesLast :
      (os : List Getopt) (s s' : Settings)
      → process_options types atoi os s ≡ accepted s'
      → TakesLast os s s'
  unfolding process_options
  process_options-TakesLast [] s s' e =
      subst (TakesLast [] s) (check_settings-accepted types atoi s s' e).0
        (ground (arith, SameNumbers-refl s))
  process_options-TakesLast (o ∷ os) s s' e =
      let (s₁, first, e₁) =
        go_on-accepted types atoi (TakesLast (o ∷ []) s) (apply_option types atoi o s)
          (process_options types atoi os) s' (apply_option-TakesLast o s) e in
      TakesLast-cons o os s s₁ s' first (process_options-TakesLast os s₁ s' e₁)

  -- In a configuration that `processArguments` accepts, each of the eight numbers is the value of
  -- the last option with its letter, or the default where there is none; no other option changes it.
  pub process_arguments-TakesLast :
      (os : List Getopt) (s : Settings)
      → process_arguments types atoi os ≡ accepted s
      → TakesLast os (init_settings types atoi) s
  unfolding process_arguments
  process_arguments-TakesLast os s e = process_options-TakesLast os (init_settings types atoi) s e
