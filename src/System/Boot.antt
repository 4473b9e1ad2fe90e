-- ===== src/System/Boot.antt =====
-- startup_server.c: the world that `main` sets up before it starts the threads. The calls of the
-- benchmark, of files and of pthread_mutex_init in between are events of Startup.
pub mod Served
use chronos_xserver.Prelude.{
  ℕ, ◌≡◌, refl, sym, subst, ap, Bool, true, false, Option, none, some, List, [], ◌∷◌, if◌then◌else◌,
  ℤ, pos, pos_part, All,
}
use chronos_xserver.Floats.{Floats}
use chronos_xserver.Queue
use chronos_xserver.Queue.{Queue}
use chronos_xserver.Queue.Valid.{alloc-IsValid}
use chronos_xserver.Queue.Fifo.{contents, contents_of_empty}
use chronos_xserver.Aup
use chronos_xserver.Aup.{Call, done, aborted, overrun, AupEnv}
use chronos_xserver.Aup.Counts.{env_alloc-IsValid}
use chronos_xserver.Ac
use chronos_xserver.Ac.{AcEnv}
use chronos_xserver.Stats.{ThreadStats, ServerStats, thread_stats_alloc, server_stats_alloc}
use chronos_xserver.Args.{UserTxnTypes, Settings}
use chronos_xserver.Monitor.{ServerContext}
use chronos_xserver.Process.{Packet}
use chronos_xserver.Worker.{World}
use chronos_xserver.Process.Safe.{IsRefresh}
use chronos_xserver.Worker.Safe.{IsAnswerable}
use chronos_xserver.Worker.Shared.{IsSound}

-- What the calls of the start return: of each allocation whether it succeeds, and the number of
-- stocks that `benchmark_stock_list_get` finds.
pub record Supply : Type 0 where
  pub user_calloc_ok : Bool
  pub user_init_ok : Bool
  pub sys_calloc_ok : Bool
  pub sys_init_ok : Bool
  pub ac_calloc_ok : Bool
  pub spin_init_rc : ℕ
  pub thread_stats_ok : Bool
  pub server_stats_ok : Bool
  pub aup_calloc_ok : Bool
  pub num_pkeys : ℤ

-- a test for NULL that jumps to `failXit`
unfoldable pub unless_null {ℓ} :
    {A : Type ℓ} {B : Type 0} → Option A → (A → Call (Option B)) → Call (Option B)
unless_null none f = done none
unless_null (some a) f = f a

-- the same behind `chronos_aup_env_alloc`, which may stop at an assertion
unfoldable pub then_env : {A B : Type 0} → Call (Option A) → (A → B) → Call (Option B)
then_env (done none) f = done none
then_env (done (some a)) f = done (some (f a))
then_env aborted f = aborted
then_env overrun f = overrun

module _ (fp : Floats) where
  open fp use {Float, narrow, float_of, literal}

  -- The context, whose other fields `memset` has cleared. The literals are CHRONOS_ALPHA and 0.0.
  abbrev pub first_context :
      Settings → List ThreadStats → ServerStats → AcEnv → AupEnv fp → ServerContext fp
  first_context s threads stats ac env = record {
    running_mode = s.running_mode;
    desired_delay_bound_ms = s.desired_delay_bound_ms;
    performance_stats = stats;
    thread_stats_arr = threads;
    average_service_delay_ms = literal 0 1;
    degree_timing_violation = literal 0 1;
    smoth_degree_timing_violation = literal 0 1;
    period_smoth_degree_timing_violation = literal 0 1;
    alpha = literal 6 10;
    inter_xact_sleep_ms = pos 0;
    ac_env = ac;
    aup_env = env;
  }

  -- The variables of the handlers hold whatever is in `cells`. The last two arguments of the update
  -- policy are the validity interval and CHRONOS_BETA, as `float`.
  unfoldable pub boot_world :
      {Key Order Price : Type 0}
      → Packet Key Order Price
      → Supply
      → Settings
      → (ℕ → ℕ)
      → Call (Option (World fp Key Order Price))
  boot_world blank m s cells =
      unless_null (Queue.alloc blank true m.user_calloc_ok m.user_init_ok) (λ users.
        unless_null (Queue.alloc blank true m.sys_calloc_ok m.sys_init_ok) (λ sys.
          unless_null (Ac.env_alloc m.ac_calloc_ok m.spin_init_rc) (λ ac.
            unless_null
              (if m.thread_stats_ok
                then some (thread_stats_alloc (pos_part s.num_server_threads))
                else none)
              (λ threads.
                unless_null
                  (if m.server_stats_ok
                    then some (server_stats_alloc s.desired_delay_bound_ms)
                    else none)
                  (λ stats.
                    then_env
                      (Aup.env_alloc fp m.aup_calloc_ok m.num_pkeys
                        (float_of s.initial_validity_interval_ms) (narrow (literal 2 1)))
                      (λ env. record {
                        context = first_context s threads stats ac env;
                        sys_queue = sys;
                        user_queue = users;
                        warming_up = true;
                        time_to_die = false;
                        cells = cells;
                      }))))))

-- What is behind a test for NULL that has not failed.
passed_null :
    {A B : Type 0} (o : Option A) (f : A → Call (Option B)) (b : B)
    → unless_null o f ≡ done (some b)
    → (a : A) × (o ≡ some a) × (f a ≡ done (some b))
unfolding unless_null
passed_null none f b e = absurd (cc e)
passed_null (some a) f b e = (a, refl, e)

passed_env :
    {A B : Type 0} (r : Call (Option A)) (f : A → B) (b : B)
    → then_env r f ≡ done (some b)
    → (a : A) × (r ≡ done (some a)) × (f a ≡ b)
unfolding then_env
passed_env (done none) f b e = absurd (cc e)
passed_env (done (some a)) f b e = let same : f a ≡ b = cc e in (a, refl, same)
passed_env aborted f b e = absurd (cc e)
passed_env overrun f b e = absurd (cc e)

module _ (fp : Floats) (types : UserTxnTypes) {Key Order Price : Type 0}
    (blank : Packet Key Order Price) where
  -- A world that `main` has set up is sound: both queues are valid and empty, and the environment of
  -- the update policy is valid and has an item for each stock.
  pub boot_world-IsSound :
      (m : Supply) (s : Settings) (cells : ℕ → ℕ) (w : World fp Key Order Price)
      → boot_world fp blank m s cells ≡ done (some w)
      → IsSound fp types (pos_part m.num_pkeys) w × (contents w.user_queue ≡ [])
  unfolding boot_world
  boot_world-IsSound m s cells w e =
      let (users, eu, e₁) = passed_null _ _ w e in
      let (sys, es, e₂) = passed_null _ _ w e₁ in
      let (ac, ea, e₃) = passed_null _ _ w e₂ in
      let (threads, et, e₄) = passed_null _ _ w e₃ in
      let (stats, er, e₅) = passed_null _ _ w e₄ in
      let (env, en, same) = passed_env _ _ w e₅ in
      let (vu, no_users, _) = alloc-IsValid blank true m.user_calloc_ok m.user_init_ok eu in
      let (vs, no_sys, _) = alloc-IsValid blank true m.sys_calloc_ok m.sys_init_ok es in
      let (ve, size, _) = env_alloc-IsValid fp m.aup_calloc_ok m.num_pkeys _ _ en in
      subst (λ w. IsSound fp types (pos_part m.num_pkeys) w × (contents w.user_queue ≡ [])) same
        (
          record {
            sys = vs;
            users = vu;
            serviceable = record {
              env = (ve, ap pos_part size);
              users =
                  subst (All (IsAnswerable types (pos_part m.num_pkeys)))
                    (sym (contents_of_empty users no_users)) tt;
              refreshes =
                  subst (All (λ info. IsRefresh (pos_part m.num_pkeys) info.request))
                    (sym (contents_of_empty sys no_sys)) tt;
            };
          },
          contents_of_empty users no_users,
        )
