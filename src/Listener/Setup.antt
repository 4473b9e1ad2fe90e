-- ===== src/Listener/Setup.antt =====
-- startup_server.c: `daListener` from its start to its end, by the calls it makes. Whether a call
-- of its set-up succeeds is an argument; the attributes that the first three calls fill are not
-- used behind them.
pub mod Protocol
use chronos_xserver.Prelude.{
  ℕ, suc, ◌-◌, ◌%◌, ◌^◌, Bool, true, false, List, [], ◌∷◌, ◌++◌, map, ℤ, pos, negsuc,
}
use chronos_xserver.Config.{tcp_queue}
use chronos_xserver.Args.{Settings}
use chronos_xserver.Listener.{Poll, Job, Standing, destroyed, aborted, going, listen}

-- The calls of the set-up: `thpool_init` with the number of threads, `bind` with the port, `listen`
-- with the length of its queue. The address is 127.0.0.1.
pub data SetUp : Type 0 where
  attr_init : SetUp
  attr_setstacksize : SetUp
  attr_setdetachstate : SetUp
  pool_init : ℤ → SetUp
  create_socket : SetUp
  set_reusable : SetUp
  set_non_blocking : SetUp
  bind_to : ℕ → SetUp
  listen_with : ℕ → SetUp

-- A call that succeeds or fails; a job that `thpool_add_work` has taken; and `thpool_destroy`, of a
-- pool or of NULL.
pub data Event : Type 0 where
  calls : SetUp → Event
  fails : SetUp → Event
  hands : Job → Event
  destroys : Bool → Event

-- the conversion of an `int` to the `uint16_t` of `htons`
abbrev pub to_port : ℤ → ℕ
to_port (pos n) = n % 2 ^ 16
to_port (negsuc n) = 2 ^ 16 - suc (n % 2 ^ 16)

abbrev pub set_up_calls : Settings → List SetUp
set_up_calls s =
    attr_init
    ∷ attr_setstacksize
    ∷ attr_setdetachstate
    ∷ pool_init s.num_clients_threads
    ∷ create_socket
    ∷ set_reusable
    ∷ set_non_blocking
    ∷ bind_to (to_port s.server_port)
    ∷ listen_with tcp_queue
    ∷ []

-- whether `thpoolH` is not NULL any more behind a call that succeeds
abbrev pub pool_after : SetUp → Bool → Bool
pool_after (pool_init n) pool = true
pool_after attr_init pool = pool
pool_after attr_setstacksize pool = pool
pool_after attr_setdetachstate pool = pool
pool_after create_socket pool = pool
pool_after set_reusable pool = pool
pool_after set_non_blocking pool = pool
pool_after (bind_to port) pool = pool
pool_after (listen_with backlog) pool = pool

-- The calls with their results, up to the first that fails: what happens, whether there is a pool,
-- and whether all succeed.
abbrev pub make_calls : List (SetUp × Bool) → Bool → List Event × Bool × Bool
make_calls [] pool = ([], pool, true)
make_calls ((c, true) ∷ cs) pool =
    let rest = make_calls cs (pool_after c pool) in (calls c ∷ rest.0, rest.1, rest.2)
make_calls ((c, false) ∷ cs) pool = (fails c ∷ [], pool, false)

-- the part behind `cleanup`, for a loop that comes to it
abbrev pub destroy_pool : Standing → Bool → List Event
destroy_pool destroyed pool = destroys pool ∷ []
destroy_pool aborted pool = []
destroy_pool (going n) pool = []

abbrev pub served : List Event × Bool × Bool → List Job × Standing → List Event × Standing
served (es, pool, false) listened = (es ++ destroy_pool destroyed pool, destroyed)
served (es, pool, true) (jobs, st) = (es ++ (map hands jobs ++ destroy_pool st pool), st)

-- The thread, for arguments that are NULL or not.
unfoldable pub da_listener : Bool → Settings → (SetUp → Bool) → List Poll → List Event × Standing
da_listener false s ok polls = (destroys false ∷ [], destroyed)
da_listener true s ok polls =
    served (make_calls (map (λ c. (c, ok c)) (set_up_calls s)) false) (listen polls 0)
