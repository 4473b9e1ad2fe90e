-- ===== src/Listener/Setup/Protocol.antt =====
-- The calls of the listener against the rules of sockets and of the thread pool.
use chronos_xserver.Prelude.{
  ℕ, ◌≡◌, refl, sym, ap, ◌∙◌, Bool, true, false, ◌&&◌, Option, none, some, List, [], ◌∷◌, ◌++◌,
  if◌then◌else◌, length, map, subst, append-nil, arith,
}
use chronos_xserver.Config.{tcp_queue}
use chronos_xserver.Args.{Settings}
use chronos_xserver.Listener.{Poll, Job, Standing, destroyed, aborted, going, listen}
use chronos_xserver.Listener.Jobs.{all_sockets, numbers, listen-Listened}
use chronos_xserver.Listener.Setup.{
  SetUp, attr_init, attr_setstacksize, attr_setdetachstate, pool_init, create_socket, set_reusable,
  set_non_blocking, bind_to, listen_with, Event, calls, fails, hands, destroys, to_port,
  set_up_calls, make_calls, destroy_pool, served, da_listener,
}

-- What the thread holds: a pool, and a socket with what is set on it.
pub record Held : Type 0 where
  pub pool : Bool
  pub socket : Bool
  pub reusable : Bool
  pub non_blocking : Bool
  pub port : Option ℕ
  pub listening : Bool

abbrev pub nothing_held : Held
nothing_held = record {
  pool = false;
  socket = false;
  reusable = false;
  non_blocking = false;
  port = none;
  listening = false;
}

abbrev unset : {A : Type 0} → Option A → Bool
unset none = true
unset (some a) = false

abbrev not : Bool → Bool
not true = false
not false = true

-- When a call is in order: options stand before what depends on them, and nothing is made twice.
abbrev pub allowed : SetUp → Held → Bool
allowed attr_init h = true
allowed attr_setstacksize h = true
allowed attr_setdetachstate h = true
allowed (pool_init n) h = not h.pool
allowed create_socket h = not h.socket
allowed set_reusable h = h.socket && unset h.port
allowed set_non_blocking h = h.socket
allowed (bind_to port) h = h.socket && (h.reusable && unset h.port)
allowed (listen_with backlog) h = not (unset h.port) && not h.listening

abbrev pub after : SetUp → Held → Held
after attr_init h = h
after attr_setstacksize h = h
after attr_setdetachstate h = h
after (pool_init n) h = record h { pool = true }
after create_socket h = record h { socket = true }
after set_reusable h = record h { reusable = true }
after set_non_blocking h = record h { non_blocking = true }
after (bind_to port) h = record h { port = some port }
after (listen_with backlog) h = record h { listening = true }

abbrev same_flag : Bool → Bool → Bool
same_flag true b = b
same_flag false b = not b

-- A connection is handed over if the pool is there and the socket listens without blocking; only
-- the pool that is there is destroyed.
abbrev pub takes : List Event → Held → Option Held
takes [] h = some h
takes (calls c ∷ es) h = if allowed c h then takes es (after c h) else none
takes (fails c ∷ es) h = if allowed c h then takes es h else none
takes (hands job ∷ es) h = if h.pool && (h.listening && h.non_blocking) then takes es h else none
takes (destroys pool ∷ es) h =
    if same_flag pool h.pool then takes es (record h { pool = false }) else none

abbrev pub handed : List Event → List Job
handed [] = []
handed (calls c ∷ es) = handed es
handed (fails c ∷ es) = handed es
handed (hands job ∷ es) = job ∷ handed es
handed (destroys pool ∷ es) = handed es

-- whether all calls of the set-up succeed
abbrev pub works : (SetUp → Bool) → List SetUp → Bool
works ok [] = true
works ok (c ∷ cs) = ok c && works ok cs

-- What is held when the thread has ended, and before.
abbrev pub Released : Standing → Held → Type 0
Released destroyed h = h.pool ≡ false
Released aborted h = h.pool ≡ true
Released (going n) h = h.pool ≡ true

-- A run of the listener, by whether its set-up works.
pub record IsRun (s : Settings) (polls : List Poll) (up : Bool) (r : List Event × Standing)
    : Type 0 where
  pub in_order :
      (h : Held) × (takes r.0 nothing_held ≡ some h)
      × Released r.1 h
      × (up ≡ true → h.port ≡ some (to_port s.server_port))
  pub fds : map (λ j. j.socket_fd) (handed r.0) ≡ (if up then all_sockets polls else [])
  pub nums : map (λ j. j.thread_num) (handed r.0) ≡ numbers 0 (length (handed r.0))
  pub stops : up ≡ false → r.1 ≡ destroyed

-- A thread with everything set up, whose pool is `pool`.
abbrev serving : Settings → Bool → Held
serving s pool = record {
  pool = pool;
  socket = true;
  reusable = true;
  non_blocking = true;
  port = some (to_port s.server_port);
  listening = true;
}

takes-hands :
    (s : Settings) (jobs : List Job) (es : List Event)
    → takes (map hands jobs ++ es) (serving s true) ≡ takes es (serving s true)
takes-hands s [] es = refl
takes-hands s (job ∷ jobs) es = takes-hands s jobs es

handed-hands :
    (jobs : List Job) (es : List Event) → handed (map hands jobs ++ es) ≡ jobs ++ handed es
handed-hands [] es = refl
handed-hands (job ∷ jobs) es = ap (λ js. job ∷ js) (handed-hands jobs es)

-- the events of a set-up that works
abbrev up_calls : Settings → List Event
up_calls s = map calls (set_up_calls s)

-- Of a loop that runs or has ended.
up-IsRun :
    (s : Settings) (polls : List Poll) (jobs : List Job) (st : Standing)
    → (map (λ j. j.socket_fd) jobs ≡ all_sockets polls)
      × (map (λ j. j.thread_num) jobs ≡ numbers 0 (length jobs))
    → (h : Held) × (takes (destroy_pool st true) (serving s true) ≡ some h)
      × Released st h
      × (h.port ≡ some (to_port s.server_port))
    → handed (destroy_pool st true) ≡ []
    → IsRun s polls true (up_calls s ++ (map hands jobs ++ destroy_pool st true), st)
up-IsRun s polls jobs st (fds, nums) (h, taken, released, bound) no_more =
    let all : jobs ≡ handed (map hands jobs ++ destroy_pool st true) = sym (
      handed-hands jobs (destroy_pool st true) ∙ ap (λ js. jobs ++ js) no_more ∙ append-nil jobs) in
    record {
      in_order = (h, takes-hands s jobs (destroy_pool st true) ∙ taken, released, λ _. bound);
      fds = subst (λ js. map (λ j. j.socket_fd) js ≡ all_sockets polls) all fds;
      nums = subst (λ js. map (λ j. j.thread_num) js ≡ numbers 0 (length js)) all nums;
      stops = λ e. absurd (ground arith);
    }

served-IsRun :
    (s : Settings) (polls : List Poll) (r : List Job × Standing)
    → (map (λ j. j.socket_fd) r.0 ≡ all_sockets polls)
      × (map (λ j. j.thread_num) r.0 ≡ numbers 0 (length r.0))
    → IsRun s polls true (served (up_calls s, true, true) r)
served-IsRun s polls (jobs, destroyed) fits =
    up-IsRun s polls jobs destroyed fits (serving s false, refl, refl, refl) refl
served-IsRun s polls (jobs, aborted) fits =
    up-IsRun s polls jobs aborted fits (serving s true, refl, refl, refl) refl
served-IsRun s polls (jobs, going n) fits =
    up-IsRun s polls jobs (going n) fits (serving s true, refl, refl, refl) refl

-- Of a set-up that fails.
failed-IsRun :
    (s : Settings) (polls : List Poll) (es : List Event) (h : Held)
    → takes es nothing_held ≡ some h
    → h.pool ≡ false
    → handed es ≡ []
    → IsRun s polls false (es, destroyed)
failed-IsRun s polls es h taken released no_jobs = record {
  in_order = (h, taken, released, λ e. absurd (ground arith));
  fds = ap (map (λ j. j.socket_fd)) no_jobs;
  nums = subst (λ js. map (λ j. j.thread_num) js ≡ numbers 0 (length js)) (sym no_jobs) refl;
  stops = λ _. refl;
}

-- The calls of the set-up, with a result for each.
abbrev results : Settings → (a b c d e f g i j : Bool) → List (SetUp × Bool)
results s a b c d e f g i j =
    (attr_init, a)
    ∷ (attr_setstacksize, b)
    ∷ (attr_setdetachstate, c)
    ∷ (pool_init s.num_clients_threads, d)
    ∷ (create_socket, e)
    ∷ (set_reusable, f)
    ∷ (set_non_blocking, g)
    ∷ (bind_to (to_port s.server_port), i)
    ∷ (listen_with tcp_queue, j)
    ∷ []

make_calls-IsRun :
    (s : Settings) (polls : List Poll) (a b c d e f g i j : Bool)
    → IsRun s polls
        (a && (b && (c && (d && (e && (f && (g && (i && (j && true)))))))))
        (served (make_calls (results s a b c d e f g i j) false) (listen polls 0))
make_calls-IsRun s polls false b c d e f g i j = failed-IsRun s polls _ _ refl refl refl
make_calls-IsRun s polls true false c d e f g i j = failed-IsRun s polls _ _ refl refl refl
make_calls-IsRun s polls true true false d e f g i j = failed-IsRun s polls _ _ refl refl refl
make_calls-IsRun s polls true true true false e f g i j = failed-IsRun s polls _ _ refl refl refl
make_calls-IsRun s polls true true true true false f g i j = failed-IsRun s polls _ _ refl refl refl
make_calls-IsRun s polls true true true true true false g i j =
    failed-IsRun s polls _ _ refl refl refl
make_calls-IsRun s polls true true true true true true false i j =
    failed-IsRun s polls _ _ refl refl refl
make_calls-IsRun s polls true true true true true true true false j =
    failed-IsRun s polls _ _ refl refl refl
make_calls-IsRun s polls true true true true true true true true false =
    failed-IsRun s polls _ _ refl refl refl
make_calls-IsRun s polls true true true true true true true true true =
    served-IsRun s polls (listen polls 0) (listen-Listened polls 0)

-- Whatever the calls of the listener return, it keeps to the rules of sockets and of its pool: each
-- option is set before the call that it is for, connections are handed over only by a socket that
-- listens without blocking, and to a pool. A thread that has come to its end has destroyed the pool
-- if there was one, once. If its argument is NULL or its set-up fails it ends without a connection.
-- Else it is bound to the port of the settings, as 16 bits, and hands over one job for each
-- connection it could take, in order, up to the first failure, and numbered from 0.
pub da_listener-IsRun :
    (s : Settings) (argument : Bool) (ok : SetUp → Bool) (polls : List Poll)
    → IsRun s polls (argument && works ok (set_up_calls s)) (da_listener argument s ok polls)
unfolding da_listener
da_listener-IsRun s false ok polls =
    failed-IsRun s polls (destroys false ∷ []) nothing_held refl refl refl
da_listener-IsRun s true ok polls =
    make_calls-IsRun s polls (ok attr_init) (ok attr_setstacksize) (ok attr_setdetachstate)
      (ok (pool_init s.num_clients_threads)) (ok create_socket) (ok set_reusable)
      (ok set_non_blocking) (ok (bind_to (to_port s.server_port))) (ok (listen_with tcp_queue))
