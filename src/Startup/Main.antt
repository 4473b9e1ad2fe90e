-- ===== src/Startup/Main.antt =====
-- How `main` ends in the modes with threads.
use chronos_xserver.Prelude.{
  ℕ, ◌+◌, ◌-◌, ◌≡◌, refl, ap, ap₂, ◌∙◌, true, false, ◌&&◌, List, [], ◌∷◌, ◌++◌, append_assoc,
  append-nil, ◌==◌, length, length-append, arith, inl, inr, ◌⊎◌, pos_part,
}
use chronos_xserver.Config.{server_success, server_fail, mode_evaluation}
use chronos_xserver.Args.{Settings, accepted}
use chronos_xserver.Startup.{
  Thread, processing, updating, listening, context, Event, Boot, Part, and_then, join_each,
  acquire_all, start_all, join_all, cleanup, finished, main,
}
use chronos_xserver.Startup.Orderly.{
  started, joined, orderly, threads, started-append, joined-append, joined-Starting,
  orderly-Starting, Complete, and_then-Complete, check-Complete, acquire_each-Complete,
  start_each-Complete, length-threads, joined-join_each, started-join_each, orderly-join_each,
  orderly-cleanup,
}

-- The processing threads, the update threads, and the listener, in the order of their start.
abbrev pub all_threads : Settings → List Thread
all_threads s =
    threads processing (pos_part s.num_server_threads) 0
    ++ (threads updating (pos_part s.num_update_threads) 0 ++ (listening ∷ []))

-- the order in which they are joined
abbrev pub join_order : Settings → List Thread
join_order s =
    listening
    ∷ (threads updating (pos_part s.num_update_threads) 0
        ++ threads processing (pos_part s.num_server_threads) 0)

start-Complete :
    (b : Boot) (s : Settings) → Complete (and_then (acquire_all b) (start_all b s)) (all_threads s)
start-Complete b s =
    and_then-Complete (acquire_all b) (start_all b s) [] (all_threads s)
      (and_then-Complete _ _ [] [] (acquire_each-Complete b.created _) (
        and_then-Complete _ _ [] [] (check-Complete (b.portfolios_read && b.stocks_read))
          (acquire_each-Complete b.created _)))
      (and_then-Complete _ _ [] (all_threads s)
        (check-Complete (b.attributes_set && b.processing_info))
        (and_then-Complete _ _ (threads processing (pos_part s.num_server_threads) 0) _
          (start_each-Complete b.starts_up processing (pos_part s.num_server_threads) 0)
          (and_then-Complete _ _ [] _ (check-Complete b.update_info) (
            and_then-Complete _ _ (threads updating (pos_part s.num_update_threads) 0) _
              (start_each-Complete b.starts_up updating (pos_part s.num_update_threads) 0)
              (and_then-Complete _ _ [] _ (check-Complete b.listener_info)
                (start_each-Complete b.starts_up (λ i. listening) 1 0))))))

length-all_threads :
    (s : Settings)
    → length (all_threads s) ≡ pos_part s.num_server_threads + (pos_part s.num_update_threads + 1)
length-all_threads s =
    let servers = threads processing (pos_part s.num_server_threads) 0 in
    let updaters = threads updating (pos_part s.num_update_threads) 0 in
    length-append servers (updaters ++ (listening ∷ []))
    ∙ ap₂ (λ m n. m + n) (length-threads processing (pos_part s.num_server_threads) 0)
        (length-append updaters (listening ∷ [])
          ∙ ap (λ n. n + 1) (length-threads updating (pos_part s.num_update_threads) 0))

joined-join_all : (s : Settings) → joined (join_all s ++ cleanup) ≡ join_order s
joined-join_all s =
    let updaters = join_each updating (pos_part s.num_update_threads) 0 in
    let servers = join_each processing (pos_part s.num_server_threads) 0 in
    ap (λ ts. listening ∷ ts)
      (joined-append (updaters ++ servers) cleanup
        ∙ append-nil _
        ∙ joined-append updaters servers
        ∙ ap₂ (λ xs ys. xs ++ ys) (joined-join_each updating (pos_part s.num_update_threads) 0)
            (joined-join_each processing (pos_part s.num_server_threads) 0))

started-join_all : (s : Settings) → started (join_all s ++ cleanup) ≡ []
started-join_all s =
    let updaters = join_each updating (pos_part s.num_update_threads) 0 in
    let servers = join_each processing (pos_part s.num_server_threads) 0 in
    started-append (updaters ++ servers) cleanup
    ∙ append-nil _
    ∙ started-append updaters servers
    ∙ ap₂ (λ xs ys. xs ++ ys) (started-join_each updating (pos_part s.num_update_threads) 0)
        (started-join_each processing (pos_part s.num_server_threads) 0)

orderly-join_all :
    (s : Settings) (n : ℕ)
    → n ≡ pos_part s.num_server_threads + (pos_part s.num_update_threads + 1)
    → orderly n (join_all s ++ cleanup) ≡ true
orderly-join_all s n e =
    let m = pos_part s.num_server_threads in
    let k = pos_part s.num_update_threads in
    let updaters = join_each updating k 0 in
    let servers = join_each processing m 0 in
    ap (orderly (n - 1)) (append_assoc updaters servers cleanup)
    ∙ orderly-join_each updating k 0 (n - 1) (servers ++ cleanup)
    ∙ orderly-join_each processing m 0 (n - 1 - k) cleanup
    ∙ orderly-cleanup (n - 1 - k - m)
    ∙ (let none_left : (n - 1 - k - m == 0) ≡ true = ground (arith, e) in none_left)

-- How `main` ends with a status and events: with success, and then all threads have been started and
-- joined before anything was released; or with failure, and then none has been joined, and
-- things are released while threads run exactly if some have been started.
abbrev pub Ended : Settings → ℕ × List Event → Type 0
Ended s (rc, es) =
    ((rc ≡ server_success)
      × (started es ≡ all_threads s)
      × (joined es ≡ join_order s)
      × (orderly 0 es ≡ true))
    ⊎ ((rc ≡ server_fail) × (joined es ≡ []) × (orderly 0 es ≡ (length (started es) == 0)))

finished-Ended :
    (s : Settings) (part : Part) → Complete part (all_threads s) → Ended s (finished s part)
finished-Ended s (es, true) c =
    let all = c.all refl in
    inl (
      refl,
      started-append es (join_all s ++ cleanup)
          ∙ ap₂ (λ xs ys. xs ++ ys) all (started-join_all s)
          ∙ append-nil _,
      joined-append es (join_all s ++ cleanup)
          ∙ ap₂ (λ xs ys. xs ++ ys) (joined-Starting es c.starting) (joined-join_all s),
      orderly-Starting es (join_all s ++ cleanup) 0 c.starting
          ∙ orderly-join_all s (0 + length (started es))
              (omega (arith, ap length all, length-all_threads s)),
    )
finished-Ended s (es, false) c =
    let none : started cleanup ≡ [] = refl in
    inr (
      refl,
      joined-append es cleanup ∙ append-nil _ ∙ joined-Starting es c.starting,
      orderly-Starting es cleanup 0 c.starting
          ∙ orderly-cleanup (0 + length (started es))
          ∙ ap (λ n. n == 0)
              (omega (arith, ap length (started-append es cleanup), length-append (started es) [])),
    )

-- Once the context is created and the arguments ask for a mode with threads, however the calls of
-- `main` end: with success it has started all threads that were asked for, and joined each, the
-- listener first and the processing threads last, before it releases anything; with failure it joins
-- none, and releases what threads use while they run exactly if it has started any.
pub main-Ended :
    (b : Boot) (s : Settings)
    → b.created context ≡ true
    → (s.running_mode == mode_evaluation) ≡ false
    → Ended s (main b (accepted s))
unfolding main
main-Ended b s has_context threaded =
    rw (has_context, threaded)
      (finished-Ended s (and_then (acquire_all b) (start_all b s)) (start-Complete b s))
