-- ===== src/Listener.antt =====
-- startup_server.c: the loop of `daListener`, which takes connections and hands each to a handler of
-- the thread pool. What `poll`, `accept`, `calloc` and `thpool_add_work` return is an argument.
-- The `int` that numbers the handlers does not overflow here.
pub mod Jobs
pub mod Setup
mod Tests
use chronos_xserver.Prelude.{
  ℕ, zero, suc, ◌+◌, Bool, true, false, List, [], ◌∷◌, ◌++◌, if◌then◌else◌,
}

-- One call of `accept`, and behind it the two calls for its handler: an error other than
-- EWOULDBLOCK; no more connections; or a socket.
pub data Accept : Type 0 where
  accept_error : Accept
  would_block : Accept
  connection : (socket_fd : ℕ) (calloc_ok add_work_ok : Bool) → Accept

-- One round of the outer loop, from its test on: told to die; an error of `poll`; no connection
-- within its second; or a readable socket, with `revents` set or not, and the calls of `accept`.
pub data Poll : Type 0 where
  told_to_die : Poll
  poll_error : Poll
  timed_out : Poll
  readable : Bool → List Accept → Poll

-- what a handler is started with, of `chronosServerThreadInfo_t`
pub record Job : Type 0 where
  pub socket_fd : ℕ
  pub thread_num : ℕ

-- How the loop stands: behind `cleanup`; at an assertion that failed; or still in `accept` or `poll`.
-- The number is that of `counter`.
pub data Standing : Type 0 where
  destroyed : Standing
  aborted : Standing
  going : ℕ → Standing

-- The inner loop: the jobs handed over, whether it ended with a break, and the rest.
pub accept_all : ℕ → List Accept → List Job × Bool × Standing
accept_all counter [] = ([], false, going counter)
accept_all counter (accept_error ∷ accepts) = ([], false, destroyed)
accept_all counter (would_block ∷ accepts) = ([], true, going counter)
accept_all counter (connection socket_fd calloc_ok add_work_ok ∷ accepts) =
    let rest = accept_all (counter + 1) accepts in
    let job : Job = record { socket_fd = socket_fd; thread_num = counter } in
    if calloc_ok
    then (if add_work_ok then (job ∷ rest.0, rest.1, rest.2) else ([], false, destroyed))
    else ([], false, destroyed)

-- what the outer loop makes of the inner one
abbrev pub then_poll : List Job × Bool × Standing → (ℕ → List Job × Standing) → List Job × Standing
then_poll (jobs, true, going counter) more = let rest = more counter in (jobs ++ rest.0, rest.1)
then_poll (jobs, true, destroyed) more = (jobs, destroyed)
then_poll (jobs, true, aborted) more = (jobs, aborted)
then_poll (jobs, false, standing) more = (jobs, standing)

-- The outer loop over a list of rounds.
pub listen : List Poll → ℕ → List Job × Standing
listen [] counter = ([], going counter)
listen (told_to_die ∷ polls) counter = ([], destroyed)
listen (poll_error ∷ polls) counter = ([], destroyed)
listen (timed_out ∷ polls) counter = listen polls counter
listen (readable revents accepts ∷ polls) counter =
    let r = then_poll (accept_all counter accepts) (listen polls) in
    if revents then r else ([], aborted)
