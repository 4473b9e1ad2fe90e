-- ===== src/Listener/Jobs.antt =====
-- Which handlers the listener starts.
use chronos_xserver.Prelude.{
  ℕ, zero, suc, ◌+◌, ◌≡◌, refl, sym, ap, ap₂, ◌∙◌, Bool, true, false, List, [], ◌∷◌, ◌++◌,
  if◌then◌else◌, length, length-append, arith, map,
}
use chronos_xserver.Listener.{
  Accept, accept_error, would_block, connection, Poll, told_to_die, poll_error, timed_out, readable,
  Job, Standing, destroyed, aborted, going, accept_all, then_poll, listen,
}
use mathlib.Core.List.{map-append}

-- the numbers from `n` on
abbrev pub numbers : ℕ → ℕ → List ℕ
numbers n zero = []
numbers n (suc k) = n ∷ numbers (n + 1) k

-- the sockets of the connections up to the first call that fails, or that has none
abbrev pub sockets : List Accept → List ℕ
sockets [] = []
sockets (accept_error ∷ accepts) = []
sockets (would_block ∷ accepts) = []
sockets (connection fd true true ∷ accepts) = fd ∷ sockets accepts
sockets (connection fd true false ∷ accepts) = []
sockets (connection fd false add_ok ∷ accepts) = []

-- whether the calls come to the end of the connections without a failure
abbrev pub comes_through : List Accept → Bool
comes_through [] = false
comes_through (accept_error ∷ accepts) = false
comes_through (would_block ∷ accepts) = true
comes_through (connection fd true true ∷ accepts) = comes_through accepts
comes_through (connection fd true false ∷ accepts) = false
comes_through (connection fd false add_ok ∷ accepts) = false

-- all sockets, round by round, up to the first round that does not come through
abbrev pub all_sockets : List Poll → List ℕ
all_sockets [] = []
all_sockets (told_to_die ∷ polls) = []
all_sockets (poll_error ∷ polls) = []
all_sockets (timed_out ∷ polls) = all_sockets polls
all_sockets (readable false accepts ∷ polls) = []
all_sockets (readable true accepts ∷ polls) =
    if comes_through accepts then sockets accepts ++ all_sockets polls else sockets accepts

numbers-append : (n j k : ℕ) → numbers n (j + k) ≡ numbers n j ++ numbers (n + j) k
numbers-append n zero k = ap₂ numbers (omega arith) (omega arith)
numbers-append n (suc j) k =
    ap (numbers n) (let same : suc j + k ≡ suc (j + k) = omega arith in same)
    ∙ ap (λ l. n ∷ l)
        (numbers-append (n + 1) j k ∙ ap (λ m. numbers (n + 1) j ++ numbers m k) (omega arith))

abbrev count_of : Standing → ℕ
count_of (going n) = n
count_of destroyed = 0
count_of aborted = 0

abbrev is_going : Standing → Bool
is_going (going n) = true
is_going destroyed = false
is_going aborted = false

-- What the inner loop has handed over, from `counter` on.
record Handed (counter : ℕ) (accepts : List Accept) (r : List Job × Bool × Standing) : Type 0 where
  fds : map (λ j. j.socket_fd) r.0 ≡ sockets accepts
  nums : map (λ j. j.thread_num) r.0 ≡ numbers counter (length r.0)
  through : r.1 ≡ comes_through accepts
  counts : comes_through accepts ≡ true → r.2 ≡ going (counter + length r.0)

accept_all-Handed :
    (counter : ℕ) (accepts : List Accept) → Handed counter accepts (accept_all counter accepts)
unfolding accept_all
accept_all-Handed counter [] = record {
  fds = refl;
  nums = refl;
  through = refl;
  counts = λ e. absurd (ground arith);
}
accept_all-Handed counter (accept_error ∷ accepts) = record {
  fds = refl;
  nums = refl;
  through = refl;
  counts = λ e. absurd (ground arith);
}
accept_all-Handed counter (would_block ∷ accepts) = record {
  fds = refl;
  nums = refl;
  through = refl;
  counts = λ _. ap going (omega arith);
}
accept_all-Handed counter (connection fd false add_ok ∷ accepts) = record {
  fds = refl;
  nums = refl;
  through = refl;
  counts = λ e. absurd (ground arith);
}
accept_all-Handed counter (connection fd true false ∷ accepts) = record {
  fds = refl;
  nums = refl;
  through = refl;
  counts = λ e. absurd (ground arith);
}
accept_all-Handed counter (connection fd true true ∷ accepts) =
    let h = accept_all-Handed (counter + 1) accepts in
    record {
      fds = ap (λ l. fd ∷ l) h.fds;
      nums = ap (λ l. counter ∷ l) h.nums;
      through = h.through;
      counts = λ e. h.counts e ∙ ap going (omega arith);
    }

-- What the outer loop has handed over.
abbrev Listened : ℕ → List Poll → List Job → Type 0
Listened counter polls jobs =
    (map (λ j. j.socket_fd) jobs ≡ all_sockets polls)
    × (map (λ j. j.thread_num) jobs ≡ numbers counter (length jobs))

then_poll-Listened :
    (counter : ℕ) (accepts : List Accept) (polls : List Poll) (r : List Job × Bool × Standing)
    → Handed counter accepts r
    → ((n : ℕ) → Listened n polls (listen polls n).0)
    → Listened counter (readable true accepts ∷ polls) (then_poll r (listen polls)).0
then_poll-Listened counter accepts polls (jobs, true, going n) h more =
    let rest = (listen polls n).0 in
    let (fds, nums) = more n in
    let whole : comes_through accepts ≡ true = sym h.through in
    let count : going n ≡ going (counter + length jobs) = h.counts whole in
    let same : n ≡ counter + length jobs = ap count_of count in
    (
      map-append _ jobs rest ∙ ap₂ (λ a b. a ++ b) h.fds fds ∙ rw whole refl,
      map-append _ jobs rest
          ∙ ap₂ (λ a b. a ++ b) h.nums (nums ∙ ap (λ m. numbers m (length rest)) same)
          ∙ sym (numbers-append counter (length jobs) (length rest))
          ∙ ap (numbers counter) (sym (length-append jobs rest)),
    )
then_poll-Listened counter accepts polls (jobs, true, destroyed) h more =
    let going_on : false ≡ true = ap is_going (h.counts (sym h.through)) in absurd (ground arith)
then_poll-Listened counter accepts polls (jobs, true, aborted) h more =
    let going_on : false ≡ true = ap is_going (h.counts (sym h.through)) in absurd (ground arith)
then_poll-Listened counter accepts polls (jobs, false, standing) h more =
    let stops : comes_through accepts ≡ false = sym h.through in (h.fds ∙ rw stops refl, h.nums)

-- However the calls of the listener end: it hands over one job for each connection that it could
-- take, in the order of the connections and up to the first failure, and numbers the jobs one
-- by one from the value of its counter on.
pub listen-Listened :
    (polls : List Poll) (counter : ℕ)
    → (map (λ j. j.socket_fd) (listen polls counter).0 ≡ all_sockets polls)
      × (map (λ j. j.thread_num) (listen polls counter).0
          ≡ numbers counter (length (listen polls counter).0))
unfolding listen
listen-Listened [] counter = (refl, refl)
listen-Listened (told_to_die ∷ polls) counter = (refl, refl)
listen-Listened (poll_error ∷ polls) counter = (refl, refl)
listen-Listened (timed_out ∷ polls) counter = listen-Listened polls counter
listen-Listened (readable false accepts ∷ polls) counter = (refl, refl)
listen-Listened (readable true accepts ∷ polls) counter =
    then_poll-Listened counter accepts polls (accept_all counter accepts)
      (accept_all-Handed counter accepts) (listen-Listened polls)
