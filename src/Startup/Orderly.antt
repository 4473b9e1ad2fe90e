-- ===== src/Startup/Orderly.antt =====
-- Which threads `main` starts and joins, and when it releases what they use.
use chronos_xserver.Prelude.{
  ℕ, zero, suc, ◌+◌, ◌-◌, ◌≡◌, refl, ap, ap₂, ◌∙◌, Bool, true, false, ◌&&◌, List, [], ◌∷◌, ◌++◌,
  ◌==◌, if◌then◌else◌, length, arith, Bool-cases, inl, inr,
}
use chronos_xserver.Startup.{
  Thread, Resource, Event, acquires, starts, joins, releases, Part, and_then, check, acquire_each,
  start_each, join_each, cleanup,
}

abbrev pub started : List Event → List Thread
started [] = []
started (acquires r ∷ es) = started es
started (starts t ∷ es) = t ∷ started es
started (joins t ∷ es) = started es
started (releases r ∷ es) = started es

abbrev pub joined : List Event → List Thread
joined [] = []
joined (acquires r ∷ es) = joined es
joined (starts t ∷ es) = joined es
joined (joins t ∷ es) = t ∷ joined es
joined (releases r ∷ es) = joined es

-- Nothing is released while a thread runs, with `n` of them running at first.
abbrev pub orderly : ℕ → List Event → Bool
orderly n [] = true
orderly n (acquires r ∷ es) = orderly n es
orderly n (starts t ∷ es) = orderly (n + 1) es
orderly n (joins t ∷ es) = orderly (n - 1) es
orderly n (releases r ∷ es) = n == 0 && orderly n es

-- `n` threads of a kind, from number `i` on
abbrev pub threads : (ℕ → Thread) → ℕ → ℕ → List Thread
threads thread zero i = []
threads thread (suc n) i = thread i ∷ threads thread n (i + 1)

-- Events that only acquire and start.
abbrev pub Starting : List Event → Type 0
Starting [] = Unit
Starting (acquires r ∷ es) = Starting es
Starting (starts t ∷ es) = Starting es
Starting (joins t ∷ es) = ⊥
Starting (releases r ∷ es) = ⊥

Starting-append : (es fs : List Event) → Starting es → Starting fs → Starting (es ++ fs)
Starting-append [] fs h k = k
Starting-append (acquires r ∷ es) fs h k = Starting-append es fs h k
Starting-append (starts t ∷ es) fs h k = Starting-append es fs h k
Starting-append (joins t ∷ es) fs h k = h
Starting-append (releases r ∷ es) fs h k = h

pub started-append : (es fs : List Event) → started (es ++ fs) ≡ started es ++ started fs
started-append [] fs = refl
started-append (acquires r ∷ es) fs = started-append es fs
started-append (starts t ∷ es) fs = ap (λ ts. t ∷ ts) (started-append es fs)
started-append (joins t ∷ es) fs = started-append es fs
started-append (releases r ∷ es) fs = started-append es fs

pub joined-append : (es fs : List Event) → joined (es ++ fs) ≡ joined es ++ joined fs
joined-append [] fs = refl
joined-append (acquires r ∷ es) fs = joined-append es fs
joined-append (starts t ∷ es) fs = joined-append es fs
joined-append (joins t ∷ es) fs = ap (λ ts. t ∷ ts) (joined-append es fs)
joined-append (releases r ∷ es) fs = joined-append es fs

pub joined-Starting : (es : List Event) → Starting es → joined es ≡ []
joined-Starting [] h = refl
joined-Starting (acquires r ∷ es) h = joined-Starting es h
joined-Starting (starts t ∷ es) h = joined-Starting es h
joined-Starting (joins t ∷ es) h = absurd h
joined-Starting (releases r ∷ es) h = absurd h

pub orderly-Starting :
    (es fs : List Event) (n : ℕ)
    → Starting es
    → orderly n (es ++ fs) ≡ orderly (n + length (started es)) fs
orderly-Starting [] fs n h = ap (λ k. orderly k fs) (omega arith)
orderly-Starting (acquires r ∷ es) fs n h = orderly-Starting es fs n h
orderly-Starting (starts t ∷ es) fs n h =
    orderly-Starting es fs (n + 1) h ∙ ap (λ k. orderly k fs) (omega arith)
orderly-Starting (joins t ∷ es) fs n h = absurd h
orderly-Starting (releases r ∷ es) fs n h = absurd h

-- A part of the start that, when it comes to its end, has started the given threads.
pub record Complete (part : Part) (ts : List Thread) : Type 0 where
  pub starting : Starting part.0
  pub all : part.1 ≡ true → started part.0 ≡ ts

pub and_then-Complete :
    (p q : Part) (ts us : List Thread)
    → Complete p ts
    → Complete q us
    → Complete (and_then p q) (ts ++ us)
and_then-Complete (es, true) (fs, ok) ts us c d = record {
  starting = Starting-append es fs c.starting d.starting;
  all = λ e. started-append es fs ∙ ap₂ (λ xs ys. xs ++ ys) (c.all refl) (d.all e);
}
and_then-Complete (es, false) (fs, ok) ts us c d = record {
  starting = c.starting;
  all = λ e. absurd (ground arith);
}

pub check-Complete : (ok : Bool) → Complete (check ok) []
check-Complete ok = record { starting = tt; all = λ _. refl }

if-Complete :
    (t : Bool) (p : Part) (ts : List Thread)
    → Complete p ts
    → Complete (if t then p else ([], false)) ts
if-Complete true p ts c = c
if-Complete false p ts c = record { starting = tt; all = λ e. absurd (ground arith) }

pub acquire_each-Complete :
    (created : Resource → Bool) (rs : List Resource) → Complete (acquire_each created rs) []
unfolding acquire_each
acquire_each-Complete created [] = record { starting = tt; all = λ _. refl }
acquire_each-Complete created (r ∷ rs) = if-Complete (created r) _ [] (
    and_then-Complete (acquires r ∷ [], true) (acquire_each created rs) [] []
      (record { starting = tt; all = λ _. refl }) (acquire_each-Complete created rs))

pub start_each-Complete :
    (starts_up : Thread → Bool) (thread : ℕ → Thread) (left i : ℕ)
    → Complete (start_each starts_up thread left i) (threads thread left i)
unfolding start_each
start_each-Complete starts_up thread zero i = record { starting = tt; all = λ _. refl }
start_each-Complete starts_up thread (suc left) i =
    if-Complete (starts_up (thread i)) _ (threads thread (suc left) i) (
      and_then-Complete (starts (thread i) ∷ [], true) (start_each starts_up thread left (i + 1))
        (thread i ∷ []) (threads thread left (i + 1)) (record { starting = tt; all = λ _. refl })
        (start_each-Complete starts_up thread left (i + 1)))

pub length-threads : (thread : ℕ → Thread) (n i : ℕ) → length (threads thread n i) ≡ n
length-threads thread zero i = refl
length-threads thread (suc n) i = ap suc (length-threads thread n (i + 1))

pub joined-join_each :
    (thread : ℕ → Thread) (n i : ℕ) → joined (join_each thread n i) ≡ threads thread n i
unfolding join_each
joined-join_each thread zero i = refl
joined-join_each thread (suc n) i = ap (λ ts. thread i ∷ ts) (joined-join_each thread n (i + 1))

pub started-join_each : (thread : ℕ → Thread) (n i : ℕ) → started (join_each thread n i) ≡ []
unfolding join_each
started-join_each thread zero i = refl
started-join_each thread (suc n) i = started-join_each thread n (i + 1)

pub orderly-join_each :
    (thread : ℕ → Thread) (n i running : ℕ) (fs : List Event)
    → orderly running (join_each thread n i ++ fs) ≡ orderly (running - n) fs
unfolding join_each
orderly-join_each thread zero i running fs = ap (λ k. orderly k fs) (omega arith)
orderly-join_each thread (suc n) i running fs =
    orderly-join_each thread n (i + 1) (running - 1) fs ∙ ap (λ k. orderly k fs) (omega arith)

pub orderly-cleanup : (n : ℕ) → orderly n cleanup ≡ (n == 0)
orderly-cleanup n = elim (Bool-cases (n == 0)) [ inl e ↦ rw e refl | inr e ↦ rw e refl ]
