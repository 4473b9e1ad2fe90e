-- ===== src/Updater/Tests.antt =====
-- Cycles of update threads at concrete inputs: the three items and the context of the other tests,
-- in which every item is expired.
use chronos_xserver.Prelude.{
  ℕ, zero, suc, ◌≤◌, ◌≡◌, refl, ap, true, false, Option, some, List, [], ◌∷◌, map, arith, length,
  take, replicate, ℤ, pos, subst,
}
use mathlib.Core.Option.{some-injective}
use chronos_xserver.Floats.{thousandths}
use chronos_xserver.Aup.{minus_one}
use chronos_xserver.Aup.Tests.{three, three-IsValid}
use chronos_xserver.Aup.Expired.{get_n_expired, scan}
use chronos_xserver.Monitor.Tests.{context}
use chronos_xserver.Stats.Tests.{over}
use chronos_xserver.Process.{Packet}
use chronos_xserver.Process.Tests.{types, packet}
use chronos_xserver.Worker.{World}
use chronos_xserver.Worker.Tests.{world, fresh, fresh-IsValid, world-Serviceable}
use chronos_xserver.Updater.{Updater, CycleInput, crashed, cycle}
use chronos_xserver.Updater.Cycle.{due, Fits, CycleOf, cycle_lem}
use chronos_xserver.Updater.Fit.{Creates}
use chronos_xserver.Updater.Serves.{IsReady, IsServed}

-- the refresh of the entries of a list, at price 9
abbrev named : List ℤ → List (ℤ × ℕ × ℕ)
named [] = []
named (i ∷ list) = (i, 70, 9) ∷ named list

abbrev pub create : ℕ → List ℤ → Option (Packet ℕ ℕ ℕ)
create n list = some (record packet { num_items = pos n; update_info = named (take n list) })

length-named : (list : List ℤ) → length (named list) ≡ length list
length-named [] = refl
length-named (i ∷ list) = ap suc (length-named list)

take-named : (n : ℕ) (list : List ℤ) → map (λ e. e.0) (take n (named (take n list))) ≡ take n list
take-named zero list = refl
take-named (suc n) [] = refl
take-named (suc n) (i ∷ list) = ap (λ l. i ∷ l) (take-named n list)

length-taken : (n : ℕ) (list : List ℤ) → n ≤ length list → n ≤ length (named (take n list))
length-taken zero list h = omega arith
length-taken (suc n) [] h = h
length-taken (suc n) (i ∷ list) h = omega (arith, length-taken n list (omega arith))

abbrev pub input : CycleInput ℕ ℕ ℕ
input = record {
  now = over;
  scanned = over;
  scheduled = over;
  create = create;
  wakeups = [];
  free_rc = 0;
  dying = false;
}

-- a thread with the last two of the three items
abbrev pub updater : Updater
updater = record {
  first_symbol = 1;
  num_updates = 2;
  num_elements = 2;
  update_list = pos 1 ∷ pos 2 ∷ replicate 28 minus_one;
}

abbrev quiet_world : World thousandths ℕ ℕ ℕ
quiet_world = record world { user_queue = fresh }

pub create-Creates : Creates create
create-Creates n list p h e =
    subst
      (λ p.
        (p.magic_ok ≡ true)
        × (p.num_items ≡ pos n)
        × (n ≤ length p.update_info)
        × (map (λ e. e.0) (take n p.update_info) ≡ take n list))
      (some-injective _ _ e) (refl, refl, length-taken n list h, take-named n list)

updater-Fits : Fits thousandths updater three
updater-Fits = record {
  valid = three-IsValid;
  inside = omega arith;
  small = omega arith;
  slots = refl;
}

abbrev two : Packet ℕ ℕ ℕ
two = record packet { num_items = pos 2; update_info = named (pos 1 ∷ pos 2 ∷ []) }

cycle_lem_example :
    (list : List ℤ) × CycleOf thousandths packet input updater world two
      (due thousandths over updater three)
      list
      (cycle packet input updater world)
cycle_lem_example =
    cycle_lem thousandths packet input updater world two updater-Fits refl fresh-IsValid
      (omega arith)
      (λ list h. ap (λ l. some (record packet { num_items = pos 2; update_info = named l })) h)

pub updater-IsReady : IsReady thousandths 3 updater context
updater-IsReady = record {
  inside = omega arith;
  slots = refl;
  listed = λ off. (omega arith, (omega arith, (omega arith, tt)));
}

world-IsServed : IsServed thousandths types 3 world
world-IsServed = record { serviceable = world-Serviceable; ring = fresh-IsValid }

-- A thread whose range begins behind the last item reads out of the environment.
abbrev outside : Updater
outside = record updater { first_symbol = 30; num_updates = 30 }

reads_outside : cycle packet input outside world ≡ crashed
unfolding cycle get_n_expired scan
reads_outside = refl
