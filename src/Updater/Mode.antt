-- ===== src/Updater/Mode.antt =====
-- What a cycle of an update thread leaves of the running mode.
use chronos_xserver.Prelude.{ℕ, zero, suc, Option, none, some, List, if_cases, ℤ, ◌==◌}
use chronos_xserver.Config.{server_success, mode_aup}
use chronos_xserver.Floats.{Floats}
use chronos_xserver.Queue.{Outcome, success, failed, invalid_argument, waiting, fault}
use chronos_xserver.Aup.{Call, done, aborted, overrun, AupEnv}
use chronos_xserver.Monitor.{is_full_or}
use chronos_xserver.Process.{Packet}
use chronos_xserver.Updater.{
  Updater, CycleInput, Cycled, goes_on, leaves, waits, nothing_to_do, enqueued, send, rescheduled,
  scanned_for, cycle, crashed,
}
use chronos_xserver.Worker.{World}
use chronos_xserver.Worker.Mode.{HasMode}

module _ {fp : Floats} {Key Order Price : Type 0} (mode : ℕ) where
  abbrev pub CycleKeepsMode : Cycled (World fp Key Order Price) → Type 0
  CycleKeepsMode (goes_on u w) = HasMode mode w
  CycleKeepsMode (leaves w) = HasMode mode w
  CycleKeepsMode (waits w) = HasMode mode w
  CycleKeepsMode crashed = Unit {0}

  nothing_to_do-KeepsMode :
      (i : CycleInput Key Order Price) (u : Updater) (w : World fp Key Order Price)
      → HasMode mode w
      → CycleKeepsMode (nothing_to_do i u w)
  nothing_to_do-KeepsMode i u w h = if_cases CycleKeepsMode i.dying _ _ (λ _. h) (λ _. h)

  enqueued-KeepsMode :
      (i : CycleInput Key Order Price) (u : Updater) (w : World fp Key Order Price)
      (o : Outcome (Packet Key Order Price) (Unit {0}))
      → HasMode mode w
      → CycleKeepsMode (enqueued i u w o)
  enqueued-KeepsMode i u w (success q unit) h =
      if_cases CycleKeepsMode (i.free_rc == server_success) _ _
        (λ _. nothing_to_do-KeepsMode i u (record w { sys_queue = q }) h) (λ _. h)
  enqueued-KeepsMode i u w (failed q) h = h
  enqueued-KeepsMode i u w (waiting q) h = h
  enqueued-KeepsMode i u w invalid_argument h = h
  enqueued-KeepsMode i u w fault h = tt

  send-KeepsMode :
      (blank : Packet Key Order Price) (i : CycleInput Key Order Price) (u : Updater)
      (w : World fp Key Order Price) (o : Option (Packet Key Order Price))
      → HasMode mode w
      → CycleKeepsMode (send blank i u w o)
  send-KeepsMode blank i u w none h = h
  send-KeepsMode blank i u w (some p) h = enqueued-KeepsMode i u w _ h

  rescheduled-KeepsMode :
      (blank : Packet Key Order Price) (i : CycleInput Key Order Price) (u : Updater)
      (w : World fp Key Order Price) (r : Call (AupEnv fp))
      → HasMode mode w
      → CycleKeepsMode (rescheduled blank i u w r)
  rescheduled-KeepsMode blank i u w (done env) h = send-KeepsMode blank i u _ _ h
  rescheduled-KeepsMode blank i u w aborted h = tt
  rescheduled-KeepsMode blank i u w overrun h = tt

  scanned_for-KeepsMode :
      (blank : Packet Key Order Price) (i : CycleInput Key Order Price) (u : Updater)
      (w : World fp Key Order Price) (r : Call (ℕ × List ℤ))
      → HasMode mode w
      → CycleKeepsMode (scanned_for blank i u w r)
  scanned_for-KeepsMode blank i u w (done (zero, list)) h = nothing_to_do-KeepsMode i _ w h
  scanned_for-KeepsMode blank i u w (done (suc n, list)) h = rescheduled-KeepsMode blank i _ w _ h
  scanned_for-KeepsMode blank i u w aborted h = tt
  scanned_for-KeepsMode blank i u w overrun h = tt

  -- No cycle of an update thread changes the running mode.
  pub cycle-KeepsMode :
      (blank : Packet Key Order Price) (i : CycleInput Key Order Price) (u : Updater)
      (w : World fp Key Order Price)
      → HasMode mode w
      → CycleKeepsMode (cycle blank i u w)
  unfolding cycle
  cycle-KeepsMode blank i u w h =
      if_cases CycleKeepsMode (is_full_or fp mode_aup w.context) _ _
        (λ _. scanned_for-KeepsMode blank i u w _ h) (λ _. send-KeepsMode blank i u w _ h)
