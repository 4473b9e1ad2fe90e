-- ===== src/Startup/Tests.antt =====
-- Starts at concrete inputs: one processing thread and two update threads.
use chronos_xserver.Prelude.{◌≡◌, refl, true, false, [], ◌∷◌, pos}
use chronos_xserver.Args.{Settings, accepted, init_settings}
use chronos_xserver.Process.Tests.{types}
use chronos_xserver.Startup.{processing, updating, Boot, main, acquire_each, start_each}
use chronos_xserver.Startup.Orderly.{started, orderly}
use chronos_xserver.Startup.Main.{Ended, main-Ended}

abbrev boot : Boot
boot = record {
  created = λ r. true;
  portfolios_read = true;
  stocks_read = true;
  attributes_set = true;
  processing_info = true;
  update_info = true;
  listener_info = true;
  starts_up = λ t. true;
  evaluation_rc = 0;
}

abbrev settings : Settings
settings = record (init_settings types (λ text. pos 3)) { num_update_threads = pos 2 }

main-Ended_example : Ended settings (main boot (accepted settings))
main-Ended_example = main-Ended boot settings refl refl

-- The listener cannot be started: the context is released while three threads run.
abbrev no_listener : Boot
no_listener = record boot { listener_info = false }

released_under_threads :
    started (main no_listener (accepted settings)).1 ≡ processing 0 ∷ updating 0 ∷ updating 1 ∷ []
unfolding main acquire_each start_each
released_under_threads = refl

not_orderly : orderly 0 (main no_listener (accepted settings)).1 ≡ false
unfolding main acquire_each start_each
not_orderly = refl
