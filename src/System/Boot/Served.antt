-- ===== src/System/Boot/Served.antt =====
-- The server from its start on: the threads of a pool in the world that `main` has set up.
use chronos_xserver.Floats.{Floats}
use chronos_xserver.Updater.{Updater}
use chronos_xserver.Updater.Serves.{Serves}
