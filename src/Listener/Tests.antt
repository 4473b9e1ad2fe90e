-- ===== src/Listener/Tests.antt =====
-- The listener at concrete calls.
use chronos_xserver.Prelude.{◌≡◌, refl, Bool, true, false, ◌&&◌, List, [], ◌∷◌, map, pos, negsuc}
use chronos_xserver.Args.{Settings, init_settings}
use chronos_xserver.Listener.{
  connection, would_block, Poll, told_to_die, timed_out, readable, listen, accept_all,
}
use chronos_xserver.Listener.Setup.{
  SetUp, attr_init, attr_setstacksize, attr_setdetachstate, pool_init, create_socket, set_reusable,
  set_non_blocking, bind_to, listen_with, calls, fails, destroys, to_port, set_up_calls,
  da_listener,
}
use chronos_xserver.Listener.Setup.Protocol.{IsRun, works, da_listener-IsRun}

-- Two connections at once, a second without any, and one more whose job cannot be queued.
abbrev polls : List Poll
polls =
    readable true (connection 7 true true ∷ connection 9 true true ∷ would_block ∷ [])
    ∷ timed_out
    ∷ readable true (connection 4 true false ∷ would_block ∷ [])
    ∷ told_to_die
    ∷ []

two_jobs : map (λ j. j.socket_fd) (listen polls 0).0 ≡ 7 ∷ 9 ∷ []
unfolding listen accept_all
two_jobs = refl

-- The settings of a command line without options, with the numbers of a fixed set of transactions.
abbrev settings : Settings
settings =
    init_settings
      (record { view_stock = 0; view_portfolio = 1; purchase = 2; sale = 3; txn_max = 4 })
      (λ text. pos 0)

da_listener-IsRun_example :
    IsRun settings polls
      (true && works (λ c. true) (set_up_calls settings))
      (da_listener true settings (λ c. true) polls)
da_listener-IsRun_example = da_listener-IsRun settings true (λ c. true) polls

-- A port that is taken: the pool is destroyed, and the socket is left open.
abbrev port_taken : SetUp → Bool
port_taken attr_init = true
port_taken attr_setstacksize = true
port_taken attr_setdetachstate = true
port_taken (pool_init n) = true
port_taken create_socket = true
port_taken set_reusable = true
port_taken set_non_blocking = true
port_taken (bind_to port) = false
port_taken (listen_with backlog) = true

does_not_listen :
    (da_listener true settings port_taken polls).0
    ≡ calls attr_init
      ∷ calls attr_setstacksize
      ∷ calls attr_setdetachstate
      ∷ calls (pool_init (pos 10))
      ∷ calls create_socket
      ∷ calls set_reusable
      ∷ calls set_non_blocking
      ∷ fails (bind_to 5000)
      ∷ destroys true
      ∷ []
unfolding da_listener
does_not_listen = refl

-- The two's complement and the wrap of a port number.
ports : (to_port (pos 70000) ≡ 4464) × (to_port (negsuc 0) ≡ 65535)
ports = (refl, refl)
