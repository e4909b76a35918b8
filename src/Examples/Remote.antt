-- ===== src/Examples/Remote.antt =====
-- The threads of the remote link: their theorems on scripted sockets.
use cs2remote_console.Base.{◌≡◌, refl, true, false, none, some, [], ◌∷◌}
use cs2remote_console.Examples.Scripted.{Script, quiet, scripted}
use cs2remote_console.Client.Remote.{new_remote_link, connect_to_remote_server}
use cs2remote_console.Client.Remote.Threads.{
  RemoteThreads, no_connector, no_listener, at_test, flagged, at_join, announcing, starting,
  in_loop, unconnected, closed_socket, not_cleaning, listening_off, resetting, all_joined, Reach,
}
use cs2remote_console.Client.Remote.Threads.Reconnect.{reconnect_closes_new_socket}
use cs2remote_console.Client.Remote.Threads.Closing.{remote_socket_closed_twice}
use cs2remote_console.Client.Console.{joining, looping, ended, stopped, cleaned, new_link}
use cs2remote_console.Client.Shutdown.Order.{shutdown_ends_connectors}
use cs2remote_console.Client.Shutdown.{Program, Steps}
use cs2remote_console.Client.Shutdown.Moves.{Moves, Moves-Steps}
use cs2remote_console.Client.Shutdown.Joinable.{joinable, remote_joinable}
use cs2remote_console.Client.Shutdown.Unjoined.{shutdown_misses_listeners}
use cs2remote_console.Client.Shutdown.Ending.{graceful_shutdown_can_end}
use cs2remote_console.Examples.Link.{settings, idle}

abbrev losing : RemoteThreads
losing = record {
  link = record new_remote_link { remote_server_sock = some 7; listening_remote_server = true };
  running = true;
  connector = at_test;
  listener = unconnected;
  cleanup = not_cleaning;
}

abbrev with_eight : Script
with_eight = record quiet { next_socket = 8 }

connects_eight :
    connect_to_remote_server scripted [] losing.link with_eight
    ≡ (true, record losing.link { remote_server_sock = some 8 }, record quiet { next_socket = 9 })
unfolding connect_to_remote_server
connects_eight = refl

reconnect_closes_new_socket_example :
    (t : RemoteThreads × Script) × Reach scripted [] settings idle (losing, with_eight) t
    × (t.0.connector ≡ announcing)
    × (t.0.listener ≡ starting)
    × (t.0.link.remote_server_connected ≡ true)
    × (t.0.link.remote_server_sock ≡ none)
    × (t.1 ≡ scripted.close (some 8) (record quiet { next_socket = 9 }))
unfolding new_remote_link
reconnect_closes_new_socket_example =
    reconnect_closes_new_socket scripted [] settings idle losing with_eight
      (record quiet { next_socket = 9 }) (record losing.link { remote_server_sock = some 8 }) 8 refl
      refl refl refl connects_eight refl

-- The connector waits for the old listener, and the clean-up has cleared the first flag.
abbrev shutting : RemoteThreads
shutting = record losing {
  running = false;
  connector = at_join;
  listener = in_loop;
  cleanup = listening_off;
}

abbrev receiving : RemoteThreads
receiving = record losing {
  link = record losing.link { remote_server_connected = true };
  listener = in_loop;
}

remote_socket_closed_twice_example :
    (t : RemoteThreads × Script) × Reach scripted [] settings idle (receiving, quiet) t
    × (t.0.listener ≡ closed_socket)
    × (t.0.cleanup ≡ resetting)
    × (t.1 ≡ record quiet { closed = some 7 ∷ some 7 ∷ [] })
remote_socket_closed_twice_example =
    remote_socket_closed_twice scripted [] settings idle receiving quiet 7 refl refl refl

-- Main enters gracefulShutdown while both links' threads are busy.
abbrev busy : Program Script
busy = record {
  link = record idle { listener = looping; connector = joining };
  remote = record receiving { connector = flagged };
}

graceful_shutdown_can_end_example :
    (t : Program Script × Script) × Moves scripted [] settings (busy, quiet) t
    × (t.0.link.cleanup ≡ cleaned)
    × (t.0.remote.cleanup ≡ all_joined)
unfolding new_link
graceful_shutdown_can_end_example =
    graceful_shutdown_can_end scripted [] settings busy quiet refl refl

-- Main enters gracefulShutdown while both connectors have just connected.
abbrev reconnecting : Program Script
reconnecting = record {
  link = record idle { listener = ended; connector = joining };
  remote = record receiving { listener = no_listener; connector = at_join };
}

shutdown_misses_listeners_example :
    (t : Program Script × Script) × Steps scripted [] settings (reconnecting, quiet) t
    × (t.0.link.cleanup ≡ cleaned)
    × (t.0.remote.cleanup ≡ all_joined)
    × (joinable t.0.link.listener ≡ true)
    × (remote_joinable t.0.remote.listener ≡ true)
unfolding new_link
shutdown_misses_listeners_example =
    shutdown_misses_listeners scripted [] settings reconnecting quiet refl (refl, refl) (refl, refl)
      (refl, refl)

-- A run of the whole shutdown.
abbrev shutdown_run :
    (t : Program Script × Script) × Moves scripted [] settings (busy, quiet) t
    × (t.0.link.cleanup ≡ cleaned)
    × (t.0.remote.cleanup ≡ all_joined)
unfolding new_link
shutdown_run = graceful_shutdown_can_end scripted [] settings busy quiet refl refl

shutdown_ends_connectors_example :
    (shutdown_run.0.0.link.cleanup ≡ cleaned)
    × (shutdown_run.0.0.link.connector ≡ stopped)
    × (shutdown_run.0.0.remote.connector ≡ no_connector)
unfolding new_link
shutdown_ends_connectors_example =
    shutdown_ends_connectors scripted [] settings (busy, quiet) shutdown_run.0 refl refl
      (Moves-Steps scripted [] settings (busy, quiet) shutdown_run.0 shutdown_run.1) shutdown_run.3
