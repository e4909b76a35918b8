-- ===== src/Examples/Link.antt =====
-- The client's threads: their theorems at scripted sockets.
use cs2remote_console.Base.{codes, ℕ, ◌≡◌, refl, true, false, none, some, [], ◌∷◌, pos}
use cs2remote_console.Examples.Scripted.{Script, quiet, scripted}
use cs2remote_console.VConsole.Session.{VConsole, new_vconsole, connect, disconnect}
use cs2remote_console.Client.Console.{
  opened, reported, joining, lost, started, looping, cleared, LinkSettings, Link, new_link,
  connector_step, connector_at, open_console, Steps, here, then_step, by_connector,
}
use cs2remote_console.Client.Console.Connected.{console_connected_has_socket}
use cs2remote_console.Client.Console.Reconnect.{
  reconnect_stops_listener, reconnect_waits_for_listener,
}
use cs2remote_console.Client.Remote.{RemoteLink, new_remote_link, remote_listener_round}

abbrev pub settings : LinkSettings
settings = record {
  ip = codes "127.0.0.1";
  port = pos 29000;
  debug_sanity = false;
  sanity_check_interval = pos 5000;
}

abbrev pub idle : Link Script
idle = new_link 0 new_vconsole

abbrev on_socket : ℕ → VConsole Script
on_socket n = record new_vconsole { client_socket = some n }

abbrev next_socket_is : ℕ → Script
next_socket_is n = record quiet { next_socket = n }

abbrev after_connect : Link Script
after_connect = record idle { vconsole = on_socket 3; connector = opened }

abbrev after_report : Link Script
after_report = record after_connect { console_connected = true; connector = reported }

first-Steps : Steps scripted settings (idle, quiet) (after_report, next_socket_is 4)
unfolding connector_step connector_at open_console connect new_link
first-Steps =
    then_step _ (after_connect, next_socket_is 4) _ (by_connector idle quiet _ refl)
      (then_step _ (after_report, next_socket_is 4) _
        (by_connector after_connect (next_socket_is 4) _ refl) (here _))

console_connected_has_socket_example : (n : ℕ) × (after_report.vconsole.client_socket ≡ some n)
unfolding new_link
console_connected_has_socket_example =
    console_connected_has_socket scripted settings 0 new_vconsole quiet
      (after_report, next_socket_is 4) first-Steps refl refl

-- The old listener has cleared the first flag only.
abbrev half_left : Link Script
half_left = record idle { listening = true; vconsole = on_socket 3; listener = cleared }

connects :
    (c : VConsole Script)
    → connect scripted settings.ip settings.port c (next_socket_is 4)
      ≡ (true, record c { client_socket = some 4 }, next_socket_is 5)
unfolding connect
connects c = refl

reconnect_stops_listener_example :
    (t : Link Script × Script) × Steps scripted settings (half_left, next_socket_is 4) t
    × (t.0.running ≡ true)
    × (t.0.console_connected ≡ false)
    × (t.0.listener ≡ cleared)
    × (t.0.connector ≡ started)
    × (t.0.vconsole.client_socket ≡ some 4)
    × (t.1 ≡ next_socket_is 5)
unfolding new_link
reconnect_stops_listener_example =
    reconnect_stops_listener scripted settings half_left (next_socket_is 4) (next_socket_is 5)
      (on_socket 4) 4 refl refl refl refl (connects (on_socket 3)) refl

-- The connection is lost while the listener is in its loop.
abbrev just_lost : Link Script
just_lost = record idle {
  console_connected = true;
  listening = true;
  vconsole = on_socket 3;
  connector = lost;
  listener = looping;
}

abbrev hung_up_world : Script
hung_up_world = record (next_socket_is 4) { closed = some 3 ∷ [] }

disconnects :
    disconnect scripted (on_socket 3) (next_socket_is 4)
    ≡ (record (on_socket 3) { client_socket = none }, hung_up_world)
unfolding disconnect new_vconsole
disconnects = refl

connects_again :
    connect scripted settings.ip settings.port
      (record (on_socket 3) { client_socket = none })
      hung_up_world
    ≡ (true, on_socket 4, record hung_up_world { next_socket = 5 })
unfolding connect
connects_again = refl

reconnect_waits_for_listener_example :
    (t : Link Script × Script) × Steps scripted settings (just_lost, next_socket_is 4) t
    × (t ≡ (
      record just_lost {
        console_connected = true;
        listening = true;
        vconsole = on_socket 4;
        connector = joining;
      },
      record hung_up_world { next_socket = 5 },
    ))
    × (connector_step scripted settings t.0 t.1 ≡ none)
unfolding new_link
reconnect_waits_for_listener_example =
    reconnect_waits_for_listener scripted settings just_lost (next_socket_is 4) hung_up_world
      (record hung_up_world { next_socket = 5 }) (record (on_socket 3) { client_socket = none })
      (on_socket 4) refl refl refl disconnects connects_again

abbrev remote : RemoteLink
remote = record new_remote_link {
  remote_server_sock = some 7;
  listening_remote_server = true;
  remote_server_connected = true;
  listener = looping;
}

abbrev with_command : Script
with_command = record quiet { incoming = some (codes "kick") ∷ [] }

goes_on_here :
    remote_listener_round scripted settings after_report remote quiet ≡ some (true, remote, quiet)
unfolding remote_listener_round new_remote_link new_link
goes_on_here = refl
