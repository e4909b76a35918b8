-- ===== src/Examples/Hub.antt =====
-- The server: its theorems at a server with three clients.
use cs2remote_console.Base.{
  leb, ◌==◌, if◌then◌else◌, is_some, Bytes, codes, ℕ, ◌+◌, ◌≡◌, refl, ◌≢◌, true, false, none, some,
  [], ◌∷◌, arith,
}
use cs2remote_console.Examples.Scripted.{Script, quiet, scripted, ports_from, no_ports}
use cs2remote_console.Server.Utils.{set_non_blocking}
use cs2remote_console.Server.Clients.{
  ClientInfo, Server, Ref, deref, find_socket, close_socket, remove_client, cleanup_sockets,
  erase_socket,
}
use cs2remote_console.Server.Clients.Registry.{
  Absent, Distinct, remove_client_removes, recipients, send_each,
}
use cs2remote_console.Server.Clients.References.{remove_client_references}
use cs2remote_console.Server.Startup.{bind_loop, start, listen_phase}
use cs2remote_console.Server.Startup.Ports.{StablePorts, bind_loop_first_free, bind_loop_never_ends}
use cs2remote_console.Server.Handlers.{join_message, handle_client_round}
use cs2remote_console.Server.Handlers.Names.{player_name_received}

abbrev pub member : ℕ → Bytes → ClientInfo
member n name = record {
  name = name;
  socket = n;
  ip = codes "10.0.0.1";
  port = 40000 + n;
  connection_time = 0;
}

-- Two clients, room for two.
abbrev pub hub : Server
hub = record {
  initial_port = 42069;
  port = 42069;
  listen_socket = some 3;
  clients = member 4 [] ∷ member 5 (codes "Ann") ∷ [];
  running = true;
  block = 2;
  capacity = 2;
}

abbrev first : Ref
first = record { block = 2; index = 0 }

abbrev second : Ref
second = record { block = 2; index = 1 }

hub-Distinct : Distinct hub.clients
hub-Distinct = omega arith

first-deref : deref first hub ≡ some (member 4 [])
unfolding deref
first-deref = refl

second-deref : deref second hub ≡ some (member 5 (codes "Ann"))
unfolding deref
second-deref = refl

stable : StablePorts (ports_from 42071) (leb 42071)
stable = record { socket_opens = λ w. refl; option_set = λ n w. refl; bind_free = λ n p w. refl }

abbrev fresh_hub : Server
fresh_hub = record hub { clients = []; listen_socket = none; block = 0; capacity = 0 }

bind_loop_first_free_example :
    (s' : Server) × (w' : Script) × (bind_loop (ports_from 42071) 65536 fresh_hub quiet
      ≡ some (true, s', w'))
    × (s'.port ≡ 42071)
    × (is_some s'.listen_socket ≡ true)
bind_loop_first_free_example =
    bind_loop_first_free (ports_from 42071) (leb 42071) stable 2 65536 fresh_hub quiet (omega arith)
      (omega arith) (λ i h. ground arith) refl

none_free : StablePorts no_ports (λ p. false)
none_free = record { socket_opens = λ w. refl; option_set = λ n w. refl; bind_free = λ n p w. refl }

bind_loop_never_ends_example : bind_loop no_ports 70000 fresh_hub quiet ≡ none
bind_loop_never_ends_example =
    bind_loop_never_ends no_ports (λ p. false) none_free 70000 fresh_hub quiet (omega arith)
      (λ p. refl)

abbrev listening : Server
listening = record fresh_hub { port = 42071; listen_socket = some 5 }

abbrev after_start : Script
after_start = record quiet { next_socket = 6; closed = some 3 ∷ some 4 ∷ [] }

start_run : start (ports_from 42071) 3 fresh_hub quiet ≡ some (true, listening, after_start)
unfolding set_non_blocking start listen_phase bind_loop cleanup_sockets
start_run = refl

remove_client_removes_example :
    (s' : Server) × (remove_client scripted first hub quiet
      ≡ some (s', close_socket scripted 4 quiet))
    × Absent 4 s'.clients
    × ((n : ℕ) → n ≢ 4 → find_socket n s'.clients ≡ find_socket n hub.clients)
    × Distinct s'.clients
remove_client_removes_example =
    remove_client_removes scripted first hub quiet (member 4 []) hub-Distinct first-deref

abbrev arriving : Script
arriving = record quiet { arrivals = (6, codes "10.0.0.9", 50000) ∷ [] }

abbrev without_first : Server
without_first = record hub { clients = member 5 (codes "Ann") ∷ [] }

remove_first :
    remove_client scripted first hub quiet ≡ some (without_first, close_socket scripted 4 quiet)
unfolding remove_client deref find_socket erase_socket
remove_first = refl

-- The thread of the second client is left with no client.
remove_client_references_example :
    deref second without_first ≡ deref (record second { index = 2 }) hub
remove_client_references_example =
    remove_client_references scripted first second hub without_first quiet
      (close_socket scripted 4 quiet) (member 4 []) hub-Distinct first-deref remove_first

abbrev named : Script
named = record quiet { incoming = some (codes "PLAYERNAME:B:b") ∷ [] }

player_name_received_example :
    (s' : Server) × (handle_client_round scripted first hub named
      ≡ some (
        true,
        s',
        send_each scripted (join_message (codes "B:b")) (recipients (some 4) s'.clients) quiet,
      ))
    × ((q : Ref)
        → q.block ≡ 2
        → deref q s' ≡ (if q.index == 0 then some (member 4 (codes "B:b")) else deref q hub))
player_name_received_example =
    player_name_received scripted first hub named quiet (member 4 []) (codes "B:b") first-deref
      (omega arith) refl
