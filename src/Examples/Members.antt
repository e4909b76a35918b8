-- ===== src/Examples/Members.antt =====
-- The room of the server's members: its theorem where a second client has just been accepted.
use cs2remote_console.Base.{◌≡◌, refl, none, some, [], ◌∷◌, arith}
use cs2remote_console.Server.Clients.{new_server, emplace_back, find_socket}
use cs2remote_console.Server.Threads.{
  System, moves, waits, faults, run, accept_at, accept_step, Step, by_accept,
}
use cs2remote_console.Server.Room.{room, Changes}
use cs2remote_console.Server.Room.Refines.{server_refines_room}
use cs2remote_console.Examples.Threads.{listed, open_list, listening, found_eight, Reach-eight}

abbrev with_both : System
with_both = elim (accept_step listed found_eight (8 ∷ 4 ∷ 3 ∷ 0 ∷ [])) [
  | moves t ↦ t.0
  | waits ↦ found_eight
  | faults ↦ found_eight
]

second_joins : Step listed (found_eight, 8 ∷ 4 ∷ 3 ∷ 0 ∷ []) (with_both, 8 ∷ 4 ∷ 3 ∷ 0 ∷ [])
unfolding accept_step accept_at run new_server emplace_back
second_joins = by_accept refl

server_refines_room_example :
    Changes listed (found_eight, 8 ∷ 4 ∷ 3 ∷ 0 ∷ []) (with_both, 8 ∷ 4 ∷ 3 ∷ 0 ∷ []) second_joins
unfolding new_server
server_refines_room_example =
    server_refines_room listed open_list listening (3 ∷ 0 ∷ []) 3 (found_eight, 8 ∷ 4 ∷ 3 ∷ 0 ∷ [])
      (with_both, 8 ∷ 4 ∷ 3 ∷ 0 ∷ []) refl refl refl (refl, omega arith) Reach-eight second_joins

room_test : (room with_both.server.clients 8 ≡ some []) × (room found_eight.server.clients 8 ≡ none)
unfolding room find_socket accept_step accept_at run new_server emplace_back
room_test = (refl, refl)
