-- ===== src/Server/FreeHandler.antt =====
-- The free function handleClient of client_handler.cpp, which prints what a client sends, next to
-- Server::handleClient. Lines for the log are left out; `none` is a use of a dangling reference.
pub mod Agrees
use cs2remote_console.Base.{
  if◌then◌else◌, ◌>>=◌, ℕ, zero, suc, Bool, true, false, Option, none, some, [], ◌∷◌,
}
use cs2remote_console.Net.{Sockets}
use cs2remote_console.Server.Clients.{Server, Ref, deref, find_socket, erase_socket, close_socket}

module _ (net : Sockets) where
  -- A round of its loop: true if the loop goes on, false on its break.
  unfoldable pub free_handler_round : Ref → Server → net.World → Option (Bool × net.World)
  free_handler_round r s w = do
    client ← deref r s
    let received = net.recv (some client.socket) 1023 w
    some (elim received.0 [
      | none ↦ (net.would_block received.1, received.1)
      | some [] ↦ (false, received.1)
      | some (b ∷ bs) ↦ (true, received.1)
    ])

  -- What follows the loop, under the lock.
  unfoldable pub free_handler_leave : Ref → Server → net.World → Option (Server × net.World)
  free_handler_leave r s w = do
    client ← deref r s
    some (elim (find_socket client.socket s.clients) [
      | none ↦ (s, w)
      | some c ↦
          (record s { clients = erase_socket client.socket s.clients }, close_socket net c.socket w)
    ])

  -- Its first rounds, with no other thread between them: true if it is still in its loop.
  unfoldable pub free_handler : ℕ → Ref → Server → net.World → Option (Bool × Server × net.World)
  free_handler zero r s w = some (true, s, w)
  free_handler (suc rounds) r s w =
      let left : net.World → Option (Bool × Server × net.World) =
        λ v. (do removed ← free_handler_leave r s v; some (false, removed.0, removed.1)) in
      if s.running
      then (do
        done ← free_handler_round r s w
        if done.0 then free_handler rounds r s done.1 else left done.1)
      else left w
