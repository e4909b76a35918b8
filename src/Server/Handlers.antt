-- ===== src/Server/Handlers.antt =====
-- handleClient, handleClientMessage and userInputHandler of server.cpp, a round of each loop at a
-- time; log lines are left out. `none` is a use of a dangling reference.
pub mod Names
pub mod Input
use cs2remote_console.Base.{
  if◌then◌else◌, ◌>>=◌, Bytes, codes, eqb, is_empty, split_at, ℕ, zero, suc, ◌+◌, Bool, true, false,
  not, ◌||◌, Option, none, some, List, [], ◌∷◌, ◌++◌,
}
use cs2remote_console.Net.{Sockets}
use cs2remote_console.VConsole.Memory.{c_string}
use cs2remote_console.Server.Clients.{
  ClientInfo, Server, Ref, deref, set_name, remove_client, broadcast_to_clients, cleanup_sockets,
}

-- message.find(':') with the two substr calls: the text before and behind the first colon.
unfoldable pub split_colon : Bytes → Option (Bytes × Bytes)
split_colon message = split_at b':' message

-- "Player " + client.name + " has joined the game."
abbrev pub join_message : Bytes → Bytes
join_message name = codes "Player " ++ (name ++ codes " has joined the game.")

-- A line of the answer to "/list": index, name or "Unknown", address, port, time of connection.
unfoldable pub list_lines : ℕ → List ClientInfo → List (ℕ × Bytes × Bytes × ℕ × ℕ)
list_lines index [] = []
list_lines index (c ∷ cs) =
    (index, (if is_empty c.name then codes "Unknown" else c.name), c.ip, c.port, c.connection_time)
    ∷ list_lines (index + 1) cs

module _ (net : Sockets) where
  abbrev pub leave : Ref → Server → net.World → Option (Bool × Server × net.World)
  leave r s w = do removed ← remove_client net r s w; some (false, removed.0, removed.1)

  -- The test of the command, and the branch of "PLAYERNAME".
  unfoldable pub apply_command :
      ClientInfo → Ref → Bytes → Bytes → Server → net.World → Option (Server × net.World)
  apply_command client r command content s w =
      let s' = set_name content client r.index s in
      if eqb command (codes "PLAYERNAME")
      then some (s', broadcast_to_clients net (join_message content) (some client.socket) s' w)
      else some (s, w)

  unfoldable pub handle_client_message :
      Ref → Bytes → Server → net.World → Option (Server × net.World)
  unfolding apply_command
  handle_client_message r message s w = elim (split_colon message) [
    | none ↦ (do client ← deref r s; some (s, w))
    | some (command, content) ↦ (do client ← deref r s; apply_command client r command content s w)
  ]

  -- A round of the loop of handleClient: true if the loop goes on, false on its break.
  unfoldable pub handle_client_round : Ref → Server → net.World → Option (Bool × Server × net.World)
  handle_client_round r s w = do
    client ← deref r s
    let received = net.recv (some client.socket) 1023 w
    elim received.0 [
      | none ↦ some (net.would_block received.1, s, received.1)
      | some [] ↦ some (false, s, received.1)
      | some (b ∷ bs) ↦ (do
        message ← c_string ((b ∷ bs) ++ 0 ∷ [])
        done ← handle_client_message r message s received.1
        some (true, done.0, done.1))
    ]

  -- The first rounds of handleClient, with no other thread between them: true if it is still in its
  -- loop after so many, false if it has left the loop and removed its client.
  unfoldable pub handle_client : ℕ → Ref → Server → net.World → Option (Bool × Server × net.World)
  handle_client zero r s w = some (true, s, w)
  handle_client (suc rounds) r s w =
      if s.running
      then (do
        done ← handle_client_round r s w
        if done.0 then handle_client rounds r done.1 done.2 else leave r done.1 done.2)
      else leave r s w

  -- A round of userInputHandler on the line that was read, `none` if std::cin is no longer good.
  -- true if the loop goes on.
  unfoldable pub user_input_round : Option Bytes → Server → net.World → Bool × Server × net.World
  user_input_round none s w = (false, record s { running = false }, w)
  user_input_round (some input) s w =
      if not s.running || eqb input (codes "/quit")
      then (false, record s { running = false }, w)
      else if eqb input (codes "/list")
      then (true, s, w)
      else (true, s, broadcast_to_clients net input none s w)
