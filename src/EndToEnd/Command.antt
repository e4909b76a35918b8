-- ===== src/EndToEnd/Command.antt =====
-- A line that the operator types, from userInputHandler of server.cpp over listenForRemoteServerData
-- of the client to the game, which reads it as libvconsole's readChunk does.
use cs2remote_console.Base.{ℕ, ◌≡◌, ◌≢◌, true, some}
use cs2remote_console.Net.{Sockets}
use cs2remote_console.VConsole.Session.{VConsole}
use cs2remote_console.Server.Clients.{ClientInfo, Server, find_socket}
use cs2remote_console.Server.Clients.Registry.{Distinct}
use cs2remote_console.Client.Console.{Link}
use cs2remote_console.Client.Remote.{RemoteLink}
use cs2remote_console.Net.Pipe.{Pipe}

module _ (net : Sockets) (a b c d : ℕ) (p : Pipe net a b) (q : Pipe net c d) where
  -- The three programs as they relay: the server runs with the client in its list under the socket
  -- `a`, the client listens to it on `b` and is connected to the game on `c`, the game reads from `d`.
  pub record Relays (s : Server) (link : Link net.World) (r : RemoteLink)
      (game : VConsole net.World) : Type 0 where
    pub client : ClientInfo
    pub server_running : s.running ≡ true
    pub distinct : Distinct s.clients
    pub listed : find_socket a s.clients ≡ some client
    pub listening : r.listening_remote_server ≡ true
    pub on_b : r.remote_server_sock ≡ some b
    pub link_running : link.running ≡ true
    pub connected : link.console_connected ≡ true
    pub on_c : link.vconsole.client_socket ≡ some c
    pub on_d : game.client_socket ≡ some d
    pub apart_readers : b ≢ d
    pub apart_senders : c ≢ a
