-- ===== src/Client/Remote/Threads.antt =====
-- The two threads of connection_remoteserver.cpp and cleanupRemoteServer in any order: they share the
-- flags and the socket remoteServerSock. A step is one access to these, or one call on the socket.
pub mod Reconnect
pub mod Ways
pub mod Ends
pub mod Cleanup
pub mod Closing
use cs2remote_console.Base.{
  if◌then◌else◌, ◌>>=◌, is_some, is_empty, ℕ, ◌≡◌, Bool, true, false, not, ◌&&◌, Option, none, some,
  [], ◌∷◌, ◌++◌,
}
use cs2remote_console.Net.{Sockets}
use cs2remote_console.Platform.{set_socket_non_blocking}
use cs2remote_console.Config.{Config}
use cs2remote_console.VConsole.Memory.{c_string}
use cs2remote_console.Client.Console.{LinkSettings, Link, send_payload}
use cs2remote_console.Client.Remote.{
  RemoteLink, connect_to_remote_server, send_message_to_remote_server, name_message,
}

-- Where remoteServerConnectorLoop stands: at the tests of the loop, behind a connection, behind each
-- of the two assignments of flags (the second is the join), behind the start of the listener, at its
-- end; or main has not started it.
pub data RemoteConnector : Type 0 where
  no_connector : RemoteConnector
  at_test : RemoteConnector
  connected_now : RemoteConnector
  flagged : RemoteConnector
  at_join : RemoteConnector
  announcing : RemoteConnector
  connector_over : RemoteConnector

-- Where listenForRemoteServerData stands: no thread, at setSocketNonBlocking, at the test of its
-- loop, behind the loop, behind each of the two assignments of flags, behind CLOSE_SOCKET, at its end.
pub data RemoteListener : Type 0 where
  no_listener : RemoteListener
  starting : RemoteListener
  in_loop : RemoteListener
  behind_loop : RemoteListener
  unconnected : RemoteListener
  unlistening : RemoteListener
  closed_socket : RemoteListener
  listener_over : RemoteListener

-- Where the main thread stands in cleanupRemoteServer: at its start, behind each of the two
-- assignments of flags (the second is the test of the socket), at CLOSE_SOCKET, at the assignment
-- behind it, at each of the two joins, at its end.
pub data RemoteCleanup : Type 0 where
  not_cleaning : RemoteCleanup
  listening_off : RemoteCleanup
  connected_off : RemoteCleanup
  closing : RemoteCleanup
  resetting : RemoteCleanup
  joining_listener : RemoteCleanup
  joining_connector : RemoteCleanup
  all_joined : RemoteCleanup

-- The shared variables, `running` of the other file, and where the threads stand.
pub record RemoteThreads : Type 0 where
  pub link : RemoteLink
  pub running : Bool
  pub connector : RemoteConnector
  pub listener : RemoteListener
  pub cleanup : RemoteCleanup

-- join on a listener that has not ended blocks.
abbrev pub can_join : RemoteListener → Bool
can_join no_listener = true
can_join listener_over = true
can_join _ = false

-- join on a connector that has not ended blocks, and one that was not started is not joinable.
abbrev pub connector_joins : RemoteConnector → Bool
connector_joins no_connector = true
connector_joins connector_over = true
connector_joins _ = false

abbrev pub set_socket : Option ℕ → RemoteThreads → RemoteThreads
set_socket sock y = record y { link = record y.link { remote_server_sock = sock } }

abbrev pub set_connected : Bool → RemoteThreads → RemoteThreads
set_connected b y = record y { link = record y.link { remote_server_connected = b } }

abbrev pub set_listening : Bool → RemoteThreads → RemoteThreads
set_listening b y = record y { link = record y.link { listening_remote_server = b } }

module _ (net : Sockets) (config : Config) (settings : LinkSettings) where
  -- A step of the connector; `none` where it waits in join or has ended.
  unfoldable pub connector_at :
      RemoteConnector → RemoteThreads → net.World → Option (RemoteThreads × net.World)
  connector_at at_test y w =
      let (connected, s, w1) = connect_to_remote_server net config y.link w in
      if not y.running
      then some (record y { connector = connector_over }, w)
      else if y.link.remote_server_connected
      then some (y, w)
      else some
          (record y { link = s; connector = (if connected then connected_now else at_test) }, w1)
  connector_at connected_now y w = some (record (set_connected true y) { connector = flagged }, w)
  connector_at flagged y w = some (record (set_listening true y) { connector = at_join }, w)
  connector_at at_join y w =
      if can_join y.listener
      then some (record y { listener = starting; connector = announcing }, w)
      else none
  connector_at announcing y w =
      if is_empty y.link.client_name
      then some (record y { connector = at_test }, w)
      else some (
        record y { connector = at_test },
        (send_message_to_remote_server net (name_message y.link.client_name) y.link w).1,
      )
  connector_at connector_over y w = none
  connector_at no_connector y w = none

  unfoldable pub connector_step : RemoteThreads → net.World → Option (RemoteThreads × net.World)
  unfolding connector_at
  connector_step y w = connector_at y.connector y w

  -- A round of the listener's loop, next to the link to the game.
  unfoldable pub receive :
      Link net.World → RemoteThreads → net.World → Option (RemoteThreads × net.World)
  receive game y w =
      let (received, w1) = net.recv y.link.remote_server_sock 1023 w in
      elim received [
        | none ↦
            some (record y { listener = (if net.would_block w1 then in_loop else behind_loop) }, w1)
        | some [] ↦ some (record y { listener = behind_loop }, w1)
        | some (b ∷ bs) ↦ (do
          payload ← c_string ((b ∷ bs) ++ 0 ∷ [])
          some (y, (send_payload net settings payload game w1).1))
      ]

  -- A step of the listener; `none` where there is none or it has ended.
  unfoldable pub listener_at :
      RemoteListener
      → Link net.World
      → RemoteThreads
      → net.World
      → Option (RemoteThreads × net.World)
  unfolding receive
  listener_at no_listener game y w = none
  listener_at starting game y w =
      some
        (record y { listener = in_loop }, set_socket_non_blocking net y.link.remote_server_sock w)
  listener_at in_loop game y w =
      if y.link.listening_remote_server && y.running
      then receive game y w
      else some (record y { listener = behind_loop }, w)
  listener_at behind_loop game y w =
      some (record (set_connected false y) { listener = unconnected }, w)
  listener_at unconnected game y w =
      some (record (set_listening false y) { listener = unlistening }, w)
  listener_at unlistening game y w =
      some (record y { listener = closed_socket }, net.close y.link.remote_server_sock w)
  listener_at closed_socket game y w =
      some (record (set_socket none y) { listener = listener_over }, w)
  listener_at listener_over game y w = none

  unfoldable pub listener_step :
      Link net.World → RemoteThreads → net.World → Option (RemoteThreads × net.World)
  unfolding listener_at
  listener_step game y w = listener_at y.listener game y w

  -- A step of cleanupRemoteServer; `none` where it waits in join or is done.
  unfoldable pub cleanup_at :
      RemoteCleanup → RemoteThreads → net.World → Option (RemoteThreads × net.World)
  cleanup_at not_cleaning y w = some (record (set_listening false y) { cleanup = listening_off }, w)
  cleanup_at listening_off y w =
      some (record (set_connected false y) { cleanup = connected_off }, w)
  cleanup_at connected_off y w = some (
    record y {
      cleanup = (if is_some y.link.remote_server_sock then closing else joining_listener);
    },
    w,
  )
  cleanup_at closing y w =
      some (record y { cleanup = resetting }, net.close y.link.remote_server_sock w)
  cleanup_at resetting y w = some (record (set_socket none y) { cleanup = joining_listener }, w)
  cleanup_at joining_listener y w =
      if can_join y.listener
      then some (record y { listener = no_listener; cleanup = joining_connector }, w)
      else none
  cleanup_at joining_connector y w =
      if connector_joins y.connector
      then some (record y { connector = no_connector; cleanup = all_joined }, w)
      else none
  cleanup_at all_joined y w = none

  unfoldable pub cleanup_step : RemoteThreads → net.World → Option (RemoteThreads × net.World)
  unfolding cleanup_at
  cleanup_step y w = cleanup_at y.cleanup y w

  -- The steps in any interleaving, next to a link to the game.
  pub data Step (game : Link net.World) (s t : RemoteThreads × net.World) : Type 0 where
    by_connector : connector_step s.0 s.1 ≡ some t → Step game s t
    by_listener : listener_step game s.0 s.1 ≡ some t → Step game s t
    by_cleanup : cleanup_step s.0 s.1 ≡ some t → Step game s t
    interrupt : t ≡ (record s.0 { running = false }, s.1) → Step game s t

  pub data Reach (game : Link net.World) (s : RemoteThreads × net.World)
      : RemoteThreads × net.World → Type 0 where
    here : Reach game s s
    next : (t u : RemoteThreads × net.World) → Reach game s t → Step game t u → Reach game s u
