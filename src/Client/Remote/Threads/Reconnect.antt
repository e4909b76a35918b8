-- ===== src/Client/Remote/Threads/Reconnect.antt =====
-- How the connector and the listener of the remote link get into each other's way.
use cs2remote_console.Base.{ℕ, ◌≡◌, refl, true, false, none, some, arith}
use cs2remote_console.Net.{Sockets}
use cs2remote_console.Config.{Config}
use cs2remote_console.Client.Console.{LinkSettings, Link}
use cs2remote_console.Client.Remote.{RemoteLink, connect_to_remote_server}
use cs2remote_console.Client.Remote.Threads.{
  at_test, connected_now, flagged, at_join, announcing, starting, unconnected, unlistening,
  closed_socket, listener_over, RemoteThreads, connector_at, connector_step, listener_at,
  listener_step, by_connector, by_listener, Reach, here, next,
}

module _ (net : Sockets) (config : Config) (settings : LinkSettings) where
  -- A listener that has lost its connection clears the flag before it closes its socket. A connector
  -- that connects in between puts the new socket in the place of the old one; the listener then closes
  -- the new socket and marks it invalid, the old one stays open, and the connector takes itself for
  -- connected and starts a listener on no socket.
  pub reconnect_closes_new_socket :
      (game : Link net.World) (y : RemoteThreads) (w w1 : net.World) (l : RemoteLink) (n : ℕ)
      → y.running ≡ true
      → y.connector ≡ at_test
      → y.listener ≡ unconnected
      → y.link.remote_server_connected ≡ false
      → connect_to_remote_server net config y.link w ≡ (true, l, w1)
      → l.remote_server_sock ≡ some n
      → (t : RemoteThreads × net.World) × Reach net config settings game (y, w) t
        × (t.0.connector ≡ announcing)
        × (t.0.listener ≡ starting)
        × (t.0.link.remote_server_connected ≡ true)
        × (t.0.link.remote_server_sock ≡ none)
        × (t.1 ≡ net.close (some n) w1)
  unfolding connector_step connector_at listener_step listener_at
  reconnect_closes_new_socket game y w w1 l n on at leaving off done got =
      let y1 : RemoteThreads = record y { link = l; connector = connected_now } in
      let y2 : RemoteThreads = record y1 {
        link = record l { remote_server_connected = true };
        connector = flagged;
      } in
      let y3 : RemoteThreads = record y2 {
        link = record y2.link { listening_remote_server = false };
        listener = unlistening;
      } in
      let y4 : RemoteThreads = record y3 {
        link = record y3.link { listening_remote_server = true };
        connector = at_join;
      } in
      let y5 : RemoteThreads = record y4 { listener = closed_socket } in
      let y6 : RemoteThreads = record y5 {
        link = record y5.link { remote_server_sock = none };
        listener = listener_over;
      } in
      let y7 : RemoteThreads = record y6 { listener = starting; connector = announcing } in
      let w2 = net.close (some n) w1 in
      (
        (y7, w2),
        next (y6, w2) _
            (next (y5, w2) _
              (next (y4, w1) _
                (next (y3, w1) _
                  (next (y2, w1) _
                    (next (y1, w1) _ (next (y, w) _ here (by_connector (ground arith)))
                      (by_connector refl))
                    (by_listener (ground arith)))
                  (by_connector refl))
                (by_listener (ground arith)))
              (by_listener refl))
            (by_connector refl),
        refl,
        refl,
        refl,
        refl,
        refl,
      )
