-- ===== src/Client/Remote/Threads/Closing.antt =====
-- CLOSE_SOCKET in cleanupRemoteServer and in the listener of the remote link.
use cs2remote_console.Base.{ℕ, ◌≡◌, refl, false, some, arith}
use cs2remote_console.Net.{Sockets}
use cs2remote_console.Config.{Config}
use cs2remote_console.Client.Console.{LinkSettings, Link}
use cs2remote_console.Client.Remote.Threads.{
  in_loop, behind_loop, unconnected, unlistening, closed_socket, not_cleaning, listening_off,
  connected_off, closing, resetting, RemoteThreads, set_connected, set_listening, listener_at,
  listener_step, cleanup_at, cleanup_step, by_listener, by_cleanup, Reach, here, next,
}

module _ (net : Sockets) (config : Config) (settings : LinkSettings) where
  -- When cleanupRemoteServer is called while the listener is in its loop, on any open socket and
  -- with any flags, there is an order of their steps in which both close the same descriptor, the
  -- listener first: what the system gives the number to in between is closed under its owner.
  pub remote_socket_closed_twice :
      (game : Link net.World) (y : RemoteThreads) (w : net.World) (n : ℕ)
      → y.listener ≡ in_loop
      → y.cleanup ≡ not_cleaning
      → y.link.remote_server_sock ≡ some n
      → (t : RemoteThreads × net.World) × Reach net config settings game (y, w) t
        × (t.0.listener ≡ closed_socket)
        × (t.0.cleanup ≡ resetting)
        × (t.1 ≡ net.close (some n) (net.close (some n) w))
  unfolding listener_step listener_at cleanup_step cleanup_at
  remote_socket_closed_twice game y w n at start has_socket =
      let y1 : RemoteThreads = record (set_listening false y) { cleanup = listening_off } in
      let y2 : RemoteThreads = record (set_connected false y1) { cleanup = connected_off } in
      let y3 : RemoteThreads = record y2 { cleanup = closing } in
      let y4 : RemoteThreads = record y3 { listener = behind_loop } in
      let y5 : RemoteThreads = record (set_connected false y4) { listener = unconnected } in
      let y6 : RemoteThreads = record (set_listening false y5) { listener = unlistening } in
      let y7 : RemoteThreads = record y6 { listener = closed_socket } in
      let y8 : RemoteThreads = record y7 { cleanup = resetting } in
      let w1 = net.close (some n) w in
      (
        (y8, net.close (some n) w1),
        next (y7, w1) _
            (next (y6, w) _
              (next (y5, w) _
                (next (y4, w) _
                  (next (y3, w) _
                    (next (y2, w) _
                      (next (y1, w) _ (next (y, w) _ here (by_cleanup (ground arith)))
                        (by_cleanup refl))
                      (by_cleanup (ground arith)))
                    (by_listener (ground arith)))
                  (by_listener refl))
                (by_listener refl))
              (by_listener (ground arith)))
            (by_cleanup (ground arith)),
        refl,
        refl,
        refl,
      )
