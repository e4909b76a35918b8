-- ===== src/Client/Remote/Threads/Cleanup.antt =====
-- The way of cleanupRemoteServer to its end, once `running` is false.
use cs2remote_console.Base.{
  if◌then◌else◌, is_some, ℕ, ◌<◌, ◌≡◌, refl, ◌⊎◌, inl, inr, false, none, arith,
}
use cs2remote_console.Net.{Sockets}
use cs2remote_console.Config.{Config}
use cs2remote_console.Client.Console.{LinkSettings, Link}
use cs2remote_console.Client.Remote.Threads.{
  no_connector, no_listener, RemoteCleanup, not_cleaning, listening_off, connected_off, closing,
  resetting, joining_listener, joining_connector, all_joined, RemoteThreads, set_connected,
  set_listening, set_socket, cleanup_at, cleanup_step, Reach,
}
use cs2remote_console.Client.Remote.Threads.Ends.{Ended, threads_end}
use cs2remote_console.Client.Remote.Threads.Ways.{
  Move, by_cleanup, State, IsOff, Calm-Reach, Way, Way-Way, Way-Advances,
}

-- How many steps the clean-up is from its end, at most, once both threads have ended.
cleanup_left : RemoteCleanup → ℕ
cleanup_left not_cleaning = 7
cleanup_left listening_off = 6
cleanup_left connected_off = 5
cleanup_left closing = 4
cleanup_left resetting = 3
cleanup_left joining_listener = 2
cleanup_left joining_connector = 1
cleanup_left all_joined = 0

module _ (net : Sockets) (config : Config) (settings : LinkSettings) (game : Link net.World) where
  abbrev pub Done : State net config settings game → Type 0
  Done s = s.0.cleanup ≡ all_joined

  cleanup_advances :
      (p : RemoteCleanup) (s : State net config settings game)
      → s.0.cleanup ≡ p
      → (Ended net config settings game) s
      → Done s
        ⊎ ((t : State net config settings game) × Move net config settings game s t
            × (Ended net config settings game) t
            × (cleanup_left t.0.cleanup < cleanup_left p))
  unfolding cleanup_step cleanup_at cleanup_left
  cleanup_advances not_cleaning s at e =
      let t : State net config settings game =
        (record (set_listening false s.0) { cleanup = listening_off }, s.1) in
      inr (t, by_cleanup (ground arith), e, omega arith)
  cleanup_advances listening_off s at e =
      let t : State net config settings game =
        (record (set_connected false s.0) { cleanup = connected_off }, s.1) in
      inr (t, by_cleanup (ground arith), e, omega arith)
  cleanup_advances connected_off s at e =
      let t : State net config settings game = (
        record s.0 {
          cleanup = (if is_some s.0.link.remote_server_sock then closing else joining_listener);
        },
        s.1,
      ) in
      inr (t, by_cleanup (ground arith), e, ground arith)
  cleanup_advances closing s at e =
      let t : State net config settings game =
        (record s.0 { cleanup = resetting }, net.close s.0.link.remote_server_sock s.1) in
      inr (t, by_cleanup (ground arith), e, omega arith)
  cleanup_advances resetting s at e =
      let t : State net config settings game =
        (record (set_socket none s.0) { cleanup = joining_listener }, s.1) in
      inr (t, by_cleanup (ground arith), e, omega arith)
  cleanup_advances joining_listener s at e =
      let t : State net config settings game =
        (record s.0 { listener = no_listener; cleanup = joining_connector }, s.1) in
      inr (t, by_cleanup (ground (arith, e.1)), (e.0, refl), omega arith)
  cleanup_advances joining_connector s at e =
      let t : State net config settings game =
        (record s.0 { connector = no_connector; cleanup = all_joined }, s.1) in
      inr (t, by_cleanup (ground (arith, e.0.1)), ((e.0.0, refl), e.1), omega arith)
  cleanup_advances all_joined s at e = inl at

  cleanup_ends :
      (s : State net config settings game)
      → (Ended net config settings game) s
      → Way net config settings game Done s
  cleanup_ends s e =
      Way-Advances net config settings game (Ended net config settings game) Done
        (λ u. cleanup_left u.0.cleanup) (λ u. cleanup_advances u.0.cleanup u refl) (λ u f. f.0.0)
        (cleanup_left s.0.cleanup) s (omega arith) e

  pub calm_cleanup :
      (s : State net config settings game)
      → IsOff net config settings game s
      → Way net config settings game Done s
  calm_cleanup s off =
      Way-Way net config settings game (Ended net config settings game) Done s
        (threads_end net config settings game s off) (λ t e. cleanup_ends t e)

  -- From any state, wherever the connector, the listener and cleanupRemoteServer stand, once
  -- `running` is false there is an order of their steps in which cleanupRemoteServer comes to its end
  -- with no thread left to join.
  remote_cleanup_can_end :
      (y : RemoteThreads) (w : net.World)
      → y.running ≡ false
      → (t : RemoteThreads × net.World) × Reach net config settings game (y, w) t
        × (t.0.cleanup ≡ all_joined)
  remote_cleanup_can_end y w off =
      let (t, way, done) = calm_cleanup (y, w) off in
      (t, Calm-Reach net config settings game (y, w) t way, done)
