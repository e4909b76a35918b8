-- ===== src/Client/Shutdown/Unjoined.antt =====
-- gracefulShutdown while both connectors are about to start their listeners.
use cs2remote_console.Base.{
  if◌then◌else◌, Bool-cases, is_some, ◌≡◌, refl, ap, ◌∙◌, inl, inr, true, false, none, arith,
}
use cs2remote_console.Net.{Sockets}
use cs2remote_console.Config.{Config}
use cs2remote_console.VConsole.Session.{disconnect}
use cs2remote_console.Client.Console.{
  LinkSettings, Link, joining, started, looping, not_called, running_cleared, listening_cleared,
  connected_cleared, hung_up, listener_joined, cleaned, join_returns, cleanup_step, cleanup_at,
}
use cs2remote_console.Client.Console.Moves.{by_cleanup}
use cs2remote_console.Client.Console.Ways as LinkWays
use cs2remote_console.Client.Console.Cleanup.{cleanup_can_end, cleanup_misses_listener}
use cs2remote_console.Client.Remote.Threads.{
  RemoteThreads, at_join, announcing, starting, no_listener, not_cleaning, listening_off,
  connected_off, closing, resetting, joining_listener, joining_connector, all_joined, can_join,
  set_connected, set_listening, set_socket,
}
use cs2remote_console.Client.Remote.Threads as Remote
use cs2remote_console.Client.Remote.Threads.Ways as RemoteWays
use cs2remote_console.Client.Remote.Threads.Ways.{State, then_calm, Way}
use cs2remote_console.Client.Remote.Threads.Cleanup.{calm_cleanup}
use cs2remote_console.Client.Shutdown.{Program, Steps}
use cs2remote_console.Client.Shutdown.Ending.{beside_remote, link_lifts, remote_lifts}
use cs2remote_console.Client.Shutdown.Moves.{Moves-trans, Moves-Steps}
use cs2remote_console.Client.Shutdown.Joinable.{
  joinable, remote_joinable, Moves-Missed, Calm-RemoteMissed,
}

module _ (net : Sockets) (settings : LinkSettings) where
  abbrev LinkLeft : Link net.World × net.World → Type 0
  LinkLeft u = (u.0.cleanup ≡ cleaned) × (u.0.running ≡ false) × (joinable u.0.listener ≡ true)

  -- The clean-up from its join of the listener on, when the connector is at its own join.
  run_from_join :
      (s : Link net.World) (w : net.World)
      → s.connector ≡ joining
      → s.cleanup ≡ hung_up
      → s.running ≡ false
      → join_returns s.listener ≡ true
      → LinkWays.Way net settings LinkLeft (s, w)
  run_from_join s w at up off free =
      let m : Link net.World = record s {
        connector = started;
        listener = looping;
        cleanup = listener_joined;
      } in
      let (u, more, done, still) = cleanup_can_end net settings m w off in
      let (behind, left) = Moves-Missed net settings (m, w) u more (refl, refl) in
      LinkWays.Way-Way net settings (λ v. v ≡ (m, w)) LinkLeft (s, w)
        ((m, w), cleanup_misses_listener net settings s w at up free, refl)
        (λ v e. rw e (u, more, (done, still, left)))

  link_run :
      (s : Link net.World) (w : net.World)
      → s.connector ≡ joining
      → s.cleanup ≡ not_called
      → join_returns s.listener ≡ true
      → LinkWays.Way net settings LinkLeft (s, w)
  unfolding cleanup_step cleanup_at
  link_run s w at start free =
      let s1 : Link net.World = record s { running = false; cleanup = running_cleared } in
      let s2 : Link net.World = record s1 { listening = false; cleanup = listening_cleared } in
      let s3 : Link net.World = record s2 {
        console_connected = false;
        cleanup = connected_cleared;
      } in
      let (c, w4) = disconnect net s.vconsole w in
      let s4 : Link net.World = record s3 { vconsole = c; cleanup = hung_up } in
      LinkWays.Way-Step net settings LinkLeft (s, w) (s1, w) (by_cleanup s w (s1, w) (ground arith))
        (LinkWays.Way-Step net settings LinkLeft (s1, w) (s2, w) (by_cleanup s1 w (s2, w) refl)
          (LinkWays.Way-Step net settings LinkLeft (s2, w) (s3, w) (by_cleanup s2 w (s3, w) refl)
            (LinkWays.Way-Step net settings LinkLeft (s3, w) (s4, w4)
              (by_cleanup s3 w (s4, w4) refl) (run_from_join s4 w4 at refl refl free))))

module _ (net : Sockets) (config : Config) (settings : LinkSettings) (game : Link net.World) where
  abbrev RemoteLeft : State net config settings game → Type 0
  RemoteLeft t = (t.0.cleanup ≡ all_joined) × (remote_joinable t.0.listener ≡ true)

  Way-Step :
      (s t : State net config settings game)
      → RemoteWays.Move net config settings game s t
      → t.0.running ≡ false
      → Way net config settings game RemoteLeft t
      → Way net config settings game RemoteLeft s
  Way-Step s t one off (u, more, there) = (u, then_calm s t u one off more, there)

  -- The connector at its join, with a listener that has ended.
  abbrev AtJoin : State net config settings game → Type 0
  AtJoin s = (s.0.running ≡ false) × (s.0.connector ≡ at_join) × (can_join s.0.listener ≡ true)

  joining_run :
      (s : State net config settings game)
      → AtJoin s
      → s.0.cleanup ≡ joining_listener
      → Way net config settings game RemoteLeft s
  unfolding Remote.cleanup_step Remote.cleanup_at Remote.connector_step Remote.connector_at
  joining_run s (off, at, free) here =
      let s1 : State net config settings game =
        (record s.0 { listener = no_listener; cleanup = joining_connector }, s.1) in
      let s2 : State net config settings game =
        (record s1.0 { listener = starting; connector = announcing }, s.1) in
      let (t, calm, done) = calm_cleanup net config settings game s2 off in
      let (behind, left) = Calm-RemoteMissed net config settings game s2 t calm (refl, refl) in
      Way-Step s s1 (RemoteWays.by_cleanup (ground arith)) off
        (Way-Step s1 s2 (RemoteWays.by_connector (ground arith)) off (t, calm, (done, left)))

  closing_run :
      (s : State net config settings game)
      → AtJoin s
      → s.0.cleanup ≡ closing
      → Way net config settings game RemoteLeft s
  unfolding Remote.cleanup_step Remote.cleanup_at
  closing_run s q here =
      let s1 : State net config settings game =
        (record s.0 { cleanup = resetting }, net.close s.0.link.remote_server_sock s.1) in
      let s2 : State net config settings game =
        (record (set_socket none s1.0) { cleanup = joining_listener }, s1.1) in
      Way-Step s s1 (RemoteWays.by_cleanup (ground arith)) q.0
        (Way-Step s1 s2 (RemoteWays.by_cleanup refl) q.0 (joining_run s2 q refl))

  remote_run :
      (s : State net config settings game)
      → AtJoin s
      → s.0.cleanup ≡ not_cleaning
      → Way net config settings game RemoteLeft s
  unfolding Remote.cleanup_step Remote.cleanup_at
  remote_run s q start =
      let s1 : State net config settings game =
        (record (set_listening false s.0) { cleanup = listening_off }, s.1) in
      let s2 : State net config settings game =
        (record (set_connected false s1.0) { cleanup = connected_off }, s.1) in
      let s3 : State net config settings game = (
        record s2.0 {
          cleanup = (if is_some s.0.link.remote_server_sock then closing else joining_listener);
        },
        s.1,
      ) in
      Way-Step s s1 (RemoteWays.by_cleanup (ground arith)) q.0 (
        Way-Step s1 s2 (RemoteWays.by_cleanup refl) q.0 (
          Way-Step s2 s3 (RemoteWays.by_cleanup refl) q.0
            (elim (Bool-cases (is_some s.0.link.remote_server_sock)) [
              | inl open_socket ↦ closing_run s3 q (ground arith)
              | inr no_socket ↦ joining_run s3 q (ground arith)
            ])))

module _ (net : Sockets) (config : Config) (settings : LinkSettings) where
  -- gracefulShutdown is entered while both connectors are at their joins, and an old listener of
  -- either, if any, has ended. There is an order of steps in which both clean-ups come to their ends
  -- with a listener thread of each link that nothing has joined.
  pub shutdown_misses_listeners :
      (p : Program net.World) (w : net.World)
      → p.remote.running ≡ p.link.running
      → (p.link.cleanup ≡ not_called) × (p.remote.cleanup ≡ not_cleaning)
      → (p.link.connector ≡ joining) × (p.remote.connector ≡ at_join)
      → (join_returns p.link.listener ≡ true) × (can_join p.remote.listener ≡ true)
      → (t : Program net.World × net.World) × Steps net config settings (p, w) t
        × (t.0.link.cleanup ≡ cleaned)
        × (t.0.remote.cleanup ≡ all_joined)
        × (joinable t.0.link.listener ≡ true)
        × (remote_joinable t.0.remote.listener ≡ true)
  shutdown_misses_listeners p w one_running (start, remote_start) (at, remote_at)
        (free, remote_free) =
      let (u, steps, link_over) = link_run net settings p.link w at start free in
      let (y, same, before, cleaning, connecting, listening) =
        link_lifts net config settings p.remote (p.link, w) u one_running steps in
      let (z, calm, remote_over) =
        remote_run net config settings u.0 (y, u.1)
          (same ∙ link_over.1, connecting ∙ remote_at, ap can_join listening ∙ remote_free)
          (cleaning ∙ remote_start) in
      let t : Program net.World × net.World = (record { link = u.0; remote = z.0 }, z.1) in
      (
        t,
        Moves-Steps net config settings (p, w) t
            (Moves-trans net config settings (p, w) (beside_remote net config settings y u) t before
              (remote_lifts net config settings u.0 link_over.1 link_over.0 (y, u.1) z calm)),
        link_over.0,
        remote_over.0,
        link_over.2,
        remote_over.1,
      )
