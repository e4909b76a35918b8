-- ===== src/Client/Shutdown/Frames.antt =====
-- What the steps of both links do to the connector and to the clean-up.
use cs2remote_console.Base.{◌≡◌, ◌≢◌, some, arith}
use cs2remote_console.Net.{Sockets}
use cs2remote_console.Config.{Config}
use cs2remote_console.Client.Console.{
  LinkSettings, Link, ConnectorPoint, testing, opened, reported, marked, joining, started, sanity,
  probing, lost, lost_cleared, lost_quiet, stopped, ListenerPoint, absent, looping, leaving,
  cleared, ended, CleanupPoint, not_called, running_cleared, listening_cleared, connected_cleared,
  hung_up, listener_joined, cleaned, open_console, sanity_check, listener_round,
}
use cs2remote_console.Client.Console as Console
use cs2remote_console.Client.Remote.Threads.{
  RemoteConnector, no_connector, at_test, connected_now, flagged, at_join, announcing,
  connector_over, RemoteListener, no_listener, starting, in_loop, behind_loop, unconnected,
  unlistening, closed_socket, listener_over, RemoteCleanup, not_cleaning, listening_off,
  connected_off, closing, resetting, joining_listener, joining_connector, all_joined, RemoteThreads,
}
use cs2remote_console.Client.Remote.Threads as Remote

module _ (net : Sockets) (settings : LinkSettings) (s : Link net.World) (w : net.World)
    (t : Link net.World × net.World) where
  pub connector_at-cleanup :
      (p : ConnectorPoint)
      → Console.connector_at net settings p s w ≡ some t
      → t.0.cleanup ≡ s.cleanup
  unfolding Console.connector_at open_console sanity_check
  connector_at-cleanup testing e = ground arith
  connector_at-cleanup opened e = ground arith
  connector_at-cleanup reported e = ground arith
  connector_at-cleanup marked e = ground arith
  connector_at-cleanup joining e = ground arith
  connector_at-cleanup started e = ground arith
  connector_at-cleanup sanity e = ground arith
  connector_at-cleanup probing e = ground arith
  connector_at-cleanup lost e = ground arith
  connector_at-cleanup lost_cleared e = ground arith
  connector_at-cleanup lost_quiet e = ground arith
  connector_at-cleanup stopped e = absurd (ground arith)

  pub listener_at-frame :
      (p : ListenerPoint)
      → Console.listener_at net settings p s w ≡ some t
      → (t.0.cleanup ≡ s.cleanup) × (t.0.connector ≡ s.connector)
  unfolding Console.listener_at listener_round
  listener_at-frame absent e = absurd (ground arith)
  listener_at-frame looping e = (ground arith, ground arith)
  listener_at-frame leaving e = (ground arith, ground arith)
  listener_at-frame cleared e = (ground arith, ground arith)
  listener_at-frame ended e = absurd (ground arith)

  -- The clean-up comes to its end only when the connector has stopped, and ends there.
  pub cleanup_at-cleaned :
      (p : CleanupPoint)
      → Console.cleanup_at net settings p s w ≡ some t
      → t.0.cleanup ≡ cleaned
      → t.0.connector ≡ stopped
  unfolding Console.cleanup_at
  cleanup_at-cleaned not_called e f = absurd (ground arith)
  cleanup_at-cleaned running_cleared e f = absurd (ground arith)
  cleanup_at-cleaned listening_cleared e f = absurd (ground arith)
  cleanup_at-cleaned connected_cleared e f = absurd (ground arith)
  cleanup_at-cleaned hung_up e f = absurd (ground arith)
  cleanup_at-cleaned listener_joined e f = ground arith
  cleanup_at-cleaned cleaned e f = absurd (ground arith)

module _ (net : Sockets) (config : Config) (settings : LinkSettings) (game : Link net.World)
    (y : RemoteThreads) (w : net.World) (t : RemoteThreads × net.World) where
  -- A connector that was joined, or never started, takes no step.
  pub remote_connector_at-frame :
      (p : RemoteConnector)
      → Remote.connector_at net config settings p y w ≡ some t
      → (t.0.cleanup ≡ y.cleanup) × (p ≢ no_connector)
  unfolding Remote.connector_at
  remote_connector_at-frame no_connector e = absurd (ground arith)
  remote_connector_at-frame at_test e = (ground arith, λ f. cc)
  remote_connector_at-frame connected_now e = (ground arith, λ f. cc)
  remote_connector_at-frame flagged e = (ground arith, λ f. cc)
  remote_connector_at-frame at_join e = (ground arith, λ f. cc)
  remote_connector_at-frame announcing e = (ground arith, λ f. cc)
  remote_connector_at-frame connector_over e = absurd (ground arith)

  pub remote_listener_at-frame :
      (p : RemoteListener)
      → Remote.listener_at net config settings p game y w ≡ some t
      → (t.0.cleanup ≡ y.cleanup) × (t.0.connector ≡ y.connector)
  unfolding Remote.listener_at Remote.receive
  remote_listener_at-frame no_listener e = absurd (ground arith)
  remote_listener_at-frame starting e = (ground arith, ground arith)
  remote_listener_at-frame in_loop e = (ground arith, ground arith)
  remote_listener_at-frame behind_loop e = (ground arith, ground arith)
  remote_listener_at-frame unconnected e = (ground arith, ground arith)
  remote_listener_at-frame unlistening e = (ground arith, ground arith)
  remote_listener_at-frame closed_socket e = (ground arith, ground arith)
  remote_listener_at-frame listener_over e = absurd (ground arith)

  pub remote_cleanup_at-joined :
      (p : RemoteCleanup)
      → Remote.cleanup_at net config settings p y w ≡ some t
      → t.0.cleanup ≡ all_joined
      → t.0.connector ≡ no_connector
  unfolding Remote.cleanup_at
  remote_cleanup_at-joined not_cleaning e f = absurd (ground arith)
  remote_cleanup_at-joined listening_off e f = absurd (ground arith)
  remote_cleanup_at-joined connected_off e f = absurd (ground arith)
  remote_cleanup_at-joined closing e f = absurd (ground arith)
  remote_cleanup_at-joined resetting e f = absurd (ground arith)
  remote_cleanup_at-joined joining_listener e f = absurd (ground arith)
  remote_cleanup_at-joined joining_connector e f = ground arith
  remote_cleanup_at-joined all_joined e f = absurd (ground arith)
