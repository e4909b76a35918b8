-- ===== src/Client/Shutdown/Joinable.antt =====
-- The threads that gracefulShutdown has joined, or not: cs2ListenerThread and
-- remoteServerListenerThread behind the joins of the two clean-ups.
use cs2remote_console.Base.{◌≡◌, refl, Bool, true, false, some, arith}
use cs2remote_console.Net.{Sockets}
use cs2remote_console.Config.{Config}
use cs2remote_console.Client.Console.{
  LinkSettings, Link, ConnectorPoint, testing, opened, reported, marked, joining, started, sanity,
  probing, lost, lost_cleared, lost_quiet, stopped, ListenerPoint, absent, looping, leaving,
  cleared, ended, CleanupPoint, not_called, running_cleared, listening_cleared, connected_cleared,
  hung_up, listener_joined, cleaned, open_console, sanity_check, listener_round, connector_step,
  connector_at, listener_step, listener_at, cleanup_step, cleanup_at, by_connector, by_listener,
  by_cleanup, interrupt, raised,
}
use cs2remote_console.Client.Console as Console
use cs2remote_console.Client.Console.Moves as Moves
use cs2remote_console.Client.Remote.Threads.{
  RemoteConnector, no_connector, at_test, connected_now, flagged, at_join, announcing,
  connector_over, RemoteListener, no_listener, starting, in_loop, behind_loop, unconnected,
  unlistening, closed_socket, listener_over, RemoteCleanup, not_cleaning, listening_off,
  connected_off, closing, resetting, joining_listener, joining_connector, all_joined, RemoteThreads,
}
use cs2remote_console.Client.Remote.Threads as Remote
use cs2remote_console.Client.Remote.Threads.Ways.{State, Calm, Move-Step, rest, then_calm}
use cs2remote_console.Client.Shutdown.Frames.{
  connector_at-cleanup, listener_at-frame, remote_connector_at-frame, remote_listener_at-frame,
}

-- joinable of a std::thread: there is a thread that no join has waited for.
abbrev pub joinable : ListenerPoint → Bool
joinable absent = false
joinable _ = true

abbrev pub remote_joinable : RemoteListener → Bool
remote_joinable no_listener = false
remote_joinable _ = true

-- The clean-up is behind its join of the listener.
abbrev pub behind_join : CleanupPoint → Bool
behind_join listener_joined = true
behind_join cleaned = true
behind_join _ = false

abbrev pub behind_remote_join : RemoteCleanup → Bool
behind_remote_join joining_connector = true
behind_remote_join all_joined = true
behind_remote_join _ = false

-- A listener thread that the clean-up does not join any more.
abbrev pub Missed : {W : Type 0} → Link W → Type 0
Missed l = (behind_join l.cleanup ≡ true) × (joinable l.listener ≡ true)

abbrev pub RemoteMissed : RemoteThreads → Type 0
RemoteMissed y = (behind_remote_join y.cleanup ≡ true) × (remote_joinable y.listener ≡ true)

module _ (net : Sockets) (settings : LinkSettings) (s : Link net.World) (w : net.World)
    (t : Link net.World × net.World) where
  connector_at-joinable :
      (p : ConnectorPoint)
      → connector_at net settings p s w ≡ some t
      → joinable s.listener ≡ true
      → joinable t.0.listener ≡ true
  unfolding connector_at open_console sanity_check
  connector_at-joinable testing e j = ground arith
  connector_at-joinable opened e j = ground arith
  connector_at-joinable reported e j = ground arith
  connector_at-joinable marked e j = ground arith
  connector_at-joinable joining e j = ground arith
  connector_at-joinable started e j = ground arith
  connector_at-joinable sanity e j = ground arith
  connector_at-joinable probing e j = ground arith
  connector_at-joinable lost e j = ground arith
  connector_at-joinable lost_cleared e j = ground arith
  connector_at-joinable lost_quiet e j = ground arith
  connector_at-joinable stopped e j = absurd (ground arith)

  listener_at-joinable :
      (p : ListenerPoint)
      → listener_at net settings p s w ≡ some t
      → joinable s.listener ≡ true
      → joinable t.0.listener ≡ true
  unfolding listener_at listener_round
  listener_at-joinable absent e j = absurd (ground arith)
  listener_at-joinable looping e j = ground arith
  listener_at-joinable leaving e j = ground arith
  listener_at-joinable cleared e j = ground arith
  listener_at-joinable ended e j = absurd (ground arith)

  cleanup_at-Missed :
      (p : CleanupPoint)
      → cleanup_at net settings p s w ≡ some t
      → behind_join p ≡ true
      → joinable s.listener ≡ true
      → Missed t.0
  unfolding cleanup_at
  cleanup_at-Missed not_called e b j = absurd (ground arith)
  cleanup_at-Missed running_cleared e b j = absurd (ground arith)
  cleanup_at-Missed listening_cleared e b j = absurd (ground arith)
  cleanup_at-Missed connected_cleared e b j = absurd (ground arith)
  cleanup_at-Missed hung_up e b j = absurd (ground arith)
  cleanup_at-Missed listener_joined e b j = (ground arith, ground arith)
  cleanup_at-Missed cleaned e b j = absurd (ground arith)

module _ (net : Sockets) (config : Config) (settings : LinkSettings) (game : Link net.World)
    (y : RemoteThreads) (w : net.World) (t : RemoteThreads × net.World) where
  remote_connector_at-joinable :
      (p : RemoteConnector)
      → Remote.connector_at net config settings p y w ≡ some t
      → remote_joinable y.listener ≡ true
      → remote_joinable t.0.listener ≡ true
  unfolding Remote.connector_at
  remote_connector_at-joinable no_connector e j = absurd (ground arith)
  remote_connector_at-joinable at_test e j = ground arith
  remote_connector_at-joinable connected_now e j = ground arith
  remote_connector_at-joinable flagged e j = ground arith
  remote_connector_at-joinable at_join e j = ground arith
  remote_connector_at-joinable announcing e j = ground arith
  remote_connector_at-joinable connector_over e j = absurd (ground arith)

  remote_listener_at-joinable :
      (p : RemoteListener)
      → Remote.listener_at net config settings p game y w ≡ some t
      → remote_joinable y.listener ≡ true
      → remote_joinable t.0.listener ≡ true
  unfolding Remote.listener_at Remote.receive
  remote_listener_at-joinable no_listener e j = absurd (ground arith)
  remote_listener_at-joinable starting e j = ground arith
  remote_listener_at-joinable in_loop e j = ground arith
  remote_listener_at-joinable behind_loop e j = ground arith
  remote_listener_at-joinable unconnected e j = ground arith
  remote_listener_at-joinable unlistening e j = ground arith
  remote_listener_at-joinable closed_socket e j = ground arith
  remote_listener_at-joinable listener_over e j = absurd (ground arith)

  remote_cleanup_at-Missed :
      (p : RemoteCleanup)
      → Remote.cleanup_at net config settings p y w ≡ some t
      → behind_remote_join p ≡ true
      → remote_joinable y.listener ≡ true
      → RemoteMissed t.0
  unfolding Remote.cleanup_at
  remote_cleanup_at-Missed not_cleaning e b j = absurd (ground arith)
  remote_cleanup_at-Missed listening_off e b j = absurd (ground arith)
  remote_cleanup_at-Missed connected_off e b j = absurd (ground arith)
  remote_cleanup_at-Missed closing e b j = absurd (ground arith)
  remote_cleanup_at-Missed resetting e b j = absurd (ground arith)
  remote_cleanup_at-Missed joining_listener e b j = absurd (ground arith)
  remote_cleanup_at-Missed joining_connector e b j = (ground arith, ground arith)
  remote_cleanup_at-Missed all_joined e b j = absurd (ground arith)

-- No step of either link joins a listener thread that the clean-up has missed.
module _ (net : Sockets) (settings : LinkSettings) where
  Step-Missed :
      (s u : Link net.World × net.World) → Console.Step net settings s u → Missed s.0 → Missed u.0
  unfolding connector_step listener_step cleanup_step
  Step-Missed _ u (by_connector s w _ e) (b, j) =
      let same = connector_at-cleanup net settings s w u s.connector e in
      (rw same b, connector_at-joinable net settings s w u s.connector e j)
  Step-Missed _ u (by_listener s w _ e) (b, j) =
      let (same, there) = listener_at-frame net settings s w u s.listener e in
      (rw same b, listener_at-joinable net settings s w u s.listener e j)
  Step-Missed _ u (by_cleanup s w _ e) (b, j) = cleanup_at-Missed net settings s w u s.cleanup e b j
  Step-Missed _ _ (interrupt s w) m = m
  Step-Missed _ _ (raised s w c v at on same) (b, j) = (b, refl)

  pub Moves-Missed :
      (s u : Link net.World × net.World) → Moves.Moves net settings s u → Missed s.0 → Missed u.0
  Moves-Missed s _ (Moves.here _) m = m
  Moves-Missed s u (Moves.then_step _ v _ one more) m =
      Moves-Missed v u more (Step-Missed s v (Moves.Move-Step net settings s v one) m)

module _ (net : Sockets) (config : Config) (settings : LinkSettings) (game : Link net.World) where
  Step-RemoteMissed :
      (s u : RemoteThreads × net.World)
      → Remote.Step net config settings game s u
      → RemoteMissed s.0
      → RemoteMissed u.0
  unfolding Remote.connector_step Remote.listener_step Remote.cleanup_step
  Step-RemoteMissed s u (Remote.by_connector e) (b, j) =
      let (same, off) =
        remote_connector_at-frame net config settings game s.0 s.1 u s.0.connector e in
      (rw same b, remote_connector_at-joinable net config settings game s.0 s.1 u s.0.connector e j)
  Step-RemoteMissed s u (Remote.by_listener e) (b, j) =
      let (same, there) =
        remote_listener_at-frame net config settings game s.0 s.1 u s.0.listener e in
      (rw same b, remote_listener_at-joinable net config settings game s.0 s.1 u s.0.listener e j)
  Step-RemoteMissed s u (Remote.by_cleanup e) (b, j) =
      remote_cleanup_at-Missed net config settings game s.0 s.1 u s.0.cleanup e b j
  Step-RemoteMissed s u (Remote.interrupt e) m = rw e m

  pub Calm-RemoteMissed :
      (s u : State net config settings game)
      → Calm net config settings game s u
      → RemoteMissed s.0
      → RemoteMissed u.0
  Calm-RemoteMissed s _ (rest _) m = m
  Calm-RemoteMissed s u (then_calm _ v _ one off more) m =
      Calm-RemoteMissed v u more
        (Step-RemoteMissed s v (Move-Step net config settings game s v one) m)
