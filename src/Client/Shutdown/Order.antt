-- ===== src/Client/Shutdown/Order.antt =====
-- gracefulShutdown: the order of its two clean-ups, and the connectors behind them.
use cs2remote_console.Base.{◌≡◌, sym, ◌∙◌, ◌⊎◌, inl, inr, arith}
use cs2remote_console.Net.{Sockets}
use cs2remote_console.Config.{Config}
use cs2remote_console.Client.Console.{
  LinkSettings, Link, stopped, not_called, cleaned, connector_step, connector_at, listener_step,
  cleanup_step, cleanup_at, by_connector, by_listener, by_cleanup, interrupt, raised,
}
use cs2remote_console.Client.Console as Console
use cs2remote_console.Client.Remote.Threads.{RemoteThreads, no_connector, not_cleaning, all_joined}
use cs2remote_console.Client.Remote.Threads as Remote
use cs2remote_console.Client.Shutdown.{Program, Step, of_link, of_remote, Steps, here, then_step}
use cs2remote_console.Client.Shutdown.Frames.{
  connector_at-cleanup, listener_at-frame, cleanup_at-cleaned, remote_connector_at-frame,
  remote_listener_at-frame, remote_cleanup_at-joined,
}

abbrev StoppedFirst : {W : Type 0} → Link W → Type 0
StoppedFirst l = l.cleanup ≡ cleaned → l.connector ≡ stopped

abbrev Joined : RemoteThreads → Type 0
Joined y = y.cleanup ≡ all_joined → y.connector ≡ no_connector

-- What holds in every state from before gracefulShutdown on.
record ShutdownInv {W : Type 0} (p : Program W) : Type 0 where
  stopped_first : StoppedFirst p.link
  joined : Joined p.remote
  in_order : (p.remote.cleanup ≡ not_cleaning) ⊎ (p.link.cleanup ≡ cleaned)

module _ (net : Sockets) (config : Config) (settings : LinkSettings) where
  link_keeps :
      (s u : Link net.World × net.World)
      → Console.Step net settings s u
      → StoppedFirst s.0
      → StoppedFirst u.0 × (s.0.cleanup ≡ cleaned → u.0.cleanup ≡ cleaned)
  unfolding connector_step connector_at listener_step cleanup_step cleanup_at
  link_keeps _ u (by_connector s w _ e) i =
      let same = connector_at-cleanup net settings s w u s.connector e in
      (
        λ f. let q : s.connector ≡ stopped = i (sym same ∙ f) in absurd (ground arith),
        λ f. same ∙ f,
      )
  link_keeps _ u (by_listener s w _ e) i =
      let (same, there) = listener_at-frame net settings s w u s.listener e in
      (λ f. there ∙ i (sym same ∙ f), λ f. same ∙ f)
  link_keeps _ u (by_cleanup s w _ e) i =
      (cleanup_at-cleaned net settings s w u s.cleanup e, λ f. absurd (ground arith))
  link_keeps _ _ (interrupt s w) i = (i, λ f. f)
  link_keeps _ _ (raised s w c v at on same) i = (i, λ f. f)

  remote_keeps :
      (game : Link net.World) (s u : RemoteThreads × net.World)
      → Remote.Step net config settings game s u
      → Joined s.0
      → Joined u.0
  unfolding Remote.connector_step Remote.listener_step Remote.cleanup_step
  remote_keeps game s u (Remote.by_connector e) i =
      let (same, off) =
        remote_connector_at-frame net config settings game s.0 s.1 u s.0.connector e in
      λ f. absurd (off (i (sym same ∙ f)))
  remote_keeps game s u (Remote.by_listener e) i =
      let (same, there) =
        remote_listener_at-frame net config settings game s.0 s.1 u s.0.listener e in
      λ f. there ∙ i (sym same ∙ f)
  remote_keeps game s u (Remote.by_cleanup e) i =
      remote_cleanup_at-joined net config settings game s.0 s.1 u s.0.cleanup e
  remote_keeps game s u (Remote.interrupt e) i = rw e i

  Step-ShutdownInv :
      (s t : Program net.World × net.World)
      → Step net config settings s t
      → ShutdownInv s.0
      → ShutdownInv t.0
  Step-ShutdownInv s t (of_link u one at) i =
      let (first, still) = link_keeps (s.0.link, s.1) u one i.stopped_first in
      rw at (record {
        stopped_first = first;
        joined = i.joined;
        in_order = elim i.in_order [ inl before ↦ inl before | inr done ↦ inr (still done) ];
      })
  Step-ShutdownInv s t (of_remote u one order at) i = rw at (record {
    stopped_first = i.stopped_first;
    joined = remote_keeps s.0.link (s.0.remote, s.1) u one i.joined;
    in_order = order;
  })

  Steps-ShutdownInv :
      (s t : Program net.World × net.World)
      → Steps net config settings s t
      → ShutdownInv s.0
      → ShutdownInv t.0
  Steps-ShutdownInv s _ (here _) i = i
  Steps-ShutdownInv s u (then_step _ m _ one more) i =
      Steps-ShutdownInv m u more (Step-ShutdownInv s m one i)

  -- In any run of the threads from a state before gracefulShutdown: where cleanupRemoteServer has
  -- come to its end, cleanupCS2Console has too, the connector of the game's link has stopped, and
  -- that of the remote link, if there was one, has been joined.
  pub shutdown_ends_connectors :
      (s t : Program net.World × net.World)
      → s.0.link.cleanup ≡ not_called
      → s.0.remote.cleanup ≡ not_cleaning
      → Steps net config settings s t
      → t.0.remote.cleanup ≡ all_joined
      → (t.0.link.cleanup ≡ cleaned)
        × (t.0.link.connector ≡ stopped)
        × (t.0.remote.connector ≡ no_connector)
  shutdown_ends_connectors s t uncalled uncleaned steps over =
      let i = Steps-ShutdownInv s t steps (record {
        stopped_first = λ f. absurd (ground (arith, uncalled));
        joined = λ f. absurd (ground (arith, uncleaned));
        in_order = inl uncleaned;
      }) in
      let done : t.0.link.cleanup ≡ cleaned = elim i.in_order [
        | inl before ↦ absurd (ground (arith, over))
        | inr done ↦ done
      ] in
      (done, i.stopped_first done, i.joined over)
