-- ===== src/Client/Shutdown/Ending.antt =====
-- gracefulShutdown: the ways of the two clean-ups, next to the threads of both links.
use cs2remote_console.Base.{◌≡◌, refl, sym, ap, ◌∙◌, inr, Bool, false, arith}
use cs2remote_console.Net.{Sockets}
use cs2remote_console.Config.{Config}
use cs2remote_console.Client.Console.{
  LinkSettings, Link, not_called, running_cleared, cleaned, cleanup_step, cleanup_at,
}
use cs2remote_console.Client.Console.Moves as LinkMoves
use cs2remote_console.Client.Console.Cleanup.{cleanup_can_end}
use cs2remote_console.Client.Remote.Threads.{RemoteThreads, all_joined}
use cs2remote_console.Client.Remote.Threads.Ways.{State, Calm, rest, then_calm}
use cs2remote_console.Client.Remote.Threads.Cleanup.{calm_cleanup}
use cs2remote_console.Client.Shutdown.{Program}
use cs2remote_console.Client.Shutdown.Moves.{
  of_link, of_remote, Moves, Moves-trans, here, then_step,
}

module _ (net : Sockets) (config : Config) (settings : LinkSettings) where
  abbrev pub beside_remote :
      RemoteThreads → Link net.World × net.World → Program net.World × net.World
  beside_remote y s = (record { link = s.0; remote = y }, s.1)

  -- What the threads of the link to the game do, they do in the whole program.
  pub link_lifts :
      (y : RemoteThreads) (s t : Link net.World × net.World)
      → y.running ≡ s.0.running
      → LinkMoves.Moves net settings s t
      → (z : RemoteThreads) × (z.running ≡ t.0.running)
        × Moves net config settings (beside_remote y s) (beside_remote z t)
        × (z.cleanup ≡ y.cleanup)
        × (z.connector ≡ y.connector)
        × (z.listener ≡ y.listener)
  link_lifts y s _ same (LinkMoves.here _) = (y, same, here (beside_remote y s), refl, refl, refl)
  link_lifts y s u same (LinkMoves.then_step _ m _ one more) =
      let y1 : RemoteThreads = record y { running = m.0.running } in
      let (z, still, path, cleaning, connecting, listening) = link_lifts y1 m u refl more in
      (
        z,
        still,
        then_step (beside_remote y s) (beside_remote y1 m) (beside_remote z u) (of_link m one refl)
            path,
        cleaning,
        connecting,
        listening,
      )

  -- So do those of the remote link once `running` is false and cleanupCS2Console is done.
  module _ (l : Link net.World) (off : l.running ≡ false) (done : l.cleanup ≡ cleaned) where
    abbrev pub beside_link : State net config settings l → Program net.World × net.World
    beside_link s = (record { link = l; remote = s.0 }, s.1)

    pub remote_lifts :
        (s t : State net config settings l)
        → Calm net config settings l s t
        → Moves net config settings (beside_link s) (beside_link t)
    remote_lifts s _ (rest _) = here (beside_link s)
    remote_lifts s u (then_calm _ m _ one still more) =
        then_step (beside_link s) (beside_link m) (beside_link u)
          (of_remote m one (inr done) (
            ap (λ (r : Bool). beside_remote m.0 (record l { running = r }, m.1)) (off ∙ sym still)))
          (remote_lifts m u more)

  -- When main enters gracefulShutdown, wherever the threads of both links stand, with any flags and
  -- any world, there is an order of steps of these threads and of the clean-ups alone, without an
  -- interrupt or an exception, in which both clean-ups come to their ends, the one of the game's link
  -- first.
  pub graceful_shutdown_can_end :
      (p : Program net.World) (w : net.World)
      → p.remote.running ≡ p.link.running
      → p.link.cleanup ≡ not_called
      → (t : Program net.World × net.World) × Moves net config settings (p, w) t
        × (t.0.link.cleanup ≡ cleaned)
        × (t.0.remote.cleanup ≡ all_joined)
  unfolding cleanup_step cleanup_at
  graceful_shutdown_can_end p w one_running at =
      let l1 : Link net.World = record p.link { running = false; cleanup = running_cleared } in
      let (u, steps, done, off) = cleanup_can_end net settings l1 w refl in
      let first : LinkMoves.Move net settings (p.link, w) (l1, w) =
        LinkMoves.by_cleanup p.link w (l1, w) (ground arith) in
      let (y, same, before, _, _, _) =
        link_lifts p.remote (p.link, w) u one_running
          (LinkMoves.then_step (p.link, w) (l1, w) u first steps) in
      let (z, calm, joined) = calm_cleanup net config settings u.0 (y, u.1) (same ∙ off) in
      let t : Program net.World × net.World = (record { link = u.0; remote = z.0 }, z.1) in
      (
        t,
        Moves-trans net config settings (p, w) (beside_remote y u) t before
            (remote_lifts u.0 off done (y, u.1) z calm),
        done,
        joined,
      )
