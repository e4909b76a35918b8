-- ===== src/Client/Shutdown/Moves.antt =====
-- The steps of the whole client that no interrupt and no exception takes.
use cs2remote_console.Base.{◌≡◌, ◌⊎◌}
use cs2remote_console.Net.{Sockets}
use cs2remote_console.Config.{Config}
use cs2remote_console.Client.Console.{LinkSettings, Link, cleaned}
use cs2remote_console.Client.Console.Moves as LinkMoves
use cs2remote_console.Client.Remote.Threads.{RemoteThreads, not_cleaning}
use cs2remote_console.Client.Remote.Threads.Ways as RemoteWays
use cs2remote_console.Client.Shutdown.{Program, set_link, set_remote, Step, Steps}
use cs2remote_console.Client.Shutdown as Shutdown

module _ (net : Sockets) (config : Config) (settings : LinkSettings) where
  pub data Move (s t : Program net.World × net.World) : Type 0 where
    of_link :
        (u : Link net.World × net.World)
        → LinkMoves.Move net settings (s.0.link, s.1) u
        → t ≡ (set_link u.0 s.0, u.1)
        → Move s t
    of_remote :
        (u : RemoteThreads × net.World)
        → RemoteWays.Move net config settings s.0.link (s.0.remote, s.1) u
        → (u.0.cleanup ≡ not_cleaning) ⊎ (s.0.link.cleanup ≡ cleaned)
        → t ≡ (set_remote u.0 s.0, u.1)
        → Move s t

  pub data Moves : Program net.World × net.World → Program net.World × net.World → Type 0 where
    here : (s : Program net.World × net.World) → Moves s s
    then_step : (s t u : Program net.World × net.World) → Move s t → Moves t u → Moves s u

  Move-Step : (s t : Program net.World × net.World) → Move s t → Step net config settings s t
  Move-Step s t (of_link u one at) =
      Shutdown.of_link u (LinkMoves.Move-Step net settings (s.0.link, s.1) u one) at
  Move-Step s t (of_remote u one order at) =
      Shutdown.of_remote u
        (RemoteWays.Move-Step net config settings s.0.link (s.0.remote, s.1) u one) order at

  pub Moves-Steps :
      (s t : Program net.World × net.World) → Moves s t → Steps net config settings s t
  Moves-Steps s _ (here _) = Shutdown.here s
  Moves-Steps s u (then_step _ m _ one more) =
      Shutdown.then_step s m u (Move-Step s m one) (Moves-Steps m u more)

  pub Moves-trans : (s t u : Program net.World × net.World) → Moves s t → Moves t u → Moves s u
  Moves-trans s _ u (here _) r = r
  Moves-trans s t u (then_step _ m _ one more) r = then_step s m u one (Moves-trans m t u more r)
