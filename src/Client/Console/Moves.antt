-- ===== src/Client/Console/Moves.antt =====
-- The steps that the threads of the link to the game and its clean-up take by themselves: no interrupt,
-- and no exception out of the session object.
use cs2remote_console.Base.{◌≡◌, some}
use cs2remote_console.Net.{Sockets}
use cs2remote_console.Client.Console.{
  LinkSettings, Link, connector_step, listener_step, cleanup_step,
}
use cs2remote_console.Client.Console as Console

module _ (net : Sockets) (settings : LinkSettings) where
  pub data Move : Link net.World × net.World → Link net.World × net.World → Type 0 where
    by_connector :
        (s : Link net.World) (w : net.World) (t : Link net.World × net.World)
        → connector_step net settings s w ≡ some t
        → Move (s, w) t
    by_listener :
        (s : Link net.World) (w : net.World) (t : Link net.World × net.World)
        → listener_step net settings s w ≡ some t
        → Move (s, w) t
    by_cleanup :
        (s : Link net.World) (w : net.World) (t : Link net.World × net.World)
        → cleanup_step net settings s w ≡ some t
        → Move (s, w) t

  pub data Moves : Link net.World × net.World → Link net.World × net.World → Type 0 where
    here : (s : Link net.World × net.World) → Moves s s
    then_step : (s t u : Link net.World × net.World) → Move s t → Moves t u → Moves s u

  pub Move-Step : (s t : Link net.World × net.World) → Move s t → Console.Step net settings s t
  Move-Step _ t (by_connector s w _ e) = Console.by_connector s w t e
  Move-Step _ t (by_listener s w _ e) = Console.by_listener s w t e
  Move-Step _ t (by_cleanup s w _ e) = Console.by_cleanup s w t e
