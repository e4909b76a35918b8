-- ===== src/Client/Shutdown.antt =====
-- The whole client while main is in gracefulShutdown, CS2RemoteConsole-client/src/main.cpp: the
-- threads of both links go on, and the main thread calls cleanupCS2Console, then cleanupRemoteServer.
-- `running` is one variable, which both links hold.
pub mod Moves
pub mod Ending
pub mod Frames
pub mod Order
pub mod Joinable
pub mod Unjoined
use cs2remote_console.Base.{◌≡◌, ◌⊎◌}
use cs2remote_console.Net.{Sockets}
use cs2remote_console.Config.{Config}
use cs2remote_console.Client.Console.{LinkSettings, Link, cleaned}
use cs2remote_console.Client.Console as Console
use cs2remote_console.Client.Remote.Threads as Remote
use cs2remote_console.Client.Remote.Threads.{RemoteThreads, not_cleaning}

pub record Program (W : Type 0) : Type 0 where
  pub link : Link W
  pub remote : RemoteThreads

-- The program with another state of the one link or of the other: both see the new `running`.
abbrev pub set_link : {W : Type 0} → Link W → Program W → Program W
set_link l p = record { link = l; remote = record p.remote { running = l.running } }

abbrev pub set_remote : {W : Type 0} → RemoteThreads → Program W → Program W
set_remote y p = record { link = record p.link { running = y.running }; remote = y }

module _ (net : Sockets) (config : Config) (settings : LinkSettings) where
  -- A step of either link's threads, in any order; the threads of the remote link send to the game
  -- by the link as it stands. The main thread is in cleanupRemoteServer only behind
  -- cleanupCS2Console.
  pub data Step (s t : Program net.World × net.World) : Type 0 where
    of_link :
        (u : Link net.World × net.World)
        → Console.Step net settings (s.0.link, s.1) u
        → t ≡ (set_link u.0 s.0, u.1)
        → Step s t
    of_remote :
        (u : RemoteThreads × net.World)
        → Remote.Step net config settings s.0.link (s.0.remote, s.1) u
        → (u.0.cleanup ≡ not_cleaning) ⊎ (s.0.link.cleanup ≡ cleaned)
        → t ≡ (set_remote u.0 s.0, u.1)
        → Step s t

  pub data Steps : Program net.World × net.World → Program net.World × net.World → Type 0 where
    here : (s : Program net.World × net.World) → Steps s s
    then_step : (s t u : Program net.World × net.World) → Step s t → Steps t u → Steps s u
