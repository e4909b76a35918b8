-- ===== src/Client/App.antt =====
-- CS2RemoteConsole-client/src/main.cpp: the globals that the callbacks share, the callbacks, and the
-- start of main. The callbacks of the session object act on the globals and on the world outside, so
-- its sockets are those of the system beside the globals.
pub mod Packets
pub mod Channels
pub mod Commands
pub mod Delivery
use cs2remote_console.Base.{
  if◌then◌else◌, Bytes, codes, ℕ, Bool, false, ◌&&◌, Option, none, some, List, [], ◌∷◌, pos,
}
use cs2remote_console.Net.{Sockets}
use cs2remote_console.Config.{Config, get_int, setup_config}
use cs2remote_console.Client.Utils.{get_current_directory, setup_application_sockets}
use cs2remote_console.VConsole.Memory.{c_string}
use cs2remote_console.VConsole.Messages.{Channel, Chan, Prnt, CvarInfo}
use cs2remote_console.VConsole.Session.{
  VConsole, new_vconsole, set_on_prnt_received, set_on_chan_received, set_on_cvars_loaded,
  set_on_adon_received, set_on_disconnected,
}
use cs2remote_console.Tui.State.{Tui, new_tui, set_command_callback, application_special_channel_id}
use cs2remote_console.Client.Console.{is_one, Link, LinkSettings, send_payload}
use cs2remote_console.Tui.Colors.{register_channel}
use cs2remote_console.Client.Remote.{RemoteLink, new_remote_link, on_prnt}

-- The same sockets, next to globals that no call of the system touches.
abbrev pub beside : Type 0 → Sockets → Sockets
beside G net = record {
  World = G × net.World;
  socket = λ v. let r = net.socket v.1 in (r.0, (v.0, r.1));
  connect = λ s ip port v. let r = net.connect s ip port v.1 in (r.0, (v.0, r.1));
  recv = λ s n v. let r = net.recv s n v.1 in (r.0, (v.0, r.1));
  peek = λ s n v. let r = net.peek s n v.1 in (r.0, (v.0, r.1));
  send = λ s text v. let r = net.send s text v.1 in (r.0, (v.0, r.1));
  shutdown = λ s v. (v.0, net.shutdown s v.1);
  close = λ s v. (v.0, net.close s v.1);
  get_flags = λ s v. let r = net.get_flags s v.1 in (r.0, (v.0, r.1));
  set_flags = λ s f v. let r = net.set_flags s f v.1 in (r.0, (v.0, r.1));
  would_block = λ v. net.would_block v.1;
  now = λ v. net.now v.1;
  set_reuse_address = λ s v. let r = net.set_reuse_address s v.1 in (r.0, (v.0, r.1));
  bind = λ s port v. let r = net.bind s port v.1 in (r.0, (v.0, r.1));
  listen = λ s v. let r = net.listen s v.1 in (r.0, (v.0, r.1));
  accept = λ s v. let r = net.accept s v.1 in (r.0, (v.0, r.1));
}

-- The globals tui, and those of connection_remoteserver.cpp.
pub record App (V : Type 0) : Type 0 where
  pub tui : Tui V
  pub remote : RemoteLink

-- std::string of a char array that holds a NUL, as parseCHAN leaves each name.
unfoldable pub array_text : Bytes → Bytes
array_text name = elim (c_string name) [ some text ↦ text | none ↦ name ]

module _ {V : Type 0} where
  -- The loop of the callback for CHAN.
  unfoldable pub register_channels : ℕ → List Channel → Tui V → Tui V
  register_channels color_pairs [] t = t
  register_channels color_pairs (ch ∷ chs) t =
      register_channels color_pairs chs
        (register_channel color_pairs ch.id (array_text ch.name) ch.text_rgba_override 0 t)

module _ (net : Sockets) (V : Type 0) (color_pairs : ℕ) where
  unfoldable pub app_on_chan : Chan → App V × net.World → App V × net.World
  unfolding register_channels
  app_on_chan chan (a, w) =
      (record a { tui = register_channels color_pairs chan.channels a.tui }, w)

  -- The callback for PRNT reads the clock for the time of the line.
  unfoldable pub app_on_prnt : Prnt → App V × net.World → App V × net.World
  app_on_prnt prnt (a, w) =
      let (t, s, w1) = on_prnt net (net.now w) prnt a.tui a.remote w in
      (record { tui = t; remote = s }, w1)

  -- main's session object: with the two callbacks, and no callback for a disconnection.
  unfoldable pub main_vconsole : VConsole (App V × net.World)
  unfolding app_on_chan app_on_prnt
  main_vconsole = set_on_prnt_received app_on_prnt (set_on_chan_received app_on_chan new_vconsole)

-- The callback for commands, on the link to the game and the world.
unfoldable pub app_on_command :
    (net : Sockets) (settings : LinkSettings)
    → Bytes
    → Link net.World × net.World
    → Link net.World × net.World
app_on_command net settings command (link, w) = (link, (send_payload net settings command link w).1)

-- What main has done when it starts the threads: the configuration, the session object, the globals,
-- and whether the connector for the remote server is started; `none` is `return 1`. `extended` is
-- what init finds about the terminal's colours, `on_command` the callback for commands, and `file`
-- gives the contents of a path, and `getcwd` the working directory, if any.
unfoldable pub main_start :
    (net : Sockets) (V : Type 0) (color_pairs : ℕ) (extended : Bool) (on_command : Bytes → V → V)
    (file : Bytes → Option Bytes) (getcwd : Option Bytes)
    → Option (Config × VConsole (App V × net.World) × App V × Bool)
unfolding main_vconsole
main_start net V color_pairs extended on_command file getcwd =
    let (found, config) = setup_config file (get_current_directory getcwd) [] in
    let tui =
      register_channel color_pairs application_special_channel_id (codes "Log") 0xD0D0D0FF
        0x2D0034FF (new_tui extended) in
    if found && setup_application_sockets
    then some (
      config,
      main_vconsole net V color_pairs,
      record { tui = set_command_callback on_command tui; remote = new_remote_link },
      is_one (get_int (codes "remote_server_enabled") (pos 0) config),
    )
    else none

-- The two flags that the callback for a disconnection clears.
pub record LinkFlags : Type 0 where
  pub console_connected : Bool
  pub listening : Bool

-- initializeCS2Connection, which main does not call: three callbacks that only log, and one that
-- clears the flags. It then starts the connector thread.
unfoldable pub initialize_cs2_connection :
    {W : Type 0} → VConsole (LinkFlags × W) → VConsole (LinkFlags × W)
initialize_cs2_connection c =
    set_on_prnt_received (λ prnt v. v)
      (set_on_disconnected (λ v. (record { console_connected = false; listening = false }, v.1))
        (set_on_adon_received (λ name v. v) (set_on_cvars_loaded (λ cvars v. v) c)))
