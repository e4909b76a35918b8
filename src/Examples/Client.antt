-- ===== src/Examples/Client.antt =====
-- The client's packets, its display and its clean-up: their theorems on scripted sockets.
use cs2remote_console.Base.{
  replicate, All, Bytes, codes, be16_bytes, be32_bytes, ℕ, ◌≡◌, refl, ◌≢◌, true, false, some, [],
  ◌∷◌, ◌++◌, arith,
}
use cs2remote_console.Examples.Scripted.{Script, quiet, scripted}
use cs2remote_console.VConsole.Memory.{be_value, le_value}
use cs2remote_console.VConsole.Messages.{Channel, Chan, Prnt}
use cs2remote_console.VConsole.Parse.{strip_non_ascii}
use cs2remote_console.VConsole.Parse.Prints.{PrntGap, IsPrntGap, encode_prnt}
use cs2remote_console.VConsole.Session.{
  VConsole, new_vconsole, set_on_prnt_received, declared_length, process_incoming_data,
}
use cs2remote_console.Tui.State.{Tui, new_tui, find_key}
use cs2remote_console.Tui.Input.{key_code, handle_input}
use cs2remote_console.Tui.Display.{
  Display, Tick, update_input_window, draw_input_window, handle_key, run_round,
}
use cs2remote_console.Client.Remote.{RemoteLink, new_remote_link}
use cs2remote_console.Client.App.Commands.{typed_command_sent}
use cs2remote_console.VConsole.Command.{create_command_payload}
use cs2remote_console.Tui.Input.Typing.{type_keys}
use cs2remote_console.Client.Console.{new_link, joining, looping, absent, hung_up, Link}
use cs2remote_console.Client.App.{
  app_on_command, App, beside, app_on_chan, register_channels, app_on_prnt, main_vconsole,
  LinkFlags,
}
use cs2remote_console.Client.App.Packets.{prnt_packet_received}
use cs2remote_console.Client.App.Channels.{HasRoom, shown_channel, app_on_chan_registers}
use cs2remote_console.Examples.Link.{settings, idle}

abbrev pub gap : PrntGap
gap = record {
  before = replicate 8 1;
  color = 0xFF ∷ 0x10 ∷ 0x20 ∷ 0x30 ∷ [];
  behind = replicate 8 2;
  last = replicate 4 3;
}

pub gap-IsPrntGap : IsPrntGap gap
gap-IsPrntGap = record {
  before_size = refl;
  color_size = refl;
  behind_size = refl;
  last_size = refl;
}

abbrev pub prnt_header : Bytes
prnt_header = codes "PRNT" ++ (be32_bytes 0xD40000 ++ (be16_bytes 44 ++ be16_bytes 0))

abbrev prnt_body : Bytes
prnt_body = encode_prnt 7 gap (codes "hi\n") []

abbrev remote : RemoteLink
remote = record new_remote_link { remote_server_sock = some 7 }

abbrev app : App Script
app = record { tui = new_tui false; remote = remote }

abbrev session : VConsole (App Script × Script)
session = record (main_vconsole scripted Script 64) { client_socket = some 3 }

abbrev with_packet : Script
with_packet = record quiet { incoming = some prnt_header ∷ some prnt_body ∷ [] }

prnt_packet_received_example :
    (p : Prnt) × (p.channel_id ≡ 7)
    × (p.color ≡ le_value gap.color)
    × (p.message ≡ strip_non_ascii (codes "hi\n"))
    × (process_incoming_data (beside (App Script) scripted) session (app, with_packet)
        ≡ some (true, session, app_on_prnt scripted Script 64 p (app, quiet)))
unfolding main_vconsole declared_length encode_prnt new_vconsole be_value set_on_prnt_received
prnt_packet_received_example =
    prnt_packet_received scripted Script 64 app session prnt_header 7 gap (codes "hi\n") []
      with_packet (record quiet { incoming = some prnt_body ∷ [] }) quiet refl refl refl refl refl
      refl (omega arith) gap-IsPrntGap (omega arith)

abbrev named_line : Prnt
named_line = record { channel_id = 7; unknown = []; color = 0; message = codes "] name = Ann\n" }

abbrev channel : ℕ → Bytes → Channel
channel id name = record {
  id = id;
  unknown1 = 0;
  unknown2 = 0;
  verbosity_default = 0;
  verbosity_current = 0;
  text_rgba_override = 0xFF0000FF;
  name = name ++ 0 ∷ [];
}

abbrev two_channels : Chan
two_channels = record {
  num_channels = 2;
  channels = channel 4 (codes "Console") ∷ channel 9 (codes "Server") ∷ [];
}

app-HasRoom : HasRoom 2 app.tui
unfolding new_tui
app-HasRoom = (record { short_range = omega arith; rising = omega arith }, omega arith)

app_on_chan_registers_example :
    let t = (app_on_chan scripted Script 64 two_channels (app, quiet)).0.tui in
    (find_key 4 t.channels
      ≡ some (shown_channel 64 (channel 4 (codes "Console")) (register_channels 64 [] app.tui)))
    × ((j : ℕ)
        → All (λ ch. ch.id ≢ j) two_channels.channels
        → find_key j t.channels ≡ find_key j app.tui.channels)
app_on_chan_registers_example =
    app_on_chan_registers scripted Script 64 two_channels [] (channel 9 (codes "Server") ∷ [])
      (channel 4 (codes "Console")) app quiet refl (omega arith) app-HasRoom (omega arith)

abbrev linked_flags : LinkFlags
linked_flags = record { console_connected = true; listening = true }

-- A key at a time, every 20 ms.
abbrev at_time : ℕ → ℕ → Tick
at_time key now = record {
  key = key_code key;
  height = 24;
  width = 80;
  lines = 21;
  system_time = now;
  steady_time = now;
  interrupted = false;
}

abbrev blank : Display Script
blank = update_input_window (record { tui = new_tui false; window_calls = []; last_update = 0 })

abbrev after_key : Display Script
after_key = (handle_key (key_code b'h') 21 20 blank quiet).0

one_round : run_round (at_time b'h' 20) blank quiet ≡ some (after_key, quiet)
unfolding run_round update_input_window draw_input_window new_tui handle_key handle_input
one_round = refl

abbrev shutting_down : Link Script
shutting_down = record idle {
  running = false;
  connector = joining;
  listener = looping;
  cleanup = hung_up;
}

abbrev listener_over : Link Script
listener_over = record shutting_down { listener = absent }

abbrev on_air : Link Script
on_air = record idle {
  console_connected = true;
  vconsole = record new_vconsole { client_socket = some 3 };
}

abbrev typing_screen : Tui (Link Script × Script)
typing_screen = record (new_tui false) {
  command_callback = some (app_on_command scripted settings);
}

typed_command_sent_example :
    let typed = type_keys (codes "kick") 21 0 typing_screen (on_air, quiet) in
    let r = handle_input (key_code b'\n') 21 0 typed.0 typed.1 in
    (r.0.input_buffer ≡ [])
    × (r.1 ≡ (on_air, (scripted.send (some 3) (create_command_payload (codes "kick")) quiet).1))
unfolding new_tui new_link
typed_command_sent_example =
    typed_command_sent scripted settings (codes "kick") 21 0 typing_screen on_air quiet refl refl
      (omega arith) (λ e. cc)
