-- ===== src/Examples/Stream.antt =====
-- The client's listener on a stream: its theorem on sockets whose world is the bytes that have
-- arrived.
use cs2remote_console.Base.{
  length, take, drop, All, take_append, drop_append, Bytes, codes, Lacks, ◌+◌, ◌≡◌, refl, ap, ◌∙◌,
  true, false, none, some, List, [], ◌∷◌, ◌++◌, arith,
}
use cs2remote_console.Net.{Sockets}
use cs2remote_console.VConsole.Memory.{be_value}
use cs2remote_console.VConsole.Parse.Prints.{encode_prnt}
use cs2remote_console.VConsole.Session.{
  VConsole, new_vconsole, set_on_prnt_received, set_on_chan_received, declared_length,
}
use cs2remote_console.VConsole.Session.Wire.{WirePrnt, IsWirePrnt, on_wire}
use cs2remote_console.Client.Console.{looping, Link, new_link, Steps}
use cs2remote_console.Client.App.{App, beside, main_vconsole}
use cs2remote_console.Client.Remote.{new_remote_link}
use cs2remote_console.Tui.State.{new_tui}
use cs2remote_console.Client.App.Delivery.{Stream, InTurn, listener_delivers}
use cs2remote_console.Examples.Client.{gap, gap-IsPrntGap, prnt_header}
use cs2remote_console.Examples.Link.{settings}

abbrev stream_sockets : Sockets
stream_sockets = record {
  World = Bytes;
  socket = λ w. (some 3, w);
  connect = λ s ip port w. (true, w);
  recv = λ s n w. (some (take n w), drop n w);
  peek = λ s n w. (some (take n w), w);
  send = λ s bs w. (some (length bs), w);
  shutdown = λ s w. w;
  close = λ s w. w;
  get_flags = λ s w. (some 2, w);
  set_flags = λ s f w. (true, w);
  would_block = λ w. true;
  now = λ w. 0;
  set_reuse_address = λ s w. (true, w);
  bind = λ s port w. (true, w);
  listen = λ s w. (true, w);
  accept = λ s w. (none, w);
}

abbrev streamed : VConsole (App Bytes × Bytes)
streamed = record (main_vconsole stream_sockets Bytes 64) { client_socket = some 3 }

abbrev listening_link : Link (App Bytes × Bytes)
listening_link = record (new_link 0 streamed) {
  console_connected = true;
  listening = true;
  listener = looping;
}

abbrev start_app : App Bytes
start_app = record { tui = new_tui false; remote = new_remote_link }

abbrev three_arrives : Stream stream_sockets (some 3)
three_arrives = record {
  arrived = λ w. w;
  recv-arrived = λ n first rest w here_now size. (
    drop n w,
    ap (λ (bs : Bytes). (some (take n bs), drop n w)) here_now
        ∙ ap (λ (bs : Bytes). (some bs, drop n w)) (take_append n first rest size),
    ap (drop n) here_now ∙ drop_append n first rest size,
  );
  send-arrived = λ r text w. refl;
}

-- Two lines of three letters each.
abbrev line : Bytes → WirePrnt
line text = record { header = prnt_header; id = 7; gap = gap; text = text; rest = [] }

line-IsWirePrnt :
    (text : Bytes)
    → declared_length prnt_header ≡ length (encode_prnt 7 gap text []) + 12
    → Lacks 0 text
    → IsWirePrnt (line text)
line-IsWirePrnt text size ends = record {
  header_size = refl;
  message_type = refl;
  declared = size;
  channel_word = omega arith;
  gap_sizes = gap-IsPrntGap;
  text_ends = ends;
}

abbrev two_lines : List WirePrnt
two_lines = line (codes "hi\n") ∷ line (codes "ok\n") ∷ []

two_lines-IsWirePrnt : All IsWirePrnt two_lines
unfolding declared_length encode_prnt be_value
two_lines-IsWirePrnt = (
  line-IsWirePrnt (codes "hi\n") refl (omega arith),
  (line-IsWirePrnt (codes "ok\n") refl (omega arith), tt),
)

listener_delivers_example :
    (v' : App Bytes × Bytes) × InTurn stream_sockets Bytes 64
      (some 3)
      two_lines
      (start_app, on_wire two_lines ++ codes "PR")
      v'
    × (v'.1 ≡ codes "PR")
    × Steps
        (beside (App Bytes) stream_sockets)
        settings
        (listening_link, (start_app, on_wire two_lines ++ codes "PR"))
        (listening_link, v')
unfolding new_vconsole set_on_prnt_received set_on_chan_received main_vconsole new_link
listener_delivers_example =
    listener_delivers stream_sockets settings Bytes 64 listening_link three_arrives refl refl refl
      refl two_lines (codes "PR") (start_app, on_wire two_lines ++ codes "PR") two_lines-IsWirePrnt
      refl
