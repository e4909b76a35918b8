-- ===== src/Examples/Screen.antt =====
-- The text user interface: its theorems at a small screen.
use cs2remote_console.Base.{
  Bytes, codes, ℕ, ◌<◌, ◌≡◌, refl, true, false, some, List, [], ◌∷◌, ◌++◌, arith,
}
use cs2remote_console.Tui.State.{Tui, ConsoleMessage, find_key, max_console_messages}
use cs2remote_console.Tui.Colors.{combined_color, initialize_color, register_channel}
use cs2remote_console.Tui.Colors.Cache.{CacheInv, initialize_color_lem}
use cs2remote_console.Tui.Colors.Register.{register_channel_loses_pair}
use cs2remote_console.Tui.Console.{draw_console_window}
use cs2remote_console.Tui.Console.History.{Addition, stored, add_all, last, add_all-last}
use cs2remote_console.Tui.Console.Window.{printed, window_shows_messages}

-- The commands handed to the callback.
abbrev Sent : Type 0
Sent = List Bytes

abbrev message : ℕ → ConsoleMessage
message n = record { channel_id = 5; color = 0; message = n ∷ []; timestamp = n }

abbrev screen : Tui Sent
screen = record {
  color_cache = (combined_color 0xD0D0D0FF 0, 1) ∷ [];
  next_color_pair_id = 2;
  next_color_id = 1;
  use_extended_colors = false;
  console_messages = message 1 ∷ message 2 ∷ message 3 ∷ [];
  channels = (5, record { name = codes "Console"; color = 0xD0D0D0FF; color_pair_id = 1 }) ∷ [];
  input_buffer = [];
  command_callback = some (λ line sent. sent ++ line ∷ []);
  running = true;
  needs_resize = false;
  last_width = 80;
  last_height = 5;
  scroll_position = 1;
  console_dirty = false;
  calls = [];
}

screen-CacheInv : CacheInv screen
screen-CacheInv = record { short_range = omega arith; rising = omega arith }

abbrev greeting : Addition
greeting = record { channel_id = 5; message = codes "hi"; msg_color = 0xFF000000; now = 9 }

add_all-last_example :
    (add_all (greeting ∷ []) screen).console_messages
    ≡ last max_console_messages (screen.console_messages ++ stored greeting ∷ [])
add_all-last_example = add_all-last (greeting ∷ []) screen (omega arith)

window_shows_messages_example :
    (t : Tui Sent) × (draw_console_window 2 screen ≡ some t)
    × (printed t.calls ≡ (0, codes "[Console] " ++ 1 ∷ []) ∷ (1, codes "[Console] " ++ 2 ∷ []) ∷ [])
unfolding last find_key
window_shows_messages_example = window_shows_messages 2 screen (omega arith)

initialize_color_lem_example :
    let r = initialize_color 0xFF0000FF 0 screen in
    CacheInv r.1
    × (find_key (combined_color 0xFF0000FF 0) r.1.color_cache ≡ some r.0)
    × (0 < r.0)
    × (r.0 < r.1.next_color_pair_id)
    × (initialize_color 0xFF0000FF 0 r.1 ≡ r)
    × ((k : ℕ) (p : ℕ)
        → find_key k screen.color_cache ≡ some p
        → find_key k r.1.color_cache ≡ some p)
initialize_color_lem_example =
    initialize_color_lem 0xFF0000FF 0 screen screen-CacheInv (omega arith) (omega arith)

same_pair :
    (initialize_color 0xD0D0D0FF 0 (initialize_color 0xD0D0D0FF 0 screen).1).0
    ≡ (initialize_color 0xD0D0D0FF 0 screen).0
unfolding initialize_color find_key
same_pair = refl

-- A terminal with two pairs.
register_channel_loses_pair_example :
    (0 < 1)
    × (find_key 7 (register_channel 2 7 (codes "Chat") 0xD0D0D0FF 0 screen).channels
        ≡ some (record { name = codes "Chat"; color = 0xD0D0D0FF; color_pair_id = 0 }))
unfolding find_key
register_channel_loses_pair_example =
    register_channel_loses_pair 2 7 0xD0D0D0FF 0 1 (codes "Chat") screen screen-CacheInv
      (omega arith) refl refl
