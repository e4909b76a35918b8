-- ===== src/Tui/Console.antt =====
-- The console window of tui.cpp: addConsoleMessage, scrollConsole, drawConsoleWindow, and the log
-- sink of setupLoggerCallbackSink. `height` is getmaxy(m_consoleWindow).
pub mod History
pub mod View
pub mod Window
use cs2remote_console.Base.{
  ltb, ◌==◌, if◌then◌else◌, ◌>>=◌, length, get_elem?, Bytes, codes, ℤ, pos_part, neg_part, ℕ, zero,
  suc, ◌+◌, ◌-◌, min, max, true, Option, none, some, List, [], ◌∷◌, ◌++◌,
}
use cs2remote_console.Platform.{byte_swap32}
use cs2remote_console.Tui.State.{
  Tui, ConsoleChannel, ConsoleMessage, print_line, application_special_channel_id,
  max_console_messages, find_key,
}
use cs2remote_console.Tui.Colors.{initialize_color}

-- pop_front
abbrev pub pop_front : List ConsoleMessage → List ConsoleMessage
pop_front [] = []
pop_front (m ∷ ms) = ms

-- The prefix of a line: "[name] ", "[Unknown] ", or nothing for the application's own channel.
unfoldable pub line_prefix : ℕ → Option ConsoleChannel → Bytes
line_prefix channel_id found =
    if channel_id == application_special_channel_id then [] else elim found [
      | some channel ↦ codes "[" ++ (channel.name ++ codes "] ")
      | none ↦ codes "[Unknown] "
    ]

abbrev pub pair_of : Option ConsoleChannel → ℕ
pair_of none = 0
pair_of (some channel) = channel.color_pair_id

module _ {W : Type 0} where
  -- `now` is system_clock::now().
  unfoldable pub add_console_message : ℕ → Bytes → ℕ → ℕ → Tui W → Tui W
  add_console_message channel_id message msg_color now t =
      let added =
        t.console_messages
        ++ record {
          channel_id = channel_id;
          color = byte_swap32 msg_color;
          message = message;
          timestamp = now;
        }
          ∷ [] in
      record t {
        console_messages =
            if ltb max_console_messages (length added) then pop_front added else added;
        console_dirty = true;
      }

  -- The callback of setupLoggerCallbackSink, with the severity as text.
  unfoldable pub log_message : Bytes → Bytes → ℕ → Tui W → Tui W
  log_message severity payload now t =
      add_console_message application_special_channel_id
        (codes "[" ++ (severity ++ (codes "] " ++ payload))) 0 now t

  -- clamp(scroll + lines, 0, maxScroll), by the parts of `lines`.
  unfoldable pub scroll_console : ℤ → ℕ → Tui W → Tui W
  scroll_console lines height t =
      let max_scroll = length t.console_messages - height in
      let target = t.scroll_position + pos_part lines - neg_part lines in
      record t { scroll_position = max 0 (min target max_scroll); console_dirty = true }

  abbrev pub start_index : ℕ → Tui W → ℕ
  start_index height t = length t.console_messages - height - t.scroll_position

  -- One round of the loop of drawConsoleWindow.
  unfoldable pub draw_message : ℕ → ConsoleMessage → Tui W → Tui W
  draw_message row m t =
      let found = find_key m.channel_id t.channels in
      let colored = if m.color == 0 then (pair_of found, t) else initialize_color m.color 0 t in
      record colored.1 {
        calls =
            colored.1.calls
            ++ print_line row colored.0 (line_prefix m.channel_id found ++ m.message) ∷ [];
      }

  -- for (int i = row; i < maxLines && startIndex + i < size; ++i), with `rounds` = maxLines - row;
  -- an index is looked up in the deque.
  unfoldable pub draw_loop : ℕ → ℕ → ℕ → Tui W → Option (Tui W)
  draw_loop zero row start t = some t
  draw_loop (suc rounds) row start t =
      if ltb (start + row) (length t.console_messages)
      then (do
        m ← get_elem? t.console_messages (start + row)
        draw_loop rounds (row + 1) start (draw_message row m t))
      else some t

  unfoldable pub draw_console_window : ℕ → Tui W → Option (Tui W)
  draw_console_window height t = draw_loop height 0 (start_index height t) t
