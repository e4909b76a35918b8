-- ===== src/Tui/Display.antt =====
-- The windows of tui.cpp and the loop of TUI::run: init, createWindows, resizeWindows, destroyWindows,
-- drawInputWindow, updateInputWindow, drawWindows, and a round of run. What they ask of the windows is
-- recorded in `window_calls`, oldest first; lines of the console window are in the state's `calls`.
pub mod Shown
pub mod Frames
use cs2remote_console.Base.{
  ltb, leb, ◌==◌, if◌then◌else◌, ◌>>=◌, is_some, length, Bytes, codes, is_empty, ℤ, sub_ℕ, ℕ, ◌+◌,
  Bool, true, false, not, ◌&&◌, ◌||◌, Option, some, List, [], ◌∷◌, ◌++◌, pos,
}
use cs2remote_console.Tui.State.{Tui, new_tui, shutdown}
use cs2remote_console.Tui.Console.{draw_console_window}
use cs2remote_console.Tui.Input.{
  Key, no_key, key_backspace, key_resize, key_page_up, key_page_down, key_mouse, key_code,
  handle_input,
}

pub data Window : Type 0 where
  console_window : Window
  input_window : Window

-- newwin, wresize and mvwin with the number of lines, the columns and the first line; delwin; a text
-- printed at a line and a column; werase, box, wmove, wnoutrefresh and doupdate; endwin, and refresh
-- and clear, which are calls on stdscr.
pub data WindowCall : Type 0 where
  new_window : Window → ℤ → ℕ → ℤ → WindowCall
  resize : Window → ℤ → ℕ → WindowCall
  move_window : Window → ℤ → WindowCall
  delete_window : Window → WindowCall
  erase : Window → WindowCall
  frame : Window → WindowCall
  print_at : Window → ℕ → ℕ → Bytes → WindowCall
  move_cursor : Window → ℕ → ℕ → WindowCall
  refresh : Window → WindowCall
  update_screen : WindowCall
  end_screen : WindowCall
  refresh_screen : WindowCall
  clear_screen : WindowCall

-- The class with its windows and m_lastUpdate, in milliseconds.
pub record Display (W : Type 0) : Type 0 where
  pub tui : Tui W
  pub window_calls : List WindowCall
  pub last_update : ℕ

-- height - 3
abbrev console_lines : ℕ → ℤ
console_lines height = sub_ℕ height 3

unfoldable pub create_windows : ℕ → ℕ → List WindowCall
create_windows height width =
    new_window console_window (console_lines height) width (pos 0)
    ∷ new_window input_window (pos 3) width (console_lines height)
    ∷ []

unfoldable pub resize_windows : ℕ → ℕ → List WindowCall
resize_windows height width =
    resize console_window (console_lines height) width
    ∷ move_window console_window (pos 0)
    ∷ resize input_window (pos 3) width
    ∷ move_window input_window (console_lines height)
    ∷ []

unfoldable pub destroy_windows : List WindowCall
destroy_windows = delete_window console_window ∷ delete_window input_window ∷ []

unfoldable pub draw_input_window : Bytes → List WindowCall
draw_input_window input_buffer =
    erase input_window
    ∷ frame input_window
    ∷ print_at input_window 0 2 (codes " Input ")
    ∷ print_at input_window 1 1 (codes "> " ++ input_buffer)
    ∷ move_cursor input_window 1 (length input_buffer + 3)
    ∷ refresh input_window
    ∷ []

module _ {W : Type 0} where
  abbrev pub draws : List WindowCall → Display W → Display W
  draws calls d = record d { window_calls = d.window_calls ++ calls }

  unfoldable pub update_input_window : Display W → Display W
  unfolding draw_input_window
  update_input_window d = draws (draw_input_window d.tui.input_buffer ++ update_screen ∷ []) d

  unfoldable pub draw_windows : ℕ → Display W → Option (Display W)
  unfolding draw_input_window
  draw_windows height d = do
    t ← draw_console_window height d.tui
    some (
        draws
          (erase console_window
            ∷ refresh console_window
            ∷ (draw_input_window t.input_buffer ++ update_screen ∷ []))
          (record d { tui = t }))

  -- init on a terminal of a size, with whether its colours can be changed and how many it has.
  unfoldable pub init : Bool → ℕ → ℕ → ℕ → Display W → Display W
  unfolding create_windows
  init can_change_color colors height width d = draws (create_windows height width) (record d {
    tui = record d.tui {
      use_extended_colors = can_change_color && ltb 256 colors;
      last_height = height;
      last_width = width;
    };
  })

  -- Whether handleInput calls updateInputWindow.
  unfoldable pub input_changes : Key → Tui W → Bool
  input_changes key_backspace t = not (is_empty t.input_buffer)
  input_changes (key_code ch) t =
      if ch == b'\n'
      then is_some t.command_callback && not (is_empty t.input_buffer)
      else if ch == 127 || ch == 8
      then not (is_empty t.input_buffer)
      else leb 32 ch && leb ch 126
  input_changes _ t = false

  -- handleInput with its calls of updateInputWindow.
  unfoldable pub handle_key : Key → ℕ → ℕ → Display W → W → Display W × W
  unfolding input_changes update_input_window
  handle_key key height now d w =
      let (t, w1) = handle_input key height now d.tui w in
      let handled = record d { tui = t } in
      (if input_changes key d.tui then update_input_window handled else handled, w1)

-- What a round of run meets: the key, the size of the terminal, the lines of the console window, the
-- times of the two clocks, and whether an interrupt has cleared m_running before the loop's test.
pub record Tick : Type 0 where
  pub key : Key
  pub height : ℕ
  pub width : ℕ
  pub lines : ℕ
  pub system_time : ℕ
  pub steady_time : ℕ
  pub interrupted : Bool

module _ {W : Type 0} where
  unfoldable pub handle_resize : ℕ → ℕ → Display W → Display W
  unfolding resize_windows
  handle_resize height width d =
      draws (end_screen ∷ refresh_screen ∷ clear_screen ∷ resize_windows height width) (record d {
        tui = record d.tui { last_height = height; last_width = width; console_dirty = true };
      })

  -- if (m_needsResize)
  unfoldable pub resize_phase : Tick → Display W → Display W
  unfolding handle_resize
  resize_phase tick d =
      if d.tui.needs_resize
      then (let resized = handle_resize tick.height tick.width d in
          record resized { tui = record resized.tui { needs_resize = false } })
      else d

  abbrev pub is_due : Tick → Display W → Bool
  is_due tick d = d.tui.console_dirty && leb (d.last_update + 16) tick.steady_time

  -- if (m_consoleDirty && now - m_lastUpdate >= 16 ms)
  unfoldable pub draw_phase : Tick → Display W → Option (Display W)
  unfolding draw_windows
  draw_phase tick d =
      if is_due tick d
      then (do
        drawn ← draw_windows tick.lines d
        some (record drawn {
          tui = record drawn.tui { console_dirty = false };
          last_update = tick.steady_time;
        }))
      else some d

  unfoldable pub run_round : Tick → Display W → W → Option (Display W × W)
  unfolding resize_phase handle_key draw_phase
  run_round tick d w = do
    let (d1, w1) = handle_key tick.key tick.lines tick.system_time (resize_phase tick d) w
    drawn ← draw_phase tick d1
    some (drawn, w1)

  -- The loop of run over the rounds that it meets, while m_running holds.
  unfoldable pub run : List Tick → Display W → W → Option (Display W × W)
  run [] d w = some (d, w)
  run (tick ∷ ticks) d w =
      if d.tui.running && not tick.interrupted
      then (do (d1, w1) ← run_round tick d w; run ticks d1 w1)
      else some (record d { tui = record d.tui { running = false } }, w)

  -- shutdown: it ends the loop and deletes the windows.
  unfoldable pub shutdown_display : Display W → Display W
  unfolding destroy_windows
  shutdown_display d = draws destroy_windows (record d { tui = shutdown d.tui })
