-- ===== src/Tui/Display/Shown.antt =====
-- The input line on the screen through the rounds of TUI::run.
use cs2remote_console.Base.{
  ◌==◌, if◌then◌else◌, Bytes, codes, ℕ, ◌+◌, ◌≡◌, refl, ap, ◌∙◌, ◌⊎◌, true, Option, none, some,
  List, [], ◌∷◌, ◌++◌, arith,
}
use cs2remote_console.Tui.State.{Tui, ConsoleMessage}
use cs2remote_console.Tui.Colors.{initialize_color, extended_pair, nearest_pair}
use cs2remote_console.Tui.Console.{draw_message}
use cs2remote_console.Tui.Console.View.{visible, draw_each, draw_console_window_lem}
use cs2remote_console.Tui.Display.{
  console_window, input_window, WindowCall, erase, print_at, refresh, update_screen, refresh_screen,
  clear_screen, Display, draw_input_window, draw_windows,
}

-- The line of the input window: in the window, in what wnoutrefresh has staged, and on the screen.
pub record Seen : Type 0 where
  pub line : Option Bytes
  pub staged : Option Bytes
  pub shown : Option Bytes

-- doupdate and refresh bring what is staged to the screen, and clear takes it away: the window stays
-- under the blank stdscr until it is staged again.
abbrev pub seen_after : Seen → WindowCall → Seen
seen_after v (print_at input_window row column text) = record v {
  line = (if row == 1 then some text else v.line);
}
seen_after v (erase input_window) = record v { line = none }
seen_after v (refresh input_window) = record v { staged = v.line }
seen_after v update_screen = record v { shown = v.staged }
seen_after v refresh_screen = record v { shown = v.staged }
seen_after v clear_screen = record v { staged = none; shown = none }
seen_after v _ = v

abbrev pub seen : Seen → List WindowCall → Seen
seen v [] = v
seen v (call ∷ calls) = seen (seen_after v call) calls

abbrev pub unseen : Seen
unseen = record { line = none; staged = none; shown = none }

abbrev pub on_screen : {W : Type 0} → Display W → Option Bytes
on_screen d = (seen unseen d.window_calls).shown

-- The screen shows the buffer behind the prompt.
abbrev pub Shows : {W : Type 0} → Display W → Type 0
Shows d = on_screen d ≡ some (codes "> " ++ d.tui.input_buffer)

-- So it does, or it is blank there and the next frame is wanted.
abbrev pub IsShown : {W : Type 0} → Display W → Type 0
IsShown d = Shows d ⊎ ((on_screen d ≡ none) × (d.tui.console_dirty ≡ true))

seen-append : (v : Seen) (a b : List WindowCall) → seen v (a ++ b) ≡ seen (seen v a) b
seen-append v [] b = refl
seen-append v (call ∷ a) b = seen-append (seen_after v call) a b

initialize_color-input_buffer :
    {W : Type 0} (color background : ℕ) (t : Tui W)
    → (initialize_color color background t).1.input_buffer ≡ t.input_buffer
unfolding initialize_color extended_pair nearest_pair
initialize_color-input_buffer color background t = ground arith

draw_each-input_buffer :
    {W : Type 0} (row : ℕ) (ms : List ConsoleMessage) (t : Tui W)
    → (draw_each row ms t).input_buffer ≡ t.input_buffer
unfolding draw_each draw_message
draw_each-input_buffer row [] t = refl
draw_each-input_buffer row (m ∷ ms) t =
    draw_each-input_buffer (row + 1) ms (draw_message row m t)
    ∙ ground (arith, initialize_color-input_buffer m.color 0 t)

-- drawWindows always draws, and shows the buffer.
pub draw_windows-Shows :
    {W : Type 0} (height : ℕ) (d : Display W)
    → (d' : Display W) × (draw_windows height d ≡ some d')
      × Shows d'
      × (d'.tui ≡ draw_each 0 (visible height d.tui) d.tui)
      × (d'.last_update ≡ d.last_update)
unfolding draw_windows draw_input_window
draw_windows-Shows height d =
    let t = draw_each 0 (visible height d.tui) d.tui in
    let calls =
      erase console_window
      ∷ refresh console_window
      ∷ (draw_input_window t.input_buffer ++ update_screen ∷ []) in
    (
      record d { tui = t; window_calls = d.window_calls ++ calls },
      rw (draw_console_window_lem height d.tui) refl,
      ap (λ (v : Seen). v.shown) (seen-append unseen d.window_calls calls),
      refl,
      refl,
    )
