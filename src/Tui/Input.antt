-- ===== src/Tui/Input.antt =====
-- handleInput and handleResize of tui.cpp. Drawing the input window is left out.
pub mod Typing
use cs2remote_console.Base.{
  leb, ◌==◌, if◌then◌else◌, Bytes, codes, is_empty, ℤ, sub_ℕ, ℕ, Bool, true, ◌&&◌, ◌||◌, Option,
  none, some, [], ◌∷◌, ◌++◌, pos,
}
use cs2remote_console.Tui.State.{Tui, application_special_channel_id}
use cs2remote_console.Tui.Console.{add_console_message, scroll_console}

-- What wgetch returns: ERR, one of the KEY_ constants, or the code of a character; for KEY_MOUSE
-- with what nc_getmouse says: nothing, or whether BUTTON4 and BUTTON5 are pressed.
pub data Key : Type 0 where
  no_key : Key
  key_backspace : Key
  key_resize : Key
  key_page_up : Key
  key_page_down : Key
  key_mouse : Option (Bool × Bool) → Key
  key_code : ℕ → Key

abbrev pub mouse_scroll_speed : ℕ
mouse_scroll_speed = 3

-- std::string::pop_back
unfoldable pub pop_back : Bytes → Bytes
pop_back [] = []
pop_back (c ∷ cs) = if is_empty cs then [] else c ∷ pop_back cs

-- -n
abbrev minus : ℕ → ℤ
minus n = sub_ℕ 0 n

module _ {W : Type 0} where
  unfoldable pub press_enter : ℕ → Tui W → W → Tui W × W
  press_enter now t w = elim t.command_callback [
    | none ↦ (t, w)
    | some callback ↦ if is_empty t.input_buffer then (t, w) else (
      record (add_console_message application_special_channel_id (codes "> " ++ t.input_buffer) 0
          now t) { input_buffer = [] },
      callback t.input_buffer w,
    )
  ]

  unfoldable pub press_backspace : Tui W → Tui W
  unfolding pop_back
  press_backspace t = record t { input_buffer = pop_back t.input_buffer }

  -- The branches of the switch for a plain character.
  unfoldable pub press_code : ℕ → ℕ → Tui W → W → Tui W × W
  unfolding press_enter press_backspace
  press_code ch now t w =
      if ch == b'\n'
      then press_enter now t w
      else if ch == 127 || ch == 8
      then (press_backspace t, w)
      else if leb 32 ch && leb ch 126
      then (record t { input_buffer = t.input_buffer ++ ch ∷ [] }, w)
      else (t, w)

  unfoldable pub handle_input : Key → ℕ → ℕ → Tui W → W → Tui W × W
  unfolding press_code
  handle_input no_key height now t w = (t, w)
  handle_input key_backspace height now t w = (press_backspace t, w)
  handle_input key_resize height now t w = (record t { needs_resize = true }, w)
  handle_input key_page_up height now t w = (scroll_console (pos height) height t, w)
  handle_input key_page_down height now t w = (scroll_console (minus height) height t, w)
  handle_input (key_mouse none) height now t w = (t, w)
  handle_input (key_mouse (some (up, down))) height now t w = (
    if up
        then scroll_console (pos mouse_scroll_speed) height t
        else if down
        then scroll_console (minus mouse_scroll_speed) height t
        else t,
    w,
  )
  handle_input (key_code ch) height now t w = press_code ch now t w
