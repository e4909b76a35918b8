-- ===== src/Tui/Console/View.antt =====
-- Scrolling, and the messages that drawConsoleWindow shows.
use cs2remote_console.Base.{
  ltb, Bool-cases, length, take, drop, length-take, length-drop, drop_step, drop_none, ℤ, pos_part,
  neg_part, ℕ, zero, suc, ◌+◌, ◌-◌, ◌≤◌, min, ◌≡◌, refl, ap, ◌∙◌, inl, inr, true, some, List, [],
  ◌∷◌, arith,
}
use cs2remote_console.Tui.State.{Tui, ConsoleMessage}
use cs2remote_console.Tui.Console.{
  scroll_console, start_index, draw_message, draw_loop, draw_console_window,
}
use cs2remote_console.Tui.Colors.Cache.{initialize_color-messages}

-- The new position is the old one plus the lines, held between 0 and the number of messages that do
-- not fit the window; nothing else but the dirty flag changes.
scroll_console_bounds :
    {W : Type 0} (lines : ℤ) (height : ℕ) (t : Tui W)
    → let t' = scroll_console lines height t in
      (t' ≡ record t { scroll_position = t'.scroll_position; console_dirty = true })
      × (t'.scroll_position ≤ length t.console_messages - height)
      × (pos_part lines + t.scroll_position ≤ neg_part lines → t'.scroll_position ≡ 0)
      × (neg_part lines ≤ pos_part lines + t.scroll_position
          → pos_part lines + t.scroll_position ≤ length t.console_messages - height + neg_part lines
          → t'.scroll_position + neg_part lines ≡ t.scroll_position + pos_part lines)
unfolding scroll_console
scroll_console_bounds lines height t = (refl, omega arith, λ h. omega arith, λ h k. omega arith)

-- The messages that stand in the window, from the top.
unfoldable pub visible : {W : Type 0} → ℕ → Tui W → List ConsoleMessage
visible height t = take height (drop (start_index height t) t.console_messages)

-- While the scroll position is within its bounds the window is full, or shows every message.
length-visible :
    {W : Type 0} (height : ℕ) (t : Tui W)
    → t.scroll_position ≤ length t.console_messages - height
    → length (visible height t) ≡ min height (length t.console_messages)
unfolding visible
length-visible height t h = omega (
  arith,
  length-take height (drop (start_index height t) t.console_messages),
  length-drop (start_index height t) t.console_messages,
)

-- Draw messages one below the other.
unfoldable pub draw_each : {W : Type 0} → ℕ → List ConsoleMessage → Tui W → Tui W
draw_each row [] t = t
draw_each row (m ∷ ms) t = draw_each (row + 1) ms (draw_message row m t)

draw_message-messages :
    {W : Type 0} (row : ℕ) (m : ConsoleMessage) (t : Tui W)
    → (draw_message row m t).console_messages ≡ t.console_messages
unfolding draw_message
draw_message-messages row m t = ground (arith, initialize_color-messages m.color 0 t)

draw_loop-draw_each :
    {W : Type 0} (rounds row start : ℕ) (t : Tui W)
    → draw_loop rounds row start t
      ≡ some (draw_each row (take rounds (drop (start + row) t.console_messages)) t)
unfolding draw_loop draw_each
draw_loop-draw_each zero row start t = refl
draw_loop-draw_each (suc rounds) row start t =
    elim (Bool-cases (ltb (start + row) (length t.console_messages))) [
      | inl inside ↦
          let (m, found, split) = drop_step (start + row) t.console_messages (ground arith) in
          let same = draw_message-messages row m t in
          let next : start + (row + 1) ≡ suc (start + row) = omega arith in
          let t' = draw_message row m t in
          let rest : drop (start + (row + 1)) t'.console_messages
              ≡ drop (suc (start + row)) t.console_messages =
            rw (same, next) in
          rw (inside, found, split)
            (draw_loop-draw_each rounds (row + 1) start (draw_message row m t)
              ∙ ap (λ (ms : List ConsoleMessage). some (draw_each (row + 1) (take rounds ms) t'))
                  rest)
      | inr past ↦ rw (past, drop_none (start + row) t.console_messages (ground arith))
    ]

-- The loop indexes no message out of bounds: the window gets exactly the visible messages, one to a
-- row from row 0 on.
pub draw_console_window_lem :
    {W : Type 0} (height : ℕ) (t : Tui W)
    → draw_console_window height t ≡ some (draw_each 0 (visible height t) t)
unfolding draw_console_window visible
draw_console_window_lem height t =
    draw_loop-draw_each height 0 (start_index height t) t
    ∙ ap (λ (i : ℕ). some (draw_each 0 (take height (drop i t.console_messages)) t)) (omega arith)
