-- ===== src/Tui/Display/Frames.antt =====
-- When TUI::run draws.
use cs2remote_console.Base.{Bool-cases, ◌+◌, ◌≤◌, ◌≡◌, ◌⊎◌, inl, inr, false, some, arith}
use cs2remote_console.Tui.Display.{
  Display, handle_key, Tick, is_due, update_input_window, resize_phase, draw_phase, run_round,
}
use cs2remote_console.Tui.Display.Shown.{draw_windows-Shows}

handled_last_update :
    {W : Type 0} (tick : Tick) (d : Display W) (w : W)
    → (handle_key tick.key tick.lines tick.system_time (resize_phase tick d) w).0.last_update
      ≡ d.last_update
unfolding handle_key resize_phase update_input_window
handled_last_update tick d w = ground arith

-- What a round leaves: nothing drawn, or a frame at the round's time, at least 16 ms behind the last
-- one, with nothing left to draw. From 16 ms behind the last frame on, nothing is left to draw.
run_round_frames :
    {W : Type 0} (tick : Tick) (d d' : Display W) (w w' : W)
    → run_round tick d w ≡ some (d', w')
    → ((d'.last_update ≡ d.last_update)
        ⊎ ((d'.last_update ≡ tick.steady_time)
            × (d.last_update + 16 ≤ tick.steady_time)
            × (d'.tui.console_dirty ≡ false)))
      × (d.last_update + 16 ≤ tick.steady_time → d'.tui.console_dirty ≡ false)
unfolding run_round draw_phase
run_round_frames tick d d' w w' e =
    let d1 = (handle_key tick.key tick.lines tick.system_time (resize_phase tick d) w).0 in
    let same = handled_last_update tick d w in
    elim (Bool-cases (is_due tick d1)) [
      | inl due ↦
          let (d2, drawn, now_shown, tui_same, kept) = draw_windows-Shows tick.lines d1 in
          ground arith
      | inr later ↦ ground arith
    ]
