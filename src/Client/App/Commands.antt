-- ===== src/Client/App/Commands.antt =====
-- A command on its way from the keyboard to the game, and what main starts with.
use cs2remote_console.Base.{if◌then◌else◌, All, Bytes, ℕ, ◌≡◌, ap, ◌∙◌, ◌≢◌, some, [], arith}
use cs2remote_console.Net.{Sockets}
use cs2remote_console.VConsole.Command.{create_command_payload}
use cs2remote_console.VConsole.Session.{send_cmd}
use cs2remote_console.Tui.State.{Tui}
use cs2remote_console.Tui.Input.{key_code, handle_input}
use cs2remote_console.Tui.Input.Typing.{IsPrintable, type_keys, typed_command}
use cs2remote_console.Client.Console.{LinkSettings, Link, send_payload}
use cs2remote_console.Client.App.{app_on_command}

module _ (net : Sockets) (settings : LinkSettings) where
  -- A line of printable characters typed on an empty input line, and then Enter, with main's callback
  -- for commands: while the game is connected the session's socket is sent one payload, that of
  -- createCommandPayload for the line, and otherwise nothing is sent; the link stays as it was, and
  -- the input line is empty again.
  pub typed_command_sent :
      (text : Bytes) (height now : ℕ) (t : Tui (Link net.World × net.World)) (link : Link net.World)
      (w : net.World)
      → t.command_callback ≡ some (app_on_command net settings)
      → t.input_buffer ≡ []
      → All IsPrintable text
      → text ≢ []
      → let typed = type_keys text height now t (link, w) in
        let r = handle_input (key_code b'\n') height now typed.0 typed.1 in
        (r.0.input_buffer ≡ [])
        × (r.1 ≡ (
          link,
          (if link.console_connected
              then (net.send link.vconsole.client_socket (create_command_payload text) w).1
              else w),
        ))
  unfolding app_on_command send_payload send_cmd
  typed_command_sent text height now t link w hooked blank printable some_text =
      let sent =
        typed_command text (app_on_command net settings) height now t (link, w) hooked printable
          some_text in
      (ap (λ r. r.0.input_buffer) sent, ap (λ r. r.1) sent ∙ rw blank (ground arith))
