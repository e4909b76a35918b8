-- ===== src/Client/Remote/Relay.antt =====
-- Commands that pass from the remote server to the game, and the ends of the remote link.
use cs2remote_console.Base.{
  if◌then◌else◌, Bytes, is_empty, Lacks, ℕ, ◌≡◌, ◌≢◌, ◌⊎◌, Bool, true, false, ◌&&◌, none, some, [],
  ◌∷◌, arith,
}
use cs2remote_console.Net.{Sockets}
use cs2remote_console.VConsole.Command.{create_command_payload}
use cs2remote_console.VConsole.Memory.Reads.{c_string-append}
use cs2remote_console.Client.Console.{LinkSettings, Link, send_payload, ended}
use cs2remote_console.VConsole.Session.{send_cmd}
use cs2remote_console.VConsole.Messages.{Prnt}
use cs2remote_console.Tui.State.{Tui}
use cs2remote_console.Client.Remote.{
  RemoteLink, remote_listener_round, leave_remote, send_message_to_remote_server,
  cleanup_remote_server, handle_prnt, on_prnt, search_name,
}

module _ (net : Sockets) where
  -- A listener that goes on and receives some bytes without a NUL sends exactly these bytes to the
  -- game, as the payload of one command on the session's socket, if the game is connected, and sends
  -- nothing if it is not. Either way it goes on and the remote link is as it was.
  pub remote_command_relayed :
      (settings : LinkSettings) (link : Link net.World) (s : RemoteLink) (w w1 : net.World) (b : ℕ)
      (bs : Bytes)
      → s.listening_remote_server ≡ true
      → link.running ≡ true
      → net.recv s.remote_server_sock 1023 w ≡ (some (b ∷ bs), w1)
      → Lacks 0 (b ∷ bs)
      → remote_listener_round net settings link s w
        ≡ some (
          true,
          s,
          (if link.console_connected
              then (net.send link.vconsole.client_socket (create_command_payload (b ∷ bs)) w1).1
              else w1),
        )
  unfolding remote_listener_round send_payload send_cmd
  remote_command_relayed settings link s w w1 b bs on running got l =
      let text = c_string-append (b ∷ bs) [] l in ground arith

  -- A round of the listener either goes on with the link as it was, or leaves it with both flags
  -- cleared, no socket and the thread ended, having closed the old socket last. It goes on only if
  -- something was received, or if the call would have blocked.
  remote_listener_cases :
      (settings : LinkSettings) (link : Link net.World) (s s' : RemoteLink) (w w' : net.World)
      (goes_on : Bool)
      → remote_listener_round net settings link s w ≡ some (goes_on, s', w')
      → let r = net.recv s.remote_server_sock 1023 w in
        (goes_on ≡ true → (s' ≡ s) × (r.0 ≡ none → net.would_block r.1 ≡ true) × (r.0 ≢ some []))
        × (goes_on ≡ false
            → (s' ≡ record s {
              remote_server_connected = false;
              listening_remote_server = false;
              remote_server_sock = none;
              listener = ended;
            })
              × (v : net.World) × (w' ≡ net.close s.remote_server_sock v))
  unfolding remote_listener_round leave_remote
  remote_listener_cases settings link s s' w w' goes_on e = (
    λ g. (ground arith, λ f. ground arith, λ f. ground arith),
    λ g. (
      ground arith,
      (if s.listening_remote_server && link.running
          then (net.recv s.remote_server_sock 1023 w).1
          else w),
      ground arith,
    ),
  )

  -- After cleanupRemoteServer no message can be sent and a second call changes nothing, in the
  -- link or outside.
  cleanup_remote_server_outcome :
      (s : RemoteLink) (w : net.World)
      → let r = cleanup_remote_server net s w in
        ((message : Bytes) (v : net.World)
          → send_message_to_remote_server net message r.0 v ≡ (false, v))
        × ((v : net.World) → cleanup_remote_server net r.0 v ≡ (r.0, v))
        × ((n : ℕ) → s.remote_server_sock ≡ some n → r.1 ≡ net.close (some n) w)
  unfolding cleanup_remote_server send_message_to_remote_server
  cleanup_remote_server_outcome s w = (λ m v. ground arith, λ v. ground arith, λ n e. ground arith)

  -- Once a name is there, no printed message changes the remote link or sends anything. While it is
  -- empty, a message without a name does not either.
  on_prnt_keeps_name :
      (now : ℕ) (prnt : Prnt) (t : Tui net.World) (s : RemoteLink) (w : net.World)
      → (is_empty s.client_name ≡ false) ⊎ (search_name prnt.message ≡ none)
      → let r = on_prnt net now prnt t s w in (r.1 ≡ s) × (r.2 ≡ w)
  unfolding on_prnt handle_prnt
  on_prnt_keeps_name now prnt t s w h = (ground arith, ground arith)
