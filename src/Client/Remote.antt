-- ===== src/Client/Remote.antt =====
-- The link to the remote server, CS2RemoteConsole-client/src/connection/connection_remoteserver.cpp,
-- one round of each loop at a time, and the player's name that main.cpp hands to it. Sleeps are left
-- out.
pub mod Announce
pub mod Relay
pub mod Threads
use cs2remote_console.Base.{
  ◌==◌, if◌then◌else◌, ◌>>=◌, is_some, Bytes, codes, is_empty, to_u16, ℕ, Bool, true, false, not,
  ◌&&◌, ◌||◌, Option, none, some, [], ◌∷◌, ◌++◌, pos,
}
use cs2remote_console.Net.{Sockets}
use cs2remote_console.Config.{Config, get, get_int}
use cs2remote_console.VConsole.Memory.{c_string}
use cs2remote_console.VConsole.Messages.{Prnt}
use cs2remote_console.Tui.State.{Tui}
use cs2remote_console.Tui.Console.{add_console_message}
use cs2remote_console.Client.Console.{
  ListenerPoint, absent, looping, ended, join_returns, Link, LinkSettings, send_payload,
}

-- The globals of the file.
pub record RemoteLink : Type 0 where
  pub remote_server_sock : Option ℕ
  pub listening_remote_server : Bool
  pub remote_server_connected : Bool
  pub listener : ListenerPoint
  pub client_name : Bytes

unfoldable pub new_remote_link : RemoteLink
new_remote_link = record {
  remote_server_sock = none;
  listening_remote_server = false;
  remote_server_connected = false;
  listener = absent;
  client_name = [];
}

-- The text behind the first "name = " that has a character behind it on its line: the first group
-- of the regular expression `name = (.+)`, whose dot matches no end of line.
abbrev pub is_line_end : ℕ → Bool
is_line_end c = c == b'\n' || c == b'\r'

unfoldable pub line_of : Bytes → Bytes
line_of [] = []
line_of (c ∷ cs) = if is_line_end c then [] else c ∷ line_of cs

unfoldable pub match_name : Bytes → Bytes → Option Bytes
match_name [] text = if is_empty (line_of text) then none else some (line_of text)
match_name (p ∷ ps) [] = none
match_name (p ∷ ps) (c ∷ cs) = if c == p then match_name ps cs else none

unfoldable pub search_name : Bytes → Option Bytes
search_name [] = none
search_name (c ∷ cs) = elim (match_name (codes "name = ") (c ∷ cs)) [
  | some name ↦ some name
  | none ↦ search_name cs
]

unfoldable pub name_message : Bytes → Bytes
name_message name = codes "PLAYERNAME:" ++ name

module _ (net : Sockets) where
  unfoldable pub connect_to_remote_server :
      Config → RemoteLink → net.World → Bool × RemoteLink × net.World
  connect_to_remote_server config s w =
      let (opened, w1) = net.socket w in
      elim opened [
        | none ↦ (false, record s { remote_server_sock = none }, w1)
        | some n ↦
            let (connected, w2) =
              net.connect (some n) (get (codes "remote_server_ip") (codes "127.0.0.1") config)
                (to_u16 (get_int (codes "remote_server_port") (pos 42069) config)) w1 in
            if connected
            then (true, record s { remote_server_sock = some n }, w2)
            else (false, record s { remote_server_sock = none }, net.close (some n) w2)
      ]

  unfoldable pub send_message_to_remote_server : Bytes → RemoteLink → net.World → Bool × net.World
  send_message_to_remote_server message s w = elim s.remote_server_sock [
    | none ↦ (false, w)
    | some n ↦ let (sent, w1) = net.send (some n) message w in (is_some sent, w1)
  ]

  -- A round of remoteServerConnectorLoop; `none` where it waits in join.
  unfoldable pub remote_connector_round :
      Config → RemoteLink → net.World → Option (RemoteLink × net.World)
  remote_connector_round config s w =
      let (connected, s1, w1) = connect_to_remote_server config s w in
      let s2 = record s1 {
        remote_server_connected = true;
        listening_remote_server = true;
        listener = looping;
      } in
      if s.remote_server_connected
      then some (s, w)
      else if not connected
      then some (s1, w1)
      else if not (join_returns s1.listener)
      then none
      else if is_empty s.client_name
      then some (s2, w1)
      else some (s2, (send_message_to_remote_server (name_message s.client_name) s2 w1).1)

  -- What listenForRemoteServerData does behind its loop.
  unfoldable pub leave_remote : RemoteLink → net.World → RemoteLink × net.World
  leave_remote s w = (
    record s {
      remote_server_connected = false;
      listening_remote_server = false;
      remote_server_sock = none;
      listener = ended;
    },
    net.close s.remote_server_sock w,
  )

  -- A round of listenForRemoteServerData, with what is behind the loop when it ends: true if the
  -- loop goes on. The buffer has 1024 bytes, of which recv gets one less.
  unfoldable pub remote_listener_round :
      LinkSettings
      → Link net.World
      → RemoteLink
      → net.World
      → Option (Bool × RemoteLink × net.World)
  unfolding leave_remote
  remote_listener_round settings link s w =
      let (received, w1) = net.recv s.remote_server_sock 1023 w in
      let (left, w2) = leave_remote s w in
      let (left1, w3) = leave_remote s w1 in
      if not (s.listening_remote_server && link.running)
      then some (false, left, w2)
      else elim received [
        | none ↦ some (if net.would_block w1 then (true, s, w1) else (false, left1, w3))
        | some [] ↦ some (false, left1, w3)
        | some (b ∷ bs) ↦ (do
          payload ← c_string ((b ∷ bs) ++ 0 ∷ [])
          some (true, s, (send_payload net settings payload link w1).1))
      ]

  -- cleanupRemoteServer up to its joins.
  unfoldable pub cleanup_remote_server : RemoteLink → net.World → RemoteLink × net.World
  cleanup_remote_server s w =
      let quiet = record s { listening_remote_server = false; remote_server_connected = false } in
      elim s.remote_server_sock [
        | none ↦ (quiet, w)
        | some n ↦ (record quiet { remote_server_sock = none }, net.close (some n) w)
      ]

  -- handlePRNT of main.cpp.
  unfoldable pub handle_prnt : Bytes → RemoteLink → net.World → RemoteLink × net.World
  handle_prnt message s w = elim (search_name message) [
    | none ↦ (s, w)
    | some name ↦
        let named = record s { client_name = name } in
        (named, (send_message_to_remote_server (name_message name) named w).1)
  ]

  -- The callback that main gives to setOnPRNTReceived, at the time `now`.
  unfoldable pub on_prnt :
      {V : Type 0} → ℕ → Prnt → Tui V → RemoteLink → net.World → Tui V × RemoteLink × net.World
  on_prnt now prnt t s w =
      let (s1, w1) = if is_empty s.client_name then handle_prnt prnt.message s w else (s, w) in
      (add_console_message prnt.channel_id prnt.message prnt.color now t, s1, w1)
