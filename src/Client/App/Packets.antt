-- ===== src/Client/App/Packets.antt =====
-- Packets of the game on their way through the client: from the bytes that the session's socket
-- gives to the screen and to the remote server.
use cs2remote_console.Base.{
  length, take, Bytes, codes, Lacks, ℕ, ◌+◌, ◌-◌, ◌<◌, ◌≡◌, refl, true, false, Option, some, [],
  ◌∷◌, ◌++◌, arith,
}
use cs2remote_console.Net.{Sockets}
use cs2remote_console.VConsole.Memory.{le_value}
use cs2remote_console.VConsole.Messages.{Prnt}
use cs2remote_console.VConsole.Parse.{strip_non_ascii}
use cs2remote_console.VConsole.Parse.Prints.{PrntGap, IsPrntGap, encode_prnt}
use cs2remote_console.VConsole.Session.{
  VConsole, declared_length, process_incoming_data, disconnect, new_vconsole, set_on_prnt_received,
  set_on_chan_received, set_on_disconnected, set_on_adon_received, set_on_cvars_loaded,
}
use cs2remote_console.VConsole.Session.Wire.{WirePrnt, said, process_incoming_data-wire}
use cs2remote_console.Server.Handlers.{split_colon}
use cs2remote_console.Tui.Console.{add_console_message}
use cs2remote_console.Client.Remote.{on_prnt}
use cs2remote_console.Client.Remote.Announce.{IsLine, NotBefore, handle_prnt_announces}
use cs2remote_console.Client.App.{
  App, beside, app_on_prnt, main_vconsole, LinkFlags, initialize_cs2_connection,
}

module _ (net : Sockets) (V : Type 0) (color_pairs : ℕ) (a : App V)
    (c : VConsole (App V × net.World)) where
  -- A whole PRNT packet on the session's socket, with any 32-bit channel, any colour and any text
  -- without a NUL: one call of processIncomingData hands it to main's callback, with the channel,
  -- the colour and the ASCII part of the text as they were sent, and leaves the session as it was.
  pub prnt_packet_received :
      (header : Bytes) (id : ℕ) (g : PrntGap) (text rest : Bytes) (w w1 w2 : net.World)
      → c.on_prnt_received ≡ some (app_on_prnt net V color_pairs)
      → length header ≡ 12
      → take 4 header ≡ codes "PRNT"
      → declared_length header ≡ length (encode_prnt id g text rest) + 12
      → net.recv c.client_socket 12 w ≡ (some header, w1)
      → net.recv c.client_socket (declared_length header - 12) w1
        ≡ (some (encode_prnt id g text rest), w2)
      → id < 4294967296
      → IsPrntGap g
      → Lacks 0 text
      → (p : Prnt) × (p.channel_id ≡ id)
        × (p.color ≡ le_value g.color)
        × (p.message ≡ strip_non_ascii text)
        × (process_incoming_data (beside (App V) net) c (a, w)
            ≡ some (true, c, app_on_prnt net V color_pairs p (a, w2)))
  prnt_packet_received header id g text rest w w1 w2 hooked h type declared first second word v t =
      let p : WirePrnt = record { header = header; id = id; gap = g; text = text; rest = rest } in
      (
        said p,
        refl,
        refl,
        refl,
        process_incoming_data-wire (beside (App V) net) c (app_on_prnt net V color_pairs) hooked p
            (a, w) (a, w1) (a, w2)
            (record {
              header_size = h;
              message_type = type;
              declared = declared;
              channel_word = word;
              gap_sizes = v;
              text_ends = t;
            })
            (ground arith) (ground arith),
      )

module _ (net : Sockets) (V : Type 0) (color_pairs : ℕ) where
  -- A printed line with the player's name in it, while the client knows none: the line goes to the
  -- screen with the time of the clock, the client keeps the name, and the remote server is sent one
  -- message, which the server splits into the command PLAYERNAME and that name.
  pub printed_name_announced :
      (prnt : Prnt) (before name rest : Bytes) (ch n : ℕ) (a : App V) (w : net.World)
      → prnt.message ≡ before ++ (codes "name = " ++ ((ch ∷ name) ++ b'\n' ∷ rest))
      → NotBefore (codes "name = " ++ ((ch ∷ name) ++ b'\n' ∷ rest)) before
      → IsLine (ch ∷ name)
      → a.remote.remote_server_sock ≡ some n
      → a.remote.client_name ≡ []
      → (sent : Bytes) × (app_on_prnt net V color_pairs prnt (a, w) ≡ (
        record {
          tui = add_console_message prnt.channel_id prnt.message prnt.color (net.now w) a.tui;
          remote = record a.remote { client_name = ch ∷ name };
        },
        (net.send (some n) sent w).1,
      ))
        × (split_colon sent ≡ some (codes "PLAYERNAME", ch ∷ name))
  unfolding app_on_prnt on_prnt
  printed_name_announced prnt before name rest ch n a w message l line linked unnamed =
      let (sent, announced, split) =
        handle_prnt_announces net before name rest ch n a.remote w l line linked in
      (sent, ground arith, split)

-- After a disconnection of a session object that initializeCS2Connection has set up, both flags are
-- cleared; main's session object has no such callback, and a disconnection leaves the globals as
-- they were.
disconnect_flags :
    (net : Sockets) (V : Type 0) (color_pairs : ℕ) (c : VConsole (LinkFlags × net.World))
    (f : LinkFlags) (s : Option ℕ) (a : App V) (w : net.World)
    → ((disconnect (beside LinkFlags net) (initialize_cs2_connection c) (f, w)).1.0
        ≡ record { console_connected = false; listening = false })
      × ((disconnect
            (beside (App V) net)
            (record (main_vconsole net V color_pairs) { client_socket = s })
            (a, w)).1.0
          ≡ a)
unfolding disconnect initialize_cs2_connection main_vconsole set_on_prnt_received
    set_on_chan_received set_on_disconnected set_on_adon_received set_on_cvars_loaded new_vconsole
disconnect_flags net V color_pairs c f s a w = (ground arith, ground arith)
