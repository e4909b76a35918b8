-- ===== src/Client/App/Delivery.antt =====
-- The listener of the link to the game on a stream: listenForCS2ConsoleData while whole PRNT packets
-- stand on the session's socket.
use cs2remote_console.Base.{
  Option-cases, length, All, Bytes, ℕ, ◌-◌, ◌≡◌, refl, ap, ◌∙◌, inl, inr, true, Option, some, List,
  [], ◌∷◌, ◌++◌, append_assoc, arith,
}
use cs2remote_console.Net.{Sockets}
use cs2remote_console.VConsole.Messages.{Prnt}
use cs2remote_console.VConsole.Session.{declared_length, process_incoming_data}
use cs2remote_console.VConsole.Session.Wire.{
  WirePrnt, IsWirePrnt, wire_body, said, on_wire, process_incoming_data-wire,
}
use cs2remote_console.Client.Console.{
  Link, LinkSettings, looping, listener_step, listener_round, by_listener, Steps, here, then_step,
}
use cs2remote_console.Client.Remote.{
  on_prnt, handle_prnt, search_name, name_message, send_message_to_remote_server,
}
use cs2remote_console.Client.App.{App, beside, app_on_prnt}

-- A connected stream socket: recv takes the bytes that have arrived, in their order, and all that
-- it asks for when so many have arrived, and no send takes any of them.
pub record Stream (net : Sockets) (s : Option ℕ) : Type 0 where
  pub arrived : net.World → Bytes
  pub recv-arrived :
      (n : ℕ) (first rest : Bytes) (w : net.World)
      → arrived w ≡ first ++ rest
      → length first ≡ n
      → (w1 : net.World) × (net.recv s n w ≡ (some first, w1)) × (arrived w1 ≡ rest)
  pub send-arrived :
      (r : Option ℕ) (text : Bytes) (w : net.World) → arrived (net.send r text w).1 ≡ arrived w

-- A packet is read from the socket, by its header and by its body.
abbrev pub Reads : (net : Sockets) → Option ℕ → WirePrnt → net.World → net.World → Type 0
Reads net s p w w2 =
    (w1 : net.World) × (net.recv s 12 w ≡ (some p.header, w1))
    × (net.recv s (declared_length p.header - 12) w1 ≡ (some (wire_body p), w2))

-- One packet after another is read and then handed to main's callback once, with what it says; nothing
-- else happens to the globals and outside.
unfoldable pub InTurn :
    (net : Sockets) (V : Type 0) (color_pairs : ℕ)
    → Option ℕ
    → List WirePrnt
    → App V × net.World
    → App V × net.World
    → Type 0
InTurn net V color_pairs s [] v v' = v ≡ v'
InTurn net V color_pairs s (p ∷ ps) v v' =
    (w2 : net.World) × Reads net s p v.1 w2
    × InTurn net V color_pairs s ps (app_on_prnt net V color_pairs (said p) (v.0, w2)) v'

module _ (net : Sockets) (settings : LinkSettings) (V : Type 0) (color_pairs : ℕ)
    (l : Link (App V × net.World)) (stream : Stream net l.vconsole.client_socket) where
  -- The callback reads the clock and sends to the server, and takes nothing from the session's socket.
  app_on_prnt-arrived :
      (prnt : Prnt) (v : App V × net.World)
      → stream.arrived (app_on_prnt net V color_pairs prnt v).1 ≡ stream.arrived v.1
  unfolding app_on_prnt on_prnt handle_prnt send_message_to_remote_server
  app_on_prnt-arrived prnt v = elim (Option-cases (search_name prnt.message)) [
    | inl nameless ↦ ground arith
    | inr (name, found) ↦
        let kept = stream.send-arrived v.0.remote.remote_server_sock (name_message name) v.1 in
        ground arith
  ]

  module _ (hooked : l.vconsole.on_prnt_received ≡ some (app_on_prnt net V color_pairs))
      (at : l.listener ≡ looping) (running : l.running ≡ true)
      (listening : l.listening ≡ true) where
    -- One round of the listener on one packet.
    listener_takes :
        (p : WirePrnt) (behind : Bytes) (a : App V) (w : net.World)
        → IsWirePrnt p
        → stream.arrived w ≡ p.header ++ (wire_body p ++ behind)
        → (w2 : net.World) × Reads net l.vconsole.client_socket p w w2
          × (stream.arrived w2 ≡ behind)
          × (listener_step (beside (App V) net) settings l (a, w)
              ≡ some (l, app_on_prnt net V color_pairs (said p) (a, w2)))
    unfolding listener_step listener_round
    listener_takes p behind a w v here_now =
        let (w1, first, left) =
          stream.recv-arrived 12 p.header (wire_body p ++ behind) w here_now v.header_size in
        let (w2, second, rest) =
          stream.recv-arrived (declared_length p.header - 12) (wire_body p) behind w1 left
            (omega (arith, v.declared)) in
        let done : process_incoming_data (beside (App V) net) l.vconsole (a, w)
            ≡ some (true, l.vconsole, app_on_prnt net V color_pairs (said p) (a, w2)) =
          process_incoming_data-wire (beside (App V) net) l.vconsole (app_on_prnt net V color_pairs)
            hooked p (a, w) (a, w1) (a, w2) v (ground arith) (ground arith) in
        (w2, (w1, first, second), rest, rw (at, running, listening, done) refl)

    -- While the two flags stay set, the session object has main's callback, and whole PRNT packets have
    -- arrived on its socket, the listener on its own steps to a state in which each packet has been
    -- read and handed to the callback once, in their order, with exactly what it says, and nothing
    -- else has happened to the globals or outside. The bytes behind the packets still wait on the
    -- socket, from which sending takes none, and the link is as it was.
    pub listener_delivers :
        (ps : List WirePrnt) (behind : Bytes) (v : App V × net.World)
        → All IsWirePrnt ps
        → stream.arrived v.1 ≡ on_wire ps ++ behind
        → (v' : App V × net.World) × InTurn net V color_pairs l.vconsole.client_socket ps v v'
          × (stream.arrived v'.1 ≡ behind)
          × Steps (beside (App V) net) settings (l, v) (l, v')
    unfolding on_wire InTurn
    listener_delivers [] behind v ok waiting = (v, refl, waiting, here (l, v))
    listener_delivers (p ∷ ps) behind v ok waiting =
        let (w2, read, left, taken) = listener_takes p (on_wire ps ++ behind) v.0 v.1 ok.0 (
          waiting
          ∙ append_assoc p.header (wire_body p ++ on_wire ps) behind
          ∙ ap (λ (bs : Bytes). p.header ++ bs) (append_assoc (wire_body p) (on_wire ps) behind)) in
        let v2 = app_on_prnt net V color_pairs (said p) (v.0, w2) in
        let (v', done, rest, more) =
          listener_delivers ps behind v2 ok.1 (app_on_prnt-arrived (said p) (v.0, w2) ∙ left) in
        (
          v',
          (w2, read, done),
          rest,
          then_step (l, v) (l, v2) (l, v') (by_listener l v (l, v2) taken) more,
        )
