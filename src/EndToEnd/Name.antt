-- ===== src/EndToEnd/Name.antt =====
-- The player's name, from a line that the game has printed over main's callback and
-- sendMessageToRemoteServer of the client to handleClient of server.cpp.
use cs2remote_console.Base.{
  ◌==◌, if◌then◌else◌, length, Bytes, codes, Lacks, ℕ, ◌≤◌, ◌≡◌, refl, sym, ap, ◌∙◌, inr, true,
  some, [], ◌∷◌, ◌++◌, append-nil, arith,
}
use cs2remote_console.Net.{Sockets}
use cs2remote_console.VConsole.Messages.{Prnt}
use cs2remote_console.Server.Clients.{ClientInfo, Server, Ref, deref}
use cs2remote_console.Server.Clients.Registry.{recipients, send_each}
use cs2remote_console.Server.Handlers.{join_message, handle_client_round}
use cs2remote_console.Server.Handlers.Names.{player_name_received}
use cs2remote_console.Tui.Console.{add_console_message}
use cs2remote_console.Client.Remote.{name_message, handle_prnt, on_prnt}
use cs2remote_console.Client.Remote.Announce.{IsLine, NotBefore, handle_prnt-line}
use cs2remote_console.Client.App.{App, app_on_prnt}
use cs2remote_console.Net.Pipe.{Pipe, TakesWhole, AllArrives, send_whole, all_arrived}

module _ (net : Sockets) (a b : ℕ) (p : Pipe net a b) (V : Type 0) (color_pairs : ℕ) where
  -- The game prints a line with "name = " in it, behind the first of which stands the player's name, of
  -- 1 to 1012 characters and without a NUL, and then a newline; the client knows no name yet, all that
  -- it sent to the server has been taken, and its socket takes the announcement whole. Main's callback
  -- keeps the name and shows the line. When all that it sends has arrived, the server's thread for this
  -- client takes its turn: the server gives that very name to this client and to no other, it sends
  -- the joining message once to each of the others, and nothing that has arrived is left.
  pub name_reaches_server :
      (prnt : Prnt) (before name rest : Bytes) (ch : ℕ) (app : App V) (w w1 : net.World) (r : Ref)
      (s : Server) (client : ClientInfo)
      → prnt.message ≡ before ++ (codes "name = " ++ ((ch ∷ name) ++ b'\n' ∷ rest))
      → NotBefore (codes "name = " ++ ((ch ∷ name) ++ b'\n' ∷ rest)) before
      → IsLine (ch ∷ name)
      → Lacks 0 (ch ∷ name)
      → length (ch ∷ name) ≤ 1012
      → app.remote.remote_server_sock ≡ some a
      → app.remote.client_name ≡ []
      → deref r s ≡ some client
      → client.socket ≡ b
      → TakesWhole net a (name_message (ch ∷ name))
      → p.sent w ≡ p.taken w
      → AllArrives net a b p (net.send (some a) (name_message (ch ∷ name)) w).1 w1
      → (v : net.World) × (w2 : net.World) × (s' : Server) × (AllArrives net a b p v w1)
        × (app_on_prnt net V color_pairs prnt (app, w) ≡ (
          record {
            tui = add_console_message prnt.channel_id prnt.message prnt.color (net.now w) app.tui;
            remote = record app.remote { client_name = ch ∷ name };
          },
          v,
        ))
        × (handle_client_round net r s w1
            ≡ some (
              true,
              s',
              send_each net (join_message (ch ∷ name)) (recipients (some b) s'.clients) w2,
            ))
        × ((o : Ref)
            → o.block ≡ r.block
            → deref o s' ≡ (
                if o.index == r.index
                then some (record client { name = ch ∷ name })
                else deref o s))
        × (p.arrived w2 ≡ [])
  unfolding app_on_prnt on_prnt name_message
  name_reaches_server prnt before name rest ch app w w1 r s client message l line no_nul fits linked
        unnamed leads on_b whole none_before there =
      let text : Bytes = name_message (ch ∷ name) in
      let v = (net.send (some a) text w).1 in
      let announced : handle_prnt net prnt.message app.remote w
          ≡ (record app.remote { client_name = ch ∷ name }, v) =
        ap (λ (m : Bytes). handle_prnt net m app.remote w) message
        ∙ handle_prnt-line net before name rest ch a app.remote w l line linked in
      let sent : p.sent v ≡ p.taken v ++ text =
        send_whole net a b p text w whole
        ∙ ap (λ (bs : Bytes). bs ++ text) (none_before ∙ sym (p.send_takes_none a text w)) in
      let arriving : p.arrived w1 ≡ text ++ [] =
        all_arrived net a b p text v w1 sent there ∙ sym (append-nil text) in
      let (w2, got, left) =
        p.recv_takes 1023 text [] w1 arriving (omega arith) (inr (refl, omega arith)) in
      let (s', handled, names) =
        player_name_received net r s w1 w2 client (ch ∷ name) leads no_nul
          (ap (λ (n : ℕ). net.recv (some n) 1023 w1) on_b ∙ got) in
      (
        v,
        w2,
        s',
        there,
        ground arith,
        handled
            ∙ ap
                (λ (n : ℕ). some (
                  true,
                  s',
                  send_each net (join_message (ch ∷ name)) (recipients (some n) s'.clients) w2,
                ))
                on_b,
        names,
        left,
      )
