-- ===== src/EndToEnd.antt =====
-- The programs together: server.cpp of CS2RemoteConsole-server, connection_remoteserver.cpp and
-- main.cpp of CS2RemoteConsole-client, and the game, on one network. The sockets of all machines are
-- those of one record, so a handle here names one socket of one program.
pub mod Command
pub mod Name
use cs2remote_console.Base.{
  ◌==◌, ==_iff, Bool-cases, Bytes, ℕ, ◌≡◌, refl, ap, ◌∙◌, inl, inr, some, List, [], ◌∷◌, ◌++◌, map,
  arith,
}
use cs2remote_console.Net.{Sockets}
use cs2remote_console.Net.Pipe.{Pipe, TakesWhole, send_whole}
use cs2remote_console.Server.Clients.{ClientInfo, find_socket}
use cs2remote_console.Server.Clients.Registry.{Absent, Distinct, send_each}

module _ (net : Sockets) (a b : ℕ) (p : Pipe net a b) where
  -- A text that is sent once to each of some clients: nothing of it for a client that is not there,
  -- and the whole of it, once, for one that is.
  pub send_each-Absent :
      (text : Bytes) (cs : List ClientInfo) (w : net.World)
      → Absent a cs
      → p.sent (send_each net text (map (λ c. c.socket) cs) w) ≡ p.sent w
  unfolding send_each
  send_each-Absent text [] w absent = refl
  send_each-Absent text (c ∷ cs) w absent =
      send_each-Absent text cs (net.send (some c.socket) text w).1 absent.1
      ∙ (p.send_keeps c.socket text w absent.0).0

  pub send_each-member :
      (text : Bytes) (cs : List ClientInfo) (client : ClientInfo) (w : net.World)
      → TakesWhole net a text
      → Distinct cs
      → find_socket a cs ≡ some client
      → p.sent (send_each net text (map (λ c. c.socket) cs) w) ≡ p.sent w ++ text
  unfolding send_each find_socket
  send_each-member text [] client w whole d e = cc
  send_each-member text (c ∷ cs) client w whole d e = elim (Bool-cases (c.socket == a)) [
    | inl here_now ↦
        let same : c.socket ≡ a = (==_iff c.socket a).0 here_now in
        send_each-Absent text cs (net.send (some c.socket) text w).1 (rw same at d.0)
        ∙ ap (λ (n : ℕ). p.sent (net.send (some n) text w).1) same
        ∙ send_whole net a b p text w whole
    | inr later ↦
        send_each-member text cs client (net.send (some c.socket) text w).1 whole d.1 (ground arith)
        ∙ ap (λ (bs : Bytes). bs ++ text)
            (p.send_keeps c.socket text w (λ f. ground (arith, ==_iff c.socket a))).0
  ]

  pub send_each-taken :
      (text : Bytes) (ns : List ℕ) (w : net.World) → p.taken (send_each net text ns w) ≡ p.taken w
  unfolding send_each
  send_each-taken text [] w = refl
  send_each-taken text (n ∷ ns) w =
      send_each-taken text ns (net.send (some n) text w).1 ∙ p.send_takes_none n text w
