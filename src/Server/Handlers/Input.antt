-- ===== src/Server/Handlers/Input.antt =====
-- The operator's commands.
use cs2remote_console.Base.{
  Bytes, codes, eqb_iff, ◌≡◌, refl, ap, ◌≢◌, true, false, none, some, List, [], ◌∷◌, map, arith,
}
use cs2remote_console.Net.{Sockets}
use cs2remote_console.Server.Clients.{ClientInfo, Server, is_excluded}
use cs2remote_console.Server.Clients.Registry.{
  recipients, send_each, broadcast_to_clients-send_each,
}
use cs2remote_console.Server.Handlers.{user_input_round}

recipients_all : (cs : List ClientInfo) → recipients none cs ≡ map (λ c. c.socket) cs
unfolding recipients is_excluded
recipients_all [] = refl
recipients_all (c ∷ cs) = ap (◌∷◌ c.socket) (recipients_all cs)

-- While the server runs, a line ends the loop and the server exactly if it is "/quit"; "/list"
-- changes nothing; and any other line is sent once to every client, in the order of the list. The
-- end of the input ends both as well.
pub user_input_cases :
    (net : Sockets) (input : Bytes) (s : Server) (w : net.World)
    → s.running ≡ true
    → (user_input_round net none s w ≡ (false, record s { running = false }, w))
      × (input ≡ codes "/quit"
          → user_input_round net (some input) s w ≡ (false, record s { running = false }, w))
      × (input ≡ codes "/list" → user_input_round net (some input) s w ≡ (true, s, w))
      × (input ≢ codes "/quit"
          → input ≢ codes "/list"
          → user_input_round net (some input) s w
            ≡ (true, s, send_each net input (map (λ c. c.socket) s.clients) w))
unfolding user_input_round
user_input_cases net input s w on = (
  refl,
  λ e. ground (arith, eqb_iff input (codes "/quit")),
  λ e. ground (arith, eqb_iff input (codes "/list"), eqb_iff input (codes "/quit")),
  λ e f. ground (
    arith,
    eqb_iff input (codes "/quit"),
    eqb_iff input (codes "/list"),
    broadcast_to_clients-send_each net input none s w,
    recipients_all s.clients,
  ),
)
