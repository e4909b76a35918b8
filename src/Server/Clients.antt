-- ===== src/Server/Clients.antt =====
-- ClientInfo of client_handler.h, the state of the class Server of server.h, and its operations on
-- the list of clients in server.cpp. Locks are not modelled: each operation is one atomic step.
-- A thread of handleClient holds a C++ reference into the vector m_clients: `Ref` is such a
-- reference, the storage block that it points into and the position there. emplace_back moves the
-- vector to a new block when its capacity is used up, and erase moves later clients forward.
pub mod Registry
pub mod References
use cs2remote_console.Base.{
  ltb, ◌==◌, if◌then◌else◌, ◌>>=◌, length, get_elem?, set, Bytes, ℕ, ◌+◌, ◌*◌, Bool, true, false,
  Option, none, some, List, [], ◌∷◌, ◌++◌,
}
use cs2remote_console.Net.{Sockets}
use cs2remote_console.Server.Utils.{set_non_blocking}

pub record ClientInfo : Type 0 where
  pub name : Bytes
  pub socket : ℕ
  pub ip : Bytes
  pub port : ℕ
  pub connection_time : ℕ

pub record Server : Type 0 where
  pub initial_port : ℕ
  pub port : ℕ
  pub listen_socket : Option ℕ
  pub clients : List ClientInfo
  pub running : Bool
  pub block : ℕ
  pub capacity : ℕ

pub record Ref : Type 0 where
  pub block : ℕ
  pub index : ℕ

-- The constructor Server::Server.
unfoldable pub new_server : ℕ → Server
new_server initial_port = record {
  initial_port = initial_port;
  port = initial_port;
  listen_socket = none;
  clients = [];
  running = true;
  block = 0;
  capacity = 0;
}

-- What a reference refers to; `none` is a dangling reference.
unfoldable pub deref : Ref → Server → Option ClientInfo
deref r s = if r.block == s.block then get_elem? s.clients r.index else none

-- m_clients.emplace_back(…), and the reference m_clients.back().
unfoldable pub emplace_back : ClientInfo → Server → Server × Ref
emplace_back client s =
    let grown = record s { clients = s.clients ++ client ∷ [] } in
    let moved = if ltb (length s.clients) s.capacity then grown else record grown {
      block = s.block + 1;
      capacity = if s.capacity == 0 then 1 else 2 * s.capacity;
    } in
    (moved, record { block = moved.block; index = length s.clients })

-- A write to the name through a reference.
unfoldable pub set_name : Bytes → ClientInfo → ℕ → Server → Server
set_name name client index s = record s {
  clients = set s.clients index (record client { name = name });
}

-- std::find_if by the socket, and erase of what it finds.
unfoldable pub find_socket : ℕ → List ClientInfo → Option ClientInfo
find_socket socket [] = none
find_socket socket (c ∷ cs) = if c.socket == socket then some c else find_socket socket cs

unfoldable pub erase_socket : ℕ → List ClientInfo → List ClientInfo
erase_socket socket [] = []
erase_socket socket (c ∷ cs) = if c.socket == socket then cs else c ∷ erase_socket socket cs

-- excludeClient && client.socket == excludeClient->socket
unfoldable pub is_excluded : Option ℕ → ℕ → Bool
is_excluded none socket = false
is_excluded (some excluded) socket = socket == excluded

module _ (net : Sockets) where
  abbrev pub close_socket : ℕ → net.World → net.World
  close_socket n w = net.close (some n) (net.shutdown (some n) w)

  unfoldable pub remove_client : Ref → Server → net.World → Option (Server × net.World)
  remove_client r s w = do
    client ← deref r s
    elim (find_socket client.socket s.clients) [
      | none ↦ some (s, w)
      | some c ↦
          some
            (record s { clients = erase_socket client.socket s.clients }, close_socket c.socket w)
    ]

  -- The loop of cleanupSockets.
  unfoldable pub close_clients : List ClientInfo → net.World → net.World
  close_clients [] w = w
  close_clients (c ∷ cs) w = close_clients cs (close_socket c.socket w)

  unfoldable pub cleanup_sockets : Server → net.World → Server × net.World
  unfolding close_clients
  cleanup_sockets s w =
      let closed = close_clients s.clients w in
      elim s.listen_socket [
        | none ↦ (record s { clients = [] }, closed)
        | some n ↦ (record s { clients = []; listen_socket = none }, close_socket n closed)
      ]

  -- The loop of broadcastToClients; a failed send is only logged.
  unfoldable pub broadcast_loop : Bytes → Option ℕ → List ClientInfo → net.World → net.World
  broadcast_loop message excluded [] w = w
  broadcast_loop message excluded (c ∷ cs) w =
      broadcast_loop message excluded cs
        (if is_excluded excluded c.socket then w else (net.send (some c.socket) message w).1)

  unfoldable pub broadcast_to_clients : Bytes → Option ℕ → Server → net.World → net.World
  unfolding broadcast_loop
  broadcast_to_clients message excluded s w = broadcast_loop message excluded s.clients w

  -- One round of the loop of acceptClients, with the thread's reference if one is started.
  unfoldable pub accept_round : Server → net.World → Server × Option Ref × net.World
  accept_round s w =
      let (accepted, w1) = net.accept s.listen_socket w in
      elim accepted [
        | none ↦ (s, none, w1)
        | some (n, ip, port) ↦
            let w2 = set_non_blocking net (some n) w1 in
            let (s', r) =
              emplace_back
                (record {
                  name = [];
                  socket = n;
                  ip = ip;
                  port = port;
                  connection_time = net.now w2;
                })
                s in
            (s', some r, w2)
      ]
