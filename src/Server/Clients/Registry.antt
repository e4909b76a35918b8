-- ===== src/Server/Clients/Registry.antt =====
-- The client list as a registry of distinct sockets: accept adds, removeClient takes one out,
-- cleanupSockets empties it, and a broadcast reaches each client once.
use cs2remote_console.Base.{
  ◌==◌, if◌then◌else◌, ==_iff, Bool-cases, Option-cases, is_some, get_elem?, All, All-get_elem?,
  Bytes, ℕ, zero, suc, ◌≡◌, refl, sym, ◌≢◌, inl, inr, Bool, false, not, ◌&&◌, ◌||◌, Option, none,
  some, List, [], ◌∷◌, ◌++◌, arith,
}
use cs2remote_console.Net.{Sockets}
use cs2remote_console.Server.Utils.{set_non_blocking}
use cs2remote_console.Server.Clients.{
  ClientInfo, Server, Ref, deref, emplace_back, find_socket, erase_socket, is_excluded,
  close_socket, remove_client, cleanup_sockets, broadcast_loop, broadcast_to_clients, accept_round,
}

-- No client in the list has the socket, and no two clients share one.
abbrev pub Absent : ℕ → List ClientInfo → Type 0
Absent n = All (λ c. c.socket ≢ n)

abbrev pub Distinct : List ClientInfo → Type 0
Distinct [] = Unit {0}
Distinct (c ∷ cs) = Absent c.socket cs × Distinct cs

Absent-append : (n : ℕ) (cs ds : List ClientInfo) → Absent n cs → Absent n ds → Absent n (cs ++ ds)
Absent-append n [] ds a b = b
Absent-append n (c ∷ cs) ds a b = (a.0, Absent-append n cs ds a.1 b)

Distinct-append :
    (cs : List ClientInfo) (c : ClientInfo)
    → Distinct cs
    → Absent c.socket cs
    → Distinct (cs ++ c ∷ [])
Distinct-append [] c d a = (tt, tt)
Distinct-append (x ∷ cs) c d a =
    (Absent-append x.socket cs (c ∷ []) d.0 ((λ e. a.0 (sym e)), tt), Distinct-append cs c d.1 a.1)

Absent-erase : (n m : ℕ) (cs : List ClientInfo) → Absent n cs → Absent n (erase_socket m cs)
unfolding erase_socket
Absent-erase n m [] a = tt
Absent-erase n m (c ∷ cs) a = ground (arith, Absent-erase n m cs a.1)

Distinct-erase : (m : ℕ) (cs : List ClientInfo) → Distinct cs → Distinct (erase_socket m cs)
unfolding erase_socket
Distinct-erase m [] d = tt
Distinct-erase m (c ∷ cs) d =
    ground (arith, Distinct-erase m cs d.1, Absent-erase c.socket m cs d.0)

pub erase-Absent : (m : ℕ) (cs : List ClientInfo) → Distinct cs → Absent m (erase_socket m cs)
unfolding erase_socket
erase-Absent m [] d = tt
erase-Absent m (c ∷ cs) d = elim (Bool-cases (c.socket == m)) [
  | inl same ↦ rw same (rw ((==_iff c.socket m).0 same) at d.0)
  | inr other ↦ rw other ((λ e. ground (arith, e)), erase-Absent m cs d.1)
]

pub find-erase_ne :
    (n m : ℕ) (cs : List ClientInfo) → n ≢ m → find_socket n (erase_socket m cs) ≡ find_socket n cs
unfolding find_socket erase_socket
find-erase_ne n m [] h = refl
find-erase_ne n m (c ∷ cs) h = ground (arith, find-erase_ne n m cs h)

pub deref-get_elem? :
    (r : Ref) (s : Server) (c : ClientInfo)
    → deref r s ≡ some c
    → get_elem? s.clients r.index ≡ some c
unfolding deref
deref-get_elem? r s c e = ground arith

pub find-get_elem? :
    (i : ℕ) (cs : List ClientInfo) (c : ClientInfo)
    → Distinct cs
    → get_elem? cs i ≡ some c
    → find_socket c.socket cs ≡ some c
unfolding find_socket
find-get_elem? i [] c d e = cc
find-get_elem? zero (x ∷ cs) c d e = ground arith
find-get_elem? (suc i) (x ∷ cs) c d e = ground (
  arith,
  find-get_elem? i cs c d.1 e,
  All-get_elem? (λ (y : ClientInfo). y.socket ≢ x.socket) cs i c d.0 e,
)

-- removeClient, called with a valid reference in a list of distinct sockets, shuts down and closes
-- that client's socket, once. No client has the socket afterwards, every other client is found as
-- before, and the sockets are still distinct.
pub remove_client_removes :
    (net : Sockets) (r : Ref) (s : Server) (w : net.World) (client : ClientInfo)
    → Distinct s.clients
    → deref r s ≡ some client
    → (s' : Server) × (remove_client net r s w ≡ some (s', close_socket net client.socket w))
      × Absent client.socket s'.clients
      × ((n : ℕ) → n ≢ client.socket → find_socket n s'.clients ≡ find_socket n s.clients)
      × Distinct s'.clients
unfolding remove_client
remove_client_removes net r s w client d e =
    let found : find_socket client.socket s.clients ≡ some client =
      find-get_elem? r.index s.clients client d (deref-get_elem? r s client e) in
    (
      record s { clients = erase_socket client.socket s.clients },
      ground arith,
      erase-Absent client.socket s.clients d,
      λ n h. find-erase_ne n client.socket s.clients h,
      Distinct-erase client.socket s.clients d,
    )

-- A round of acceptClients keeps the sockets distinct, if the system gives a socket that no client
-- has. It adds the new client at the end, under an empty name, and nothing else.
accept_round_adds :
    (net : Sockets) (s : Server) (w : net.World) (n port : ℕ) (ip : Bytes)
    → (net.accept s.listen_socket w).0 ≡ some (n, ip, port)
    → Distinct s.clients
    → Absent n s.clients
    → (c : ClientInfo) × ((accept_round net s w).0.clients ≡ s.clients ++ c ∷ [])
      × (c.socket ≡ n)
      × (c.name ≡ [])
      × Distinct (accept_round net s w).0.clients
unfolding accept_round emplace_back
accept_round_adds net s w n port ip e d a =
    let c : ClientInfo = record {
      name = [];
      socket = n;
      ip = ip;
      port = port;
      connection_time = net.now (set_non_blocking net (some n) (net.accept s.listen_socket w).1);
    } in
    let added : (accept_round net s w).0.clients ≡ s.clients ++ c ∷ [] = ground arith in
    (c, added, refl, refl, rw added (Distinct-append s.clients c d a))

-- cleanupSockets closes every client's socket in order, then the listening socket; a second call
-- does nothing at all.
cleanup_sockets_twice :
    (net : Sockets) (s : Server) (w v : net.World)
    → let r = cleanup_sockets net s w in
      (r.0.clients ≡ []) × (r.0.listen_socket ≡ none) × (cleanup_sockets net r.0 v ≡ (r.0, v))
unfolding cleanup_sockets
cleanup_sockets_twice net s w v = elim (Option-cases s.listen_socket) [
  | inl closed ↦ (ground arith, ground arith, ground arith)
  | inr (n, e) ↦ (ground arith, ground arith, ground arith)
]

abbrev pub is_member : ℕ → List ℕ → Bool
is_member n [] = false
is_member n (m ∷ ms) = m == n || is_member n ms

-- The sockets of a list of clients, without the excluded one.
unfoldable pub recipients : Option ℕ → List ClientInfo → List ℕ
recipients excluded [] = []
recipients excluded (c ∷ cs) =
    if is_excluded excluded c.socket
    then recipients excluded cs
    else c.socket ∷ recipients excluded cs

unfoldable pub send_each : (net : Sockets) → Bytes → List ℕ → net.World → net.World
send_each net message [] w = w
send_each net message (n ∷ ns) w = send_each net message ns (net.send (some n) message w).1

broadcast_loop-send_each :
    (net : Sockets) (message : Bytes) (excluded : Option ℕ) (cs : List ClientInfo) (w : net.World)
    → broadcast_loop net message excluded cs w ≡ send_each net message (recipients excluded cs) w
unfolding broadcast_loop send_each recipients
broadcast_loop-send_each net message excluded [] w = refl
broadcast_loop-send_each net message excluded (c ∷ cs) w =
    elim (Bool-cases (is_excluded excluded c.socket)) [
      | inl skipped ↦ rw skipped (broadcast_loop-send_each net message excluded cs w)
      | inr sent ↦
          rw sent (
            broadcast_loop-send_each net message excluded cs (net.send (some c.socket) message w).1)
    ]

-- A broadcast sends the message once to each client in order, but to the excluded one, and does
-- nothing else.
pub broadcast_to_clients-send_each :
    (net : Sockets) (message : Bytes) (excluded : Option ℕ) (s : Server) (w : net.World)
    → broadcast_to_clients net message excluded s w
      ≡ send_each net message (recipients excluded s.clients) w
unfolding broadcast_to_clients
broadcast_to_clients-send_each net message excluded s w =
    broadcast_loop-send_each net message excluded s.clients w

-- A socket is a recipient exactly when a client has it and it is not the excluded one.
recipients_iff :
    (excluded n : ℕ) (cs : List ClientInfo)
    → is_member n (recipients (some excluded) cs)
      ≡ (is_some (find_socket n cs) && not (n == excluded))
unfolding recipients is_excluded find_socket
recipients_iff excluded n [] = refl
recipients_iff excluded n (c ∷ cs) = ground (arith, recipients_iff excluded n cs)
