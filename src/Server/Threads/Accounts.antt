-- ===== src/Server/Threads/Accounts.antt =====
-- The descriptors of the server's sockets, through every interleaving of its threads: which are
-- open, and which of them the server holds.
use cs2remote_console.Base.{
  ◌==◌, if◌then◌else◌, ==_iff, Bool-cases, Option-cases, get_elem?, set, Bytes, ℕ, zero, suc, ◌+◌,
  ◌≡◌, refl, inl, inr, Bool, true, false, not, ◌&&◌, ◌||◌, Option, none, some, List, [], ◌∷◌, ◌++◌,
  arith,
}
use Prim.Native.Nat.{bit_or}
use cs2remote_console.Net.{Sockets, o_nonblock}
use cs2remote_console.Server.Utils.{set_non_blocking}
use cs2remote_console.Server.Clients.{
  ClientInfo, Server, Ref, deref, set_name, find_socket, erase_socket, close_socket, remove_client,
  close_clients, cleanup_sockets, broadcast_loop, broadcast_to_clients,
}
use cs2remote_console.Server.Handlers.{
  split_colon, apply_command, handle_client_message, user_input_round, join_message,
}
use cs2remote_console.Server.Threads.{AcceptPoint, awaiting, accepted, accept_ended}

-- What the system promises of descriptors: accept gives one that was not open and opens it, close
-- ends one, and the other calls open and end none.
pub record Descriptors (net : Sockets) : Type 0 where
  pub is_open : net.World → ℕ → Bool
  pub recv_keeps :
      (s : Option ℕ) (k : ℕ) (w : net.World) (n : ℕ) → is_open (net.recv s k w).1 n ≡ is_open w n
  pub send_keeps :
      (s : Option ℕ) (text : Bytes) (w : net.World) (n : ℕ)
      → is_open (net.send s text w).1 n ≡ is_open w n
  pub shutdown_keeps :
      (s : Option ℕ) (w : net.World) (n : ℕ) → is_open (net.shutdown s w) n ≡ is_open w n
  pub get_flags_keeps :
      (s : Option ℕ) (w : net.World) (n : ℕ) → is_open (net.get_flags s w).1 n ≡ is_open w n
  pub set_flags_keeps :
      (s : Option ℕ) (flags : ℕ) (w : net.World) (n : ℕ)
      → is_open (net.set_flags s flags w).1 n ≡ is_open w n
  pub accept_fails :
      (s : Option ℕ) (w : net.World)
      → (net.accept s w).0 ≡ none
      → (n : ℕ) → is_open (net.accept s w).1 n ≡ is_open w n
  pub accept_is_new :
      (s : Option ℕ) (w : net.World) (m : ℕ) (ip : Bytes) (port : ℕ)
      → (net.accept s w).0 ≡ some (m, ip, port)
      → (is_open w m ≡ false) × ((n : ℕ) → is_open (net.accept s w).1 n ≡ (m == n || is_open w n))
  pub close_ends :
      (m : ℕ) (w : net.World) (n : ℕ)
      → is_open (net.close (some m) w) n ≡ (not (m == n) && is_open w n)

-- How often the server holds a descriptor: as its listening socket, in the accept thread, in the list.
abbrev pub count : ℕ → List ClientInfo → ℕ
count n [] = 0
count n (c ∷ cs) = (if c.socket == n then 1 else 0) + count n cs

abbrev pub listens : ℕ → Option ℕ → ℕ
listens n none = 0
listens n (some m) = if m == n then 1 else 0

abbrev pub pending : ℕ → AcceptPoint → ℕ
pending n awaiting = 0
pending n (accepted m ip port) = if m == n then 1 else 0
pending n accept_ended = 0

abbrev pub held : ℕ → AcceptPoint → Server → ℕ
held n a s = listens n s.listen_socket + pending n a + count n s.clients

abbrev pub bit : Bool → ℕ
bit false = 0
bit true = 1

pub count-append :
    (n : ℕ) (cs : List ClientInfo) (c : ClientInfo)
    → count n (cs ++ c ∷ []) ≡ count n cs + (if c.socket == n then 1 else 0)
count-append n [] c = omega arith
count-append n (x ∷ cs) c = omega (arith, count-append n cs c)

pub count-erase :
    (n m : ℕ) (cs : List ClientInfo) (c : ClientInfo)
    → find_socket m cs ≡ some c
    → (c.socket ≡ m) × (count n (erase_socket m cs) + (if m == n then 1 else 0) ≡ count n cs)
unfolding find_socket erase_socket
count-erase n m [] c e = cc
count-erase n m (x ∷ cs) c e = elim (Bool-cases (x.socket == m)) [
  | inl found ↦ ground (arith, ==_iff x.socket m)
  | inr other ↦ let rest = count-erase n m cs c (ground arith) in ground arith
]

pub count-set :
    (n i : ℕ) (cs : List ClientInfo) (c d : ClientInfo)
    → get_elem? cs i ≡ some c
    → d.socket ≡ c.socket
    → count n (set cs i d) ≡ count n cs
count-set n i [] c d e h = refl
count-set n zero (x ∷ cs) c d e h = ground arith
count-set n (suc i) (x ∷ cs) c d e h = ground (arith, count-set n i cs c d)

module _ (net : Sockets) (d : Descriptors net) where
  open d use {is_open}

  broadcast_loop-keeps :
      (message : Bytes) (excluded : Option ℕ) (cs : List ClientInfo) (w : net.World) (n : ℕ)
      → is_open (broadcast_loop net message excluded cs w) n ≡ is_open w n
  unfolding broadcast_loop
  broadcast_loop-keeps message excluded [] w n = refl
  broadcast_loop-keeps message excluded (c ∷ cs) w n = ground (
    arith,
    d.send_keeps (some c.socket) message w n,
    broadcast_loop-keeps message excluded cs w n,
    broadcast_loop-keeps message excluded cs (net.send (some c.socket) message w).1 n,
  )

  close_socket-ends :
      (m : ℕ) (w : net.World) (n : ℕ)
      → is_open (close_socket net m w) n ≡ (not (m == n) && is_open w n)
  close_socket-ends m w n =
      ground (arith, d.close_ends m (net.shutdown (some m) w) n, d.shutdown_keeps (some m) w n)

  pub set_non_blocking-keeps :
      (s : Option ℕ) (w : net.World) (n : ℕ) → is_open (set_non_blocking net s w) n ≡ is_open w n
  unfolding set_non_blocking
  set_non_blocking-keeps s w n = elim (Option-cases (net.get_flags s w).0) [
    | inl failed ↦ ground (arith, d.get_flags_keeps s w n)
    | inr (f, got) ↦
        let same = d.set_flags_keeps s (bit_or f o_nonblock) (net.get_flags s w).1 n in
        ground (arith, d.get_flags_keeps s w n)
  ]

  close_clients-ends :
      (cs : List ClientInfo) (w : net.World) (n : ℕ)
      → is_open (close_clients net cs w) n ≡ (count n cs == 0 && is_open w n)
  unfolding close_clients
  close_clients-ends [] w n = refl
  close_clients-ends (c ∷ cs) w n =
      let rest = close_clients-ends cs (close_socket net c.socket w) n in
      let first_closed = close_socket-ends c.socket w n in ground arith

  -- What an operation of the server keeps: a descriptor is open as often as `base` says and the server
  -- holds it.
  abbrev pub IsAccounted : ℕ → Bool → AcceptPoint → Server → net.World → Type 0
  IsAccounted n base a s w = bit (is_open w n) ≡ bit base + held n a s

  module _ (n : ℕ) (base : Bool) (a : AcceptPoint) (s : Server) (w : net.World) where
    pub cleanup_sockets-IsAccounted :
        IsAccounted n base a s w
        → IsAccounted n base a (cleanup_sockets net s w).0 (cleanup_sockets net s w).1
    unfolding cleanup_sockets
    cleanup_sockets-IsAccounted acc =
        let clients_closed = close_clients-ends s.clients w n in
        elim (Option-cases s.listen_socket) [
          | inl none_left ↦ ground (arith, acc)
          | inr (m, listening) ↦
              let last_closed = close_socket-ends m (close_clients net s.clients w) n in
              ground (arith, acc)
        ]

    pub remove_client-IsAccounted :
        (r : Ref) (s' : Server) (w' : net.World)
        → remove_client net r s w ≡ some (s', w')
        → IsAccounted n base a s w
        → IsAccounted n base a s' w'
    unfolding remove_client
    remove_client-IsAccounted r s' w' e acc = elim (Option-cases (deref r s)) [
      | inl dangling ↦ absurd (ground arith)
      | inr (client, got) ↦ elim (Option-cases (find_socket client.socket s.clients)) [
        | inl missing ↦ ground (arith, acc)
        | inr (c, found) ↦
            let counted = count-erase n client.socket s.clients c found in
            let closed = close_socket-ends c.socket w n in ground (arith, acc)
      ]
    ]

    pub handle_client_message-IsAccounted :
        (r : Ref) (message : Bytes) (s' : Server) (w' : net.World)
        → handle_client_message net r message s w ≡ some (s', w')
        → IsAccounted n base a s w
        → IsAccounted n base a s' w'
    unfolding handle_client_message apply_command set_name broadcast_to_clients deref
    handle_client_message-IsAccounted r message s' w' e acc = elim (Option-cases (deref r s)) [
      | inl dangling ↦ absurd (ground arith)
      | inr (client, got) ↦ elim (Option-cases (split_colon message)) [
        | inl no_colon ↦ ground (arith, acc)
        | inr ((command, content), parts) ↦
            let named : ClientInfo = record client { name = content } in
            let counted = count-set n r.index s.clients client named (ground arith) refl in
            let kept =
              broadcast_loop-keeps (join_message content) (some client.socket)
                (set s.clients r.index named) w n in
            ground (arith, acc)
      ]
    ]

    pub user_input_round-IsAccounted :
        (line : Option Bytes)
        → IsAccounted n base a s w
        → IsAccounted n base a (user_input_round net line s w).1 (user_input_round net line s w).2
    unfolding user_input_round broadcast_to_clients
    user_input_round-IsAccounted none acc = acc
    user_input_round-IsAccounted (some input) acc =
        ground (arith, acc, broadcast_loop-keeps input none s.clients w n)
