-- ===== src/Server/Clients/References.antt =====
-- The references that the threads of handleClient hold into the vector of clients.
use cs2remote_console.Base.{
  ltb, if◌then◌else◌, length, get_elem?, All-get_elem?, ℕ, zero, suc, ◌≤◌, ◌<◌, ◌≡◌, refl, ◌≢◌,
  none, some, List, [], ◌∷◌, ◌++◌, arith,
}
use cs2remote_console.Net.{Sockets}
use cs2remote_console.Server.Clients.Registry.{Distinct, find-get_elem?}
use cs2remote_console.Server.Clients.{
  ClientInfo, Server, Ref, deref, emplace_back, erase_socket, remove_client,
}

get_elem?-append :
    {A : Type 0} (xs ys : List A) (i : ℕ) → i < length xs → get_elem? (xs ++ ys) i ≡ get_elem? xs i
get_elem?-append [] ys i h = absurd (omega arith)
get_elem?-append (x ∷ xs) ys zero h = refl
get_elem?-append (x ∷ xs) ys (suc i) h = get_elem?-append xs ys i (omega arith)

get_elem?-append_last :
    {A : Type 0} (xs : List A) (a : A) → get_elem? (xs ++ a ∷ []) (length xs) ≡ some a
get_elem?-append_last [] a = refl
get_elem?-append_last (x ∷ xs) a = get_elem?-append_last xs a

get_elem?-lt : {A : Type 0} (xs : List A) (i : ℕ) (a : A) → get_elem? xs i ≡ some a → i < length xs
get_elem?-lt [] i a e = cc
get_elem?-lt (x ∷ xs) zero a e = omega arith
get_elem?-lt (x ∷ xs) (suc i) a e = omega (arith, get_elem?-lt xs i a e)

-- The reference that a new thread gets is to its own client. A reference that is good before stays
-- good, and to the same client, if the vector has room; if it is full, it dangles.
pub emplace_back_references :
    (c client : ClientInfo) (r : Ref) (s : Server)
    → deref r s ≡ some client
    → (deref (emplace_back c s).1 (emplace_back c s).0 ≡ some c)
      × (length s.clients < s.capacity → deref r (emplace_back c s).0 ≡ some client)
      × (s.capacity ≤ length s.clients → deref r (emplace_back c s).0 ≡ none)
unfolding deref emplace_back
emplace_back_references c client r s e = (
  ground (arith, get_elem?-append_last s.clients c),
  λ room.
      ground
        (arith, get_elem?-lt s.clients r.index client, get_elem?-append s.clients (c ∷ []) r.index),
  λ full. ground arith,
)

-- Erasing the client at `i` leaves what stands before it and moves the rest one place forward.
get_elem?-erase :
    (i j : ℕ) (cs : List ClientInfo) (a : ClientInfo)
    → Distinct cs
    → get_elem? cs i ≡ some a
    → get_elem? (erase_socket a.socket cs) j
      ≡ (if ltb j i then get_elem? cs j else get_elem? cs (suc j))
unfolding erase_socket
get_elem?-erase i j [] a d e = cc
get_elem?-erase zero j (x ∷ cs) a d e = ground arith
get_elem?-erase (suc i) zero (x ∷ cs) a d e =
    ground (arith, All-get_elem? (λ (y : ClientInfo). y.socket ≢ x.socket) cs i a d.0 e)
get_elem?-erase (suc i) (suc j) (x ∷ cs) a d e = ground (
  arith,
  All-get_elem? (λ (y : ClientInfo). y.socket ≢ x.socket) cs i a d.0 e,
  get_elem?-erase i j cs a d.1 e,
)

-- The clients have distinct sockets, and removeClient is called with a good reference. After it, a
-- reference to a client before the removed one refers to what it did. Any other reference, the one
-- that it was called with among them, now refers to what stood one place behind, or to none.
pub remove_client_references :
    (net : Sockets) (r q : Ref) (s s' : Server) (w w' : net.World) (client : ClientInfo)
    → Distinct s.clients
    → deref r s ≡ some client
    → remove_client net r s w ≡ some (s', w')
    → deref q s'
      ≡ (if ltb q.index r.index then deref q s else deref (record q { index = suc q.index }) s)
unfolding remove_client deref
remove_client_references net r q s s' w w' client d e done = ground (
  arith,
  find-get_elem? r.index s.clients client d,
  get_elem?-erase r.index q.index s.clients client d,
)
