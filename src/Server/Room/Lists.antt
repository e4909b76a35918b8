-- ===== src/Server/Room/Lists.antt =====
-- The operations on the client list as events in the room.
use cs2remote_console.Base.{
  ◌==◌, if◌then◌else◌, ==_iff, Bool-cases, get_elem?, set, All-get_elem?, Bytes, ℕ, zero, suc, ◌≤◌,
  ◌≡◌, refl, ap, fun_ext, ◌≢◌, inl, inr, none, some, List, [], ◌∷◌, ◌++◌, arith,
}
use cs2remote_console.Server.Clients.{ClientInfo, find_socket, erase_socket}
use cs2remote_console.Server.Clients.Registry.{
  Absent, Distinct, find-get_elem?, find-erase_ne, erase-Absent,
}
use cs2remote_console.Server.Threads.Accounts.{count}
use cs2remote_console.Server.Room.{update, name_in, room}

-- A socket that is counted nowhere is absent, and where none is counted twice they are distinct.
Absent-count : (n : ℕ) (cs : List ClientInfo) → count n cs ≡ 0 → Absent n cs
Absent-count n [] e = tt
Absent-count n (c ∷ cs) e =
    ((λ f. ground (arith, ==_iff c.socket n)), Absent-count n cs (ground arith))

pub Distinct-count : (cs : List ClientInfo) → ((n : ℕ) → count n cs ≤ 1) → Distinct cs
Distinct-count [] h = tt
Distinct-count (c ∷ cs) h = (
  Absent-count c.socket cs (ground (arith, h c.socket)),
  Distinct-count cs (λ n. ground (arith, h n)),
)

find-Absent : (n : ℕ) (cs : List ClientInfo) → Absent n cs → find_socket n cs ≡ none
unfolding find_socket
find-Absent n [] a = refl
find-Absent n (c ∷ cs) a = ground (arith, ==_iff c.socket n, find-Absent n cs a.1)

pub room-absent : (n : ℕ) (cs : List ClientInfo) → count n cs ≡ 0 → room cs n ≡ none
unfolding room
room-absent n cs e = ap name_in (find-Absent n cs (Absent-count n cs e))

pub room-member :
    (i : ℕ) (cs : List ClientInfo) (c : ClientInfo)
    → Distinct cs
    → get_elem? cs i ≡ some c
    → room cs c.socket ≡ some c.name
unfolding room
room-member i cs c d e = ap name_in (find-get_elem? i cs c d e)

pub room-append :
    (cs : List ClientInfo) (c : ClientInfo)
    → count c.socket cs ≡ 0
    → room (cs ++ c ∷ []) ≡ update c.socket (some c.name) (room cs)
unfolding room find_socket
room-append cs c e = fun_ext (λ m. at cs m e)
  where
    at :
        (cs : List ClientInfo) (m : ℕ)
        → count c.socket cs ≡ 0
        → name_in (find_socket m (cs ++ c ∷ []))
          ≡ (if m == c.socket then some c.name else name_in (find_socket m cs))
    at [] m e = ground arith
    at (x ∷ cs) m e = ground (arith, at cs m)

pub room-erase :
    (n : ℕ) (cs : List ClientInfo)
    → Distinct cs
    → room (erase_socket n cs) ≡ update n none (room cs)
unfolding room
room-erase n cs d = fun_ext (λ m. elim (Bool-cases (m == n)) [
  | inl same ↦
      rw ((==_iff m n).0 same)
        (ground (arith, find-Absent n (erase_socket n cs) (erase-Absent n cs d)))
  | inr other ↦ ground (arith, find-erase_ne m n cs (λ f. ground (arith, ==_iff m n)))
])

pub room-set :
    (i : ℕ) (cs : List ClientInfo) (c : ClientInfo) (name : Bytes)
    → Distinct cs
    → get_elem? cs i ≡ some c
    → room (set cs i (record c { name = name })) ≡ update c.socket (some name) (room cs)
unfolding room find_socket
room-set i cs c name d e = fun_ext (λ m. at i cs m d e)
  where
    at :
        (i : ℕ) (cs : List ClientInfo) (m : ℕ)
        → Distinct cs
        → get_elem? cs i ≡ some c
        → name_in (find_socket m (set cs i (record c { name = name })))
          ≡ (if m == c.socket then some name else name_in (find_socket m cs))
    at i [] m d e = cc
    at zero (x ∷ cs) m d e = ground arith
    at (suc i) (x ∷ cs) m d e = ground (
      arith,
      at i cs m d.1 e,
      All-get_elem? (λ (y : ClientInfo). y.socket ≢ x.socket) cs i c d.0 e,
    )
