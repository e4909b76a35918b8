-- ===== src/Server/Handlers/Names.antt =====
-- A player name on its way: a message "PLAYERNAME:" and the name, received by handleClient.
use cs2remote_console.Base.{
  ◌==◌, if◌then◌else◌, length, get_elem?, set, Bytes, codes, eqb, Lacks, split_at-append, ℕ, zero,
  suc, ◌<◌, ◌≡◌, refl, true, some, List, [], ◌∷◌, ◌++◌, arith,
}
use cs2remote_console.Net.{Sockets}
use cs2remote_console.VConsole.Memory.{c_string}
use cs2remote_console.VConsole.Memory.Reads.{c_string-append}
use cs2remote_console.Server.Clients.{ClientInfo, Server, Ref, deref, set_name}
use cs2remote_console.Server.Clients.Registry.{
  recipients, send_each, broadcast_to_clients-send_each,
}
use cs2remote_console.Server.Handlers.{
  split_colon, join_message, handle_client_message, handle_client_round,
}

Lacks-append : (b : ℕ) (xs ys : Bytes) → Lacks b xs → Lacks b ys → Lacks b (xs ++ ys)
Lacks-append b [] ys l m = m
Lacks-append b (x ∷ xs) ys l m = (l.0, Lacks-append b xs ys l.1 m)

-- The first colon splits, whatever the text behind it holds.
split_colon-append :
    (command content : Bytes)
    → Lacks b':' command
    → split_colon (command ++ b':' ∷ content) ≡ some (command, content)
unfolding split_colon
split_colon-append command content l = split_at-append b':' command content l

get_elem?-set :
    {A : Type 0} (xs : List A) (i j : ℕ) (a : A)
    → i < length xs
    → get_elem? (set xs i a) j ≡ (if j == i then some a else get_elem? xs j)
get_elem?-set [] i j a h = absurd (omega arith)
get_elem?-set (x ∷ xs) zero zero a h = refl
get_elem?-set (x ∷ xs) zero (suc j) a h = ground arith
get_elem?-set (x ∷ xs) (suc i) zero a h = ground arith
get_elem?-set (x ∷ xs) (suc i) (suc j) a h = ground (arith, get_elem?-set xs i j a)

get_elem?-lt : {A : Type 0} (xs : List A) (i : ℕ) (a : A) → get_elem? xs i ≡ some a → i < length xs
get_elem?-lt [] i a e = cc
get_elem?-lt (x ∷ xs) zero a e = omega arith
get_elem?-lt (x ∷ xs) (suc i) a e = omega (arith, get_elem?-lt xs i a e)

-- Where each reference leads after a name was set through one of them.
deref-set_name :
    (r q : Ref) (s : Server) (client : ClientInfo) (name : Bytes)
    → deref r s ≡ some client
    → q.block ≡ r.block
    → deref q (set_name name client r.index s)
      ≡ (if q.index == r.index then some (record client { name = name }) else deref q s)
unfolding deref set_name
deref-set_name r q s client name e b = ground (
  arith,
  get_elem?-set s.clients r.index q.index (record client { name = name }),
  get_elem?-lt s.clients r.index client,
)

-- A name without a NUL byte that arrives whole behind "PLAYERNAME:" becomes the sender's name, byte
-- for byte, also where it holds colons. Every other client keeps its name. The joining message goes
-- once to each client but the sender, and the loop of the sender's thread goes on.
pub player_name_received :
    (net : Sockets) (r : Ref) (s : Server) (w w1 : net.World) (client : ClientInfo) (name : Bytes)
    → deref r s ≡ some client
    → Lacks 0 name
    → net.recv (some client.socket) 1023 w ≡ (some (codes "PLAYERNAME:" ++ name), w1)
    → (s' : Server) × (handle_client_round net r s w
        ≡ some (
          true,
          s',
          send_each net (join_message name) (recipients (some client.socket) s'.clients) w1,
        ))
      × ((q : Ref)
          → q.block ≡ r.block
          → deref q s'
            ≡ (if q.index == r.index then some (record client { name = name }) else deref q s))
unfolding handle_client_round handle_client_message eqb
player_name_received net r s w w1 client name e l got =
    let read : c_string ((codes "PLAYERNAME:" ++ name) ++ 0 ∷ [])
        ≡ some (codes "PLAYERNAME:" ++ name) =
      c_string-append (codes "PLAYERNAME:" ++ name) []
        (Lacks-append 0 (codes "PLAYERNAME:") name (omega arith) l) in
    let parts : split_colon (codes "PLAYERNAME:" ++ name) ≡ some (codes "PLAYERNAME", name) =
      split_colon-append (codes "PLAYERNAME") name (omega arith) in
    (
      set_name name client r.index s,
      ground (
        arith,
        read,
        parts,
        got,
        broadcast_to_clients-send_each net (join_message name) (some client.socket)
            (set_name name client r.index s) w1,
      ),
      λ q b. deref-set_name r q s client name e b,
    )
