-- ===== src/Server/Room.antt =====
-- What the server promises: a room of members, each with a socket and a name. The client list of
-- server.cpp holds it in some order, with addresses and times, and in threads that come and go.
pub mod Lists
pub mod Refines
use cs2remote_console.Base.{
  ◌==◌, if◌then◌else◌, is_some, get_elem?, Bytes, codes, ℕ, ◌≡◌, ◌⊎◌, Bool, true, not, Option, none,
  some, List, [], ◌∷◌, ◌++◌,
}
use cs2remote_console.Net.{Sockets}
use cs2remote_console.VConsole.Memory.{c_string}
use cs2remote_console.Server.Clients.{ClientInfo, deref, find_socket}
use cs2remote_console.Server.Handlers.{split_colon}
use cs2remote_console.Server.Threads.{
  accepted, handling, behind_loop, Handler, cleaning, run_ended, System, Step, by_accept,
  by_handler, by_operator,
}

-- The name under each socket, `none` where nobody is.
abbrev pub Room : Type 0
Room = ℕ → Option Bytes

abbrev pub nobody : Room
nobody n = none

abbrev pub update : ℕ → Option Bytes → Room → Room
update n name f m = if m == n then name else f m

pub data Event : Type 0 where
  joined : ℕ → Event
  renamed : ℕ → Bytes → Event
  left : ℕ → Event
  closed : Event

unfoldable pub happen : Event → Room → Room
happen (joined n) f = update n (some []) f
happen (renamed n name) f = update n (some name) f
happen (left n) f = update n none f
happen closed f = nobody

-- Who joins was not there; who gets a name or leaves was.
unfoldable pub is_allowed : Event → Room → Bool
is_allowed (joined n) f = not (is_some (f n))
is_allowed (renamed n name) f = is_some (f n)
is_allowed (left n) f = is_some (f n)
is_allowed closed f = true

-- What gives rise to an event: a step of the accept thread with a socket that it has accepted, one of
-- a client's thread with a text that splits into PLAYERNAME and the name, or behind its loop, one of
-- the operator at one of the two clean-ups. A client's thread acts on the client that its reference
-- leads to.
abbrev pub Cause : (net : Sockets) (s t : System × net.World) → Step net s t → Event → Type 0
Cause net s t (by_accept e) (joined n) =
    (ip : Bytes) × (port : ℕ) × (s.0.accepting ≡ accepted n ip port)
Cause net s t (by_handler i e) (renamed n name) =
    (h : Handler) × (text : Bytes) × (message : Bytes) × (client : ClientInfo) × (get_elem?
        s.0.handlers i
      ≡ some h)
    × (h.point ≡ handling text)
    × (c_string (text ++ 0 ∷ []) ≡ some message)
    × (split_colon message ≡ some (codes "PLAYERNAME", name))
    × (deref h.client s.0.server ≡ some client)
    × (client.socket ≡ n)
Cause net s t (by_handler i e) (left n) =
    (h : Handler) × (client : ClientInfo) × (get_elem? s.0.handlers i ≡ some h)
    × (h.point ≡ behind_loop)
    × (deref h.client s.0.server ≡ some client)
    × (client.socket ≡ n)
Cause net s t (by_operator line e) closed = (s.0.operator ≡ cleaning) ⊎ (s.0.operator ≡ run_ended)
Cause net s t _ _ = ⊥

-- The room in the server's client list.
abbrev pub name_in : Option ClientInfo → Option Bytes
name_in none = none
name_in (some c) = some c.name

unfoldable pub room : List ClientInfo → Room
room cs n = name_in (find_socket n cs)

-- What a step does: nothing in the room, or one event that is allowed there and that this step is
-- the cause of.
abbrev pub Changes : (net : Sockets) (s t : System × net.World) → Step net s t → Type 0
Changes net s t step =
    (room t.0.server.clients ≡ room s.0.server.clients)
    ⊎ ((ev : Event) × Cause net s t step ev
        × (is_allowed ev (room s.0.server.clients) ≡ true)
        × (room t.0.server.clients ≡ happen ev (room s.0.server.clients)))
