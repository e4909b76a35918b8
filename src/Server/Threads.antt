-- ===== src/Server/Threads.antt =====
-- Server::run with its threads: the operator in the main thread, acceptClients, and a detached
-- handleClient for each client. They interleave in any order; a step is what a thread does under
-- the lock, or one call of recv or accept with the tests around it. Sleeps are left out.
pub mod Accounts
pub mod Ledger
pub mod Stdin
pub mod Settling
pub mod Shutdown
pub mod Ending
use cs2remote_console.Base.{
  if◌then◌else◌, ◌>>=◌, get_elem?, set, Bytes, ℕ, ◌≡◌, not, Option, none, some, List, [], ◌∷◌, ◌++◌,
}
use cs2remote_console.Net.{Sockets}
use cs2remote_console.Server.Utils.{set_non_blocking}
use cs2remote_console.VConsole.Memory.{c_string}
use cs2remote_console.Server.Clients.{
  Server, Ref, deref, emplace_back, remove_client, cleanup_sockets,
}
use cs2remote_console.Server.Options.{signal_handler}
use cs2remote_console.Server.Handlers.{handle_client_message, user_input_round}

-- Where acceptClients stands: at the test of its loop, behind accept with a new socket, its address
-- and its port, at its end.
pub data AcceptPoint : Type 0 where
  awaiting : AcceptPoint
  accepted : ℕ → Bytes → ℕ → AcceptPoint
  accept_ended : AcceptPoint

-- Where a handleClient stands: at the test of its loop, with a received text, behind the loop, at
-- its end.
pub data HandlerPoint : Type 0 where
  receiving : HandlerPoint
  handling : Bytes → HandlerPoint
  behind_loop : HandlerPoint
  handler_ended : HandlerPoint

pub record Handler : Type 0 where
  pub client : Ref
  pub point : HandlerPoint

-- Where the main thread stands: in userInputHandler, at cleanupSockets, at the join, behind run, and
-- behind the destructor of the server.
pub data OperatorPoint : Type 0 where
  reading : OperatorPoint
  cleaning : OperatorPoint
  joining_accept : OperatorPoint
  run_ended : OperatorPoint
  destroyed : OperatorPoint

pub record System : Type 0 where
  pub server : Server
  pub accepting : AcceptPoint
  pub handlers : List Handler
  pub operator : OperatorPoint

-- Server::run, when it has started the accept thread.
unfoldable pub run : Server → System
run s = record { server = s; accepting = awaiting; handlers = []; operator = reading }

-- What a thread does when it is its turn: a step, nothing as it waits or has ended, or a use of a
-- dangling reference.
pub data Turn {ℓ} (A : Type ℓ) : Type ℓ where
  moves : A → Turn A
  waits : Turn A
  faults : Turn A

abbrev pub or_fault {ℓ} : {A : Type ℓ} → Option A → Turn A
or_fault none = faults
or_fault (some a) = moves a

module _ (net : Sockets) where
  unfoldable pub accept_at : AcceptPoint → System → net.World → Turn (System × net.World)
  accept_at awaiting y w =
      let (found, w1) = net.accept y.server.listen_socket w in
      if not y.server.running
      then moves (record y { accepting = accept_ended }, w)
      else elim found [
        | none ↦ moves (y, w1)
        | some (n, ip, port) ↦
            moves (record y { accepting = accepted n ip port }, set_non_blocking net (some n) w1)
      ]
  accept_at (accepted n ip port) y w =
      let (s, r) =
        emplace_back
          (record { name = []; socket = n; ip = ip; port = port; connection_time = net.now w })
          y.server in
      moves (
        record y {
          server = s;
          accepting = awaiting;
          handlers = y.handlers ++ record { client = r; point = receiving } ∷ [];
        },
        w,
      )
  accept_at accept_ended y w = waits

  unfoldable pub accept_step : System → net.World → Turn (System × net.World)
  unfolding accept_at
  accept_step y w = accept_at y.accepting y w

  -- Thread i goes to a point.
  abbrev pub goes_to : ℕ → Ref → HandlerPoint → System → System
  goes_to i r p y = record y { handlers = set y.handlers i (record { client = r; point = p }) }

  abbrev handled : ℕ → Ref → HandlerPoint → System → Server × net.World → System × net.World
  handled i r p y (s, w) = (record (goes_to i r p y) { server = s }, w)

  -- The recv of a round and the tests behind it.
  unfoldable pub receive : ℕ → Ref → System → net.World → Option (System × net.World)
  receive i r y w = do
    client ← deref r y.server
    let received = net.recv (some client.socket) 1023 w
    some (elim received.0 [
      | none ↦ (
        goes_to i r (if net.would_block received.1 then receiving else behind_loop) y,
        received.1,
      )
      | some [] ↦ (goes_to i r behind_loop y, received.1)
      | some (b ∷ bs) ↦ (goes_to i r (handling (b ∷ bs)) y, received.1)
    ])

  unfoldable pub handler_at :
      HandlerPoint → ℕ → Ref → System → net.World → Turn (System × net.World)
  unfolding receive
  handler_at receiving i r y w =
      if not y.server.running
      then moves (goes_to i r behind_loop y, w)
      else or_fault (receive i r y w)
  handler_at (handling text) i r y w = or_fault (do
    message ← c_string (text ++ 0 ∷ [])
    done ← handle_client_message net r message y.server w
    some (handled i r receiving y done))
  handler_at behind_loop i r y w =
      or_fault (do done ← remove_client net r y.server w; some (handled i r handler_ended y done))
  handler_at handler_ended i r y w = waits

  unfoldable pub handler_step : ℕ → System → net.World → Turn (System × net.World)
  unfolding handler_at
  handler_step i y w = elim (get_elem? y.handlers i) [
    | none ↦ waits
    | some h ↦ handler_at h.point i h.client y w
  ]

  -- The operator, whose getline gives `line`.
  unfoldable pub operator_at :
      OperatorPoint → Option Bytes → System → net.World → Turn (System × net.World)
  operator_at reading line y w =
      let (goes_on, s, w1) = user_input_round net line y.server w in
      if not y.server.running
      then moves (record y { operator = cleaning }, w)
      else moves (record y { server = s; operator = (if goes_on then reading else cleaning) }, w1)
  operator_at cleaning line y w =
      let (s, w1) = cleanup_sockets net y.server w in
      moves (record y { server = s; operator = joining_accept }, w1)
  operator_at joining_accept line y w = elim y.accepting [
    | accept_ended ↦ moves (record y { operator = run_ended }, w)
    | _ ↦ waits
  ]
  operator_at run_ended line y w =
      let (s, w1) = cleanup_sockets net y.server w in
      moves (record y { server = s; operator = destroyed }, w1)
  operator_at destroyed line y w = waits

  unfoldable pub operator_step : Option Bytes → System → net.World → Turn (System × net.World)
  unfolding operator_at
  operator_step line y w = operator_at y.operator line y w

  pub data Step (s t : System × net.World) : Type 0 where
    by_accept : accept_step s.0 s.1 ≡ moves t → Step s t
    by_handler : (i : ℕ) → handler_step i s.0 s.1 ≡ moves t → Step s t
    by_operator : (line : Option Bytes) → operator_step line s.0 s.1 ≡ moves t → Step s t
    interrupt :
        (let (server, w) = signal_handler net s.0.server s.1 in
          t ≡ (record s.0 { server = server }, w))
        → Step s t

  pub data Reach (s : System × net.World) : System × net.World → Type 0 where
    here : Reach s s
    next : (t u : System × net.World) → Reach s t → Step t u → Reach s u
