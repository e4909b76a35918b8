-- ===== src/Server/Room/Refines.antt =====
-- The steps of the server's threads as events in the room, in any interleaving.
use cs2remote_console.Base.{
  Bool-cases, Option-cases, get_elem?, set, Bytes, codes, eqb, eqb_iff, ℕ, ◌≤◌, ◌≡◌, refl, ap, ◌∙◌,
  fun_ext, ◌≢◌, ◌⊎◌, inl, inr, true, Option, none, some, List, [], ◌∷◌, ◌++◌, arith,
}
use cs2remote_console.Net.{Sockets}
use cs2remote_console.VConsole.Memory.{c_string}
use cs2remote_console.Server.Clients.{
  ClientInfo, Server, Ref, deref, set_name, find_socket, erase_socket, emplace_back, remove_client,
  cleanup_sockets,
}
use cs2remote_console.Server.Clients.Registry.{Distinct, find-get_elem?, deref-get_elem?}
use cs2remote_console.Server.Handlers.{
  split_colon, apply_command, handle_client_message, user_input_round,
}
use cs2remote_console.Server.Options.{signal_handler}
use cs2remote_console.Server.Threads.{
  AcceptPoint, awaiting, accepted, accept_ended, HandlerPoint, receiving, handling, behind_loop,
  handler_ended, OperatorPoint, reading, cleaning, joining_accept, run_ended, destroyed, System,
  moves, run, Handler, accept_at, accept_step, receive, handler_at, handler_step, operator_at,
  operator_step, Step, by_accept, by_handler, by_operator, interrupt, Reach,
}
use cs2remote_console.Server.Threads.Accounts.{Descriptors, count, held}
use cs2remote_console.Server.Threads.Shutdown.{descriptors_accounted}
use cs2remote_console.Server.Room.{joined, renamed, left, closed, happen, is_allowed, room, Changes}
use cs2remote_console.Server.Room.Lists.{
  Distinct-count, room-absent, room-member, room-append, room-erase, room-set,
}

closed-room : (cs ds : List ClientInfo) → ds ≡ [] → room ds ≡ happen closed (room cs)
unfolding happen room find_socket
closed-room cs ds e = fun_ext (λ m. ground arith)

module _ (net : Sockets) where
  accept_at-Changes :
      (p : AcceptPoint) (y : System) (w : net.World) (t : System × net.World)
      → y.accepting ≡ p
      → ((n : ℕ) → held n p y.server ≤ 1)
      → accept_at net p y w ≡ moves t
      → (step : accept_step net y w ≡ moves t) → Changes net (y, w) t (by_accept step)
  unfolding accept_at emplace_back is_allowed happen
  accept_at-Changes awaiting y w t at h e step = inl (ap room (ground arith))
  accept_at-Changes (accepted m ip port) y w t at h e step =
      let c : ClientInfo = record {
        name = [];
        socket = m;
        ip = ip;
        port = port;
        connection_time = net.now w;
      } in
      let new : count m y.server.clients ≡ 0 = ground (arith, h m) in
      let alone : room y.server.clients m ≡ none = room-absent m y.server.clients new in
      let added : t.0.server.clients ≡ y.server.clients ++ c ∷ [] = ground arith in
      inr
        (joined m, (ip, port, at), ground arith, ap room added ∙ room-append y.server.clients c new)
  accept_at-Changes accept_ended y w t at h e step = cc

  module _ (r : Ref) (s s' : Server) (w w' : net.World) (d : Distinct s.clients) where
    handle_client_message-room :
        (message : Bytes)
        → handle_client_message net r message s w ≡ some (s', w')
        → (s' ≡ s)
          ⊎ ((client : ClientInfo) × (name : Bytes) × (deref r s ≡ some client)
              × (split_colon message ≡ some (codes "PLAYERNAME", name))
              × (room s.clients client.socket ≡ some client.name)
              × (room s'.clients ≡ happen (renamed client.socket name) (room s.clients)))
    unfolding handle_client_message apply_command set_name happen
    handle_client_message-room message e = elim (Option-cases (deref r s)) [
      | inl dangling ↦ absurd (ground arith)
      | inr (client, got) ↦ elim (Option-cases (split_colon message)) [
        | inl no_colon ↦ inl (ground arith)
        | inr ((command, name), parts) ↦ elim (Bool-cases (eqb command (codes "PLAYERNAME"))) [
          | inl is_name ↦
              (let found = deref-get_elem? r s client got in
                let named : s'.clients ≡ set s.clients r.index (record client { name = name }) =
                  ground arith in
                inr (
                  client,
                  name,
                  got,
                  parts
                      ∙ ap (λ (c : Bytes). some (c, name))
                          ((eqb_iff command (codes "PLAYERNAME")).0 is_name),
                  room-member r.index s.clients client d found,
                  ap room named ∙ room-set r.index s.clients client name d found,
                ))
          | inr other ↦ inl (ground arith)
        ]
      ]
    ]

    remove_client-room :
        remove_client net r s w ≡ some (s', w')
        → (client : ClientInfo) × (deref r s ≡ some client)
          × (room s.clients client.socket ≡ some client.name)
          × (room s'.clients ≡ happen (left client.socket) (room s.clients))
    unfolding remove_client happen
    remove_client-room e = elim (Option-cases (deref r s)) [
      | inl dangling ↦ absurd (ground arith)
      | inr (client, got) ↦
          let found = deref-get_elem? r s client got in
          let same = find-get_elem? r.index s.clients client d found in
          let gone : s'.clients ≡ erase_socket client.socket s.clients = ground arith in
          (
            client,
            got,
            room-member r.index s.clients client d found,
            ap room gone ∙ room-erase client.socket s.clients d,
          )
    ]

  receive_keeps :
      (i : ℕ) (r : Ref) (y : System) (w : net.World) (t : System × net.World)
      → receive net i r y w ≡ some t
      → t.0.server ≡ y.server
  unfolding receive
  receive_keeps i r y w t e = elim (Option-cases (deref r y.server)) [
    | inl dangling ↦ absurd (ground arith)
    | inr (client, got) ↦ elim (Option-cases (net.recv (some client.socket) 1023 w).0) [
      | inl failed ↦ ground arith
      | inr ([], over) ↦ ground arith
      | inr (b ∷ bs, text) ↦ ground arith
    ]
  ]

  handler_at-Changes :
      (p : HandlerPoint) (i : ℕ) (h : Handler) (y : System) (w : net.World) (t : System × net.World)
      → get_elem? y.handlers i ≡ some h
      → h.point ≡ p
      → Distinct y.server.clients
      → handler_at net p i h.client y w ≡ moves t
      → (step : handler_step net i y w ≡ moves t) → Changes net (y, w) t (by_handler i step)
  unfolding handler_at is_allowed
  handler_at-Changes receiving i h y w t found at d e step = elim (Bool-cases y.server.running) [
    | inr stopped ↦ inl (ap room (ground arith))
    | inl on ↦ elim (Option-cases (receive net i h.client y w)) [
      | inl dangling ↦ absurd (ground arith)
      | inr (u, done) ↦
          (let same = receive_keeps i h.client y w u done in inl (ap room (ground arith)))
    ]
  ]
  handler_at-Changes (handling text) i h y w t found at d e step =
      elim (Option-cases (c_string (text ++ 0 ∷ []))) [
        | inl unterminated ↦ absurd (ground arith)
        | inr (m, read) ↦ elim (Option-cases (handle_client_message net h.client m y.server w)) [
          | inl dangling ↦ absurd (ground arith)
          | inr (u, done) ↦
              (let same : t.0.server ≡ u.0 = ground arith in
                elim (handle_client_message-room h.client y.server u.0 w u.1 d m done) [
                  | inl kept ↦ inl (ap (λ (s : Server). room s.clients) (same ∙ kept))
                  | inr (client, name, leads, parts, there, named) ↦ inr (
                    renamed client.socket name,
                    (h, text, m, client, found, at, read, parts, leads, refl),
                    ground arith,
                    ap (λ (s : Server). room s.clients) same ∙ named,
                  )
                ])
        ]
      ]
  handler_at-Changes behind_loop i h y w t found at d e step =
      elim (Option-cases (remove_client net h.client y.server w)) [
        | inl dangling ↦ absurd (ground arith)
        | inr (u, done) ↦
            (let same : t.0.server ≡ u.0 = ground arith in
              let (client, leads, there, gone) =
                remove_client-room h.client y.server u.0 w u.1 d done in
              inr (
                left client.socket,
                (h, client, found, at, leads, refl),
                ground arith,
                ap (λ (s : Server). room s.clients) same ∙ gone,
              ))
      ]
  handler_at-Changes handler_ended i h y w t found at d e step = cc

  operator_at-Changes :
      (p : OperatorPoint) (line : Option Bytes) (y : System) (w : net.World)
      (t : System × net.World)
      → y.operator ≡ p
      → operator_at net p line y w ≡ moves t
      → (step : operator_step net line y w ≡ moves t) → Changes net (y, w) t (by_operator line step)
  unfolding operator_at user_input_round cleanup_sockets is_allowed
  operator_at-Changes reading none y w t at e step = inl (ap room (ground arith))
  operator_at-Changes reading (some line) y w t at e step = inl (ap room (ground arith))
  operator_at-Changes cleaning line y w t at e step =
      inr (closed, inl at, refl, closed-room y.server.clients t.0.server.clients (ground arith))
  operator_at-Changes joining_accept line y w t at e step = inl (ap room (ground arith))
  operator_at-Changes run_ended line y w t at e step =
      inr (closed, inr at, refl, closed-room y.server.clients t.0.server.clients (ground arith))
  operator_at-Changes destroyed line y w t at e step = cc

  Step-Changes :
      (s t : System × net.World)
      → ((n : ℕ) → held n s.0.accepting s.0.server ≤ 1)
      → (step : Step net s t) → Changes net s t step
  unfolding accept_step handler_step operator_step signal_handler
  Step-Changes s t h (by_accept e) = accept_at-Changes s.0.accepting s.0 s.1 t refl h e e
  Step-Changes s t h (by_handler i e) = elim (Option-cases (get_elem? s.0.handlers i)) [
    | inl no_thread ↦ absurd (ground arith)
    | inr (k, found) ↦
        let d : Distinct s.0.server.clients =
          Distinct-count s.0.server.clients (λ n. omega (arith, h n)) in
        handler_at-Changes k.point i k s.0 s.1 t found refl d (ground arith) e
  ]
  Step-Changes s t h (by_operator line e) = operator_at-Changes s.0.operator line s.0 s.1 t refl e e
  Step-Changes s t h (interrupt e) = inl (ap room (ground arith))

  -- A server starts from an open listening socket and no clients, standard input is open as descriptor
  -- 0 and another than that socket, and the system opens and closes descriptors as accept and close
  -- document it. In every state that its threads reach, in any interleaving, each next step changes
  -- the room that the client list holds by at most one event: somebody joins, with an empty name,
  -- under a socket where nobody was; a member that is there gets a name; a member that is there
  -- leaves; or all leave at a clean-up. A join is a step of the accept thread with that very socket, a
  -- name or a leave one of the thread whose reference leads to that member, the name being in the
  -- text that this thread has received, and the clean-ups are the operator's; an interrupt changes
  -- nothing. No other member's name changes.
  pub server_refines_room :
      (d : Descriptors net) (s : Server) (w : net.World) (l : ℕ) (t u : System × net.World)
      → s.clients ≡ []
      → s.listen_socket ≡ some l
      → d.is_open w l ≡ true
      → (d.is_open w 0 ≡ true) × (l ≢ 0)
      → Reach net (run s, w) t
      → (step : Step net t u) → Changes net t u step
  server_refines_room d s w l t u empty listening open_now stdin before step =
      Step-Changes t u
        (λ n. (descriptors_accounted net d s w l t n empty listening open_now stdin before).0) step
