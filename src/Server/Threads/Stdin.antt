-- ===== src/Server/Threads/Stdin.antt =====
-- Standard input, descriptor 0, which the signal handler closes: no thread of the server holds it.
use cs2remote_console.Base.{
  Option-cases, get_elem?, Bytes, ℕ, ◌≡◌, refl, ◌⊎◌, inl, inr, true, false, Option, some, [], ◌∷◌,
  ◌++◌, arith,
}
use cs2remote_console.Net.{Sockets}
use cs2remote_console.VConsole.Memory.{c_string}
use cs2remote_console.Server.Clients.{
  ClientInfo, Server, Ref, deref, set_name, find_socket, emplace_back, remove_client,
  cleanup_sockets,
}
use cs2remote_console.Server.Handlers.{split_colon, apply_command, handle_client_message}
use cs2remote_console.Server.Options.{signal_handler}
use cs2remote_console.Server.Threads.{
  AcceptPoint, awaiting, accepted, accept_ended, HandlerPoint, receiving, handling, behind_loop,
  handler_ended, OperatorPoint, reading, cleaning, joining_accept, run_ended, destroyed, System,
  moves, accept_at, accept_step, handler_at, handler_step, operator_at, operator_step, Step,
  by_accept, by_handler, by_operator, interrupt, Reach, here, next,
}
use cs2remote_console.Server.Threads.Accounts.{
  Descriptors, count-append, count-erase, count-set, held,
}
use cs2remote_console.Server.Threads.Ledger.{Kept, Step-Kept}

-- The server is stopping and does not hold the descriptor.
abbrev Gone : ℕ → AcceptPoint → Server → Type 0
Gone n a s = (s.running ≡ false) × (held n a s ≡ 0)

module _ (net : Sockets) (n : ℕ) where
  abbrev GoneIn : System × net.World → Type 0
  GoneIn t = Gone n t.0.accepting t.0.server

  accept_at-Gone :
      (p : AcceptPoint) (y : System) (w : net.World) (t : System × net.World)
      → accept_at net p y w ≡ moves t
      → Gone n p y.server
      → GoneIn t
  unfolding accept_at emplace_back
  accept_at-Gone awaiting y w t e g = ground (arith, g.0, g.1)
  accept_at-Gone (accepted m ip port) y w t e g =
      let client : ClientInfo = record {
        name = [];
        socket = m;
        ip = ip;
        port = port;
        connection_time = net.now w;
      } in
      let counted = count-append n y.server.clients client in ground (arith, g.0, g.1)
  accept_at-Gone accept_ended y w t e g = cc

  remove_client-Gone :
      (a : AcceptPoint) (r : Ref) (s s' : Server) (w w' : net.World)
      → remove_client net r s w ≡ some (s', w')
      → Gone n a s
      → Gone n a s'
  unfolding remove_client
  remove_client-Gone a r s s' w w' e g = elim (Option-cases (deref r s)) [
    | inl dangling ↦ absurd (ground arith)
    | inr (client, got) ↦ elim (Option-cases (find_socket client.socket s.clients)) [
      | inl missing ↦ ground (arith, g.0, g.1)
      | inr (c, found) ↦
          let counted = count-erase n client.socket s.clients c found in ground (arith, g.0, g.1)
    ]
  ]

  handle_client_message-Gone :
      (a : AcceptPoint) (r : Ref) (message : Bytes) (s s' : Server) (w w' : net.World)
      → handle_client_message net r message s w ≡ some (s', w')
      → Gone n a s
      → Gone n a s'
  unfolding handle_client_message apply_command set_name deref
  handle_client_message-Gone a r message s s' w w' e g = elim (Option-cases (deref r s)) [
    | inl dangling ↦ absurd (ground arith)
    | inr (client, got) ↦ elim (Option-cases (split_colon message)) [
      | inl no_colon ↦ ground (arith, g.0, g.1)
      | inr ((command, content), parts) ↦
          let named : ClientInfo = record client { name = content } in
          let counted = count-set n r.index s.clients client named (ground arith) refl in
          ground (arith, g.0, g.1)
    ]
  ]

  handler_at-Gone :
      (p : HandlerPoint) (i : ℕ) (r : Ref) (y : System) (w : net.World) (t : System × net.World)
      → handler_at net p i r y w ≡ moves t
      → GoneIn (y, w)
      → GoneIn t
  unfolding handler_at
  handler_at-Gone receiving i r y w t e g = ground (arith, g.0, g.1)
  handler_at-Gone (handling text) i r y w t e g = elim (Option-cases (c_string (text ++ 0 ∷ []))) [
    | inl unterminated ↦ absurd (ground arith)
    | inr (m, read) ↦ elim (Option-cases (handle_client_message net r m y.server w)) [
      | inl dangling ↦ absurd (ground arith)
      | inr (u, done) ↦
          (let kept = handle_client_message-Gone y.accepting r m y.server u.0 w u.1 done g in
            ground (arith, kept.0, kept.1))
    ]
  ]
  handler_at-Gone behind_loop i r y w t e g = elim (Option-cases (remove_client net r y.server w)) [
    | inl dangling ↦ absurd (ground arith)
    | inr (u, done) ↦
        (let kept = remove_client-Gone y.accepting r y.server u.0 w u.1 done g in
          ground (arith, kept.0, kept.1))
  ]
  handler_at-Gone handler_ended i r y w t e g = cc

  operator_at-Gone :
      (p : OperatorPoint) (line : Option Bytes) (y : System) (w : net.World)
      (t : System × net.World)
      → operator_at net p line y w ≡ moves t
      → GoneIn (y, w)
      → GoneIn t
  unfolding operator_at cleanup_sockets
  operator_at-Gone reading line y w t e g = ground (arith, g.0, g.1)
  operator_at-Gone cleaning line y w t e g = ground (arith, g.0, g.1)
  operator_at-Gone joining_accept line y w t e g = ground (arith, g.0, g.1)
  operator_at-Gone run_ended line y w t e g = ground (arith, g.0, g.1)
  operator_at-Gone destroyed line y w t e g = cc

  -- A server that is stopping takes no new descriptor.
  Step-Gone : (s t : System × net.World) → Step net s t → GoneIn s → GoneIn t
  unfolding accept_step handler_step operator_step signal_handler
  Step-Gone s t (by_accept e) g = accept_at-Gone s.0.accepting s.0 s.1 t e g
  Step-Gone s t (by_handler i e) g = elim (Option-cases (get_elem? s.0.handlers i)) [
    | inl no_thread ↦ absurd (ground arith)
    | inr (h, found) ↦ handler_at-Gone h.point i h.client s.0 s.1 t (ground arith) g
  ]
  Step-Gone s t (by_operator line e) g = operator_at-Gone s.0.operator line s.0 s.1 t e g
  Step-Gone s t (interrupt e) g = (ground arith, ground (arith, g.1))

module _ (net : Sockets) (d : Descriptors net) where
  -- Standard input is open and accounted for as nobody's, or the server is stopping without it.
  abbrev NotHeld : System × net.World → Type 0
  NotHeld t = Kept net d 0 true t ⊎ GoneIn net 0 t

  Step-NotHeld : (s t : System × net.World) → Step net s t → NotHeld s → NotHeld t
  unfolding signal_handler
  Step-NotHeld s t step (inr gone) = inr (Step-Gone net 0 s t step gone)
  Step-NotHeld s t (interrupt e) (inl kept) = inr (ground arith, ground (arith, kept))
  Step-NotHeld s t (by_accept e) (inl kept) =
      inl (Step-Kept net d 0 true s t (by_accept e) (λ f. cc) kept)
  Step-NotHeld s t (by_handler i e) (inl kept) =
      inl (Step-Kept net d 0 true s t (by_handler i e) (λ f. cc) kept)
  Step-NotHeld s t (by_operator line e) (inl kept) =
      inl (Step-Kept net d 0 true s t (by_operator line e) (λ f. cc) kept)

  Reach-NotHeld : (s t : System × net.World) → Reach net s t → NotHeld s → NotHeld t
  Reach-NotHeld s _ here h = h
  Reach-NotHeld s t (next m _ before last) h = Step-NotHeld m t last (Reach-NotHeld s m before h)

  -- From standard input open and not held on, the server never holds it.
  pub Reach-stdin :
      (s t : System × net.World)
      → Reach net s t
      → d.is_open s.1 0 ≡ true
      → held 0 s.0.accepting s.0.server ≡ 0
      → held 0 t.0.accepting t.0.server ≡ 0
  Reach-stdin s t r open_now free = elim (Reach-NotHeld s t r (inl (ground arith))) [
    | inl kept ↦ ground (arith, kept)
    | inr gone ↦ gone.1
  ]
