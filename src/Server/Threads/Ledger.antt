-- ===== src/Server/Threads/Ledger.antt =====
-- Every step of the server's threads keeps the accounts of the descriptors.
use cs2remote_console.Base.{
  ==_iff, Bool-cases, Option-cases, get_elem?, Bytes, ℕ, ◌≡◌, refl, ◌≢◌, inl, inr, Bool, true,
  false, Option, some, [], ◌∷◌, ◌++◌, arith,
}
use cs2remote_console.Net.{Sockets}
use cs2remote_console.VConsole.Memory.{c_string}
use cs2remote_console.Server.Clients.{ClientInfo, Ref, deref, emplace_back, remove_client}
use cs2remote_console.Server.Handlers.{handle_client_message}
use cs2remote_console.Server.Options.{signal_handler}
use cs2remote_console.Server.Threads.{
  AcceptPoint, awaiting, accepted, accept_ended, HandlerPoint, receiving, handling, behind_loop,
  handler_ended, OperatorPoint, reading, cleaning, joining_accept, run_ended, destroyed, System,
  moves, accept_at, accept_step, receive, handler_at, handler_step, operator_at, operator_step,
  Step, by_accept, by_handler, by_operator, interrupt, Reach, here, next,
}
use cs2remote_console.Server.Threads.Accounts.{
  Descriptors, count-append, set_non_blocking-keeps, IsAccounted, cleanup_sockets-IsAccounted,
  remove_client-IsAccounted, handle_client_message-IsAccounted, user_input_round-IsAccounted,
}

abbrev pub is_interrupt : (net : Sockets) {s t : System × net.World} → Step net s t → Bool
is_interrupt net (interrupt e) = true
is_interrupt net _ = false

module _ (net : Sockets) (d : Descriptors net) (n : ℕ) (base : Bool) where
  abbrev pub Kept : System × net.World → Type 0
  Kept t = IsAccounted net d n base t.0.accepting t.0.server t.1

  accept_at-Kept :
      (p : AcceptPoint) (y : System) (w : net.World) (t : System × net.World)
      → y.accepting ≡ p
      → accept_at net p y w ≡ moves t
      → IsAccounted net d n base p y.server w
      → Kept t
  unfolding accept_at emplace_back
  accept_at-Kept awaiting y w t at e acc =
      elim (Option-cases (net.accept y.server.listen_socket w).0) [
        | inl failed ↦ ground (arith, acc, d.accept_fails y.server.listen_socket w failed n)
        | inr ((m, ip, port), got) ↦
            let new = d.accept_is_new y.server.listen_socket w m ip port got in
            let same =
              set_non_blocking-keeps net d (some m) (net.accept y.server.listen_socket w).1 n in
            ground (arith, acc, ==_iff m n, new.1 n)
      ]
  accept_at-Kept (accepted m ip port) y w t at e acc =
      let client : ClientInfo = record {
        name = [];
        socket = m;
        ip = ip;
        port = port;
        connection_time = net.now w;
      } in
      let counted = count-append n y.server.clients client in ground (arith, acc)
  accept_at-Kept accept_ended y w t at e acc = cc

  receive-Kept :
      (i : ℕ) (r : Ref) (y : System) (w : net.World) (t : System × net.World)
      → receive net i r y w ≡ some t
      → Kept (y, w)
      → Kept t
  unfolding receive
  receive-Kept i r y w t e acc = elim (Option-cases (deref r y.server)) [
    | inl dangling ↦ absurd (ground arith)
    | inr (client, got) ↦
        let same = d.recv_keeps (some client.socket) 1023 w n in
        elim (Option-cases (net.recv (some client.socket) 1023 w).0) [
          | inl failed ↦ ground (arith, acc)
          | inr ([], over) ↦ ground (arith, acc)
          | inr (b ∷ bs, text) ↦ ground (arith, acc)
        ]
  ]

  handler_at-Kept :
      (p : HandlerPoint) (i : ℕ) (r : Ref) (y : System) (w : net.World) (t : System × net.World)
      → handler_at net p i r y w ≡ moves t
      → Kept (y, w)
      → Kept t
  unfolding handler_at
  handler_at-Kept receiving i r y w t e acc = elim (Bool-cases y.server.running) [
    | inr stopped ↦ (ground (arith, acc))
    | inl on ↦ elim (Option-cases (receive net i r y w)) [
      | inl dangling ↦ absurd (ground arith)
      | inr (u, done) ↦ (let kept = receive-Kept i r y w u done acc in ground (arith, kept))
    ]
  ]
  handler_at-Kept (handling text) i r y w t e acc =
      elim (Option-cases (c_string (text ++ 0 ∷ []))) [
        | inl unterminated ↦ absurd (ground arith)
        | inr (m, read) ↦ elim (Option-cases (handle_client_message net r m y.server w)) [
          | inl dangling ↦ absurd (ground arith)
          | inr (u, done) ↦
              (let kept =
                  handle_client_message-IsAccounted net d n base y.accepting y.server w r m u.0 u.1
                    done acc in
                ground (arith, kept))
        ]
      ]
  handler_at-Kept behind_loop i r y w t e acc =
      elim (Option-cases (remove_client net r y.server w)) [
        | inl dangling ↦ absurd (ground arith)
        | inr (u, done) ↦
            (let kept =
                remove_client-IsAccounted net d n base y.accepting y.server w r u.0 u.1 done acc in
              ground (arith, kept))
      ]
  handler_at-Kept handler_ended i r y w t e acc = cc

  operator_at-Kept :
      (p : OperatorPoint) (line : Option Bytes) (y : System) (w : net.World)
      (t : System × net.World)
      → operator_at net p line y w ≡ moves t
      → Kept (y, w)
      → Kept t
  unfolding operator_at
  operator_at-Kept reading line y w t e acc =
      let kept = user_input_round-IsAccounted net d n base y.accepting y.server w line acc in
      ground (arith, kept, acc)
  operator_at-Kept cleaning line y w t e acc =
      let kept = cleanup_sockets-IsAccounted net d n base y.accepting y.server w acc in
      ground (arith, kept)
  operator_at-Kept joining_accept line y w t e acc = ground (arith, acc)
  operator_at-Kept run_ended line y w t e acc =
      let kept = cleanup_sockets-IsAccounted net d n base y.accepting y.server w acc in
      ground (arith, kept)
  operator_at-Kept destroyed line y w t e acc = cc

  -- An interrupt closes descriptor 0, and the others are accounted for as before.
  pub Step-Kept :
      (s t : System × net.World) (step : Step net s t)
      → (is_interrupt net step ≡ true → n ≢ 0)
      → Kept s
      → Kept t
  unfolding accept_step handler_step operator_step signal_handler
  Step-Kept s t (by_accept e) other acc = accept_at-Kept s.0.accepting s.0 s.1 t refl e acc
  Step-Kept s t (by_handler i e) other acc = elim (Option-cases (get_elem? s.0.handlers i)) [
    | inl no_thread ↦ absurd (ground arith)
    | inr (h, found) ↦ handler_at-Kept h.point i h.client s.0 s.1 t (ground arith) acc
  ]
  Step-Kept s t (by_operator line e) other acc = operator_at-Kept s.0.operator line s.0 s.1 t e acc
  Step-Kept s t (interrupt e) other acc =
      let apart = other refl in ground (arith, acc, d.close_ends 0 s.1 n, ==_iff 0 n)

  pub Reach-Kept : (s t : System × net.World) → Reach net s t → n ≢ 0 → Kept s → Kept t
  Reach-Kept s _ here apart acc = acc
  Reach-Kept s t (next m _ before last) apart acc =
      Step-Kept m t last (λ e. apart) (Reach-Kept s m before apart acc)
