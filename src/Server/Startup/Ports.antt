-- ===== src/Server/Startup/Ports.antt =====
-- Which port Server::start binds, and when it returns.
use cs2remote_console.Base.{
  Option-cases, is_some, ℕ, zero, suc, ◌+◌, ◌%◌, ◌<◌, ◌≡◌, refl, sym, ◌∙◌, inl, inr, Bool, true,
  false, Option, none, some, arith,
}
use cs2remote_console.Net.{Sockets}
use cs2remote_console.Server.Clients.{Server, cleanup_sockets}
use cs2remote_console.Server.Startup.{bind_loop, listen_phase, start}

-- While start runs the system has sockets to give, takes the option SO_REUSEADDR, and lets the same
-- ports be bound: `free` tells which.
pub record StablePorts (net : Sockets) (free : ℕ → Bool) : Type 0 where
  pub socket_opens : (w : net.World) → is_some (net.socket w).0 ≡ true
  pub option_set : (n : Option ℕ) (w : net.World) → (net.set_reuse_address n w).0 ≡ true
  pub bind_free : (n : Option ℕ) (p : ℕ) (w : net.World) → (net.bind n p w).0 ≡ free p

next_port : (p q i : ℕ) → q ≡ (p + 1) % 65536 → (q + i) % 65536 ≡ (p + suc i) % 65536
next_port p q i e = omega arith

module _ (net : Sockets) where
  cleanup_closes : (s : Server) (w : net.World) → (cleanup_sockets net s w).0.listen_socket ≡ none
  unfolding cleanup_sockets
  cleanup_closes s w = ground arith

  bind_loop-open :
      (fuel : ℕ) (s s' : Server) (w w' : net.World) (b : Bool)
      → s.port < 65536
      → bind_loop net fuel s w ≡ some (b, s', w')
      → is_some s'.listen_socket ≡ b
  unfolding bind_loop
  bind_loop-open zero s s' w w' b h e = cc
  bind_loop-open (suc fuel) s s' w w' b h e =
      let opened = net.socket w in
      let s1 = record s { listen_socket = opened.0 } in
      let reused = net.set_reuse_address opened.0 opened.1 in
      let bound = net.bind opened.0 s.port reused.1 in
      let cleaned = cleanup_sockets net s1 bound.1 in
      let next = record cleaned.0 { port = (s.port + 1) % 65536 } in
      ground (
        arith,
        cleanup_closes s1 reused.1,
        cleanup_closes s1 bound.1,
        bind_loop-open fuel next s' cleaned.1 w' b,
      )

  -- start returns true exactly when it leaves the listening socket open.
  start-open :
      (fuel : ℕ) (s s' : Server) (w w' : net.World) (b : Bool)
      → s.port < 65536
      → start net fuel s w ≡ some (b, s', w')
      → is_some s'.listen_socket ≡ b
  unfolding start listen_phase
  start-open fuel s s' w w' b h e = elim (Option-cases (bind_loop net fuel s w)) [
    | inl running_on ↦ absurd (ground arith)
    | inr (r, found) ↦ ground (
      arith,
      bind_loop-open fuel s r.1 w r.2 r.0 h found,
      cleanup_closes r.1 (net.listen r.1.listen_socket r.2).1,
    )
  ]

module _ (net : Sockets) (free : ℕ → Bool) (stable : StablePorts net free) where
  bind_round-taken :
      (s : Server) (w : net.World)
      → s.port < 65536
      → free s.port ≡ false
      → (s' : Server) × (w' : net.World) × ((fuel : ℕ)
          → bind_loop net (suc fuel) s w ≡ bind_loop net fuel s' w')
        × (s'.port ≡ (s.port + 1) % 65536)
  unfolding bind_loop
  bind_round-taken s w h taken =
      let opened = net.socket w in
      let s1 = record s { listen_socket = opened.0 } in
      let reused = net.set_reuse_address opened.0 opened.1 in
      let bound = net.bind opened.0 s.port reused.1 in
      let cleaned = cleanup_sockets net s1 bound.1 in
      (
        record cleaned.0 { port = (s.port + 1) % 65536 },
        cleaned.1,
        λ fuel. ground (
          arith,
          stable.socket_opens w,
          stable.option_set opened.0 opened.1,
          stable.bind_free opened.0 s.port reused.1,
        ),
        refl,
      )

  bind_round-free :
      (fuel : ℕ) (s : Server) (w : net.World)
      → s.port < 65536
      → free s.port ≡ true
      → (s' : Server) × (w' : net.World) × (bind_loop net (suc fuel) s w ≡ some (true, s', w'))
        × (s'.port ≡ s.port)
        × (is_some s'.listen_socket ≡ true)
  unfolding bind_loop
  bind_round-free fuel s w h open_port =
      let opened = net.socket w in
      let reused = net.set_reuse_address opened.0 opened.1 in
      let bound = net.bind opened.0 s.port reused.1 in
      (
        record s { listen_socket = opened.0 },
        bound.1,
        ground (
          arith,
          stable.socket_opens w,
          stable.option_set opened.0 opened.1,
          stable.bind_free opened.0 s.port reused.1,
        ),
        refl,
        stable.socket_opens w,
      )

  -- The system gives sockets, takes the option, and lets the same ports be bound all the time; the
  -- initial port is a 16-bit number. If a port can be bound that lies `d` steps above the initial one,
  -- counting on from 65535 to 0, and none before it, then any bound above d on the rounds is enough:
  -- the loop ends with true, with that port, and with a listening socket.
  pub bind_loop_first_free :
      (d fuel : ℕ) (s : Server) (w : net.World)
      → s.port < 65536
      → d < fuel
      → ((i : ℕ) → i < d → free ((s.port + i) % 65536) ≡ false)
      → free ((s.port + d) % 65536) ≡ true
      → (s' : Server) × (w' : net.World) × (bind_loop net fuel s w ≡ some (true, s', w'))
        × (s'.port ≡ (s.port + d) % 65536)
        × (is_some s'.listen_socket ≡ true)
  bind_loop_first_free d zero s w h k taken found = absurd (omega arith)
  bind_loop_first_free zero (suc fuel) s w h k taken found =
      let here : (s.port + 0) % 65536 ≡ s.port = omega arith in
      let (s', w', e, p, o) = bind_round-free fuel s w h (rw (← here) found) in
      (s', w', e, p ∙ sym here, o)
  bind_loop_first_free (suc d) (suc fuel) s w h k taken found =
      let here : (s.port + 0) % 65536 ≡ s.port = omega arith in
      let (s1, w1, step, p1) = bind_round-taken s w h (rw (← here) (taken 0 (omega arith))) in
      let shift = λ (i : ℕ). next_port s.port s1.port i p1 in
      let (s', w', e, p, o) =
        bind_loop_first_free d fuel s1 w1 (omega arith) (omega arith)
          (λ i lt. rw (shift i) (taken (suc i) (omega arith))) (rw (shift d) found) in
      (s', w', step fuel ∙ e, p ∙ shift d, o)

  -- The system gives sockets, takes the option, and lets the same ports be bound all the time; the
  -- initial port is a 16-bit number. If no port can be bound, the loop has not ended after any number
  -- of rounds.
  pub bind_loop_never_ends :
      (fuel : ℕ) (s : Server) (w : net.World)
      → s.port < 65536
      → ((p : ℕ) → free p ≡ false)
      → bind_loop net fuel s w ≡ none
  bind_loop_never_ends zero s w h taken = unfold bind_loop in refl
  bind_loop_never_ends (suc fuel) s w h taken =
      let (s1, w1, step, p1) = bind_round-taken s w h (taken s.port) in
      step fuel ∙ bind_loop_never_ends fuel s1 w1 (omega arith) taken
