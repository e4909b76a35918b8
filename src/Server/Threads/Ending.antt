-- ===== src/Server/Threads/Ending.antt =====
-- The way of the server to its end, once `running` is false.
use cs2remote_console.Base.{◌≡◌, refl, false, none, [], ◌∷◌, ◌++◌, arith}
use cs2remote_console.Net.{Sockets}
use cs2remote_console.Server.Clients.{emplace_back, cleanup_sockets}
use cs2remote_console.Server.Threads.{
  AcceptPoint, awaiting, accepted, accept_ended, receiving, OperatorPoint, reading, cleaning,
  joining_accept, run_ended, destroyed, System, accept_at, accept_step, operator_at, operator_step,
  Step, by_accept, by_operator, Reach, here, next,
}

module _ (net : Sockets) where
  Reach-trans : (s t u : System × net.World) → Reach net s t → Reach net t u → Reach net s u
  Reach-trans s t _ r here = r
  Reach-trans s t u r (next m _ before last) = next m u (Reach-trans s t m r before) last

  abbrev Ends : System × net.World → Type 0
  Ends s = (t : System × net.World) × Reach net s t × (t.0.operator ≡ destroyed)

  Ends-Step : (s t : System × net.World) → Step net s t → Ends t → Ends s
  Ends-Step s t one (u, rest, over) = (u, Reach-trans s t u (next s t here one) rest, over)

  run-Ends : (y : System) (w : net.World) → y.operator ≡ run_ended → Ends (y, w)
  unfolding operator_step operator_at
  run-Ends y w at =
      let (s, w1) = cleanup_sockets net y.server w in
      let t : System × net.World = (record y { server = s; operator = destroyed }, w1) in
      Ends-Step (y, w) t (by_operator none (ground arith)) (t, here, refl)

  joining-Ends :
      (y : System) (w : net.World)
      → y.operator ≡ joining_accept
      → y.accepting ≡ accept_ended
      → Ends (y, w)
  unfolding operator_step operator_at
  joining-Ends y w at accept_over =
      let t : System × net.World = (record y { operator = run_ended }, w) in
      Ends-Step (y, w) t (by_operator none (ground arith)) (run-Ends t.0 t.1 refl)

  cleaning-Ends :
      (y : System) (w : net.World)
      → y.operator ≡ cleaning
      → y.accepting ≡ accept_ended
      → y.server.running ≡ false
      → Ends (y, w)
  unfolding operator_step operator_at
  cleaning-Ends y w at accept_over off =
      let (s, w1) = cleanup_sockets net y.server w in
      let t : System × net.World = (record y { server = s; operator = joining_accept }, w1) in
      Ends-Step (y, w) t (by_operator none (ground arith)) (joining-Ends t.0 t.1 refl accept_over)

  -- The operator's way to the end, once the accept thread has ended.
  operator-Ends :
      (p : OperatorPoint) (y : System) (w : net.World)
      → y.operator ≡ p
      → y.accepting ≡ accept_ended
      → y.server.running ≡ false
      → Ends (y, w)
  unfolding operator_step operator_at
  operator-Ends reading y w at accept_over off =
      let t : System × net.World = (record y { operator = cleaning }, w) in
      Ends-Step (y, w) t (by_operator none (ground arith))
        (cleaning-Ends t.0 t.1 refl accept_over off)
  operator-Ends cleaning y w at accept_over off = cleaning-Ends y w at accept_over off
  operator-Ends joining_accept y w at accept_over off = joining-Ends y w at accept_over
  operator-Ends run_ended y w at accept_over off = run-Ends y w at
  operator-Ends destroyed y w at accept_over off = ((y, w), here, at)

  awaiting-Ends :
      (y : System) (w : net.World) → y.accepting ≡ awaiting → y.server.running ≡ false → Ends (y, w)
  unfolding accept_step accept_at
  awaiting-Ends y w at off =
      let t : System × net.World = (record y { accepting = accept_ended }, w) in
      Ends-Step (y, w) t (by_accept (ground arith)) (operator-Ends y.operator t.0 t.1 refl refl off)

  accept-Ends :
      (p : AcceptPoint) (y : System) (w : net.World)
      → y.accepting ≡ p
      → y.server.running ≡ false
      → Ends (y, w)
  unfolding accept_step accept_at emplace_back
  accept-Ends awaiting y w at off = awaiting-Ends y w at off
  accept-Ends (accepted m ip port) y w at off =
      let (s, r) =
        emplace_back
          (record { name = []; socket = m; ip = ip; port = port; connection_time = net.now w })
          y.server in
      let t : System × net.World = (
        record y {
          server = s;
          accepting = awaiting;
          handlers = y.handlers ++ record { client = r; point = receiving } ∷ [];
        },
        w,
      ) in
      Ends-Step (y, w) t (by_accept (ground arith)) (awaiting-Ends t.0 t.1 refl (ground arith))
  accept-Ends accept_ended y w at off = operator-Ends y.operator y w refl at off

  -- Once `running` is false, whatever each thread is doing, there is a way to the end of the server:
  -- the accept thread can leave its loop, the operator gets out of reading, cleans up, joins, and
  -- run and the destructor end.
  pub server_can_end :
      (y : System) (w : net.World)
      → y.server.running ≡ false
      → (t : System × net.World) × Reach net (y, w) t × (t.0.operator ≡ destroyed)
  server_can_end y w off = accept-Ends y.accepting y w refl off
