-- ===== src/Server/Threads/Shutdown.antt =====
-- What the threads of the server come to: open descriptors, and the threads that outlive it.
use cs2remote_console.Base.{
  ◌==◌, ==_iff, Bool-cases, length, ℕ, ◌≤◌, ◌≡◌, refl, ◌≢◌, inl, inr, true, not, ◌&&◌, some, List,
  [], ◌∷◌, arith,
}
use cs2remote_console.Net.{Sockets}
use cs2remote_console.Server.Clients.{ClientInfo, Server}
use cs2remote_console.Server.Threads.{
  AcceptPoint, awaiting, accepted, accept_ended, destroyed, System, run, Reach,
}
use cs2remote_console.Server.Threads.Accounts.{Descriptors, count, held}
use cs2remote_console.Server.Threads.Ledger.{Kept, Reach-Kept}
use cs2remote_console.Server.Threads.Stdin.{Reach-stdin}
use cs2remote_console.Server.Threads.Settling.{settled, Reach-settled}

count-empty : (n : ℕ) (cs : List ClientInfo) → length cs ≡ 0 → count n cs ≡ 0
count-empty n [] e = refl
count-empty n (c ∷ cs) e = absurd (omega arith)

held_destroyed :
    (n : ℕ) (a : AcceptPoint) (s : Server) → settled destroyed a s ≡ true → held n a s ≡ 0
held_destroyed n awaiting s h = absurd (ground arith)
held_destroyed n (accepted m ip port) s h = absurd (ground arith)
held_destroyed n accept_ended s h = ground (arith, count-empty n s.clients)

module _ (net : Sockets) (d : Descriptors net) where
  pub descriptors_accounted :
      (s : Server) (w : net.World) (l : ℕ) (t : System × net.World) (n : ℕ)
      → s.clients ≡ []
      → s.listen_socket ≡ some l
      → d.is_open w l ≡ true
      → (d.is_open w 0 ≡ true) × (l ≢ 0)
      → Reach net (run s, w) t
      → let holds = held n t.0.accepting t.0.server in
        (holds ≤ 1)
        × (holds ≡ 1 → (d.is_open t.1 n ≡ true) × (n ≢ 0))
        × (holds ≡ 0 → n ≢ 0 → d.is_open t.1 n ≡ (not (l == n) && d.is_open w n))
  unfolding run
  descriptors_accounted s w l t n no_clients listening open_now (stdin, apart) r =
      let base = not (l == n) && d.is_open w n in
      let kept : n ≢ 0 → Kept net d n base t =
        λ other. Reach-Kept net d n base (run s, w) t r other (ground (arith, ==_iff l n)) in
      let free : held 0 t.0.accepting t.0.server ≡ 0 =
        Reach-stdin net d (run s, w) t r stdin (ground (arith, ==_iff l 0)) in
      elim (Bool-cases (n == 0)) [
        | inl zero_is ↦
            (let same : n ≡ 0 = (==_iff n 0).0 zero_is in
              let none_held : held n t.0.accepting t.0.server ≡ 0 = rw same free in
              (
                omega (arith, none_held),
                λ e. absurd (omega (arith, none_held, e)),
                λ e other. absurd (other same),
              ))
        | inr other ↦
            (let apart_here : n ≢ 0 = λ e. ground (arith, ==_iff n 0) in
              let here_kept = kept apart_here in
              (ground arith, λ e. (ground arith, apart_here), λ e f. ground arith))
      ]

  -- A server starts from an open listening socket and no clients, standard input is open as descriptor
  -- 0 and another than that socket, and the system opens and closes descriptors as accept and close
  -- document it. When the server has been destroyed, whatever its threads did before, a descriptor
  -- other than standard input is open just if it was open at the start and is not the listening socket.
  pub destroyed_closes_all :
      (s : Server) (w : net.World) (l : ℕ) (t : System × net.World) (n : ℕ)
      → s.clients ≡ []
      → s.listen_socket ≡ some l
      → d.is_open w l ≡ true
      → (d.is_open w 0 ≡ true) × (l ≢ 0)
      → n ≢ 0
      → Reach net (run s, w) t
      → t.0.operator ≡ destroyed
      → d.is_open t.1 n ≡ (not (l == n) && d.is_open w n)
  unfolding run
  destroyed_closes_all s w l t n no_clients listening open_now stdin other r over =
      let accounted = descriptors_accounted s w l t n no_clients listening open_now stdin r in
      let bare = Reach-settled net (run s, w) t r refl in
      accounted.2 (held_destroyed n t.0.accepting t.0.server (ground arith)) other
