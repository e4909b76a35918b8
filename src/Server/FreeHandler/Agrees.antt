-- ===== src/Server/FreeHandler/Agrees.antt =====
-- The two handlers of a client agree while no client sends a colon.
use cs2remote_console.Base.{
  ◌==◌, Bool-cases, Option-cases, ◌>>=◌, Bytes, Lacks, split_at-none, ℕ, zero, suc, ◌≡◌, refl, inl,
  inr, Option, some, [], ◌∷◌, ◌++◌, arith,
}
use cs2remote_console.Net.{Sockets}
use cs2remote_console.VConsole.Memory.{c_string}
use cs2remote_console.Server.Clients.{ClientInfo, Server, Ref, deref, remove_client}
use cs2remote_console.Server.Handlers.{
  split_colon, handle_client_message, handle_client_round, handle_client,
}
use cs2remote_console.Server.FreeHandler.{free_handler_round, free_handler_leave, free_handler}

-- No text that recv gives has a colon.
abbrev pub SendsNoColon : Sockets → Type 0
SendsNoColon net =
    (s : Option ℕ) (n : ℕ) (w : net.World) (text : Bytes)
    → (net.recv s n w).0 ≡ some text
    → Lacks b':' text

c_string-Lacks :
    (b : ℕ) (text : Bytes)
    → Lacks b text
    → (m : Bytes) × (c_string (text ++ 0 ∷ []) ≡ some m) × Lacks b m
unfolding c_string
c_string-Lacks b [] l = ([], refl, tt)
c_string-Lacks b (c ∷ cs) l =
    let (m, e, k) = c_string-Lacks b cs l.1 in
    elim (Bool-cases (c == 0)) [
      | inl end_here ↦ ([], ground arith, tt)
      | inr goes_on ↦ (c ∷ m, ground arith, (l.0, k))
    ]

module _ (net : Sockets) where
  free_handler_leave_same :
      (r : Ref) (s : Server) (w : net.World)
      → free_handler_leave net r s w ≡ remove_client net r s w
  unfolding free_handler_leave remove_client
  free_handler_leave_same r s w = ground arith

  -- A text without a colon is only logged.
  handle_text :
      (r : Ref) (s : Server) (w : net.World) (client : ClientInfo) (text : Bytes)
      → deref r s ≡ some client
      → Lacks b':' text
      → (c_string (text ++ 0 ∷ []) >>= λ m. handle_client_message net r m s w) ≡ some (s, w)
  unfolding handle_client_message split_colon
  handle_text r s w client text e l =
      let (m, read, k) = c_string-Lacks b':' text l in ground (arith, split_at-none b':' m k)

  free_handler_round_same :
      (r : Ref) (s : Server) (w : net.World)
      → SendsNoColon net
      → handle_client_round net r s w
        ≡ (free_handler_round net r s w >>= λ done. some (done.0, s, done.1))
  unfolding free_handler_round handle_client_round
  free_handler_round_same r s w quiet = elim (Option-cases (deref r s)) [
    | inl dangling ↦ ground arith
    | inr (client, found) ↦ elim (Option-cases (net.recv (some client.socket) 1023 w).0) [
      | inl failed ↦ ground arith
      | inr ([], got) ↦ ground arith
      | inr (b ∷ bs, got) ↦
          let same =
            handle_text r s (net.recv (some client.socket) 1023 w).1 client (b ∷ bs) found
              (quiet (some client.socket) 1023 w (b ∷ bs) got) in
          ground arith
    ]
  ]

  -- The free function and Server::handleClient do the same, round for round, as long as no text that
  -- they receive has a colon: they receive the same, leave the loop in the same round, and then
  -- close and erase the same client.
  pub free_handler_agrees :
      (rounds : ℕ) (r : Ref) (s : Server) (w : net.World)
      → SendsNoColon net
      → free_handler net rounds r s w ≡ handle_client net rounds r s w
  unfolding free_handler handle_client
  free_handler_agrees zero r s w quiet = refl
  free_handler_agrees (suc rounds) r s w quiet =
      let same = free_handler_round_same r s w quiet in
      elim (Bool-cases s.running) [
        | inr stopped ↦ ground (arith, free_handler_leave_same r s w)
        | inl on ↦ elim (Option-cases (free_handler_round net r s w)) [
          | inl dangling ↦ ground arith
          | inr ((goes_on, v), done) ↦
              let left = free_handler_leave_same r s v in
              let rest = free_handler_agrees rounds r s v quiet in ground arith
        ]
      ]
