-- ===== src/Net/Pipe.antt =====
-- A connection of two sockets, as TCP carries it: an interface that theorems on both ends take.
use cs2remote_console.Base.{
  length, take, drop, take_all, drop_append, Bytes, ℕ, ◌≤◌, ◌<◌, ◌≡◌, refl, sym, ap, ◌∙◌, ◌≢◌, ◌⊎◌,
  some, [], ◌++◌, arith,
}
use cs2remote_console.Net.{Sockets}

-- What TCP promises of a connection from the socket `a` to the socket `b`: of all bytes that send has
-- taken on `a`, in their order, the first have been taken by recv on `b` and the next have arrived
-- there; the others are on their way. recv gives the first of those that have arrived, all of them or
-- as many as it asks for. The calls on other sockets touch none of them.
pub record Pipe (net : Sockets) (a b : ℕ) : Type 0 where
  pub sent : net.World → Bytes
  pub taken : net.World → Bytes
  pub arrived : net.World → Bytes
  pub send_adds :
      (text : Bytes) (w : net.World) (k : ℕ)
      → (net.send (some a) text w).0 ≡ some k
      → sent (net.send (some a) text w).1 ≡ sent w ++ take k text
  pub send_keeps :
      (n : ℕ) (text : Bytes) (w : net.World)
      → n ≢ a
      → (sent (net.send (some n) text w).1 ≡ sent w)
        × (arrived (net.send (some n) text w).1 ≡ arrived w)
  pub send_takes_none :
      (n : ℕ) (text : Bytes) (w : net.World) → taken (net.send (some n) text w).1 ≡ taken w
  pub recv_takes :
      (n : ℕ) (first rest : Bytes) (w : net.World)
      → arrived w ≡ first ++ rest
      → 0 < length first
      → (length first ≡ n) ⊎ ((rest ≡ []) × (length first ≤ n))
      → (w1 : net.World) × (net.recv (some b) n w ≡ (some first, w1)) × (arrived w1 ≡ rest)
  pub recv_keeps :
      (n k : ℕ) (w : net.World)
      → n ≢ b
      → (sent (net.recv (some n) k w).1 ≡ sent w) × (taken (net.recv (some n) k w).1 ≡ taken w)

-- The socket takes the whole text, whenever it is sent.
abbrev pub TakesWhole : (net : Sockets) → ℕ → Bytes → Type 0
TakesWhole net a text = (w : net.World) → (net.send (some a) text w).0 ≡ some (length text)

module _ (net : Sockets) (a b : ℕ) (p : Pipe net a b) where
  -- From the one state to the other nothing is sent or taken, and all that was sent has arrived.
  abbrev pub AllArrives : net.World → net.World → Type 0
  AllArrives w w' =
      (p.sent w' ≡ p.sent w) × (p.taken w' ≡ p.taken w) × (p.sent w' ≡ p.taken w' ++ p.arrived w')

  pub send_whole :
      (text : Bytes) (w : net.World)
      → TakesWhole net a text
      → p.sent (net.send (some a) text w).1 ≡ p.sent w ++ text
  send_whole text w whole =
      p.send_adds text w (length text) (whole w)
      ∙ ap (λ (bs : Bytes). p.sent w ++ bs) (take_all (length text) text (omega arith))

  -- What was sent behind all that has been taken is what then stands there.
  pub all_arrived :
      (text : Bytes) (w w' : net.World)
      → p.sent w ≡ p.taken w ++ text
      → AllArrives w w'
      → p.arrived w' ≡ text
  all_arrived text w w' behind (same, none_taken, all) =
      let split : p.taken w ++ text ≡ p.taken w ++ p.arrived w' =
        sym behind ∙ sym same ∙ all ∙ ap (λ (bs : Bytes). bs ++ p.arrived w') none_taken in
      sym (drop_append (length (p.taken w)) (p.taken w) (p.arrived w') refl)
      ∙ sym (ap (drop (length (p.taken w))) split)
      ∙ drop_append (length (p.taken w)) (p.taken w) text refl
