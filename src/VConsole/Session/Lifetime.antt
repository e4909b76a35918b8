-- ===== src/VConsole/Session/Lifetime.antt =====
-- The socket of a VConsole from connect to disconnect, and one round of the listener.
use cs2remote_console.Base.{
  Option-cases, take, Bytes, ℤ, to_u16, ℕ, ◌≡◌, refl, subst, ◌⊎◌, inl, inr, true, false, none, some,
  arith,
}
use cs2remote_console.Net.{Sockets}
use cs2remote_console.VConsole.Session.{
  VConsole, ReadResult, chunk, retry, broken, overrun, notify_all, connect, disconnect,
  is_connected, read_chunk, process_packet, process_result, process_incoming_data,
}
use cs2remote_console.VConsole.Session.Reading.{RecvIsBounded, Framed, read_chunk-Framed}

module _ (net : Sockets) where
  -- connect returns true with an open socket, or false with none, and touches nothing else of the
  -- client. If the system gave a socket but no connection, that socket is closed last.
  connect_outcome :
      (ip : Bytes) (port : ℤ) (c : VConsole net.World) (w : net.World)
      → let r = connect net ip port c w in
        (r.1 ≡ record c { client_socket = r.1.client_socket })
        × ((r.0 ≡ true) → (n : ℕ) × (r.1.client_socket ≡ some n))
        × ((r.0 ≡ false) → r.1.client_socket ≡ none)
        × ((n : ℕ)
            → (net.socket w).0 ≡ some n
            → r.0 ≡ false
            → r.2 ≡ net.close (some n) (net.connect (some n) ip (to_u16 port) (net.socket w).1).1)
  unfolding connect
  connect_outcome ip port c w = elim (Option-cases (net.socket w).0) [
    | inl none_left ↦ rw (none_left, connect) (refl, λ e. cc, λ e. refl, λ n e. cc)
    | inr (m, got) ↦
        (ground arith, λ e. (m, ground arith), λ e. ground arith, λ n e f. ground arith)
  ]

  -- connect does not look at the socket that the client holds already: it makes the same calls as
  -- on a client with none, so an open socket is overwritten and never closed.
  connect_ignores_open_socket :
      (ip : Bytes) (port : ℤ) (c : VConsole net.World) (w : net.World)
      → connect net ip port c w ≡ connect net ip port (record c { client_socket = none }) w
  unfolding connect
  connect_ignores_open_socket ip port c w = ground arith

  -- disconnect shuts an open socket down, closes it, forgets it, and then runs the callback. After
  -- it the client is not connected, and another disconnect runs the callback and nothing else.
  disconnect_outcome :
      (c : VConsole net.World) (w : net.World)
      → let r = disconnect net c w in
        (r.0 ≡ record c { client_socket = none })
        × ((n : ℕ)
            → c.client_socket ≡ some n
            → r.1 ≡ notify_all c.on_disconnected (net.close (some n) (net.shutdown (some n) w)))
        × ((v : net.World) → is_connected net r.0 v ≡ (false, v))
        × ((v : net.World) → disconnect net r.0 v ≡ (r.0, notify_all c.on_disconnected v))
  unfolding disconnect is_connected
  disconnect_outcome c w = (ground arith, λ n e. ground arith, λ v. ground arith, λ v. ground arith)

module _ (net : Sockets) (c c' : VConsole net.World) (w' : net.World) where
  result_true_inv :
      (r : ReadResult × net.World)
      → process_result net c r ≡ some (true, c', w')
      → (buf : Bytes) × (w1 : net.World) × (r ≡ (chunk buf, w1))
        × (process_packet (take 4 buf) buf c w1 ≡ some (c', w'))
  result_true_inv (chunk buf, w1) e = elim (Option-cases (process_packet (take 4 buf) buf c w1)) [
    | inl outside ↦ absurd (ground arith)
    | inr (done, found) ↦ (buf, w1, refl, ground arith)
  ]
  result_true_inv (overrun, w1) e = cc
  result_true_inv (retry, w1) e = absurd (ground arith)
  result_true_inv (broken, w1) e = absurd (ground arith)

  result_false_inv :
      (r : ReadResult × net.World)
      → process_result net c r ≡ some (false, c', w')
      → (c' ≡ c) × (w' ≡ r.1) × ((r.0 ≡ retry) ⊎ (r.0 ≡ broken))
  result_false_inv (chunk buf, w1) e = elim (Option-cases (process_packet (take 4 buf) buf c w1)) [
    | inl outside ↦ absurd (ground arith)
    | inr (done, found) ↦ absurd (ground arith)
  ]
  result_false_inv (overrun, w1) e = cc
  result_false_inv (retry, w1) e = (ground arith, ground arith, inl refl)
  result_false_inv (broken, w1) e = (ground arith, ground arith, inr refl)

  -- processIncomingData returns true only after a complete chunk, whose packet it has then
  -- processed under the type that stands in the header.
  process_incoming_data-true :
      (bounded : RecvIsBounded net) (w : net.World)
      → process_incoming_data net c w ≡ some (true, c', w')
      → (buf : Bytes) × (w1 : net.World) × (f : Framed net bounded c w buf w1) × (process_packet
            (take 4 f.header)
            buf
            c
            w1
          ≡ some (c', w'))
  unfolding process_incoming_data
  process_incoming_data-true bounded w e =
      let (buf, w1, read, done) = result_true_inv (read_chunk net c w) e in
      let f = read_chunk-Framed net bounded c w read in
      (
        buf,
        w1,
        f,
        subst (λ (t : Bytes). process_packet t buf c w1 ≡ some (c', w')) f.message_type done,
      )

  -- It returns false only when the read was not complete, and the client is then as it was.
  process_incoming_data-false :
      (w : net.World)
      → process_incoming_data net c w ≡ some (false, c', w')
      → (c' ≡ c)
        × (w' ≡ (read_chunk net c w).1)
        × (((read_chunk net c w).0 ≡ retry) ⊎ ((read_chunk net c w).0 ≡ broken))
  unfolding process_incoming_data
  process_incoming_data-false w e = result_false_inv (read_chunk net c w) e

module _ (net : Sockets) (c c' : VConsole net.World) (buf type : Bytes) (w v w' : net.World) where
  -- A chunk and what processPacket makes of it.
  pub process_incoming_data-process_packet :
      read_chunk net c w ≡ (chunk buf, v)
      → take 4 buf ≡ type
      → process_packet type buf c v ≡ some (c', w')
      → process_incoming_data net c w ≡ some (true, c', w')
  unfolding process_incoming_data
  process_incoming_data-process_packet read same done = rw (read, same, done) refl
