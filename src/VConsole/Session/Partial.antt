-- ===== src/VConsole/Session/Partial.antt =====
-- readChunk on a connection where a packet arrives in two parts.
use cs2remote_console.Base.{
  if◌then◌else◌, length, take, drop, length-take, take-drop, Bytes, ℕ, ◌+◌, ◌-◌, ◌≤◌, ◌<◌, ◌≡◌,
  refl, sym, ap, ◌∙◌, inl, inr, Option, some, [], ◌++◌, append-nil, append_assoc, arith,
}
use cs2remote_console.Net.{Sockets}
use cs2remote_console.Net.Pipe.{Pipe}
use cs2remote_console.VConsole.Session.{
  VConsole, retry, broken, declared_length, read_body, read_chunk,
}
use cs2remote_console.VConsole.Session.Chunks.{read_chunk-body, read_chunk_partial}

module _ (net : Sockets) (a b : ℕ) (p : Pipe net a b) (c : VConsole net.World)
    (on_b : c.client_socket ≡ some b) where
  -- A packet of which the header and some of the body have arrived: readChunk gives no chunk, and
  -- both are gone. When the rest of the body comes, of 12 bytes or more, with any packets behind it,
  -- the next readChunk takes the first 12 bytes of that rest for a header, and goes on by the length
  -- that it finds in them.
  pub partial_packet_desynchronises :
      (header part tail behind : Bytes) (w : net.World)
      → length header ≡ 12
      → 0 < length part
      → length part + length tail + 12 ≡ declared_length header
      → 12 ≤ length tail
      → p.arrived w ≡ header ++ part
      → (w1 : net.World) × (read_chunk net c w
          ≡ ((if net.would_block w1 then retry else broken), w1))
        × (p.arrived w1 ≡ [])
        × ((v : net.World)
            → p.arrived v ≡ tail ++ behind
            → (v1 : net.World) × (read_chunk net c v ≡ read_body net (take 12 tail) c v1)
              × (p.arrived v1 ≡ drop 12 tail ++ behind))
  partial_packet_desynchronises header part tail behind w h some_part declared long arrived =
      let (w0, first, left) = p.recv_takes 12 header part w arrived (omega (arith, h)) (inl h) in
      let (w1, second, none_left) =
        p.recv_takes (declared_length header - 12) part [] w0 (left ∙ sym (append-nil part))
          some_part (inr (refl, omega (arith, declared))) in
      (
        w1,
        read_chunk_partial net c header part w w0 w1
            (ap (λ (s : Option ℕ). net.recv s 12 w) on_b ∙ first) h
            (ap (λ (s : Option ℕ). net.recv s (declared_length header - 12) w0) on_b ∙ second)
            (omega (arith, declared, long)),
        none_left,
        λ v waiting.
            let size : length (take 12 tail) ≡ 12 = omega (arith, length-take 12 tail, long) in
            let (v1, third, still) =
              p.recv_takes 12 (take 12 tail) (drop 12 tail ++ behind) v
                (waiting
                  ∙ ap (λ (bs : Bytes). bs ++ behind) (sym (take-drop 12 tail))
                  ∙ append_assoc (take 12 tail) (drop 12 tail) behind)
                (omega (arith, size)) (inl size) in
            (
              v1,
              read_chunk-body net c (take 12 tail) v v1
                  (ap (λ (s : Option ℕ). net.recv s 12 v) on_b ∙ third) size,
              still,
            ),
      )
