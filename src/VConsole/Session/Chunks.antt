-- ===== src/VConsole/Session/Chunks.antt =====
-- readChunk case by case on what the two calls of recv give, and a command payload read back.
use cs2remote_console.Base.{
  if◌then◌else◌, length, take, drop, drop_append, Bytes, codes, be16_bytes, be32_bytes, ℕ, ◌+◌, ◌-◌,
  ◌≤◌, ◌<◌, ◌≡◌, refl, ap, ◌∙◌, ◌↔◌, some, ◌++◌, arith,
}
use cs2remote_console.Net.{Sockets}
use cs2remote_console.VConsole.Command.{create_command_payload}
use cs2remote_console.VConsole.Command.Framing.{
  command_body, length-command_body, create_command_payload_layout, create_command_payload_size,
}
use cs2remote_console.VConsole.Memory.{be_value}
use cs2remote_console.VConsole.Session.Reading.{host_header_shape, take_4-append}
use cs2remote_console.VConsole.Session.{
  VConsole, chunk, retry, broken, overrun, declared_length, host_header, read_body, read_chunk,
}

abbrev payload_header : ℕ → Bytes
payload_header size =
    codes "CMND" ++ (be32_bytes 0xD40000 ++ (be16_bytes (12 + size) ++ be16_bytes 0))

declared_length-payload_header :
    (size : ℕ) → size < 65524 → declared_length (payload_header size) ≡ 12 + size
unfolding declared_length be_value
declared_length-payload_header size h = omega arith

module _ (net : Sockets) (c : VConsole net.World) where
  pub read_chunk-body :
      (header : Bytes) (w w1 : net.World)
      → net.recv c.client_socket 12 w ≡ (some header, w1)
      → length header ≡ 12
      → read_chunk net c w ≡ read_body net header c w1
  unfolding read_chunk
  read_chunk-body header w w1 e h = ground arith

  -- Two complete reads give a chunk of the copied header and the body.
  pub read_chunk_whole :
      (header body : Bytes) (w w1 w2 : net.World)
      → net.recv c.client_socket 12 w ≡ (some header, w1)
      → length header ≡ 12
      → 12 ≤ declared_length header
      → net.recv c.client_socket (declared_length header - 12) w1 ≡ (some body, w2)
      → length body + 12 ≡ declared_length header
      → read_chunk net c w ≡ (chunk (host_header header ++ body), w2)
  unfolding read_body
  read_chunk_whole header body w w1 w2 e h enough e' h' =
      read_chunk-body header w w1 e h ∙ ground arith

  -- After a whole header, readChunk writes past its buffer exactly when the header declares a
  -- length below its own 12 bytes.
  pub read_chunk_overrun :
      (header : Bytes) (w w1 : net.World)
      → net.recv c.client_socket 12 w ≡ (some header, w1)
      → length header ≡ 12
      → ((read_chunk net c w).0 ≡ overrun) ↔ (declared_length header < 12)
  unfolding read_body
  read_chunk_overrun header w w1 e h =
      rw (read_chunk-body header w w1 e h) (overrun_to header w1, λ below. ground arith)
    where
      overrun_to :
          (header : Bytes) (w1 : net.World)
          → (read_body net header c w1).0 ≡ overrun
          → declared_length header < 12
      overrun_to header w1 r = ground arith

  -- A body that arrives in part is dropped with its header: both reads have been made, and no chunk
  -- comes back.
  pub read_chunk_partial :
      (header body : Bytes) (w w1 w2 : net.World)
      → net.recv c.client_socket 12 w ≡ (some header, w1)
      → length header ≡ 12
      → net.recv c.client_socket (declared_length header - 12) w1 ≡ (some body, w2)
      → length body + 12 < declared_length header
      → read_chunk net c w ≡ ((if net.would_block w2 then retry else broken), w2)
  unfolding read_body
  read_chunk_partial header body w w1 w2 e h e' part =
      read_chunk-body header w w1 e h ∙ ground arith

  -- A peer that reads a payload of createCommandPayload by readChunk gets a chunk of type "CMND"
  -- whose body is the command's first 65522 bytes and a NUL.
  pub payload_read_back :
      (command : Bytes) (w w1 w2 : net.World)
      → net.recv c.client_socket 12 w ≡ (some (take 12 (create_command_payload command)), w1)
      → net.recv c.client_socket (length (create_command_payload command) - 12) w1
        ≡ (some (drop 12 (create_command_payload command)), w2)
      → (buf : Bytes) × (read_chunk net c w ≡ (chunk buf, w2))
        × (take 4 buf ≡ codes "CMND")
        × (drop 12 buf ≡ command_body command)
  payload_read_back command w w1 w2 e e' =
      let body : Bytes = command_body command in
      let header : Bytes = payload_header (length body) in
      let layout = create_command_payload_layout command in
      let declared =
        declared_length-payload_header (length body) (omega (arith, length-command_body command)) in
      let size : length (create_command_payload command) ≡ 12 + length body =
        (create_command_payload_size command).0 in
      let first : net.recv c.client_socket 12 w ≡ (some header, w1) =
        e ∙ ap (λ (bs : Bytes). (some bs, w1)) (ap (take 12) layout) in
      let second : net.recv c.client_socket (declared_length header - 12) w1 ≡ (some body, w2) =
        ap (λ (n : ℕ). net.recv c.client_socket n w1) (omega (arith, declared, size))
        ∙ e'
        ∙ ap (λ (bs : Bytes). (some bs, w2)) (ap (drop 12) layout) in
      let shape = host_header_shape header refl in
      (
        host_header header ++ body,
        read_chunk_whole header body w w1 w2 first refl (omega (arith, declared)) second
            (omega (arith, declared)),
        take_4-append (host_header header) body shape.0 ∙ shape.1,
        drop_append 12 (host_header header) body shape.0,
      )
