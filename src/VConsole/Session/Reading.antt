-- ===== src/VConsole/Session/Reading.antt =====
-- readChunk against the framing of the protocol: 12 header bytes, then as many bytes as the header
-- says less 12.
use cs2remote_console.Base.{
  Option-cases, length, take, drop, length-append, length-take, length-drop, take_append,
  drop_append, length-reverse, Bytes, ℕ, ◌+◌, ◌-◌, ◌≤◌, ◌≡◌, refl, ap, ◌∙◌, inl, inr, Option, some,
  [], ◌∷◌, ◌++◌, reverse, arith,
}
use cs2remote_console.Net.{Sockets}
use cs2remote_console.VConsole.Session.{
  VConsole, chunk, declared_length, host_header, read_body, read_chunk,
}

-- What recv is documented to do: it never returns more bytes than it was asked for.
abbrev pub RecvIsBounded : Sockets → Type 0
RecvIsBounded net =
    (s : Option ℕ) (n : ℕ) (w : net.World) (bs : Bytes)
    → (net.recv s n w).0 ≡ some bs
    → length bs ≤ n

-- Four bytes of a header keep their place, and the header keeps its size.
pub host_header_shape :
    (header : Bytes)
    → length header ≡ 12
    → (length (host_header header) ≡ 12) × (take 4 (host_header header) ≡ take 4 header)
unfolding host_header
host_header_shape header h =
    let a : Bytes = take 4 header in
    let b : Bytes = reverse (take 4 (drop 4 header)) in
    let c : Bytes = reverse (take 2 (drop 8 header)) in
    let d : Bytes = reverse (take 2 (drop 10 header)) in
    (
      omega (
        arith,
        length-append a (b ++ (c ++ d)),
        length-append b (c ++ d),
        length-append c d,
        length-reverse (take 4 (drop 4 header)),
        length-reverse (take 2 (drop 8 header)),
        length-reverse (take 2 (drop 10 header)),
        length-take 4 header,
        length-take 4 (drop 4 header),
        length-take 2 (drop 8 header),
        length-take 2 (drop 10 header),
        length-drop 4 header,
        length-drop 8 header,
        length-drop 10 header,
      ),
      take_append 4 a (b ++ (c ++ d)) (omega (arith, length-take 4 header)),
    )

pub take_4-append : (pre rest : Bytes) → length pre ≡ 12 → take 4 (pre ++ rest) ≡ take 4 pre
take_4-append (a ∷ b ∷ c ∷ d ∷ pre) rest h = refl
take_4-append [] rest h = absurd (omega arith)
take_4-append (a ∷ []) rest h = absurd (omega arith)
take_4-append (a ∷ b ∷ []) rest h = absurd (omega arith)
take_4-append (a ∷ b ∷ c ∷ []) rest h = absurd (omega arith)

module _ (net : Sockets) (c : VConsole net.World) where
  read_body_inv :
      (header buf : Bytes) (w w' : net.World)
      → read_body net header c w ≡ (chunk buf, w')
      → (body : Bytes) × (net.recv c.client_socket (declared_length header - 12) w
          ≡ (some body, w'))
        × (declared_length header ≤ length body + 12)
        × (12 ≤ declared_length header)
        × (buf ≡ host_header header ++ body)
  unfolding read_body
  read_body_inv header buf w w' e =
      elim (Option-cases (net.recv c.client_socket (declared_length header - 12) w).0) [
        | inl missing ↦ absurd (ground arith)
        | inr (body, found) ↦ (body, ground arith, ground arith, ground arith, ground arith)
      ]

  read_chunk_inv :
      (buf : Bytes) (w w' : net.World)
      → read_chunk net c w ≡ (chunk buf, w')
      → (header : Bytes) × (middle : net.World) × (net.recv c.client_socket 12 w
          ≡ (some header, middle))
        × (12 ≤ length header)
        × (read_body net header c middle ≡ (chunk buf, w'))
  unfolding read_chunk
  read_chunk_inv buf w w' e = elim (Option-cases (net.recv c.client_socket 12 w).0) [
    | inl missing ↦ absurd (ground arith)
    | inr (header, found) ↦
        (header, (net.recv c.client_socket 12 w).1, ground arith, ground arith, ground arith)
  ]

module _ (net : Sockets) (bounded : RecvIsBounded net) (c : VConsole net.World)
    (w : net.World) where
  -- What readChunk saw when it returned a chunk.
  pub record Framed (buf : Bytes) (w' : net.World) : Type 0 where
    pub header : Bytes
    pub body : Bytes
    pub middle : net.World
    pub header_read : net.recv c.client_socket 12 w ≡ (some header, middle)
    pub header_whole : length header ≡ 12
    pub body_read : net.recv c.client_socket (declared_length header - 12) middle ≡ (some body, w')
    pub size : length buf ≡ declared_length header
    pub message_type : take 4 buf ≡ take 4 header
    pub rest : drop 12 buf ≡ body

  -- Where recv gives no more bytes than it is asked for, readChunk returns a chunk only if both reads
  -- were complete. The chunk then has the size that its header declares, the header's type in front,
  -- and behind the header the bytes as they were received.
  pub read_chunk-Framed :
      {buf : Bytes} {w' : net.World} → read_chunk net c w ≡ (chunk buf, w') → Framed buf w'
  unfolding read_chunk read_body
  read_chunk-Framed {buf} {w'} e =
      let (header, middle, header_read, long, e') = read_chunk_inv net c buf w w' e in
      let (body, body_read, full, enough, split) = read_body_inv net c header buf middle w' e' in
      let whole : length header ≡ 12 =
        omega (arith, bounded c.client_socket 12 w header (ap (λ r. r.0) header_read)) in
      let exact : length body + 12 ≡ declared_length header = omega (
        arith,
        bounded c.client_socket (declared_length header - 12) middle body (ap (λ r. r.0) body_read),
      ) in
      let shape = host_header_shape header whole in
      record {
        header = header;
        body = body;
        middle = middle;
        header_read = header_read;
        header_whole = whole;
        body_read = body_read;
        size = ap length split ∙ omega (arith, length-append (host_header header) body, shape.0);
        message_type =
            ap (take 4) split ∙ take_4-append (host_header header) body shape.0 ∙ shape.1;
        rest = ap (drop 12) split ∙ drop_append 12 (host_header header) body shape.0;
      }
