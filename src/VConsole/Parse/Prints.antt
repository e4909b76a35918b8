-- ===== src/VConsole/Parse/Prints.antt =====
-- parsePRNT, parseADON and parseCVAR against the wire format.
use cs2remote_console.Base.{
  length, length-append, drop_append, Bytes, be16_bytes, be32_bytes, Lacks, ℕ, ◌<◌, ◌≡◌, refl, ap,
  ◌∙◌, subst, some, [], ◌∷◌, ◌++◌, append_assoc, arith,
}
use cs2remote_console.VConsole.Memory.{read_mem, ntohs_at, host_at, c_string_at, le_value}
use cs2remote_console.VConsole.Memory.Reads.{
  read_mem_at, read_mem_shift, ntohl_at_word, ntohs_at_shift, ntohs_at_word, drop_shift,
  c_string-append,
}
use cs2remote_console.VConsole.Parse.{strip_non_ascii, parse_prnt, parse_adon}

-- The 24 bytes between the channel and the text of a PRNT packet, of which 4 are the colour.
pub record PrntGap : Type 0 where
  pub before : Bytes
  pub color : Bytes
  pub behind : Bytes
  pub last : Bytes

pub record IsPrntGap (g : PrntGap) : Type 0 where
  pub before_size : length g.before ≡ 8
  pub color_size : length g.color ≡ 4
  pub behind_size : length g.behind ≡ 8
  pub last_size : length g.last ≡ 4

-- The body of a PRNT packet, with what stands behind the text's terminator.
unfoldable pub encode_prnt : ℕ → PrntGap → Bytes → Bytes → Bytes
encode_prnt id g text rest =
    be32_bytes id ++ (g.before ++ (g.color ++ (g.behind ++ (g.last ++ (text ++ 0 ∷ rest)))))

module _ (header : Bytes) (id : ℕ) (g : PrntGap) (text rest : Bytes) (h : length header ≡ 12)
    (word : id < 4294967296) (v : IsPrntGap g) (t : Lacks 0 text) where
  abbrev gap_text : Bytes
  gap_text = g.before ++ (g.color ++ (g.behind ++ (g.last ++ (text ++ 0 ∷ rest))))

  unknown_read :
      read_mem (header ++ (be32_bytes id ++ gap_text)) 16 20
      ≡ some (g.before ++ (g.color ++ g.behind))
  unknown_read =
      rw
        (
          read_mem_shift header (be32_bytes id ++ gap_text) 16 4 20 (omega (arith, h)),
          read_mem_shift (be32_bytes id) gap_text 4 0 20 refl,
        )
        (subst (λ (bs : Bytes). read_mem bs 0 20 ≡ some (g.before ++ (g.color ++ g.behind)))
          (append_assoc g.before (g.color ++ g.behind) (g.last ++ (text ++ 0 ∷ rest))
            ∙ ap (λ (bs : Bytes). g.before ++ bs)
                (append_assoc g.color g.behind (g.last ++ (text ++ 0 ∷ rest))))
          (read_mem_at [] (g.before ++ (g.color ++ g.behind)) (g.last ++ (text ++ 0 ∷ rest)) 0 20
            refl
            (omega (
              arith,
              length-append g.before (g.color ++ g.behind),
              length-append g.color g.behind,
              v.before_size,
              v.color_size,
              v.behind_size,
            ))))

  color_read : read_mem (header ++ (be32_bytes id ++ gap_text)) 24 4 ≡ some g.color
  color_read =
      rw
        (
          read_mem_shift header (be32_bytes id ++ gap_text) 24 12 4 (omega (arith, h)),
          read_mem_shift (be32_bytes id) gap_text 12 8 4 refl,
        )
        (read_mem_at g.before g.color (g.behind ++ (g.last ++ (text ++ 0 ∷ rest))) 8 4 v.before_size
          v.color_size)

  text_read : c_string_at (header ++ (be32_bytes id ++ gap_text)) 40 ≡ some text
  unfolding c_string_at
  text_read =
      rw
        (
          drop_shift header (be32_bytes id ++ gap_text) 40 28 (omega (arith, h)),
          drop_shift (be32_bytes id) gap_text 28 24 refl,
          drop_shift g.before (g.color ++ (g.behind ++ (g.last ++ (text ++ 0 ∷ rest)))) 24 16
              (omega (arith, v.before_size)),
          drop_shift g.color (g.behind ++ (g.last ++ (text ++ 0 ∷ rest))) 16 12
              (omega (arith, v.color_size)),
          drop_shift g.behind (g.last ++ (text ++ 0 ∷ rest)) 12 4 (omega (arith, v.behind_size)),
          drop_append 4 g.last (text ++ 0 ∷ rest) v.last_size,
        )
        (c_string-append text rest t)

  -- A PRNT packet is read back: its channel, its colour as a host-order word, and the ASCII part of
  -- its text, with the 20 unknown bytes that overlap the colour; bytes behind the terminator do not
  -- matter.
  pub parse_prnt-encode :
      parse_prnt (header ++ encode_prnt id g text rest)
      ≡ some (record {
        channel_id = id;
        unknown = g.before ++ (g.color ++ g.behind);
        color = le_value g.color;
        message = strip_non_ascii text;
      })
  unfolding parse_prnt encode_prnt host_at
  parse_prnt-encode =
      rw (ntohl_at_word header gap_text 12 id h word, unknown_read, color_read, text_read) refl

-- The body of an ADON packet.
pub encode_adon : ℕ → Bytes → Bytes
encode_adon unknown name = be16_bytes unknown ++ (be16_bytes (length name) ++ name)

-- An ADON packet is read back, whatever stands behind the name.
parse_adon-encode :
    (header : Bytes) (unknown : ℕ) (name rest : Bytes)
    → length header ≡ 12
    → unknown < 65536
    → length name < 65536
    → parse_adon (header ++ (encode_adon unknown name ++ rest))
      ≡ some (record { unknown = unknown; name_length = length name; name = name })
unfolding parse_adon encode_adon
parse_adon-encode header unknown name rest h w n =
    let tail : Bytes = be16_bytes (length name) ++ (name ++ rest) in
    let behind : read_mem (header ++ (be16_bytes unknown ++ tail)) 16 (length name) ≡ some name =
      rw (read_mem_shift header (be16_bytes unknown ++ tail) 16 4 (length name) (omega (arith, h)))
        (read_mem_at (be16_bytes unknown ++ be16_bytes (length name)) name rest 4 (length name) refl
          refl) in
    let size : ntohs_at (header ++ (be16_bytes unknown ++ tail)) 14 ≡ some (length name) =
      rw (ntohs_at_shift header (be16_bytes unknown ++ tail) 14 2 (omega (arith, h)))
        (ntohs_at_word (be16_bytes unknown) (name ++ rest) 2 (length name) refl n) in
    rw (ntohs_at_word header tail 12 unknown h w, size, behind) refl
