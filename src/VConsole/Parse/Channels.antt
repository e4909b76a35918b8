-- ===== src/VConsole/Parse/Channels.antt =====
-- parseCHAN against the wire format: a 16-bit count and then 58 bytes for each channel.
use cs2remote_console.Base.{
  length, take, All, length-append, length-take, take_append, Bytes, be16_bytes, be32_bytes, ℕ,
  zero, suc, ◌+◌, ◌*◌, ◌/◌, ◌≤◌, ◌<◌, ◌≡◌, refl, ap, ◌∙◌, some, List, [], ◌∷◌, ◌++◌, arith,
}
use cs2remote_console.VConsole.Memory.{read_mem, ntohl_at}
use cs2remote_console.VConsole.Memory.Reads.{
  read_mem_shift, ntohl_at_shift, read_mem_at, ntohl_at_word,
}
use cs2remote_console.VConsole.Messages.{Channel, Chan}
use cs2remote_console.VConsole.Parse.{parse_channel, parse_channels, parse_chan, channel_count}
use cs2remote_console.VConsole.Parse.Bounds.{channel_count_lem}

-- The 58 bytes of one channel, in network order.
pub encode_channel : Channel → Bytes
encode_channel c =
    be32_bytes c.id
    ++ (be32_bytes c.unknown1
        ++ (be32_bytes c.unknown2
            ++ (be32_bytes c.verbosity_default
                ++ (be32_bytes c.verbosity_current
                    ++ (be32_bytes c.text_rgba_override ++ c.name)))))

pub encode_channels : List Channel → Bytes
encode_channels [] = []
encode_channels (c ∷ cs) = encode_channel c ++ encode_channels cs

-- Integers of 32 bits, and a name of 34 bytes that ends in NUL.
pub record IsWireChannel (c : Channel) : Type 0 where
  pub id_word : c.id < 4294967296
  pub unknown1_word : c.unknown1 < 4294967296
  pub unknown2_word : c.unknown2 < 4294967296
  pub default_word : c.verbosity_default < 4294967296
  pub current_word : c.verbosity_current < 4294967296
  pub color_word : c.text_rgba_override < 4294967296
  pub text : Bytes
  pub name_splits : c.name ≡ text ++ 0 ∷ []
  pub text_length : length text ≡ 33

name_length : {c : Channel} → IsWireChannel c → length c.name ≡ 34
name_length v = rw v.name_splits (omega (arith, length-append v.text (0 ∷ []), v.text_length))

name_terminated : {c : Channel} → IsWireChannel c → take 33 c.name ++ 0 ∷ [] ≡ c.name
name_terminated v = rw (v.name_splits, take_append 33 v.text (0 ∷ []) v.text_length)

parse_channel_shift :
    (pre rest : Bytes) (i k : ℕ)
    → i ≡ length pre + k
    → parse_channel (pre ++ rest) i ≡ parse_channel rest k
unfolding parse_channel
parse_channel_shift pre rest i k e = rw (
  ntohl_at_shift pre rest i k e,
  ntohl_at_shift pre rest (i + 4) (k + 4) (omega arith),
  ntohl_at_shift pre rest (i + 8) (k + 8) (omega arith),
  ntohl_at_shift pre rest (i + 12) (k + 12) (omega arith),
  ntohl_at_shift pre rest (i + 16) (k + 16) (omega arith),
  ntohl_at_shift pre rest (i + 20) (k + 20) (omega arith),
  read_mem_shift pre rest (i + 24) (k + 24) 34 (omega arith),
)

parse_channels_shift :
    (n : ℕ) (pre rest : Bytes) (i k : ℕ)
    → i ≡ length pre + k
    → parse_channels n (pre ++ rest) i ≡ parse_channels n rest k
unfolding parse_channels
parse_channels_shift zero pre rest i k e = refl
parse_channels_shift (suc n) pre rest i k e = rw (
  parse_channel_shift pre rest i k e,
  parse_channels_shift n pre rest (i + 58) (k + 58) (omega arith),
)

-- One channel, behind a prefix of `off` bytes for the six integers before its name.
parse_channel-encode :
    (c : Channel) (rest : Bytes)
    → IsWireChannel c
    → parse_channel (encode_channel c ++ rest) 0 ≡ some c
unfolding parse_channel encode_channel
parse_channel-encode c rest v =
    let buf = encode_channel c ++ rest in
    let e0 : ntohl_at buf 0 ≡ some c.id = ntohl_at_word [] _ 0 c.id refl v.id_word in
    let p1 : Bytes = be32_bytes c.id in
    let e1 : ntohl_at buf 4 ≡ some c.unknown1 =
      ntohl_at_word p1 _ 4 c.unknown1 refl v.unknown1_word in
    let p2 : Bytes = p1 ++ be32_bytes c.unknown1 in
    let e2 : ntohl_at buf 8 ≡ some c.unknown2 =
      ntohl_at_word p2 _ 8 c.unknown2 refl v.unknown2_word in
    let p3 : Bytes = p2 ++ be32_bytes c.unknown2 in
    let e3 : ntohl_at buf 12 ≡ some c.verbosity_default =
      ntohl_at_word p3 _ 12 c.verbosity_default refl v.default_word in
    let p4 : Bytes = p3 ++ be32_bytes c.verbosity_default in
    let e4 : ntohl_at buf 16 ≡ some c.verbosity_current =
      ntohl_at_word p4 _ 16 c.verbosity_current refl v.current_word in
    let p5 : Bytes = p4 ++ be32_bytes c.verbosity_current in
    let e5 : ntohl_at buf 20 ≡ some c.text_rgba_override =
      ntohl_at_word p5 _ 20 c.text_rgba_override refl v.color_word in
    let p6 : Bytes = p5 ++ be32_bytes c.text_rgba_override in
    let e6 : read_mem buf 24 34 ≡ some c.name =
      read_mem_at p6 c.name rest 24 34 refl (name_length v) in
    rw (e0, e1, e2, e3, e4, e5, e6) (ground (arith, name_terminated v))

length-encode_channel : {c : Channel} → IsWireChannel c → length (encode_channel c) ≡ 58
unfolding encode_channel
length-encode_channel v = omega (arith, name_length v)

length-encode_channels :
    (cs : List Channel) → All IsWireChannel cs → length (encode_channels cs) ≡ 58 * length cs
unfolding encode_channels
length-encode_channels [] v = refl
length-encode_channels (c ∷ cs) v = omega (
  arith,
  length-append (encode_channel c) (encode_channels cs),
  length-encode_channel v.0,
  length-encode_channels cs v.1,
)

parse_channels-encode :
    (n : ℕ) (cs : List Channel)
    → n ≤ length cs
    → All IsWireChannel cs
    → parse_channels n (encode_channels cs) 0 ≡ some (take n cs)
unfolding parse_channels encode_channels
parse_channels-encode zero cs h v = refl
parse_channels-encode (suc n) [] h v = absurd (omega arith)
parse_channels-encode (suc n) (c ∷ cs) h v = rw (
  parse_channel-encode c (encode_channels cs) v.0,
  parse_channels_shift n (encode_channel c) (encode_channels cs) 58 0
      (omega (arith, length-encode_channel v.0)),
  parse_channels-encode n cs (omega arith) v.1,
)

-- A chunk of 12 header bytes, any count, and the channels one after another. parseCHAN reads a
-- prefix of the channels, each as it was encoded; the prefix has 58 * n / 60 of n channels.
pub parse_chan-encode :
    (header : Bytes) (count : ℕ) (cs : List Channel)
    → length header ≡ 12
    → length cs ≤ 1129
    → All IsWireChannel cs
    → parse_chan (header ++ (be16_bytes count ++ encode_channels cs))
      ≡ some
          (record { num_channels = 58 * length cs / 60; channels = take (58 * length cs / 60) cs })
unfolding parse_chan
parse_chan-encode header count cs h small v =
    let size = length-append header (be16_bytes count ++ encode_channels cs) in
    let body = length-encode_channels cs v in
    let buf = header ++ (be16_bytes count ++ encode_channels cs) in
    let counted : channel_count (length buf) ≡ 58 * length cs / 60 =
      channel_count_lem (length buf) (omega arith) (omega arith)
      ∙ ap (λ (n : ℕ). n / 60) (omega arith) in
    rw (
      counted,
      parse_channels_shift (58 * length cs / 60) header (be16_bytes count ++ encode_channels cs) 14
          2 (omega arith),
      parse_channels_shift (58 * length cs / 60) (be16_bytes count) (encode_channels cs) 2 0 refl,
      parse_channels-encode (58 * length cs / 60) cs (omega arith) v,
    )

-- A chunk of 12 header bytes, any count, and from 1 to 1129 well-formed channels one after another:
-- parseCHAN succeeds, and gives fewer channels than the chunk holds.
pub parse_chan_loses :
    (header : Bytes) (count : ℕ) (cs : List Channel)
    → length header ≡ 12
    → length cs ≤ 1129
    → 0 < length cs
    → All IsWireChannel cs
    → (c : Chan) × (parse_chan (header ++ (be16_bytes count ++ encode_channels cs)) ≡ some c)
      × (length c.channels < length cs)
parse_chan_loses header count cs h small some_channel v = (
  record { num_channels = 58 * length cs / 60; channels = take (58 * length cs / 60) cs },
  parse_chan-encode header count cs h small v,
  omega (arith, length-take (58 * length cs / 60) cs),
)
