-- ===== src/VConsole/Parse/Bounds.antt =====
-- How long a chunk has to be for its parser to stay inside it.
use cs2remote_console.Base.{
  leb, ◌==◌, Bool-cases, Option-cases, is_some, length, take, drop, length-drop, Bytes, ℕ, zero,
  suc, ◌+◌, ◌-◌, ◌*◌, ◌/◌, ◌≤◌, ◌<◌, ◌≡◌, refl, ap, ◌⊎◌, inl, inr, Bool, true, false, ◌&&◌, ◌||◌,
  none, some, List, [], ◌∷◌, arith,
}
use cs2remote_console.VConsole.Memory.{read_mem, be_value, ntohs_at, c_string, c_string_at}
use cs2remote_console.VConsole.Memory.Reads.{
  read_mem_in, is_some-read_mem, length-read_mem, is_some-ntohl_at, is_some-host_at,
}
use cs2remote_console.VConsole.Messages.{Channel, Chan}
use cs2remote_console.VConsole.Parse.{
  host_words, parse_ainf, parse_adon, parse_channel, parse_channels, channel_count, parse_chan,
  parse_prnt, parse_cvar, parse_cfgv,
}

is_some-parse_channel :
    (buf : Bytes) (off : ℕ) → is_some (parse_channel buf off) ≡ leb (off + 58) (length buf)
unfolding parse_channel
is_some-parse_channel buf off = ground (
  arith,
  is_some-ntohl_at buf off,
  is_some-ntohl_at buf (off + 4),
  is_some-ntohl_at buf (off + 8),
  is_some-ntohl_at buf (off + 12),
  is_some-ntohl_at buf (off + 16),
  is_some-ntohl_at buf (off + 20),
  is_some-read_mem buf (off + 24) 34,
)

abbrev pub has_nul : Bytes → Bool
has_nul [] = false
has_nul (c ∷ cs) = c == 0 || has_nul cs

has_nul-length : (bs : Bytes) → has_nul bs ≡ true → 0 < length bs
has_nul-length [] h = cc
has_nul-length (c ∷ cs) h = omega arith

is_some-c_string : (bs : Bytes) → is_some (c_string bs) ≡ has_nul bs
unfolding c_string
is_some-c_string [] = refl
is_some-c_string (c ∷ cs) = ground (arith, is_some-c_string cs)

is_some-parse_cfgv : (buf : Bytes) → is_some (parse_cfgv buf) ≡ leb 141 (length buf)
unfolding parse_cfgv
is_some-parse_cfgv buf = elim (Option-cases (read_mem buf 12 129)) [
  | inl e ↦ rw e (ground (arith, is_some-read_mem buf 12 129))
  | inr (raw, e) ↦ rw e (
      ground (
        arith,
        is_some-read_mem raw 0 64,
        is_some-read_mem raw 64 65,
        length-read_mem buf 12 129 e,
        is_some-read_mem buf 12 129,
      ))
]

is_some-parse_cvar : (buf : Bytes) → is_some (parse_cvar buf) ≡ leb 96 (length buf)
unfolding parse_cvar
is_some-parse_cvar buf = elim (Option-cases (read_mem buf 12 84)) [
  | inl e ↦ rw e (ground (arith, is_some-read_mem buf 12 84))
  | inr (raw, e) ↦ rw e (
      ground (
        arith,
        is_some-read_mem raw 0 64,
        is_some-ntohl_at raw 64,
        is_some-ntohl_at raw 68,
        is_some-ntohl_at raw 72,
        is_some-ntohl_at raw 76,
        is_some-host_at raw 80 1,
        length-read_mem buf 12 84 e,
        is_some-read_mem buf 12 84,
      ))
]

is_some-host_words :
    (n : ℕ) (buf : Bytes) (off : ℕ)
    → off ≤ length buf
    → is_some (host_words n buf off) ≡ leb (off + 4 * n) (length buf)
unfolding host_words
is_some-host_words zero buf off h = ground arith
is_some-host_words (suc n) buf off h =
    ground (arith, is_some-host_at buf off 4, is_some-host_words n buf (off + 4))

host_words-none :
    (n : ℕ) (buf : Bytes) (off : ℕ) → length buf < off + 4 → host_words (suc n) buf off ≡ none
unfolding host_words
host_words-none n buf off h = ground (arith, is_some-host_at buf off 4)

is_some-parse_ainf : (buf : Bytes) → is_some (parse_ainf buf) ≡ leb 89 (length buf)
unfolding parse_ainf
is_some-parse_ainf buf = elim (Bool-cases (leb 12 (length buf))) [
  | inl long ↦ ground (arith, is_some-host_words 19 buf 12, is_some-host_at buf (12 + 19 * 4) 1)
  | inr short ↦ rw (host_words-none 18 buf 12 (ground arith), parse_ainf) (ground arith)
]

-- The four parsers of a fixed layout stay inside the chunk exactly when it has the size of the
-- struct that they copy behind the 12 bytes of its header: 89 bytes for AINF, 96 for CVAR (three of
-- which are padding of the C++ struct), 141 for CFGV, and 58 bytes from `off` on for each channel.
fixed_parsers_bounds :
    (buf : Bytes) (off : ℕ)
    → (is_some (parse_ainf buf) ≡ leb 89 (length buf))
      × (is_some (parse_cvar buf) ≡ leb 96 (length buf))
      × (is_some (parse_cfgv buf) ≡ leb 141 (length buf))
      × (is_some (parse_channel buf off) ≡ leb (off + 58) (length buf))
fixed_parsers_bounds buf off = (
  is_some-parse_ainf buf,
  is_some-parse_cvar buf,
  is_some-parse_cfgv buf,
  is_some-parse_channel buf off,
)

-- parseADON stays inside the chunk exactly when the chunk has room for both 16-bit fields and for
-- as many bytes as the second of them, the name length, says.
pub parse_adon_bounds :
    (buf : Bytes)
    → is_some (parse_adon buf)
      ≡ (leb 16 (length buf) && leb (16 + be_value 0 (take 2 (drop 14 buf))) (length buf))
unfolding parse_adon ntohs_at
parse_adon_bounds buf = ground (
  arith,
  is_some-read_mem buf 12 2,
  is_some-read_mem buf 14 2,
  read_mem_in buf 14 2,
  is_some-read_mem buf 16 (be_value 0 (take 2 (drop 14 buf))),
)

-- parsePRNT stays inside the chunk exactly when a NUL byte stands at or behind offset 40.
parse_prnt_bounds : (buf : Bytes) → is_some (parse_prnt buf) ≡ has_nul (drop 40 buf)
unfolding parse_prnt c_string_at
parse_prnt_bounds buf = ground (
  arith,
  is_some-ntohl_at buf 12,
  is_some-read_mem buf 16 20,
  is_some-host_at buf 24 4,
  is_some-c_string (drop 40 buf),
  has_nul-length (drop 40 buf),
  length-drop 40 buf,
)

is_some-parse_channels :
    (n : ℕ) (buf : Bytes) (off : ℕ)
    → off ≤ length buf
    → is_some (parse_channels n buf off) ≡ leb (off + 58 * n) (length buf)
unfolding parse_channels
is_some-parse_channels zero buf off h = ground arith
is_some-parse_channels (suc n) buf off h =
    ground (arith, is_some-parse_channel buf off, is_some-parse_channels n buf (off + 58))

parse_channels-suc :
    (n : ℕ) (buf : Bytes) (off : ℕ) {cs : List Channel}
    → parse_channels (suc n) buf off ≡ some cs
    → (c : Channel) × (rest : List Channel) × (parse_channels n buf (off + 58) ≡ some rest)
      × (cs ≡ c ∷ rest)
unfolding parse_channels
parse_channels-suc n buf off e = ground arith

length-parse_channels :
    (n : ℕ) (buf : Bytes) (off : ℕ) {cs : List Channel}
    → parse_channels n buf off ≡ some cs
    → length cs ≡ n
unfolding parse_channels
length-parse_channels zero buf off e = ground arith
length-parse_channels (suc n) buf off {cs} e =
    let (c, rest, read, e') = parse_channels-suc n buf off e in
    rw e' (ap suc (length-parse_channels n buf (off + 58) read))

pub channel_count_lem :
    (size : ℕ) → 14 ≤ size → size < 65536 → channel_count size ≡ (size - 14) / 60
unfolding channel_count
channel_count_lem size lo hi = omega arith

-- parseCHAN stays inside every chunk of 14 to 65535 bytes, and takes one channel for each 60 bytes
-- behind the header and the count.
parse_chan_bounds :
    (buf : Bytes)
    → 14 ≤ length buf
    → length buf < 65536
    → (c : Chan) × (parse_chan buf ≡ some c)
      × (c.num_channels ≡ (length buf - 14) / 60)
      × (length c.channels ≡ c.num_channels)
unfolding parse_chan
parse_chan_bounds buf lo hi =
    let count = channel_count (length buf) in
    let counted = channel_count_lem (length buf) lo hi in
    elim (Option-cases (parse_channels count buf 14)) [
      | inl e ↦ absurd (ground (arith, is_some-parse_channels count buf 14 lo, counted))
      | inr (cs, e) ↦ (
        record { num_channels = count; channels = cs },
        rw e refl,
        counted,
        length-parse_channels count buf 14 e,
      )
    ]

parse_channels-none :
    (n : ℕ) (buf : Bytes) (off : ℕ) → length buf < off + 58 → parse_channels (suc n) buf off ≡ none
unfolding parse_channels
parse_channels-none n buf off h = ground (arith, is_some-parse_channel buf off)

-- On a chunk of 12 or 13 bytes the size computation wraps below zero, and parseCHAN reads past the
-- end of the chunk.
parse_chan_underflow : (buf : Bytes) → (length buf ≡ 12) ⊎ (length buf ≡ 13) → parse_chan buf ≡ none
unfolding parse_chan channel_count
parse_chan_underflow buf (inl e) = rw e (rw (parse_channels-none 17475 buf 14 (omega arith)))
parse_chan_underflow buf (inr e) = rw e (rw (parse_channels-none 17475 buf 14 (omega arith)))
