-- ===== src/VConsole/Parse.antt =====
-- The parsers of libvconsole/src/vconsole.cpp, parseAINF to parseCFGV, and stripNonAscii of
-- vconsole.h. A chunk's first 12 bytes are its VConChunk header, so `data` starts at offset 12.
pub mod Bounds
pub mod Channels
pub mod Prints
pub mod Fits
use cs2remote_console.Base.{
  leb, ◌>>=◌, length, take, filterb, Bytes, ℕ, zero, suc, ◌+◌, ◌-◌, ◌*◌, ◌/◌, ◌%◌, ◌^◌, Option,
  some, List, [], ◌∷◌, ◌++◌,
}
use cs2remote_console.VConsole.Messages.{Channel, Ainf, Adon, Chan, Prnt, Cvar, Cfgv}
use cs2remote_console.VConsole.Memory.{read_mem, ntohs_at, ntohl_at, host_at, c_string_at}

-- sizeof(VConChunk)
abbrev pub header_size : ℕ
header_size = 12

-- sizeof(Channel): 58 bytes of fields, rounded up to the alignment of its integers.
abbrev pub channel_size : ℕ
channel_size = 60

unfoldable pub strip_non_ascii : Bytes → Bytes
strip_non_ascii input = filterb (λ c. leb c 127) input

-- unknowns.assign(data, data + 19): `n` host-order words from an offset.
unfoldable pub host_words : ℕ → Bytes → ℕ → Option (List ℕ)
host_words zero buf off = some []
host_words (suc n) buf off = do
  word ← host_at buf off 4
  words ← host_words n buf (off + 4)
  some (word ∷ words)

unfoldable pub parse_ainf : Bytes → Option Ainf
parse_ainf buf = do
  unknowns ← host_words 19 buf header_size
  padding ← host_at buf (header_size + 19 * 4) 1
  some (record { unknowns = unknowns; padding = padding })

unfoldable pub parse_adon : Bytes → Option Adon
parse_adon buf = do
  unknown ← ntohs_at buf header_size
  name_length ← ntohs_at buf (header_size + 2)
  name ← read_mem buf (header_size + 4) name_length
  some (record { unknown = unknown; name_length = name_length; name = name })

-- The body of the loop of parseCHAN, with the pointer `data` as an offset.
unfoldable pub parse_channel : Bytes → ℕ → Option Channel
parse_channel buf off = do
  id ← ntohl_at buf off
  unknown1 ← ntohl_at buf (off + 4)
  unknown2 ← ntohl_at buf (off + 8)
  verbosity_default ← ntohl_at buf (off + 12)
  verbosity_current ← ntohl_at buf (off + 16)
  text_rgba_override ← ntohl_at buf (off + 20)
  name ← read_mem buf (off + 24) 34
  some (record {
    id = id;
    unknown1 = unknown1;
    unknown2 = unknown2;
    verbosity_default = verbosity_default;
    verbosity_current = verbosity_current;
    text_rgba_override = text_rgba_override;
    name = take 33 name ++ 0 ∷ [];
  })

unfoldable pub parse_channels : ℕ → Bytes → ℕ → Option (List Channel)
parse_channels zero buf off = some []
parse_channels (suc n) buf off = do
  channel ← parse_channel buf off
  channels ← parse_channels n buf (off + 58)
  some (channel ∷ channels)

-- numChannels is a uint16_t, and the size_t subtraction wraps on a chunk below 14 bytes.
unfoldable pub channel_count : ℕ → ℕ
channel_count size = (size + 2 ^ 64 - header_size - 2) % 2 ^ 64 / channel_size % 2 ^ 16

unfoldable pub parse_chan : Bytes → Option Chan
parse_chan buf = do
  channels ← parse_channels (channel_count (length buf)) buf (header_size + 2)
  some (record { num_channels = channel_count (length buf); channels = channels })

unfoldable pub parse_prnt : Bytes → Option Prnt
parse_prnt buf = do
  channel_id ← ntohl_at buf header_size
  unknown ← read_mem buf (header_size + 4) 20
  color ← host_at buf (header_size + 12) 4
  message ← c_string_at buf (header_size + 28)
  some (record {
    channel_id = channel_id;
    unknown = unknown;
    color = color;
    message = strip_non_ascii message;
  })

-- memcpy of sizeof(Cvar) = 84 bytes: 81 of fields, and 3 of tail padding.
unfoldable pub parse_cvar : Bytes → Option Cvar
parse_cvar buf = do
  raw ← read_mem buf header_size 84
  name ← read_mem raw 0 64
  unknown ← ntohl_at raw 64
  flags ← ntohl_at raw 68
  rangemin ← ntohl_at raw 72
  rangemax ← ntohl_at raw 76
  padding ← host_at raw 80 1
  some (record {
    cvar = record {
      name = name;
      unknown = unknown;
      flags = flags;
      rangemin = rangemin;
      rangemax = rangemax;
      padding = padding;
    };
  })

-- memcpy of sizeof(CFGV) = 129 bytes.
unfoldable pub parse_cfgv : Bytes → Option Cfgv
parse_cfgv buf = do
  raw ← read_mem buf header_size 129
  variable ← read_mem raw 0 64
  value ← read_mem raw 64 65
  some (record { variable = variable; value = value })
