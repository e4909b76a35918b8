-- ===== src/Examples/Protocol.antt =====
-- libvconsole: its theorems at concrete chunks.
use cs2remote_console.Base.{
  is_some, length, take, drop, replicate, length-take, Bytes, codes, eqb, be16_bytes, ℕ, ◌≤◌, ◌≡◌,
  refl, ap, true, false, Option, none, some, List, [], ◌∷◌, ◌++◌, arith,
}
use cs2remote_console.Examples.Scripted.{Script, quiet, next_result, scripted}
use cs2remote_console.VConsole.Command.{create_command_payload, truncate}
use cs2remote_console.VConsole.Command.Framing.{command_body}
use cs2remote_console.VConsole.Messages.{Adon, Ainf, Cfgv, Chan, Channel, Cvar, CvarInfo, Prnt}
use cs2remote_console.VConsole.Memory.{c_string_at, be_value, read_mem, ntohl_at, host_at, le_value}
use cs2remote_console.VConsole.Parse.{
  parse_adon, parse_ainf, parse_cfgv, parse_chan, parse_cvar, parse_prnt, strip_non_ascii,
}
use cs2remote_console.VConsole.Parse.Fits.{
  AinfFits, AdonFits, ChanFits, PrntFits, CvarFits, CfgvFits,
}
use cs2remote_console.VConsole.Parse.Fits.Parsers.{parsed_values_fit}
use cs2remote_console.VConsole.Parse.Bounds.{parse_adon_bounds}
use cs2remote_console.VConsole.Parse.Channels.{IsWireChannel, encode_channels, parse_chan-encode}
use cs2remote_console.VConsole.Session.{
  VConsole, chunk, declared_length, host_header, read_body, read_chunk, process_packet,
  process_incoming_data,
}
use cs2remote_console.VConsole.Session.Reading.{RecvIsBounded, Framed, read_chunk-Framed}
use cs2remote_console.VConsole.Session.Chunks.{payload_read_back}
use cs2remote_console.VConsole.Session.Dispatch.{process_packets}

abbrev client : VConsole Script
client = record {
  client_socket = some 7;
  on_prnt_received = some (λ p w. record w { sent = w.sent ++ (none, p.message) ∷ [] });
  on_cvars_loaded = none;
  on_adon_received = none;
  on_disconnected = none;
  on_chan_received = none;
  channels = [];
  cvars = [];
  adon_name = [];
}

abbrev feed : List (Option Bytes) → Script
feed incoming = record quiet { incoming = incoming }

abbrev status_payload : Bytes
status_payload = codes "CMND" ++ (0 ∷ 0xD4 ∷ 0 ∷ 0 ∷ 0 ∷ 19 ∷ 0 ∷ 0 ∷ codes "status") ++ 0 ∷ []

payload_test : create_command_payload (codes "status") ≡ status_payload
unfolding create_command_payload truncate
payload_test = refl

some_of : {a b : Bytes} → some a ≡ some b → a ≡ b
some_of e = cc

scripted_bounded : RecvIsBounded scripted
scripted_bounded s n w bs e = bounded n w.incoming bs e
  where
    bounded :
        (n : ℕ) (rs : List (Option Bytes)) (bs : Bytes) → next_result n rs ≡ some bs → length bs ≤ n
    bounded n [] bs e = cc
    bounded n (none ∷ rs) bs e = cc
    bounded n (some r ∷ rs) bs e = omega (arith, length-take n r, ap length (some_of e))

-- A peer that sends "status" is read back.
payload_read_back_example :
    (buf : Bytes) × (read_chunk scripted client
        (feed (some (take 12 status_payload) ∷ some (drop 12 status_payload) ∷ []))
      ≡ (chunk buf, quiet))
    × (take 4 buf ≡ codes "CMND")
    × (drop 12 buf ≡ command_body (codes "status"))
unfolding create_command_payload truncate
payload_read_back_example =
    payload_read_back scripted client (codes "status")
      (feed (some (take 12 status_payload) ∷ some (drop 12 status_payload) ∷ []))
      (feed (some (drop 12 status_payload) ∷ [])) quiet refl refl

-- A header of type "PRNT" that declares 16 bytes, and four bytes behind it.
abbrev small_header : Bytes
small_header = codes "PRNT" ++ (0 ∷ 0xD4 ∷ 0 ∷ 0 ∷ 0 ∷ 16 ∷ 0 ∷ 5 ∷ [])

abbrev small_chunk : Bytes
small_chunk = codes "PRNT" ++ (0 ∷ 0 ∷ 0xD4 ∷ 0 ∷ 16 ∷ 0 ∷ 5 ∷ 0 ∷ 1 ∷ 2 ∷ 3 ∷ 4 ∷ [])

small_input :
    read_chunk scripted client (feed (some small_header ∷ some (1 ∷ 2 ∷ 3 ∷ 4 ∷ []) ∷ []))
    ≡ (chunk small_chunk, quiet)
unfolding read_chunk read_body host_header declared_length be_value
small_input = refl

read_chunk-Framed_example :
    Framed scripted scripted_bounded client
      (feed (some small_header ∷ some (1 ∷ 2 ∷ 3 ∷ 4 ∷ []) ∷ []))
      small_chunk
      quiet
read_chunk-Framed_example =
    read_chunk-Framed scripted scripted_bounded client
      (feed (some small_header ∷ some (1 ∷ 2 ∷ 3 ∷ 4 ∷ []) ∷ [])) small_input

abbrev bad_header : Bytes
bad_header = codes "PRNT" ++ (0 ∷ 0xD4 ∷ 0 ∷ 0 ∷ 0 ∷ 8 ∷ 0 ∷ 5 ∷ [])

abbrev game_channel : Channel
game_channel = record {
  id = 5;
  unknown1 = 0;
  unknown2 = 0;
  verbosity_default = 3;
  verbosity_current = 3;
  text_rgba_override = 0xD0D0D0FF;
  name = codes "Console" ++ replicate 27 0;
}

game_channel-wire : IsWireChannel game_channel
game_channel-wire = record {
  id_word = omega arith;
  unknown1_word = omega arith;
  unknown2_word = omega arith;
  default_word = omega arith;
  current_word = omega arith;
  color_word = omega arith;
  text = codes "Console" ++ replicate 26 0;
  name_splits = refl;
  text_length = refl;
}

abbrev two_channels : List Channel
two_channels = game_channel ∷ game_channel ∷ []

parse_chan-encode_example :
    parse_chan (small_header ++ (be16_bytes 2 ++ encode_channels two_channels))
    ≡ some (record { num_channels = 1; channels = game_channel ∷ [] })
parse_chan-encode_example =
    parse_chan-encode small_header 2 two_channels refl (omega arith)
      (game_channel-wire, (game_channel-wire, tt))

abbrev zeros : ℕ → Bytes
zeros n = small_header ++ replicate n 0

-- An addon name that is declared longer than the chunk.
abbrev long_name : Bytes
long_name = small_header ++ (0 ∷ 1 ∷ 0 ∷ 9 ∷ codes "map")

parse_adon_bounds_example : is_some (parse_adon long_name) ≡ false
unfolding be_value
parse_adon_bounds_example = parse_adon_bounds long_name

abbrev hello : Bytes
hello = small_header ++ (0 ∷ 0 ∷ 0 ∷ 5 ∷ (replicate 24 1 ++ (codes "hi" ++ 200 ∷ 10 ∷ 0 ∷ [])))

parsed_values_fit_example :
    ((a : Ainf) → parse_ainf hello ≡ some a → AinfFits a)
    × ((a : Adon) → parse_adon hello ≡ some a → AdonFits a)
    × ((c : Chan) → parse_chan hello ≡ some c → ChanFits c)
    × ((p : Prnt) → parse_prnt hello ≡ some p → PrntFits p)
    × ((v : Cvar) → parse_cvar hello ≡ some v → CvarFits v.cvar)
    × ((c : Cfgv) → parse_cfgv hello ≡ some c → CfgvFits c)
parsed_values_fit_example = parsed_values_fit hello (omega arith)

abbrev hello_prnt : Prnt
hello_prnt = record {
  channel_id = 5;
  unknown = replicate 20 1;
  color = 0x01010101;
  message = codes "hi\n";
}

hello_parsed : parse_prnt hello ≡ some hello_prnt
unfolding parse_prnt read_mem ntohl_at host_at be_value le_value c_string_at strip_non_ascii
hello_parsed = refl

abbrev variable_chunk : Bytes
variable_chunk = zeros 84

abbrev zero_variable : CvarInfo
zero_variable = record {
  name = replicate 64 0;
  unknown = 0;
  flags = 0;
  rangemin = 0;
  rangemax = 0;
  padding = 0;
}

abbrev with_variable : VConsole Script
with_variable = record client { cvars = zero_variable ∷ [] }

variable_processed :
    process_packet (codes "CVAR") variable_chunk client quiet ≡ some (with_variable, quiet)
unfolding process_packet eqb parse_cvar read_mem ntohl_at host_at be_value le_value
variable_processed = refl

variable_processed_all :
    process_packets ((codes "CVAR", variable_chunk) ∷ []) client quiet ≡ some (with_variable, quiet)
unfolding process_packets process_packet eqb parse_cvar read_mem ntohl_at host_at be_value le_value
variable_processed_all = refl

abbrev variable_header : Bytes
variable_header = codes "CVAR" ++ (0 ∷ 0xD4 ∷ 0 ∷ 0 ∷ 0 ∷ 96 ∷ 0 ∷ 0 ∷ [])

abbrev variable_input : Script
variable_input = feed (some variable_header ∷ some (replicate 84 0) ∷ [])

variable_read :
    process_incoming_data scripted client variable_input ≡ some (true, with_variable, quiet)
unfolding process_incoming_data read_chunk read_body host_header declared_length process_packet eqb
    parse_cvar read_mem ntohl_at host_at be_value le_value
variable_read = refl
