-- ===== src/VConsole/Session/Wire.antt =====
-- PRNT packets as bytes on the session's socket, alone and one after another.
use cs2remote_console.Base.{
  length, take, Bytes, codes, Lacks, ℕ, ◌+◌, ◌-◌, ◌<◌, ◌≡◌, ap, ◌∙◌, true, Option, some, List, [],
  ◌∷◌, ◌++◌, arith,
}
use cs2remote_console.Net.{Sockets}
use cs2remote_console.VConsole.Memory.{le_value}
use cs2remote_console.VConsole.Messages.{Prnt}
use cs2remote_console.VConsole.Parse.{strip_non_ascii, parse_prnt}
use cs2remote_console.VConsole.Parse.Prints.{PrntGap, IsPrntGap, encode_prnt, parse_prnt-encode}
use cs2remote_console.VConsole.Session.{
  VConsole, notify, declared_length, host_header, process_incoming_data,
}
use cs2remote_console.VConsole.Session.Reading.{host_header_shape, take_4-append}
use cs2remote_console.VConsole.Session.Chunks.{read_chunk_whole}
use cs2remote_console.VConsole.Session.Lifetime.{process_incoming_data-process_packet}
use cs2remote_console.VConsole.Session.Dispatch.{process_packet_prnt}

-- A PRNT packet as the game sends it.
pub record WirePrnt : Type 0 where
  pub header : Bytes
  pub id : ℕ
  pub gap : PrntGap
  pub text : Bytes
  pub rest : Bytes

abbrev pub wire_body : WirePrnt → Bytes
wire_body p = encode_prnt p.id p.gap p.text p.rest

-- The header holds the packet's type and its whole length, the channel has 32 bits, and the text no
-- NUL.
pub record IsWirePrnt (p : WirePrnt) : Type 0 where
  pub header_size : length p.header ≡ 12
  pub message_type : take 4 p.header ≡ codes "PRNT"
  pub declared : declared_length p.header ≡ length (wire_body p) + 12
  pub channel_word : p.id < 4294967296
  pub gap_sizes : IsPrntGap p.gap
  pub text_ends : Lacks 0 p.text

-- What the packet says.
abbrev pub said : WirePrnt → Prnt
said p = record {
  channel_id = p.id;
  unknown = p.gap.before ++ (p.gap.color ++ p.gap.behind);
  color = le_value p.gap.color;
  message = strip_non_ascii p.text;
}

-- The packets one after another.
unfoldable pub on_wire : List WirePrnt → Bytes
on_wire [] = []
on_wire (p ∷ ps) = p.header ++ (wire_body p ++ on_wire ps)

module _ (net : Sockets) (c : VConsole net.World) (f : Prnt → net.World → net.World)
    (hooked : c.on_prnt_received ≡ some f) where
  -- A whole packet on the socket goes to the callback, and leaves the session as it was.
  pub process_incoming_data-wire :
      (p : WirePrnt) (w w1 w2 : net.World)
      → IsWirePrnt p
      → net.recv c.client_socket 12 w ≡ (some p.header, w1)
      → net.recv c.client_socket (declared_length p.header - 12) w1 ≡ (some (wire_body p), w2)
      → process_incoming_data net c w ≡ some (true, c, f (said p) w2)
  process_incoming_data-wire p w w1 w2 v first second =
      let body : Bytes = wire_body p in
      let shape = host_header_shape p.header v.header_size in
      let read =
        read_chunk_whole net c p.header body w w1 w2 first v.header_size (omega (arith, v.declared))
          second (omega (arith, v.declared)) in
      let buf : Bytes = host_header p.header ++ body in
      let parsed : parse_prnt buf ≡ some (said p) =
        parse_prnt-encode (host_header p.header) p.id p.gap p.text p.rest shape.0 v.channel_word
          v.gap_sizes v.text_ends in
      let packet_type : take 4 buf ≡ codes "PRNT" =
        take_4-append (host_header p.header) body shape.0 ∙ shape.1 ∙ v.message_type in
      process_incoming_data-process_packet net c c buf (codes "PRNT") w w2 (f (said p) w2) read
        packet_type
        ((process_packet_prnt buf c w2 (said p) parsed).0
          ∙ ap (λ (k : Option (Prnt → net.World → net.World)). some (c, notify k (said p) w2))
              hooked)
