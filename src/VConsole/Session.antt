-- ===== src/VConsole/Session.antt =====
-- The class VConsole of libvconsole/src/vconsole.h and vconsole.cpp. Its callbacks act on the world
-- outside the library; an unset std::function is `none`. Calls on a socket go through `net`.
pub mod Reading
pub mod Chunks
pub mod Dispatch
pub mod Lifetime
pub mod Wire
pub mod Partial
use cs2remote_console.Base.{
  ltb, if◌then◌else◌, ◌>>=◌, is_some, length, take, drop, Bytes, codes, eqb, ℤ, to_u16, ℕ, ◌-◌,
  Bool, true, false, Option, none, some, List, [], ◌∷◌, ◌++◌, reverse,
}
use cs2remote_console.Net.{Sockets}
use cs2remote_console.VConsole.Command.{create_command_payload}
use cs2remote_console.VConsole.Memory.{be_value, read_mem}
use cs2remote_console.VConsole.Messages.{Channel, CvarInfo, Ainf, Adon, Chan, Prnt, Cvar, Cfgv}
use cs2remote_console.VConsole.Parse.{
  header_size, strip_non_ascii, parse_ainf, parse_adon, parse_chan, parse_prnt, parse_cvar,
  parse_cfgv,
}

pub record VConsole (W : Type 0) : Type 0 where
  pub client_socket : Option ℕ
  pub on_prnt_received : Option (Prnt → W → W)
  pub on_cvars_loaded : Option (List CvarInfo → W → W)
  pub on_adon_received : Option (Bytes → W → W)
  pub on_disconnected : Option (W → W)
  pub on_chan_received : Option (Chan → W → W)
  pub channels : List Channel
  pub cvars : List CvarInfo
  pub adon_name : Bytes

-- The result of readChunk: 1 with the buffer, 0, -1; or the header is longer than the buffer that
-- it asks for, and the memcpy writes past its end.
pub data ReadResult : Type 0 where
  chunk : Bytes → ReadResult
  retry : ReadResult
  broken : ReadResult
  overrun : ReadResult

-- The constructor VConsole::VConsole.
unfoldable pub new_vconsole : {W : Type 0} → VConsole W
new_vconsole = record {
  client_socket = none;
  on_prnt_received = none;
  on_cvars_loaded = none;
  on_adon_received = none;
  on_disconnected = none;
  on_chan_received = none;
  channels = [];
  cvars = [];
  adon_name = [];
}

module _ {W : Type 0} where
  unfoldable pub set_on_prnt_received : (Prnt → W → W) → VConsole W → VConsole W
  set_on_prnt_received callback c = record c { on_prnt_received = some callback }

  unfoldable pub set_on_cvars_loaded : (List CvarInfo → W → W) → VConsole W → VConsole W
  set_on_cvars_loaded callback c = record c { on_cvars_loaded = some callback }

  unfoldable pub set_on_adon_received : (Bytes → W → W) → VConsole W → VConsole W
  set_on_adon_received callback c = record c { on_adon_received = some callback }

  unfoldable pub set_on_disconnected : (W → W) → VConsole W → VConsole W
  set_on_disconnected callback c = record c { on_disconnected = some callback }

  unfoldable pub set_on_chan_received : (Chan → W → W) → VConsole W → VConsole W
  set_on_chan_received callback c = record c { on_chan_received = some callback }

  unfoldable pub get_channels : VConsole W → List Channel
  get_channels c = c.channels

  -- `if (callback) callback(a);`
  abbrev pub notify {ℓ} : {A : Type ℓ} → Option (A → W → W) → A → W → W
  notify none a w = w
  notify (some callback) a w = callback a w

  abbrev pub notify_all : Option (W → W) → W → W
  notify_all none w = w
  notify_all (some callback) w = callback w

  -- processPacket; `none` is a parser that reads past the chunk.
  unfoldable pub process_packet : Bytes → Bytes → VConsole W → W → Option (VConsole W × W)
  process_packet msg_type buf c w =
      if eqb msg_type (codes "AINF")
      then (do _ ← parse_ainf buf; some (c, w))
      else if eqb msg_type (codes "ADON")
      then (do
        adon ← parse_adon buf
        some (record c { adon_name = adon.name }, notify c.on_adon_received adon.name w))
      else if eqb msg_type (codes "CHAN")
      then (do chan ← parse_chan buf; some (c, notify c.on_chan_received chan w))
      else if eqb msg_type (codes "PRNT")
      then (do
        prnt ← parse_prnt buf
        some (
          c,
          notify c.on_prnt_received (record prnt { message = strip_non_ascii prnt.message }) w,
        ))
      else if eqb msg_type (codes "CVAR")
      then (do
        cvar ← parse_cvar buf
        some (
          record c { cvars = c.cvars ++ cvar.cvar ∷ [] },
          notify c.on_cvars_loaded (c.cvars ++ cvar.cvar ∷ []) w,
        ))
      else if eqb msg_type (codes "CFGV")
      then (do _ ← parse_cfgv buf; some (c, w))
      else some (c, w)

-- ntohs(header.length) of the 12 header bytes.
unfoldable pub declared_length : Bytes → ℕ
declared_length header = be_value 0 (take 2 (drop 8 header))

-- The header as readChunk copies it into the buffer: its integers are in host order by then.
unfoldable pub host_header : Bytes → Bytes
host_header header =
    take 4 header
    ++ (reverse (take 4 (drop 4 header))
        ++ (reverse (take 2 (drop 8 header)) ++ reverse (take 2 (drop 10 header))))

module _ (net : Sockets) where
  unfoldable pub connect :
      Bytes → ℤ → VConsole net.World → net.World → Bool × VConsole net.World × net.World
  connect ip port c w =
      let (s, w1) = net.socket w in
      elim s [
        | none ↦ (false, record c { client_socket = none }, w1)
        | some n ↦
            let (connected, w2) = net.connect (some n) ip (to_u16 port) w1 in
            if connected
            then (true, record c { client_socket = some n }, w2)
            else (false, record c { client_socket = none }, net.close (some n) w2)
      ]

  unfoldable pub disconnect : VConsole net.World → net.World → VConsole net.World × net.World
  disconnect c w = elim c.client_socket [
    | none ↦ (c, notify_all c.on_disconnected w)
    | some n ↦ (
      record c { client_socket = none },
      notify_all c.on_disconnected (net.close (some n) (net.shutdown (some n) w)),
    )
  ]

  unfoldable pub send_cmd : Bytes → VConsole net.World → net.World → Bool × net.World
  send_cmd cmd c w =
      let (result, w1) = net.send c.client_socket (create_command_payload cmd) w in
      (is_some result, w1)

  -- A short or failed recv: 0 if errno says that the call would block, else -1.
  abbrev pub short_read : net.World → ReadResult × net.World
  short_read w = (if net.would_block w then retry else broken, w)

  -- The second half of readChunk, on the 12 bytes of a header.
  unfoldable pub read_body : Bytes → VConsole net.World → net.World → ReadResult × net.World
  read_body header c w =
      if ltb (declared_length header) header_size
      then (overrun, w)
      else let (received, w1) = net.recv c.client_socket (declared_length header - header_size) w in
        elim received [
          | none ↦ short_read w1
          | some body ↦
              if ltb (length body) (declared_length header - header_size)
              then short_read w1
              else (chunk (host_header header ++ body), w1)
        ]

  unfoldable pub read_chunk : VConsole net.World → net.World → ReadResult × net.World
  read_chunk c w =
      let (received, w1) = net.recv c.client_socket header_size w in
      elim received [
        | none ↦ short_read w1
        | some header ↦
            if ltb (length header) header_size then short_read w1 else read_body header c w1
      ]

  abbrev pub process_result :
      VConsole net.World → ReadResult × net.World → Option (Bool × VConsole net.World × net.World)
  process_result c (chunk buf, w) = do
    done ← process_packet (take 4 buf) buf c w
    some (true, done.0, done.1)
  process_result c (overrun, w) = none
  process_result c (_, w) = some (false, c, w)

  -- `none` is an access outside the chunk.
  unfoldable pub process_incoming_data :
      VConsole net.World → net.World → Option (Bool × VConsole net.World × net.World)
  process_incoming_data c w = process_result c (read_chunk c w)

  unfoldable pub is_connected : VConsole net.World → net.World → Bool × net.World
  is_connected c w = elim c.client_socket [
    | none ↦ (false, w)
    | some n ↦
        let (result, w1) = net.peek (some n) 1 w in
        elim result [
          | none ↦ (net.would_block w1, w1)
          | some [] ↦ (false, w1)
          | some (_ ∷ _) ↦ (true, w1)
        ]
  ]
