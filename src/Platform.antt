-- ===== src/Platform.antt =====
-- common/platform.h on POSIX: socket initialisation has nothing to do there, setSocketNonBlocking
-- adds a flag to those of the socket, and byteSwap32 reverses the four bytes of a 32-bit value.
use Prim.Native.Nat.{bit_or}
use cs2remote_console.Net.{Sockets, o_nonblock}
use cs2remote_console.Base.{be32, ℕ, ◌/◌, ◌%◌, ◌<◌, ◌≡◌, Bool, true, Option, none, some, arith}

unfoldable pub platform_socket_init : Bool
platform_socket_init = true

-- The int that F_GETFL gives, as its 32-bit pattern: -1 where it fails.
abbrev pub flags_int : Option ℕ → ℕ
flags_int none = 4294967295
flags_int (some flags) = flags

unfoldable pub set_socket_non_blocking : (net : Sockets) → Option ℕ → net.World → net.World
set_socket_non_blocking net s w =
    let (flags, w1) = net.get_flags s w in
    (net.set_flags s (bit_or (flags_int flags) o_nonblock) w1).1

unfoldable pub byte_swap32 : ℕ → ℕ
byte_swap32 v = be32 (v % 256) (v / 256 % 256) (v / 65536 % 256) (v / 16777216 % 256)

-- Swapping twice gives the value back, and a swapped value has 32 bits.
byte_swap32_twice :
    (v : ℕ) → v < 4294967296 → (byte_swap32 (byte_swap32 v) ≡ v) × (byte_swap32 v < 4294967296)
unfolding byte_swap32
byte_swap32_twice v h = omega arith
