-- ===== src/VConsole/Memory.antt =====
-- What libvconsole/src/vconsole.cpp does with a chunk's memory: reads through casted pointers,
-- memcpy, ntohs and ntohl, and C strings. `none` is a read that runs past the end of the chunk,
-- which the source does not check and which is undefined there. The host is little-endian.
pub mod Reads
use mathlib.Core.Option
use cs2remote_console.Base.{
  leb, ◌==◌, if◌then◌else◌, length, take, drop, Bytes, ℕ, ◌+◌, ◌*◌, Option, none, some, [], ◌∷◌,
  map,
}

-- `n` bytes at the offset `off`: memcpy, a cast and dereference, or std::string(data, n).
unfoldable pub read_mem : Bytes → ℕ → ℕ → Option Bytes
read_mem buf off n = if leb (off + n) (length buf) then some (take n (drop off buf)) else none

-- The value of bytes in network order, and in host order.
unfoldable pub be_value : ℕ → Bytes → ℕ
be_value acc [] = acc
be_value acc (b ∷ bs) = be_value (acc * 256 + b) bs

unfoldable pub le_value : Bytes → ℕ
le_value [] = 0
le_value (b ∷ bs) = b + 256 * le_value bs

-- ntohs and ntohl of the value at an offset.
unfoldable pub ntohs_at : Bytes → ℕ → Option ℕ
ntohs_at buf off = Option.map (be_value 0) (read_mem buf off 2)

unfoldable pub ntohl_at : Bytes → ℕ → Option ℕ
ntohl_at buf off = Option.map (be_value 0) (read_mem buf off 4)

-- A value in host order.
unfoldable pub host_at : Bytes → ℕ → ℕ → Option ℕ
host_at buf off n = Option.map le_value (read_mem buf off n)

-- The bytes before the terminating NUL, std::string(const char*).
unfoldable pub c_string : Bytes → Option Bytes
c_string [] = none
c_string (c ∷ cs) = if c == 0 then some [] else Option.map (◌∷◌ c) (c_string cs)

unfoldable pub c_string_at : Bytes → ℕ → Option Bytes
unfolding c_string
c_string_at buf off = c_string (drop off buf)
