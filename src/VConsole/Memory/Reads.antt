-- ===== src/VConsole/Memory/Reads.antt =====
-- When a read stays inside the memory, and what it finds there.
use cs2remote_console.Base.{
  leb, le→leb, is_some, length, take, drop, length-append, length-take, length-drop, take_append,
  drop_append, Bytes, be16_bytes, be32_bytes, Lacks, ℕ, zero, suc, ◌+◌, ◌≤◌, ◌<◌, ◌≡◌, refl, ap,
  none, some, [], ◌∷◌, ◌++◌, arith,
}
use cs2remote_console.VConsole.Memory.{read_mem, be_value, ntohs_at, ntohl_at, host_at, c_string}

pub read_mem_in :
    (buf : Bytes) (off n : ℕ)
    → off + n ≤ length buf
    → read_mem buf off n ≡ some (take n (drop off buf))
unfolding read_mem
read_mem_in buf off n h = rw (le→leb _ _ h)

read_mem_out : (buf : Bytes) (off n : ℕ) → length buf < off + n → read_mem buf off n ≡ none
unfolding read_mem
read_mem_out buf off n h = ground arith

pub is_some-read_mem :
    (buf : Bytes) (off n : ℕ) → is_some (read_mem buf off n) ≡ leb (off + n) (length buf)
unfolding read_mem
is_some-read_mem buf off n = ground arith

length-slice : (buf : Bytes) (off n : ℕ) → off + n ≤ length buf → length (take n (drop off buf)) ≡ n
length-slice buf off n h = omega (arith, length-take n (drop off buf), length-drop off buf)

pub length-read_mem :
    (buf : Bytes) (off n : ℕ) {bs : Bytes} → read_mem buf off n ≡ some bs → length bs ≡ n
unfolding read_mem
length-read_mem buf off n e = ground (arith, length-slice buf off n)

-- A read finds what stands at its place.
pub read_mem_at :
    (pre mid post : Bytes) (off n : ℕ)
    → length pre ≡ off
    → length mid ≡ n
    → read_mem (pre ++ (mid ++ post)) off n ≡ some mid
read_mem_at pre mid post off n p m = rw (
  read_mem_in (pre ++ (mid ++ post)) off n
      (omega (arith, length-append pre (mid ++ post), length-append mid post)),
  drop_append off pre (mid ++ post) p,
  take_append n mid post m,
)

pub is_some-ntohl_at :
    (buf : Bytes) (off : ℕ) → is_some (ntohl_at buf off) ≡ leb (off + 4) (length buf)
unfolding ntohl_at
is_some-ntohl_at buf off = ground (arith, is_some-read_mem buf off 4)

is_some-ntohs_at : (buf : Bytes) (off : ℕ) → is_some (ntohs_at buf off) ≡ leb (off + 2) (length buf)
unfolding ntohs_at
is_some-ntohs_at buf off = ground (arith, is_some-read_mem buf off 2)

pub is_some-host_at :
    (buf : Bytes) (off n : ℕ) → is_some (host_at buf off n) ≡ leb (off + n) (length buf)
unfolding host_at
is_some-host_at buf off n = ground (arith, is_some-read_mem buf off n)

pub drop_shift :
    (pre rest : Bytes) (i k : ℕ) → i ≡ length pre + k → drop i (pre ++ rest) ≡ drop k rest
drop_shift [] rest i k e = ground arith
drop_shift (x ∷ pre) rest zero k e = absurd (omega arith)
drop_shift (x ∷ pre) rest (suc i) k e = drop_shift pre rest i k (omega arith)

-- A read behind a prefix is a read of the rest.
pub read_mem_shift :
    (pre rest : Bytes) (i k n : ℕ)
    → i ≡ length pre + k
    → read_mem (pre ++ rest) i n ≡ read_mem rest k n
unfolding read_mem
read_mem_shift pre rest i k n e =
    rw (drop_shift pre rest i k e) (ground (arith, length-append pre rest))

pub ntohl_at_shift :
    (pre rest : Bytes) (i k : ℕ) → i ≡ length pre + k → ntohl_at (pre ++ rest) i ≡ ntohl_at rest k
unfolding ntohl_at
ntohl_at_shift pre rest i k e = rw (read_mem_shift pre rest i k 4 e)

pub ntohs_at_shift :
    (pre rest : Bytes) (i k : ℕ) → i ≡ length pre + k → ntohs_at (pre ++ rest) i ≡ ntohs_at rest k
unfolding ntohs_at
ntohs_at_shift pre rest i k e = rw (read_mem_shift pre rest i k 2 e)

be_value_word : (v : ℕ) → v < 4294967296 → be_value 0 (be32_bytes v) ≡ v
unfolding be_value
be_value_word v h = omega arith

-- ntohl finds a 32-bit value that stands in network order.
pub ntohl_at_word :
    (pre post : Bytes) (off v : ℕ)
    → length pre ≡ off
    → v < 4294967296
    → ntohl_at (pre ++ (be32_bytes v ++ post)) off ≡ some v
unfolding ntohl_at
ntohl_at_word pre post off v p h =
    rw (read_mem_at pre (be32_bytes v) post off 4 p refl, be_value_word v h)

-- ntohs finds a 16-bit value that stands in network order.
pub ntohs_at_word :
    (pre post : Bytes) (off v : ℕ)
    → length pre ≡ off
    → v < 65536
    → ntohs_at (pre ++ (be16_bytes v ++ post)) off ≡ some v
unfolding ntohs_at be_value
ntohs_at_word pre post off v p h =
    rw (read_mem_at pre (be16_bytes v) post off 2 p refl) (ap some (omega arith))

-- A text without a NUL is read back whole, whatever follows its terminator.
pub c_string-append : (text rest : Bytes) → Lacks 0 text → c_string (text ++ 0 ∷ rest) ≡ some text
unfolding c_string
c_string-append [] rest l = refl
c_string-append (c ∷ text) rest l = ground (arith, c_string-append text rest l.1)
