-- ===== src/Base/Words.antt =====
-- Bytes as numbers, and numbers as bytes in network (big-endian) and host (little-endian) order.
use Prim.Native.Nat.{ℕ, ◌+◌, ◌*◌, ◌/◌, ◌%◌, ◌<◌}
use Prim.Native.Char.{code}
use Prim.Native.String.{String}
use mathlib.Core.Path.{◌≡◌, refl}
use mathlib.Core.Bool.{Bool, true, false, ◌&&◌}
use mathlib.Core.List.{List, [], ◌∷◌, ◌++◌}
use mathlib.Core.Logic.{◌↔◌, ◌≢◌}
use native.Mathlib.Omega.{arith}
use cs2remote_console.Base.Tests.{◌==◌, if◌then◌else◌, ◌>>=◌}
use mathlib.Core.Option.{Option, none, some}
use cs2remote_console.Base.Lists.{All}

abbrev pub Bytes : Type 0
Bytes = List ℕ

-- Each element is a byte.
abbrev pub IsBytes : Bytes → Type 0
IsBytes = All (λ c. c < 256)

-- The bytes of an ASCII text.
abbrev pub codes : String → Bytes
codes String.[] = []
codes (String.◌∷◌ c s) = code c ∷ codes s

-- Equality of byte strings, as `std::string::operator==`.
unfoldable pub eqb : Bytes → Bytes → Bool
eqb [] [] = true
eqb (x ∷ xs) (y ∷ ys) = x == y && eqb xs ys
eqb _ _ = false

pub eqb_iff : (a b : Bytes) → (eqb a b ≡ true) ↔ (a ≡ b)
unfolding eqb
eqb_iff (x ∷ a) (y ∷ b) = ground (arith, eqb_iff a b)
eqb_iff _ _ = ground arith

abbrev pub be16 : ℕ → ℕ → ℕ
be16 a b = a * 256 + b

abbrev pub be32 : ℕ → ℕ → ℕ → ℕ → ℕ
be32 a b c d = ((a * 256 + b) * 256 + c) * 256 + d

-- The bytes of a 16-bit and of a 32-bit value, most significant first.
abbrev pub be16_bytes : ℕ → Bytes
be16_bytes v = (v / 256 % 256) ∷ (v % 256) ∷ []

abbrev pub be32_bytes : ℕ → Bytes
be32_bytes v = (v / 16777216 % 256) ∷ (v / 65536 % 256) ∷ (v / 256 % 256) ∷ (v % 256) ∷ []

-- std::string::empty
abbrev pub is_empty : Bytes → Bool
is_empty [] = true
is_empty (c ∷ cs) = false

-- The text before and behind the first occurrence of a byte.
unfoldable pub split_at : ℕ → Bytes → Option (Bytes × Bytes)
split_at b [] = none
split_at b (c ∷ cs) =
    let rest = split_at b cs in
    if c == b then some ([], cs) else (rest >>= λ found. some (c ∷ found.0, found.1))

-- The byte does not occur.
abbrev pub Lacks : ℕ → Bytes → Type 0
Lacks b = All (λ c. c ≢ b)

-- The first occurrence splits, whatever the text behind it holds.
pub split_at-append :
    (b : ℕ) (before behind : Bytes)
    → Lacks b before
    → split_at b (before ++ b ∷ behind) ≡ some (before, behind)
unfolding split_at
split_at-append b [] behind l = ground arith
split_at-append b (c ∷ before) behind l = ground (arith, split_at-append b before behind l.1)

pub split_at-none : (b : ℕ) (text : Bytes) → Lacks b text → split_at b text ≡ none
unfolding split_at
split_at-none b [] l = refl
split_at-none b (c ∷ text) l = ground (arith, split_at-none b text l.1)
