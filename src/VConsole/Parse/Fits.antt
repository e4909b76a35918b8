-- ===== src/VConsole/Parse/Fits.antt =====
-- The ranges of what the parsers read, against the field types of libvconsole/src/messages.h.
pub mod Parsers
use cs2remote_console.Base.{
  Option-cases, length, take, drop, All, Bytes, IsBytes, ℕ, zero, suc, ◌≤◌, ◌<◌, ◌≡◌, ◌≢◌, inl, inr,
  some, [], ◌∷◌, arith,
}
use cs2remote_console.VConsole.Memory.{read_mem, be_value, le_value, ntohs_at, ntohl_at, host_at}
use cs2remote_console.VConsole.Memory.Reads.{length-read_mem}
use cs2remote_console.VConsole.Messages.{Channel, CvarInfo, Ainf, Adon, Chan, Prnt, Cvar, Cfgv}

-- Values of uint16_t, of uint32_t, and the bit patterns of int32_t and float.
abbrev pub Is16 : ℕ → Type 0
Is16 v = v < 65536

abbrev pub Is32 : ℕ → Type 0
Is32 v = v < 4294967296

-- The bytes of a char array of so many.
abbrev pub IsChars : ℕ → Bytes → Type 0
IsChars n bs = (length bs ≡ n) × IsBytes bs

pub record ChannelFits (c : Channel) : Type 0 where
  pub id : Is32 c.id
  pub unknown1 : Is32 c.unknown1
  pub unknown2 : Is32 c.unknown2
  pub verbosity_default : Is32 c.verbosity_default
  pub verbosity_current : Is32 c.verbosity_current
  pub text_rgba_override : Is32 c.text_rgba_override
  pub name : IsChars 34 c.name

pub record CvarFits (v : CvarInfo) : Type 0 where
  pub name : IsChars 64 v.name
  pub unknown : Is32 v.unknown
  pub flags : Is32 v.flags
  pub rangemin : Is32 v.rangemin
  pub rangemax : Is32 v.rangemax
  pub padding : v.padding < 256

pub record AinfFits (a : Ainf) : Type 0 where
  pub unknowns : (length a.unknowns ≡ 19) × All Is32 a.unknowns
  pub padding : a.padding < 256

pub record AdonFits (a : Adon) : Type 0 where
  pub unknown : Is16 a.unknown
  pub name_length : Is16 a.name_length
  pub name : IsChars a.name_length a.name

pub record ChanFits (c : Chan) : Type 0 where
  pub num_channels : Is16 c.num_channels
  pub channels : (length c.channels ≡ c.num_channels) × All ChannelFits c.channels

pub record PrntFits (p : Prnt) : Type 0 where
  pub channel_id : Is32 p.channel_id
  pub unknown : IsChars 20 p.unknown
  pub color : Is32 p.color
  pub message : All (λ c. (c ≤ 127) × (c ≢ 0)) p.message

pub record CfgvFits (c : Cfgv) : Type 0 where
  pub variable : IsChars 64 c.variable
  pub value : IsChars 65 c.value

pub IsBytes-take : (n : ℕ) (bs : Bytes) → IsBytes bs → IsBytes (take n bs)
IsBytes-take zero bs h = tt
IsBytes-take (suc n) [] h = tt
IsBytes-take (suc n) (b ∷ bs) h = (h.0, IsBytes-take n bs h.1)

IsBytes-drop : (n : ℕ) (bs : Bytes) → IsBytes bs → IsBytes (drop n bs)
IsBytes-drop zero bs h = h
IsBytes-drop (suc n) [] h = tt
IsBytes-drop (suc n) (b ∷ bs) h = IsBytes-drop n bs h.1

pub read_mem-IsChars :
    (buf : Bytes) (off n : ℕ) (bs : Bytes)
    → IsBytes buf
    → read_mem buf off n ≡ some bs
    → IsChars n bs
unfolding read_mem
read_mem-IsChars buf off n bs h e = (
  length-read_mem buf off n e,
  (let found : bs ≡ take n (drop off buf) = ground arith in
      rw found (IsBytes-take n (drop off buf) (IsBytes-drop off buf h))),
)

be_value_2 : (bs : Bytes) → IsChars 2 bs → Is16 (be_value 0 bs)
unfolding be_value
be_value_2 (a ∷ b ∷ []) h = omega (arith, h.1.0, h.1.1.0)
be_value_2 _ h = absurd (omega (arith, h.0))

be_value_4 : (bs : Bytes) → IsChars 4 bs → Is32 (be_value 0 bs)
unfolding be_value
be_value_4 (a ∷ b ∷ c ∷ d ∷ []) h = omega (arith, h.1.0, h.1.1.0, h.1.1.1.0, h.1.1.1.1.0)
be_value_4 _ h = absurd (omega (arith, h.0))

le_value_4 : (bs : Bytes) → IsChars 4 bs → Is32 (le_value bs)
unfolding le_value
le_value_4 (a ∷ b ∷ c ∷ d ∷ []) h = omega (arith, h.1.0, h.1.1.0, h.1.1.1.0, h.1.1.1.1.0)
le_value_4 _ h = absurd (omega (arith, h.0))

le_value_1 : (bs : Bytes) → IsChars 1 bs → le_value bs < 256
unfolding le_value
le_value_1 (a ∷ []) h = omega (arith, h.1.0)
le_value_1 _ h = absurd (omega (arith, h.0))

module _ (buf : Bytes) (off v : ℕ) (bytes : IsBytes buf) where
  pub ntohs_at-Is16 : ntohs_at buf off ≡ some v → Is16 v
  unfolding ntohs_at
  ntohs_at-Is16 e = elim (Option-cases (read_mem buf off 2)) [
    | inl outside ↦ absurd (ground arith)
    | inr (bs, got) ↦
        let small = be_value_2 bs (read_mem-IsChars buf off 2 bs bytes got) in ground arith
  ]

  pub ntohl_at-Is32 : ntohl_at buf off ≡ some v → Is32 v
  unfolding ntohl_at
  ntohl_at-Is32 e = elim (Option-cases (read_mem buf off 4)) [
    | inl outside ↦ absurd (ground arith)
    | inr (bs, got) ↦
        let small = be_value_4 bs (read_mem-IsChars buf off 4 bs bytes got) in ground arith
  ]

  pub host_at-Is32 : host_at buf off 4 ≡ some v → Is32 v
  unfolding host_at
  host_at-Is32 e = elim (Option-cases (read_mem buf off 4)) [
    | inl outside ↦ absurd (ground arith)
    | inr (bs, got) ↦
        let small = le_value_4 bs (read_mem-IsChars buf off 4 bs bytes got) in ground arith
  ]

  pub host_at-byte : host_at buf off 1 ≡ some v → v < 256
  unfolding host_at
  host_at-byte e = elim (Option-cases (read_mem buf off 1)) [
    | inl outside ↦ absurd (ground arith)
    | inr (bs, got) ↦
        let small = le_value_1 bs (read_mem-IsChars buf off 1 bs bytes got) in ground arith
  ]
