-- ===== src/VConsole/Parse/Fits/Parsers.antt =====
-- What the parsers of libvconsole/src/vconsole.cpp read, field by field.
use cs2remote_console.Base.{
  leb, Bool-cases, Option-cases, ◌>>=◌, length, take, drop, All, some_injective, length-append,
  length-take, All-append, Bytes, IsBytes, Lacks, ℕ, zero, suc, ◌+◌, ◌≤◌, ◌<◌, ◌≡◌, refl, sym, ap,
  ◌≢◌, inl, inr, Option, none, some, List, [], ◌∷◌, ◌++◌, arith,
}
use cs2remote_console.VConsole.Memory.{read_mem, ntohs_at, ntohl_at, host_at, c_string, c_string_at}
use cs2remote_console.VConsole.Messages.{Channel, Ainf, Adon, Chan, Prnt, Cvar, Cfgv}
use cs2remote_console.VConsole.Parse.{
  host_words, parse_ainf, parse_adon, parse_channel, parse_channels, channel_count, parse_chan,
  parse_prnt, parse_cvar, parse_cfgv, strip_non_ascii,
}
use cs2remote_console.VConsole.Parse.Fits.{
  Is32, IsChars, ChannelFits, CvarFits, AinfFits, AdonFits, ChanFits, PrntFits, CfgvFits,
  IsBytes-take, read_mem-IsChars, ntohs_at-Is16, ntohl_at-Is32, host_at-Is32, host_at-byte,
}

-- What a successful chain of reads has read.
bind-some {ℓ κ} :
    {A : Type ℓ} {B : Type κ} (m : Option A) (f : A → Option B) (b : B)
    → (m >>= f) ≡ some b
    → (a : A) × (m ≡ some a) × (f a ≡ some b)
bind-some (some a) f b e = (a, refl, e)
bind-some none f b e = cc

parse_adon-Fits : (buf : Bytes) (a : Adon) → IsBytes buf → parse_adon buf ≡ some a → AdonFits a
unfolding parse_adon
parse_adon-Fits buf a bytes e =
    let (unknown, e1, r1) = bind-some (ntohs_at buf 12) _ a e in
    let (size, e2, r2) = bind-some (ntohs_at buf 14) _ a r1 in
    let (name, e3, r3) = bind-some (read_mem buf 16 size) _ a r2 in
    rw (sym (some_injective r3)) (record {
      unknown = ntohs_at-Is16 buf 12 unknown bytes e1;
      name_length = ntohs_at-Is16 buf 14 size bytes e2;
      name = read_mem-IsChars buf 16 size name bytes e3;
    })

host_words-Is32 :
    (n : ℕ) (buf : Bytes) (off : ℕ) (ws : List ℕ)
    → IsBytes buf
    → host_words n buf off ≡ some ws
    → (length ws ≡ n) × All Is32 ws
unfolding host_words
host_words-Is32 zero buf off ws bytes e = rw (sym (some_injective e)) (refl, tt)
host_words-Is32 (suc n) buf off ws bytes e =
    let (w, e1, r1) = bind-some (host_at buf off 4) _ ws e in
    let (rest, e2, r2) = bind-some (host_words n buf (off + 4)) _ ws r1 in
    let (size, words) = host_words-Is32 n buf (off + 4) rest bytes e2 in
    rw (sym (some_injective r2)) (ap suc size, (host_at-Is32 buf off w bytes e1, words))

parse_ainf-Fits : (buf : Bytes) (a : Ainf) → IsBytes buf → parse_ainf buf ≡ some a → AinfFits a
unfolding parse_ainf
parse_ainf-Fits buf a bytes e =
    let (words, e1, r1) = bind-some (host_words 19 buf 12) _ a e in
    let (padding, e2, r2) = bind-some (host_at buf 88 1) _ a r1 in
    rw (sym (some_injective r2)) (record {
      unknowns = host_words-Is32 19 buf 12 words bytes e1;
      padding = host_at-byte buf 88 padding bytes e2;
    })

parse_channel-Fits :
    (buf : Bytes) (off : ℕ) (c : Channel)
    → IsBytes buf
    → parse_channel buf off ≡ some c
    → ChannelFits c
unfolding parse_channel
parse_channel-Fits buf off c bytes e =
    let (id, e1, r1) = bind-some (ntohl_at buf off) _ c e in
    let (unknown1, e2, r2) = bind-some (ntohl_at buf (off + 4)) _ c r1 in
    let (unknown2, e3, r3) = bind-some (ntohl_at buf (off + 8)) _ c r2 in
    let (at_start, e4, r4) = bind-some (ntohl_at buf (off + 12)) _ c r3 in
    let (at_present, e5, r5) = bind-some (ntohl_at buf (off + 16)) _ c r4 in
    let (color, e6, r6) = bind-some (ntohl_at buf (off + 20)) _ c r5 in
    let (name, e7, r7) = bind-some (read_mem buf (off + 24) 34) _ c r6 in
    rw (sym (some_injective r7)) (record {
      id = ntohl_at-Is32 buf off id bytes e1;
      unknown1 = ntohl_at-Is32 buf (off + 4) unknown1 bytes e2;
      unknown2 = ntohl_at-Is32 buf (off + 8) unknown2 bytes e3;
      verbosity_default = ntohl_at-Is32 buf (off + 12) at_start bytes e4;
      verbosity_current = ntohl_at-Is32 buf (off + 16) at_present bytes e5;
      text_rgba_override = ntohl_at-Is32 buf (off + 20) color bytes e6;
      name = ends_in_nul name (read_mem-IsChars buf (off + 24) 34 name bytes e7);
    })
  where
    ends_in_nul : (name : Bytes) → IsChars 34 name → IsChars 34 (take 33 name ++ 0 ∷ [])
    ends_in_nul name h = (
      omega (arith, length-append (take 33 name) (0 ∷ []), length-take 33 name, h.0),
      All-append (λ c. c < 256) (take 33 name) (0 ∷ []) (IsBytes-take 33 name h.1)
          (omega arith, tt),
    )

parse_channels-Fits :
    (n : ℕ) (buf : Bytes) (off : ℕ) (cs : List Channel)
    → IsBytes buf
    → parse_channels n buf off ≡ some cs
    → (length cs ≡ n) × All ChannelFits cs
unfolding parse_channels
parse_channels-Fits zero buf off cs bytes e = rw (sym (some_injective e)) (refl, tt)
parse_channels-Fits (suc n) buf off cs bytes e =
    let (c, e1, r1) = bind-some (parse_channel buf off) _ cs e in
    let (rest, e2, r2) = bind-some (parse_channels n buf (off + 58)) _ cs r1 in
    let (size, others) = parse_channels-Fits n buf (off + 58) rest bytes e2 in
    rw (sym (some_injective r2)) (ap suc size, (parse_channel-Fits buf off c bytes e1, others))

parse_chan-Fits : (buf : Bytes) (c : Chan) → IsBytes buf → parse_chan buf ≡ some c → ChanFits c
unfolding parse_chan channel_count
parse_chan-Fits buf c bytes e =
    let (cs, e1, r1) = bind-some (parse_channels (channel_count (length buf)) buf 14) _ c e in
    rw (sym (some_injective r1)) (record {
      num_channels = omega arith;
      channels = parse_channels-Fits (channel_count (length buf)) buf 14 cs bytes e1;
    })

parse_cvar-Fits : (buf : Bytes) (v : Cvar) → IsBytes buf → parse_cvar buf ≡ some v → CvarFits v.cvar
unfolding parse_cvar
parse_cvar-Fits buf v bytes e =
    let (raw, e0, r0) = bind-some (read_mem buf 12 84) _ v e in
    let (name, e1, r1) = bind-some (read_mem raw 0 64) _ v r0 in
    let (unknown, e2, r2) = bind-some (ntohl_at raw 64) _ v r1 in
    let (flags, e3, r3) = bind-some (ntohl_at raw 68) _ v r2 in
    let (rangemin, e4, r4) = bind-some (ntohl_at raw 72) _ v r3 in
    let (rangemax, e5, r5) = bind-some (ntohl_at raw 76) _ v r4 in
    let (padding, e6, r6) = bind-some (host_at raw 80 1) _ v r5 in
    let bs = (read_mem-IsChars buf 12 84 raw bytes e0).1 in
    rw (sym (some_injective r6)) (record {
      name = read_mem-IsChars raw 0 64 name bs e1;
      unknown = ntohl_at-Is32 raw 64 unknown bs e2;
      flags = ntohl_at-Is32 raw 68 flags bs e3;
      rangemin = ntohl_at-Is32 raw 72 rangemin bs e4;
      rangemax = ntohl_at-Is32 raw 76 rangemax bs e5;
      padding = host_at-byte raw 80 padding bs e6;
    })

parse_cfgv-Fits : (buf : Bytes) (c : Cfgv) → IsBytes buf → parse_cfgv buf ≡ some c → CfgvFits c
unfolding parse_cfgv
parse_cfgv-Fits buf c bytes e =
    let (raw, e0, r0) = bind-some (read_mem buf 12 129) _ c e in
    let (variable, e1, r1) = bind-some (read_mem raw 0 64) _ c r0 in
    let (value, e2, r2) = bind-some (read_mem raw 64 65) _ c r1 in
    let bs = (read_mem-IsChars buf 12 129 raw bytes e0).1 in
    rw (sym (some_injective r2)) (record {
      variable = read_mem-IsChars raw 0 64 variable bs e1;
      value = read_mem-IsChars raw 64 65 value bs e2;
    })

c_string-Lacks : (bs m : Bytes) → c_string bs ≡ some m → Lacks 0 m
unfolding c_string
c_string-Lacks [] m e = cc
c_string-Lacks (b ∷ bs) [] e = tt
c_string-Lacks (b ∷ bs) (c ∷ m) e = elim (Option-cases (c_string bs)) [
  | inl open_end ↦ absurd (ground arith)
  | inr (rest, got) ↦ ((λ f. ground arith), c_string-Lacks bs m (ground arith))
]

strip_non_ascii-text : (m : Bytes) → Lacks 0 m → All (λ c. (c ≤ 127) × (c ≢ 0)) (strip_non_ascii m)
unfolding strip_non_ascii
strip_non_ascii-text [] l = tt
strip_non_ascii-text (c ∷ m) l = elim (Bool-cases (leb c 127)) [
  | inl low ↦ rw low ((ground arith, l.0), strip_non_ascii-text m l.1)
  | inr high ↦ rw high (strip_non_ascii-text m l.1)
]

parse_prnt-Fits : (buf : Bytes) (p : Prnt) → IsBytes buf → parse_prnt buf ≡ some p → PrntFits p
unfolding parse_prnt c_string_at
parse_prnt-Fits buf p bytes e =
    let (id, e1, r1) = bind-some (ntohl_at buf 12) _ p e in
    let (unknown, e2, r2) = bind-some (read_mem buf 16 20) _ p r1 in
    let (color, e3, r3) = bind-some (host_at buf 24 4) _ p r2 in
    let (m, e4, r4) = bind-some (c_string (drop 40 buf)) _ p r3 in
    rw (sym (some_injective r4)) (record {
      channel_id = ntohl_at-Is32 buf 12 id bytes e1;
      unknown = read_mem-IsChars buf 16 20 unknown bytes e2;
      color = host_at-Is32 buf 24 color bytes e3;
      message = strip_non_ascii-text m (c_string-Lacks (drop 40 buf) m e4);
    })

-- Whatever bytes a chunk holds, what each of the six parsers gives fits the fields of its struct: an
-- integer its width, an array its size, a vector the length that goes with it. The text of a PRNT
-- packet has ASCII characters only and no NUL.
pub parsed_values_fit :
    (buf : Bytes)
    → IsBytes buf
    → ((a : Ainf) → parse_ainf buf ≡ some a → AinfFits a)
      × ((a : Adon) → parse_adon buf ≡ some a → AdonFits a)
      × ((c : Chan) → parse_chan buf ≡ some c → ChanFits c)
      × ((p : Prnt) → parse_prnt buf ≡ some p → PrntFits p)
      × ((v : Cvar) → parse_cvar buf ≡ some v → CvarFits v.cvar)
      × ((c : Cfgv) → parse_cfgv buf ≡ some c → CfgvFits c)
parsed_values_fit buf bytes = (
  λ a e. parse_ainf-Fits buf a bytes e,
  λ a e. parse_adon-Fits buf a bytes e,
  λ c e. parse_chan-Fits buf c bytes e,
  λ p e. parse_prnt-Fits buf p bytes e,
  λ v e. parse_cvar-Fits buf v bytes e,
  λ c e. parse_cfgv-Fits buf c bytes e,
)
