-- ===== src/Tui/Colors.antt =====
-- The colours of tui.cpp: mapTo256Color, initializeColor and registerChannel.
pub mod Palette
pub mod Cache
pub mod Register
use cs2remote_console.Base.{
  ltb, leb, ◌==◌, if◌then◌else◌, Bytes, ℤ, ℕ, ◌+◌, ◌-◌, ◌*◌, ◌/◌, ◌%◌, Bool, ◌&&◌, ◌||◌, none, some,
  [], ◌∷◌, ◌++◌, pos, negsuc,
}
use cs2remote_console.Tui.State.{
  Tui, ConsoleChannel, init_color, init_pair, color_content, find_key, assign_key,
}

-- round(n / d) for n, d > 0. No value here lies halfway between two integers, so the error of the
-- double division does not change the result.
abbrev pub round_div : ℕ → ℕ → ℕ
round_div n d = (2 * n + d) / (2 * d)

unfoldable pub map_to_256_color : ℕ → ℕ
map_to_256_color color =
    let r = color / 65536 % 256 in
    let g = color / 256 % 256 in
    let b = color % 256 in
    if r == g && g == b
    then (if ltb r 8 then 16 else if ltb 248 r then 231 else round_div ((r - 8) * 24) 247 + 232)
    else 16 + 36 * round_div (r * 5) 255 + 6 * round_div (g * 5) 255 + round_div (b * 5) 255

-- (((long long)color) << 32) | (backgroundColor & 0xffffffffL), as a 64-bit pattern.
abbrev pub combined_color : ℕ → ℕ → ℕ
combined_color color background = color * 4294967296 + background

abbrev extended_color_base : ℕ
extended_color_base = 256

-- r * 1000 / 255 of a byte of the colour.
abbrev scaled : ℕ → ℕ → ℕ
scaled color shift = color / shift % 256 * 1000 / 255

-- The value of a short, of which the low 16 bits are given.
abbrev pub to_short : ℕ → ℤ
to_short n = let m = n % 65536 in if ltb m 32768 then pos m else negsuc (65535 - m)

module _ {W : Type 0} where
  -- A new pair on a terminal whose colours can be changed. m_nextColorId is an int. What
  -- color_content writes into the local variables is not used.
  unfoldable pub extended_pair : ℕ → ℕ → ℕ → Tui W → Tui W
  extended_pair pair color background t =
      let number = to_short (extended_color_base + t.next_color_id) in
      let id1 = t.next_color_id + 1 in
      let b_number = if background == 0 then negsuc 0 else to_short (extended_color_base + id1) in
      let id2 = if background == 0 then id1 else id1 + 1 in
      record t {
        next_color_id = id2;
        calls =
            t.calls
            ++ init_color number (scaled color 16777216) (scaled color 65536) (scaled color 256)
              ∷ init_color b_number (scaled background 16777216) (scaled background 65536)
                  (scaled background 256)
              ∷ color_content number
              ∷ init_pair (to_short pair) number b_number
              ∷ [];
      }

  -- A new pair of the nearest colours out of 256.
  unfoldable pub nearest_pair : ℕ → ℕ → ℕ → Tui W → Tui W
  nearest_pair pair color background t =
      let b_nearest = if background == 0 then negsuc 0 else pos (map_to_256_color background) in
      record t {
        calls = t.calls ++ init_pair (to_short pair) (pos (map_to_256_color color)) b_nearest ∷ [];
      }

  unfoldable pub initialize_color : ℕ → ℕ → Tui W → ℕ × Tui W
  initialize_color color background t =
      elim (find_key (combined_color color background) t.color_cache) [
        | some pair ↦ (pair, t)
        | none ↦
            let pair = t.next_color_pair_id in
            let t1 = record t { next_color_pair_id = (pair + 1) % 65536 } in
            let t2 =
              if t.use_extended_colors
              then extended_pair pair color background t1
              else nearest_pair pair color background t1 in
            (
              pair,
              record t2 {
                color_cache = assign_key (combined_color color background) pair t2.color_cache;
              },
            )
      ]

  -- m_nextColorPairId < COLOR_PAIRS, on a short and an int.
  abbrev pub pairs_left : ℕ → Tui W → Bool
  pairs_left color_pairs t = leb 32768 t.next_color_pair_id || ltb t.next_color_pair_id color_pairs

  -- The pair of a channel's colour; the cache is searched for the bare colour.
  unfoldable pub channel_pair : ℕ → ℕ → ℕ → Tui W → ℕ × Tui W
  channel_pair color_pairs color background t =
      if color == 0 then (0, t) else elim (find_key color t.color_cache) [
        | some pair ↦ (pair, t)
        | none ↦ if pairs_left color_pairs t then initialize_color color background t else (0, t)
      ]

  unfoldable pub register_channel : ℕ → ℕ → Bytes → ℕ → ℕ → Tui W → Tui W
  register_channel color_pairs id name color background t =
      let found = channel_pair color_pairs color background t in
      record found.1 {
        channels =
            assign_key id (record { name = name; color = color; color_pair_id = found.0 })
              found.1.channels;
      }
