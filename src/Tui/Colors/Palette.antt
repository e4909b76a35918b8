-- ===== src/Tui/Colors/Palette.antt =====
-- The 256-colour palette of mapTo256Color.
use cs2remote_console.Base.{ℕ, ◌+◌, ◌*◌, ◌/◌, ◌%◌, ◌≤◌, ◌≡◌, arith}
use cs2remote_console.Tui.Colors.{map_to_256_color}

-- Every colour is mapped to one of the palette's entries 16 to 255: to the 24 greys or the black and
-- white from 16 on where its three parts are equal, and else to the colour cube.
map_to_256_color_range :
    (color : ℕ) → (16 ≤ map_to_256_color color) × (map_to_256_color color ≤ 255)
unfolding map_to_256_color
map_to_256_color_range color = ground arith

-- The top byte of the colour plays no part. In the colours of channels and messages that byte is
-- the red one, as initializeColor reads them.
map_to_256_color_ignores_top :
    (top rest : ℕ) → map_to_256_color (top * 16777216 + rest) ≡ map_to_256_color rest
unfolding map_to_256_color
map_to_256_color_ignores_top top rest =
    let red : (top * 16777216 + rest) / 65536 % 256 ≡ rest / 65536 % 256 = omega arith in
    let green : (top * 16777216 + rest) / 256 % 256 ≡ rest / 256 % 256 = omega arith in
    let blue : (top * 16777216 + rest) % 256 ≡ rest % 256 = omega arith in rw (red, green, blue)
