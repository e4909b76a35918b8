-- ===== src/Tui/State.antt =====
-- The state of the class TUI of tui.h. Identifiers of channels are int bit patterns, a colour is a
-- uint32_t, a colour pair is the 16-bit pattern of a short. The maps are association lists. What
-- the class asks of curses is recorded in `calls`, oldest first; windows and refreshing are left out.
-- `W` is what the command callback acts on.
use cs2remote_console.Base.{
  ◌==◌, if◌then◌else◌, Bytes, ℤ, ℕ, ◌-◌, ◌≡◌, refl, Bool, true, false, Option, none, some, List, [],
  ◌∷◌, arith,
}

-- -1337 as a bit pattern.
abbrev pub application_special_channel_id : ℕ
application_special_channel_id = 4294967296 - 1337

abbrev pub max_console_messages : ℕ
max_console_messages = 10000

pub record ConsoleChannel : Type 0 where
  pub name : Bytes
  pub color : ℕ
  pub color_pair_id : ℕ

pub record ConsoleMessage : Type 0 where
  pub channel_id : ℕ
  pub color : ℕ
  pub message : Bytes
  pub timestamp : ℕ

-- init_color, init_pair and color_content, whose arguments are shorts, and a line printed at a row in a colour pair.
pub data CursesCall : Type 0 where
  init_color : ℤ → ℕ → ℕ → ℕ → CursesCall
  init_pair : ℤ → ℤ → ℤ → CursesCall
  color_content : ℤ → CursesCall
  print_line : ℕ → ℕ → Bytes → CursesCall

pub record Tui (W : Type 0) : Type 0 where
  pub color_cache : List (ℕ × ℕ)
  pub next_color_pair_id : ℕ
  pub next_color_id : ℕ
  pub use_extended_colors : Bool
  pub console_messages : List ConsoleMessage
  pub channels : List (ℕ × ConsoleChannel)
  pub input_buffer : Bytes
  pub command_callback : Option (Bytes → W → W)
  pub running : Bool
  pub needs_resize : Bool
  pub last_width : ℕ
  pub last_height : ℕ
  pub scroll_position : ℕ
  pub console_dirty : Bool
  pub calls : List CursesCall

-- std::unordered_map, find and operator[].
module _ {V : Type 0} where
  unfoldable pub find_key : ℕ → List (ℕ × V) → Option V
  find_key k [] = none
  find_key k ((j, v) ∷ m) = if j == k then some v else find_key k m

  unfoldable pub assign_key : ℕ → V → List (ℕ × V) → List (ℕ × V)
  assign_key k v [] = (k, v) ∷ []
  assign_key k v ((j, u) ∷ m) = if j == k then (k, v) ∷ m else (j, u) ∷ assign_key k v m

  pub find_key-assign_key :
      (k j : ℕ) (v : V) (m : List (ℕ × V))
      → find_key j (assign_key k v m) ≡ (if k == j then some v else find_key j m)
  unfolding find_key assign_key
  find_key-assign_key k j v [] = refl
  find_key-assign_key k j v ((i, u) ∷ m) = ground (arith, find_key-assign_key k j v m)

module _ {W : Type 0} where
  -- The constructor TUI::TUI, with the in-class initialisers; m_useExtendedColors is set by init.
  unfoldable pub new_tui : Bool → Tui W
  new_tui extended = record {
    color_cache = [];
    next_color_pair_id = 1;
    next_color_id = 1;
    use_extended_colors = extended;
    console_messages = [];
    channels = [];
    input_buffer = [];
    command_callback = none;
    running = true;
    needs_resize = false;
    last_width = 0;
    last_height = 0;
    scroll_position = 0;
    console_dirty = false;
    calls = [];
  }

  unfoldable pub set_command_callback : (Bytes → W → W) → Tui W → Tui W
  set_command_callback callback t = record t { command_callback = some callback }

  unfoldable pub set_console_dirty : Bool → Tui W → Tui W
  set_console_dirty dirty t = record t { console_dirty = dirty }

  -- What shutdown does to the state.
  unfoldable pub shutdown : Tui W → Tui W
  shutdown t = record t { running = false }
