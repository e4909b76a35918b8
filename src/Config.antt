-- ===== src/Config.antt =====
-- The configuration file, CS2RemoteConsole-client/src/config.cpp: Config::load, get and getInt, and
-- setupConfig. The map is an association list; a file is its bytes, or `none` if it cannot be opened.
pub mod Loading
pub mod Numbers
use cs2remote_console.Base.{
  leb, ◌==◌, if◌then◌else◌, ◌>>=◌, Bytes, codes, eqb, is_empty, split_at, ℤ, sub_ℕ, ℕ, ◌+◌, ◌-◌,
  ◌*◌, Bool, true, false, not, ◌&&◌, ◌||◌, Option, none, some, List, [], ◌∷◌, ◌++◌, pos,
}

abbrev pub Config : Type 0
Config = List (Bytes × Bytes)

-- config_map.find, and config_map[key] = value.
unfoldable pub find_entry : Bytes → Config → Option Bytes
find_entry key [] = none
find_entry key ((k, v) ∷ m) = if eqb k key then some v else find_entry key m

unfoldable pub set_entry : Bytes → Bytes → Config → Config
set_entry key value [] = (key, value) ∷ []
set_entry key value ((k, v) ∷ m) =
    if eqb k key then (key, value) ∷ m else (k, v) ∷ set_entry key value m

-- A byte in front of the first of the lines.
abbrev cons_first : ℕ → List Bytes → List Bytes
cons_first c [] = (c ∷ []) ∷ []
cons_first c (l ∷ ls) = (c ∷ l) ∷ ls

-- The lines that std::getline reads from a file: it counts no empty line at the end.
unfoldable pub lines_of : Bytes → List Bytes
lines_of [] = []
lines_of (c ∷ cs) = if c == b'\n' then [] ∷ lines_of cs else cons_first c (lines_of cs)

-- The two getline calls on a line. The second fails where nothing is left behind the first '='.
unfoldable pub parse_line : Bytes → Option (Bytes × Bytes)
parse_line line = do found ← split_at b'=' line; if is_empty found.1 then none else some found

-- The body of the loop of load.
unfoldable pub load_line : Bytes → Config → Config
load_line line m = elim (parse_line line) [ none ↦ m | some (key, value) ↦ set_entry key value m ]

unfoldable pub load_lines : List Bytes → Config → Config
load_lines [] m = m
load_lines (line ∷ lines) m = load_lines lines (load_line line m)

-- load; `none` is the exception for a file that cannot be opened.
unfoldable pub load : Option Bytes → Config → Option Config
load none m = none
load (some text) m = some (load_lines (lines_of text) m)

unfoldable pub get : Bytes → Bytes → Config → Bytes
get key default_value m = elim (find_entry key m) [ some v ↦ v | none ↦ default_value ]

abbrev is_space : ℕ → Bool
is_space c = c == 32 || (leb 9 c && leb c 13)

abbrev pub is_digit : ℕ → Bool
is_digit c = leb b'0' c && leb c b'9'

-- The value of the leading digits.
unfoldable pub digits_value : ℕ → Bytes → ℕ
digits_value acc [] = acc
digits_value acc (c ∷ cs) =
    let rest = digits_value (acc * 10 + (c - b'0')) cs in if is_digit c then rest else acc

unfoldable pub skip_spaces : Bytes → Bytes
skip_spaces [] = []
skip_spaces (c ∷ cs) = if is_space c then skip_spaces cs else c ∷ cs

-- At least one digit, and a result in the range of an int.
unfoldable pub digits_int : Bool → Bytes → Option ℤ
digits_int negative [] = none
digits_int negative (c ∷ cs) =
    if not (is_digit c)
    then none
    else if negative
    then (if leb (digits_value 0 (c ∷ cs)) 2147483648
        then some (sub_ℕ 0 (digits_value 0 (c ∷ cs)))
        else none)
    else if leb (digits_value 0 (c ∷ cs)) 2147483647
    then some (pos (digits_value 0 (c ∷ cs)))
    else none

-- std::stoi: leading white space, a sign, digits, and any rest; `none` is an exception.
abbrev pub signed_int : Bytes → Option ℤ
signed_int [] = none
signed_int (c ∷ cs) =
    if c == b'-'
    then digits_int true cs
    else if c == b'+'
    then digits_int false cs
    else digits_int false (c ∷ cs)

unfoldable pub stoi : Bytes → Option ℤ
stoi text = signed_int (skip_spaces text)

unfoldable pub get_int : Bytes → ℤ → Config → ℤ
get_int key default_value m = elim (find_entry key m) [
  | none ↦ default_value
  | some v ↦ elim (stoi v) [ some n ↦ n | none ↦ default_value ]
]

-- setupConfig: the first of the two paths that opens. `file` gives the contents of a path.
unfoldable pub load_first : (Bytes → Option Bytes) → List Bytes → Config → Bool × Config
load_first file [] m = (false, m)
load_first file (path ∷ paths) m = elim (load (file path) m) [
  | some m' ↦ (true, m')
  | none ↦ load_first file paths m
]

unfoldable pub setup_config : (Bytes → Option Bytes) → Bytes → Config → Bool × Config
unfolding load_first
setup_config file current_directory m =
    load_first file (codes "config.ini" ∷ (current_directory ++ codes "\\config.ini") ∷ []) m
