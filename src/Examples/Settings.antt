-- ===== src/Examples/Settings.antt =====
-- The configuration: its theorems at a small file.
use cs2remote_console.Base.{Bytes, codes, split_at, ◌≡◌, refl, Option, none, some, [], ◌∷◌, arith}
use cs2remote_console.Config.{
  Config, find_entry, lines_of, load_lines, load, load_line, parse_line, set_entry,
}
use cs2remote_console.Config.Loading.{Setting, IsWritable, file_of, latest, load-file_of}

abbrev port_setting : Setting
port_setting = record { key = codes "port"; value = codes "29000" }

port_setting-IsWritable : IsWritable port_setting
port_setting-IsWritable = record {
  key_lacks_eq = omega arith;
  key_lacks_newline = omega arith;
  value_lacks_newline = omega arith;
  value_ne_nil = λ e. cc;
}

-- A comment, a setting without its value, and a setting.
sample : load_lines (lines_of (codes "# a\nb=\nport=29000")) [] ≡ (codes "port", codes "29000") ∷ []
unfolding lines_of load_lines load_line parse_line split_at set_entry
sample = refl

load-file_of_example :
    (m' : Config) × (load (some (file_of (port_setting ∷ []))) [] ≡ some m')
    × (find_entry (codes "port") m' ≡ latest (codes "port") (port_setting ∷ []) none)
unfolding find_entry
load-file_of_example =
    load-file_of (port_setting ∷ []) [] (codes "port") (port_setting-IsWritable, tt)

abbrev no_files : Bytes → Option Bytes
no_files path = none

abbrev loaded : Config
loaded = (codes "port", codes "29000\r") ∷ []
