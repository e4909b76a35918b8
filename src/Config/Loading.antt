-- ===== src/Config/Loading.antt =====
-- What a loaded file sets.
use cs2remote_console.Base.{
  if◌then◌else◌, All, Bytes, codes, eqb, eqb_iff, is_empty, Lacks, split_at-append, split_at-none,
  ℕ, ◌≡◌, refl, ap, ◌∙◌, ◌≢◌, true, false, Option, none, some, List, [], ◌∷◌, ◌++◌, arith,
}
use cs2remote_console.Config.{
  Config, find_entry, set_entry, lines_of, parse_line, load_line, load_lines, load, setup_config,
}

-- A key that can be written, and a value.
pub record Setting : Type 0 where
  pub key : Bytes
  pub value : Bytes

-- A key with no '=' and no line break, and a value that is not empty and has no line break.
pub record IsWritable (e : Setting) : Type 0 where
  pub key_lacks_eq : Lacks b'=' e.key
  pub key_lacks_newline : Lacks b'\n' e.key
  pub value_lacks_newline : Lacks b'\n' e.value
  pub value_ne_nil : e.value ≢ []

-- The line of a setting, and a file of such lines, each with its line break.
unfoldable pub line_of : Setting → Bytes
line_of e = e.key ++ b'=' ∷ e.value

unfoldable pub file_of : List Setting → Bytes
file_of [] = []
file_of (e ∷ es) = line_of e ++ b'\n' ∷ file_of es

find_entry-set_entry :
    (k j v : Bytes) (m : Config)
    → find_entry j (set_entry k v m) ≡ (if eqb k j then some v else find_entry j m)
unfolding find_entry set_entry
find_entry-set_entry k j v [] = refl
find_entry-set_entry k j v ((i, w) ∷ m) =
    ground (arith, eqb_iff k j, eqb_iff i k, eqb_iff i j, find_entry-set_entry k j v m)

lines_of-append :
    (line rest : Bytes) → Lacks b'\n' line → lines_of (line ++ b'\n' ∷ rest) ≡ line ∷ lines_of rest
unfolding lines_of
lines_of-append [] rest l = refl
lines_of-append (c ∷ line) rest l = ground (arith, lines_of-append line rest l.1)

Lacks-append : (b : ℕ) (xs ys : Bytes) → Lacks b xs → Lacks b ys → Lacks b (xs ++ ys)
Lacks-append b [] ys l m = m
Lacks-append b (x ∷ xs) ys l m = (l.0, Lacks-append b xs ys l.1 m)

nonempty : (b : Bytes) → b ≢ [] → is_empty b ≡ false
nonempty [] h = absurd (h refl)
nonempty (c ∷ b) h = refl

parse_line-line_of : (e : Setting) → IsWritable e → parse_line (line_of e) ≡ some (e.key, e.value)
unfolding parse_line line_of
parse_line-line_of e v =
    rw (split_at-append b'=' e.key e.value v.key_lacks_eq)
      (ground (arith, nonempty e.value v.value_ne_nil))

line_of-Lacks : (e : Setting) → IsWritable e → Lacks b'\n' (line_of e)
unfolding line_of
line_of-Lacks e v =
    Lacks-append b'\n' e.key (b'=' ∷ e.value) v.key_lacks_newline
      (omega arith, v.value_lacks_newline)

load_line-line_of :
    (e : Setting) (m : Config) → IsWritable e → load_line (line_of e) m ≡ set_entry e.key e.value m
unfolding load_line
load_line-line_of e m v = rw (parse_line-line_of e v, load_line)

-- The last setting of a key in a list, or what stood before.
unfoldable pub latest : Bytes → List Setting → Option Bytes → Option Bytes
latest key [] before = before
latest key (e ∷ es) before = latest key es (if eqb e.key key then some e.value else before)

load_lines-latest :
    (es : List Setting) (m : Config) (key : Bytes)
    → All IsWritable es
    → find_entry key (load_lines (lines_of (file_of es)) m) ≡ latest key es (find_entry key m)
unfolding file_of load_lines latest
load_lines-latest [] m key v = unfold lines_of in refl
load_lines-latest (e ∷ es) m key v =
    rw (lines_of-append (line_of e) (file_of es) (line_of-Lacks e v.0), load_lines)
      (ap (λ (m' : Config). find_entry key (load_lines (lines_of (file_of es)) m'))
          (load_line-line_of e m v.0)
        ∙ load_lines-latest es (set_entry e.key e.value m) key v.1
        ∙ ap (latest key es) (find_entry-set_entry e.key key e.value m))

-- Loading a file of well-formed lines gives every key the value of its last line in the file. A key
-- with no line keeps the value that it had.
pub load-file_of :
    (es : List Setting) (m : Config) (key : Bytes)
    → All IsWritable es
    → (m' : Config) × (load (some (file_of es)) m ≡ some m')
      × (find_entry key m' ≡ latest key es (find_entry key m))
unfolding load
load-file_of es m key v = (load_lines (lines_of (file_of es)) m, refl, load_lines-latest es m key v)

-- A line without '=', such as a comment, and a line with nothing behind its first '=' change nothing.
load_line_ignored :
    (key : Bytes) (m : Config)
    → Lacks b'=' key
    → (load_line key m ≡ m) × (load_line (key ++ b'=' ∷ []) m ≡ m)
unfolding load_line parse_line
load_line_ignored key m l =
    (rw (split_at-none b'=' key l, load_line), rw (split_at-append b'=' key [] l, load_line))

-- setupConfig fails exactly when neither path opens, and then leaves the map as it was; a file that
-- opens in the working directory is preferred.
setup_config_cases :
    (file : Bytes → Option Bytes) (current_directory : Bytes) (m : Config)
    → let second = current_directory ++ codes "\\config.ini" in
      ((text : Bytes)
        → file (codes "config.ini") ≡ some text
        → setup_config file current_directory m ≡ (true, load_lines (lines_of text) m))
      × ((text : Bytes)
          → file (codes "config.ini") ≡ none
          → file second ≡ some text
          → setup_config file current_directory m ≡ (true, load_lines (lines_of text) m))
      × (file (codes "config.ini") ≡ none
          → file second ≡ none
          → setup_config file current_directory m ≡ (false, m))
unfolding setup_config load
setup_config_cases file current_directory m =
    (λ text e. ground arith, λ text e f. ground arith, λ e f. ground arith)
