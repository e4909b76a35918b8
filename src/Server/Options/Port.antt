-- ===== src/Server/Options/Port.antt =====
-- The port that the command line asks for.
use cs2remote_console.Base.{
  All, Bytes, ℕ, ◌%◌, ◌≤◌, ◌≡◌, refl, ◌∙◌, true, false, some, List, [], ◌∷◌, ◌++◌, arith, pos,
}
use cs2remote_console.Config.{is_digit, skip_spaces, digits_int}
use cs2remote_console.Config.Numbers.{decimal, IsDigits, EndsNumber, digits_value-decimal}
use cs2remote_console.Server.Options.{starts_number, atoi, is_port_option, port_option}

-- No argument is the name of the option.
abbrev pub NoOption : List Bytes → Type 0
NoOption = All (λ arg. is_port_option arg ≡ false)

port_option-none :
    (port : ℕ) (args : List Bytes) → NoOption args → port_option port args ≡ some port
unfolding port_option
port_option-none port [] n = refl
port_option-none port (arg ∷ []) n = refl
port_option-none port (arg ∷ value ∷ args) n =
    ground (arith, port_option-none port (value ∷ args) n.1)

port_option-append :
    (port : ℕ) (before : List Bytes) (name value : Bytes) (after : List Bytes)
    → NoOption before
    → port_option port (before ++ name ∷ value ∷ after) ≡ port_option port (name ∷ value ∷ after)
unfolding port_option
port_option-append port [] name value after n = refl
port_option-append port (arg ∷ []) name value after n = ground arith
port_option-append port (arg ∷ arg' ∷ before) name value after n =
    ground (arith, port_option-append port (arg' ∷ before) name value after n.1)

starts_number-digit : (c : ℕ) (cs : Bytes) → is_digit c ≡ true → starts_number (c ∷ cs) ≡ true
starts_number-digit c [] h = h
starts_number-digit c (d ∷ cs) h = ground arith

atoi-decimal :
    (c : ℕ) (digits rest : Bytes)
    → IsDigits (c ∷ digits)
    → EndsNumber rest
    → decimal 0 (c ∷ digits) ≤ 2147483647
    → atoi ((c ∷ digits) ++ rest) ≡ some (pos (decimal 0 (c ∷ digits)))
unfolding atoi skip_spaces digits_int
atoi-decimal c digits rest d e small =
    ground
      (arith, starts_number-digit c (digits ++ rest), digits_value-decimal (c ∷ digits) rest 0 d e)

-- Where one argument is -p or --port and the next is a decimal number in the range of an int, with
-- anything behind its digits, the port is that number modulo 65536, wherever the two stand, if no
-- other argument is the option. Without the option the port is the default one.
pub port_option_given :
    (port c : ℕ) (digits rest name : Bytes) (before after : List Bytes)
    → NoOption before
    → NoOption after
    → IsDigits (c ∷ digits)
    → EndsNumber rest
    → decimal 0 (c ∷ digits) ≤ 2147483647
    → (is_port_option name ≡ true
        → port_option port (before ++ name ∷ ((c ∷ digits) ++ rest) ∷ after)
          ≡ some (decimal 0 (c ∷ digits) % 65536))
      × (port_option port before ≡ some port)
unfolding port_option
port_option_given port c digits rest name before after b a d e small = (
  λ is_option.
      let read = atoi-decimal c digits rest d e small in
      port_option-append port before name ((c ∷ digits) ++ rest) after b
      ∙ ground (arith, port_option-none (decimal 0 (c ∷ digits) % 65536) after a),
  port_option-none port before b,
)
