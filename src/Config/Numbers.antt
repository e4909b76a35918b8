-- ===== src/Config/Numbers.antt =====
-- Numbers in the configuration file.
use cs2remote_console.Base.{
  Option-cases, All, Bytes, ℤ, pos_part, neg_part, ℕ, ◌+◌, ◌-◌, ◌*◌, ◌≤◌, ◌≡◌, refl, ◌≢◌, inl, inr,
  Bool, true, false, some, [], ◌∷◌, ◌++◌, arith, pos,
}
use cs2remote_console.Config.{
  Config, find_entry, is_digit, digits_value, skip_spaces, digits_int, signed_int, stoi, get_int,
}

-- An int: from -2147483648 to 2147483647.
abbrev pub IsInt : ℤ → Type 0
IsInt n = (pos_part n ≤ 2147483647) × (neg_part n ≤ 2147483648)

digits_int-IsInt :
    (negative : Bool) (text : Bytes) (n : ℤ) → digits_int negative text ≡ some n → IsInt n
unfolding digits_int
digits_int-IsInt negative [] n e = cc
digits_int-IsInt negative (c ∷ text) n e = ground arith

signed_int-IsInt : (text : Bytes) (n : ℤ) → signed_int text ≡ some n → IsInt n
signed_int-IsInt [] n e = cc
signed_int-IsInt (c ∷ text) n e = ground (
  arith,
  digits_int-IsInt true text n,
  digits_int-IsInt false text n,
  digits_int-IsInt false (c ∷ text) n,
)

stoi-IsInt : (text : Bytes) (n : ℤ) → stoi text ≡ some n → IsInt n
unfolding stoi
stoi-IsInt text n e = signed_int-IsInt (skip_spaces text) n e

-- getInt gives a value in the range of an int, if its default value is one.
get_int-IsInt :
    (key : Bytes) (default_value : ℤ) (m : Config)
    → IsInt default_value
    → IsInt (get_int key default_value m)
unfolding get_int
get_int-IsInt key default_value m d = elim (Option-cases (find_entry key m)) [
  | inl missing ↦ rw (missing, get_int) d
  | inr (v, found) ↦ elim (Option-cases (stoi v)) [
    | inl no_number ↦ rw (found, no_number, get_int) d
    | inr (n, read) ↦ rw (found, read, get_int) (stoi-IsInt v n read)
  ]
]

-- The number that decimal digits stand for, most significant first.
abbrev pub decimal : ℕ → Bytes → ℕ
decimal acc [] = acc
decimal acc (c ∷ cs) = decimal (acc * 10 + (c - b'0')) cs

abbrev pub IsDigits : Bytes → Type 0
IsDigits = All (λ c. (b'0' ≤ c) × (c ≤ b'9'))

-- No digit stands in front.
abbrev pub EndsNumber : Bytes → Type 0
EndsNumber [] = Unit {0}
EndsNumber (c ∷ cs) = is_digit c ≡ false

pub digits_value-decimal :
    (digits rest : Bytes) (acc : ℕ)
    → IsDigits digits
    → EndsNumber rest
    → digits_value acc (digits ++ rest) ≡ decimal acc digits
unfolding digits_value
digits_value-decimal [] [] acc d e = refl
digits_value-decimal [] (c ∷ rest) acc d e = ground arith
digits_value-decimal (c ∷ digits) rest acc d e =
    ground (arith, digits_value-decimal digits rest (acc * 10 + (c - b'0')) d.1 e)

-- A value of decimal digits that stand for a number of at most 2147483647 is read as that number,
-- whatever follows that is no digit, such as a carriage return.
get_int-decimal :
    (key digits rest : Bytes) (default_value : ℤ) (m : Config)
    → find_entry key m ≡ some (digits ++ rest)
    → IsDigits digits
    → digits ≢ []
    → EndsNumber rest
    → decimal 0 digits ≤ 2147483647
    → get_int key default_value m ≡ pos (decimal 0 digits)
unfolding get_int stoi skip_spaces digits_int
get_int-decimal key [] rest default_value m found d ne e small = absurd (ne refl)
get_int-decimal key (c ∷ digits) rest default_value m found d ne e small =
    ground (arith, digits_value-decimal (c ∷ digits) rest 0 d e)
