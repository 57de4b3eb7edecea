-- ===== src/Gate/Keypad/Frame/Laws.antt =====
-- Which frames are keys, and which key each of them is.
use pigate.Prelude.{
  ℕ, ◌+◌, ◌*◌, ◌≡◌, refl, ◌≢◌, Bool, true, false, String, List, [], ◌∷◌, ℤ, pos, int_eq, arith,
  Error, text, ok, err, length, eqb, leb, if◌then◌else◌, codes,
}
use pigate.Gate.Keypad.Frame.{key_name, parse_keypad4}

abbrev pub bit : Bool → ℤ
bit false = pos 0
bit true = pos 1

abbrev weight : Bool → ℕ
weight false = 0
weight true = 1

-- The value of four bits, the highest first.
abbrev pub value : Bool → Bool → Bool → Bool → ℕ
value a b c d = 8 * weight a + 4 * weight b + 2 * weight c + weight d

-- The code point of a key: the ten digits, the star, the hash, and a question mark for the four
-- values that no key of the pad sends.
abbrev pub key_code : ℕ → ℕ
key_code val =
    if leb val 9 then 48 + val else if eqb val 10 then b'*' else if eqb val 11 then b'#' else b'?'

abbrev pub frame : Bool → Bool → Bool → Bool → List ℤ
frame a b c d = bit a ∷ bit b ∷ bit c ∷ bit d ∷ []

-- Every frame of four bits is a key: the one character that stands for its value.
pub parse_keypad4_lem :
    (a b c d : Bool)
    → let val = value a b c d in
      (parse_keypad4 (frame a b c d) ≡ ok (key_name val, val))
      × (codes (key_name val) ≡ key_code val ∷ [])
unfolding parse_keypad4 key_name int_eq
parse_keypad4_lem true true true true = (refl, refl)
parse_keypad4_lem true true true false = (refl, refl)
parse_keypad4_lem true true false true = (refl, refl)
parse_keypad4_lem true true false false = (refl, refl)
parse_keypad4_lem true false true true = (refl, refl)
parse_keypad4_lem true false true false = (refl, refl)
parse_keypad4_lem true false false true = (refl, refl)
parse_keypad4_lem true false false false = (refl, refl)
parse_keypad4_lem false true true true = (refl, refl)
parse_keypad4_lem false true true false = (refl, refl)
parse_keypad4_lem false true false true = (refl, refl)
parse_keypad4_lem false true false false = (refl, refl)
parse_keypad4_lem false false true true = (refl, refl)
parse_keypad4_lem false false true false = (refl, refl)
parse_keypad4_lem false false false true = (refl, refl)
parse_keypad4_lem false false false false = (refl, refl)

-- Anything else is an error: a frame of another length, or one that holds no bit.
pub parse_keypad4-length :
    (bits : List ℤ) → length bits ≢ 4 → (e : Error) × (parse_keypad4 bits ≡ err e)
unfolding parse_keypad4
parse_keypad4-length bits h = (text "expected 4-bit keypad frame", ground arith)

-- The name of a key is that of its value.
pub parse_keypad4-key_name :
    (bits : List ℤ) (key : String) (val : ℕ)
    → parse_keypad4 bits ≡ ok (key, val)
    → key ≡ key_name val
unfolding parse_keypad4
parse_keypad4-key_name bits key val h = ground arith
