-- ===== src/Gate/Keypad/Frame.antt =====
-- pigate/pkg/gate/keypad.go, `parseKeypad4`: one key of four bits.
pub mod Laws
use Prim.Native.Nat.{bit_or}
use pigate.Prelude.{
  ℕ, ◌-◌, ◌*◌, ◌%◌, String, Bool, true, false, not, ◌&&◌, List, [], ◌∷◌, ℤ, pos, negsuc, int_eq,
  ◌==◌, Error, text, Result, ok, err, length, eqb, if◌then◌else◌,
}

-- The conversion `uint8(b)` of an int.
abbrev uint8 : ℤ → ℕ
uint8 (pos n) = n % 256
uint8 (negsuc n) = 255 - n % 256

abbrev pub is_bit : ℤ → Bool
is_bit b = not (not (b == pos 0) && not (b == pos 1))

-- `(val << 1) | uint8(b)` in a uint8.
abbrev shift_in : ℕ → ℤ → ℕ
shift_in val b = bit_or (val * 2 % 256) (uint8 b)

-- The loop over the bits.
read_bits : ℕ → List ℤ → Result ℕ
read_bits val [] = ok val
read_bits val (b ∷ bits) =
    let rest = read_bits (shift_in val b) bits in
    if is_bit b then rest else err (text "invalid bit in frame")

-- The switch over the value.
unfoldable pub key_name : ℕ → String
key_name val =
    if eqb val 0x0
    then "0"
    else if eqb val 0x1
    then "1"
    else if eqb val 0x2
    then "2"
    else if eqb val 0x3
    then "3"
    else if eqb val 0x4
    then "4"
    else if eqb val 0x5
    then "5"
    else if eqb val 0x6
    then "6"
    else if eqb val 0x7
    then "7"
    else if eqb val 0x8
    then "8"
    else if eqb val 0x9
    then "9"
    else if eqb val 0xA
    then "*"
    else if eqb val 0xB
    then "#"
    else "?"

abbrev named : Result ℕ → Result (String × ℕ)
named (err e) = err e
named (ok val) = ok (key_name val, val)

unfoldable pub parse_keypad4 : List ℤ → Result (String × ℕ)
unfolding read_bits
parse_keypad4 bits =
    if not (eqb (length bits) 4)
    then err (text "expected 4-bit keypad frame")
    else named (read_bits 0 bits)
