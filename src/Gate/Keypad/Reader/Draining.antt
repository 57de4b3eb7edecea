-- ===== src/Gate/Keypad/Reader/Draining.antt =====
-- A bit that is received leaves the channel and the switch of the reader as they are.
use pigate.Prelude.{ℕ, ◌≡◌, inl, inr, [], ◌∷◌, ◌++◌, ℤ, arith, pair_cases}
use pigate.Gate.Keypad.Frame.{parse_keypad4}
use pigate.Gate.Keypad.Reader.{Reader, receive_bit}

pub receive_bit-bit_ch :
    (at : ℕ) (b : ℤ) (k : Reader)
    → ((receive_bit at b k).bit_ch ≡ k.bit_ch) × ((receive_bit at b k).stopped ≡ k.stopped)
unfolding receive_bit
receive_bit-bit_ch at b k = elim (pair_cases (parse_keypad4 (k.key_bits ++ b ∷ []))) [
  | inl (e, bad) ↦ ground arith
  | inr (key, val, good) ↦ ground arith
]
