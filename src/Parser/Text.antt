-- ===== src/Parser/Text.antt =====
-- `strings.TrimSpace`, as paser.go uses it.
use Prim.Native.Char.{Char, code}
use pigate.Prelude.{
  ℕ, String, Bool, true, false, ◌||◌, ◌&&◌, ◌≡◌, refl, arith, eqb, leb, if◌then◌else◌, Bool-cases,
  inl, inr, ◌∙◌, ap, not,
}

-- `unicode.IsSpace`, on the code point of a character.
abbrev is_space_code : ℕ → Bool
is_space_code c =
    (leb 9 c && leb c 13)
    || eqb c 32
    || eqb c 0x85
    || eqb c 0xA0
    || eqb c 0x1680
    || (leb 0x2000 c && leb c 0x200A)
    || eqb c 0x2028
    || eqb c 0x2029
    || eqb c 0x202F
    || eqb c 0x205F
    || eqb c 0x3000

unfoldable pub is_space : Char → Bool
is_space c = is_space_code (code c)

unfoldable pub trim_left : String → String
trim_left String.[] = ""
trim_left (String.◌∷◌ c s) = let rest = trim_left s in if is_space c then rest else String.◌∷◌ c s

abbrev put_back : Char → String → String
put_back c String.[] = if is_space c then "" else String.◌∷◌ c ""
put_back c (String.◌∷◌ d s) = String.◌∷◌ c (String.◌∷◌ d s)

unfoldable pub trim_right : String → String
trim_right String.[] = ""
trim_right (String.◌∷◌ c s) = put_back c (trim_right s)

unfoldable pub trim_space : String → String
trim_space s = trim_right (trim_left s)

-- The text does not begin with a space.
abbrev begins_well : String → Bool
begins_well String.[] = true
begins_well (String.◌∷◌ c s) = not (is_space c)

trim_left-begins_well : (s : String) → begins_well (trim_left s) ≡ true
unfolding trim_left
trim_left-begins_well String.[] = refl
trim_left-begins_well (String.◌∷◌ c s) = elim (Bool-cases (is_space c)) [
  | inl space ↦ rw space (trim_left-begins_well s)
  | inr other ↦ rw (other, other)
]

trim_left-eq_self : (s : String) → begins_well s ≡ true → trim_left s ≡ s
unfolding trim_left
trim_left-eq_self String.[] h = refl
trim_left-eq_self (String.◌∷◌ c s) h = ground arith

put_back-begins_well :
    (c : Char) (s : String) → is_space c ≡ false → begins_well (put_back c s) ≡ true
put_back-begins_well c String.[] h = rw (h, h)
put_back-begins_well c (String.◌∷◌ d s) h = rw h

trim_right-begins_well : (s : String) → begins_well s ≡ true → begins_well (trim_right s) ≡ true
unfolding trim_right
trim_right-begins_well String.[] h = refl
trim_right-begins_well (String.◌∷◌ c s) h = put_back-begins_well c (trim_right s) (ground arith)

trim_right-put_back :
    (c : Char) (s : String) → trim_right s ≡ s → trim_right (put_back c s) ≡ put_back c s
unfolding trim_right
trim_right-put_back c String.[] h = elim (Bool-cases (is_space c)) [
  | inl space ↦ rw space refl
  | inr other ↦ rw other (rw other)
]
trim_right-put_back c (String.◌∷◌ d s) h = ap (put_back c) h

trim_right_idem : (s : String) → trim_right (trim_right s) ≡ trim_right s
unfolding trim_right
trim_right_idem String.[] = refl
trim_right_idem (String.◌∷◌ c s) = trim_right-put_back c (trim_right s) (trim_right_idem s)

-- What is trimmed has no space at either end, so to trim it again changes nothing.
pub trim_space_idem : (s : String) → trim_space (trim_space s) ≡ trim_space s
trim_space_idem s =
    unfold trim_space in
    ap trim_right (
      trim_left-eq_self (trim_right (trim_left s))
        (trim_right-begins_well (trim_left s) (trim_left-begins_well s)))
    ∙ trim_right_idem (trim_left s)
