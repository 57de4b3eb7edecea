-- ===== src/Database/Decimal.antt =====
-- `fmt.Sprintf("%d", n)` and `strconv.Atoi`, as dynamodb_repository.go uses them, and the few
-- characters that they and the layout "15:04:05" write.
use Prim.Native.Char.{Char, char, code, nul, IsScalar}
use mathlib.Core.Logic.{dite}
use native.Mathlib.Decide.{dec_lt}
use pigate.Prelude.{
  ℕ, zero, suc, ◌+◌, ◌-◌, ◌*◌, ◌/◌, ◌%◌, ◌≤◌, ◌<◌, ◌≡◌, refl, ◌∙◌, ap, String, true, false, ◌&&◌,
  Option, none, some, List, [], ◌∷◌, ℤ, pos, negsuc, codes, arith, eqb, leb, ltb, if◌then◌else◌,
  All, ◌⊎◌, inl, inr, Bool-cases,
}

scalar : (c : ℕ) → c < 128 → IsScalar c
scalar c h = ground arith

-- A byte of the output, which is ASCII, as a character.
unfoldable pub printed : ℕ → Char
unfolding dec_lt scalar
printed c = dite (dec_lt c 128) (λ h. char c (scalar c h)) (λ _. nul)

unfoldable pub to_text : List ℕ → String
to_text [] = ""
to_text (c ∷ cs) = String.◌∷◌ (printed c) (to_text cs)

-- The minus sign, the digits, and the colon.
abbrev pub IsPrinted : ℕ → Type 0
IsPrinted c = (c ≡ 45) ⊎ ((48 ≤ c) × (c ≤ 58))

code-printed : (c : ℕ) → IsPrinted c → code (printed c) ≡ c
unfolding printed
code-printed c h = ground arith

pub codes-to_text : (cs : List ℕ) → All IsPrinted cs → codes (to_text cs) ≡ cs
unfolding to_text
codes-to_text [] h = refl
codes-to_text (c ∷ cs) (h, hs) = cc (code-printed c h, codes-to_text cs hs)

-- The digits of a number, before some others; the number itself is fuel enough.
unfoldable pub digits : ℕ → ℕ → List ℕ → List ℕ
digits zero n rest = (48 + n % 10) ∷ rest
digits (suc fuel) n rest = elim (ltb n 10) [
  | true ↦ (48 + n % 10) ∷ rest
  | false ↦ digits fuel (n / 10) ((48 + n % 10) ∷ rest)
]

unfoldable pub decimal : ℤ → List ℕ
decimal (pos n) = digits n n []
decimal (negsuc n) = 45 ∷ digits (suc n) (suc n) []

-- `fmt.Sprintf("%d", n)`.
unfoldable pub sprintf : ℤ → String
sprintf n = to_text (decimal n)

unfoldable pub scan_digits : List ℕ → ℕ → Option ℕ
scan_digits [] n = some n
scan_digits (c ∷ cs) n = if leb 48 c && leb c 57 then scan_digits cs (n * 10 + (c - 48)) else none

abbrev pub limit : ℕ
limit = 9223372036854775808

-- What fits into an `int` of 64 bits.
abbrev positive : Option ℕ → Option ℤ
positive none = none
positive (some n) = if ltb n limit then some (pos n) else none

abbrev negate : ℕ → ℤ
negate zero = pos 0
negate (suc n) = negsuc n

abbrev negative : Option ℕ → Option ℤ
negative none = none
negative (some n) = if leb n limit then some (negate n) else none

abbrev unsigned : List ℕ → Option ℕ
unsigned [] = none
unsigned (c ∷ cs) = scan_digits (c ∷ cs) 0

unfoldable pub parse_int : List ℕ → Option ℤ
parse_int [] = none
parse_int (c ∷ cs) =
    if eqb c 45
    then negative (unsigned cs)
    else if eqb c 43
    then positive (unsigned cs)
    else positive (unsigned (c ∷ cs))

-- `strconv.Atoi`; `none` is an error, that of a number out of range included.
unfoldable pub atoi : String → Option ℤ
atoi s = parse_int (codes s)

scan_digits-digits :
    (fuel n : ℕ) (rest : List ℕ)
    → n ≤ fuel
    → scan_digits (digits fuel n rest) 0 ≡ scan_digits rest n
unfolding digits scan_digits
scan_digits-digits zero n rest h = ground arith
scan_digits-digits (suc fuel) n rest h =
    ground (arith, scan_digits-digits fuel (n / 10) ((48 + n % 10) ∷ rest))

-- There is a first digit.
digits_cons :
    (fuel n : ℕ) (rest : List ℕ)
    → (c : ℕ) × (cs : List ℕ) × (digits fuel n rest ≡ c ∷ cs) × (48 ≤ c) × (c ≤ 57)
unfolding digits
digits_cons zero n rest = (48 + n % 10, rest, refl, omega arith, omega arith)
digits_cons (suc fuel) n rest = elim (Bool-cases (ltb n 10)) [
  | inl small ↦ (48 + n % 10, rest, rw (small, digits), omega arith, omega arith)
  | inr large ↦
      let (c, cs, same, low, high) = digits_cons fuel (n / 10) ((48 + n % 10) ∷ rest) in
      (c, cs, rw (large, digits) same, low, high)
]

All-digits : (fuel n : ℕ) (rest : List ℕ) → All IsPrinted rest → All IsPrinted (digits fuel n rest)
unfolding digits
All-digits zero n rest h = (inr (omega arith, omega arith), h)
All-digits (suc fuel) n rest h = elim (Bool-cases (ltb n 10)) [
  | inl small ↦ rw (small, digits) (inr (omega arith, omega arith), h)
  | inr large ↦
      rw (large, digits)
        (All-digits fuel (n / 10) ((48 + n % 10) ∷ rest) (inr (omega arith, omega arith), h))
]

pub All-decimal : (n : ℤ) → All IsPrinted (decimal n)
unfolding decimal
All-decimal (pos n) = All-digits n n [] tt
All-decimal (negsuc n) = (inl refl, All-digits (suc n) (suc n) [] tt)

abbrev pub IsInt : ℤ → Type 0
IsInt (pos n) = n < limit
IsInt (negsuc n) = n < limit

parse_int-decimal : (n : ℤ) → IsInt n → parse_int (decimal n) ≡ some n
unfolding decimal parse_int
parse_int-decimal (pos n) fits =
    let (c, cs, same, low, high) = digits_cons n n [] in
    let read = scan_digits-digits n n [] (omega arith) in unfold scan_digits in ground arith
parse_int-decimal (negsuc n) fits =
    let (c, cs, same, low, high) = digits_cons (suc n) (suc n) [] in
    let read = scan_digits-digits (suc n) (suc n) [] (omega arith) in
    unfold scan_digits in ground arith

-- Every `int` is read back from its decimal print.
pub atoi-sprintf : (n : ℤ) → IsInt n → atoi (sprintf n) ≡ some n
unfolding atoi sprintf
atoi-sprintf n fits =
    ap parse_int (codes-to_text (decimal n) (All-decimal n)) ∙ parse_int-decimal n fits
