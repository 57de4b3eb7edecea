-- ===== src/Database/ClockText.antt =====
-- The layout "15:04:05" of Go's package time, in which sqlite_repository.go stores a time of day:
-- `Format`, and `ParseInLocation` with what it accepts beyond the texts that `Format` writes.
use pigate.Prelude.{
  ℕ, ◌+◌, ◌-◌, ◌*◌, ◌/◌, ◌%◌, ◌<◌, ◌≡◌, Bool, true, false, not, ◌&&◌, ◌||◌, List, [], ◌∷◌, Option,
  none, some, arith, leb, ltb, eqb, if◌then◌else◌,
}
use pigate.Database.Models.{Time}

-- A time as Go keeps it: its clock is in range.
pub record IsValid (t : Time) : Type 0 where
  pub hour_lt : t.hour < 24
  pub minute_lt : t.minute < 60
  pub second_lt : t.second < 60

-- Two digits, zero-padded.
abbrev two_digits : ℕ → List ℕ → List ℕ
two_digits n rest = (48 + n / 10) ∷ (48 + n % 10) ∷ rest

-- `t.Format("15:04:05")`, as the bytes of the text.
unfoldable pub format : Time → List ℕ
format t = two_digits t.hour (b':' ∷ two_digits t.minute (b':' ∷ two_digits t.second []))

abbrev is_digit : ℕ → Bool
is_digit c = leb 48 c && leb c 57

-- `getnum`: one or two digits; two where `fixed` is set.
unfoldable pub get_num : Bool → List ℕ → Option (ℕ × List ℕ)
get_num fixed [] = none
get_num fixed (c ∷ []) = if is_digit c && not fixed then some (c - 48, []) else none
get_num fixed (c ∷ d ∷ rest) =
    if not (is_digit c)
    then none
    else if is_digit d
    then some ((c - 48) * 10 + (d - 48), rest)
    else if fixed
    then none
    else some (c - 48, d ∷ rest)

-- A number of the layout that has to be below `limit`.
unfoldable pub field : Bool → ℕ → List ℕ → Option (ℕ × List ℕ)
field fixed limit value = elim (get_num fixed value) [
  | none ↦ none
  | some (n, rest) ↦ if ltb n limit then some (n, rest) else none
]

-- The colon between two numbers.
unfoldable pub skip_colon : List ℕ → Option (List ℕ)
skip_colon [] = none
skip_colon (c ∷ rest) = if eqb c b':' then some rest else none

all_digits : List ℕ → Bool
all_digits [] = true
all_digits (c ∷ rest) = is_digit c && all_digits rest

-- What may follow the seconds: nothing, or a fraction, which `Parse` accepts although the layout
-- has none.
unfoldable pub is_end : List ℕ → Bool
unfolding all_digits
is_end [] = true
is_end (c ∷ []) = false
is_end (c ∷ d ∷ rest) = (eqb c b'.' || eqb c b',') && is_digit d && all_digits rest

infixl 5 ◌>>=◌
abbrev ◌>>=◌ : {A B : Type 0} → Option A → (A → Option B) → Option B
none >>= f = none
some a >>= f = f a

abbrev clock : ℕ → ℕ → ℕ × List ℕ → Option Time
clock hour minute (second, rest) =
    if is_end rest
    then some (record { day = 0; hour = hour; minute = minute; second = second })
    else none

-- `time.ParseInLocation("15:04:05", value, …)`. The date of the result is January 1 of year 0.
unfoldable pub parse : List ℕ → Option Time
parse value = do
  (hour, value) ← field false 24 value
  value ← skip_colon value
  (minute, value) ← field true 60 value
  value ← skip_colon value
  seconds ← field true 60 value
  clock hour minute seconds

get_num-two_digits :
    (fixed : Bool) (n : ℕ) (rest : List ℕ)
    → n < 100
    → get_num fixed (two_digits n rest) ≡ some (n, rest)
unfolding get_num
get_num-two_digits fixed n rest h = ground arith

field-two_digits :
    (fixed : Bool) (limit n : ℕ) (rest : List ℕ)
    → n < limit
    → limit < 100
    → field fixed limit (two_digits n rest) ≡ some (n, rest)
unfolding field
field-two_digits fixed limit n rest h small = ground (arith, get_num-two_digits fixed n rest)

-- A stored time of day reads back with the same clock, on day 0.
pub parse-format : (t : Time) → IsValid t → parse (format t) ≡ some (record t { day = 0 })
unfolding format parse skip_colon is_end
parse-format t v = ground (
  arith,
  field-two_digits false 24 t.hour (b':' ∷ two_digits t.minute (b':' ∷ two_digits t.second [])),
  field-two_digits true 60 t.minute (b':' ∷ two_digits t.second []),
  field-two_digits true 60 t.second [],
)
