-- ===== src/Gate/Keypad/Reader/Invariant.antt =====
-- What holds of the keypad reader after any events.
use pigate.Prelude.{
  is_nil, ℕ, ◌≤◌, ◌<◌, ◌≡◌, refl, inl, inr, String, Bool, true, false, Option, none, some, List, [],
  ◌∷◌, ◌++◌, ℤ, pos, arith, length, length-append, All, All-append, contains, string_eq, ok, sym,
  subst, eqb, if◌then◌else◌, List-cases, pair_cases,
}
use pigate.Gate.Keypad.Frame.{parse_keypad4, key_name}
use pigate.Gate.Keypad.Frame.Laws.{parse_keypad4-key_name}
use pigate.Gate.Keypad.Reader.{
  Reader, new_keypad_reader, receive_bit, join, Event, edge_d0, edge_d1, stops, takes_bit,
  key_expires, code_expires, step, run,
}

abbrev pub is_none {ℓ} : {A : Type ℓ} → Option A → Bool
is_none none = true
is_none (some a) = false

-- Between two events: fewer than four bits and fewer than five keys are kept, each timer runs
-- exactly while there is something for it to end, and the channel holds no more than it may.
pub record Inv (k : Reader) : Type 0 where
  pub few_bits : length k.key_bits < 4
  pub few_keys : length k.keys < 5
  pub key_timed : is_none k.key_timer ≡ is_nil k.key_bits
  pub code_timed : is_none k.code_timer ≡ is_nil k.keys
  pub room : length k.bit_ch ≤ 64

is_nil-append {ℓ} : {A : Type ℓ} (xs : List A) (x : A) → is_nil (xs ++ x ∷ []) ≡ false
is_nil-append [] x = refl
is_nil-append (y ∷ xs) x = refl

receive_bit-Inv : (now : ℕ) (bit : ℤ) (k : Reader) → Inv k → Inv (receive_bit now bit k)
unfolding receive_bit
receive_bit-Inv now bit k h = elim (pair_cases (parse_keypad4 (k.key_bits ++ bit ∷ []))) [
  | inl (e, bad) ↦
      ground (arith, length-append {0} k.key_bits (bit ∷ []), is_nil-append {0} k.key_bits bit)
  | inr (key, val, good) ↦ ground (
    arith,
    length-append {0} k.key_bits (bit ∷ []),
    is_nil-append {0} k.key_bits bit,
    length-append {0} k.keys (key ∷ []),
    is_nil-append {0} k.keys key,
  )
]

step-Inv : (e : Event) (k : Reader) → Inv k → Inv (step e k)
unfolding step
step-Inv edge_d0 k h = ground (arith, length-append {0} k.bit_ch (pos 0 ∷ []))
step-Inv edge_d1 k h = ground (arith, length-append {0} k.bit_ch (pos 1 ∷ []))
step-Inv stops k h = ground arith
step-Inv (takes_bit now) k h = elim (List-cases k.bit_ch) [
  | inl empty ↦ ground arith
  | inr (bit, rest, waiting) ↦ ground (arith, receive_bit-Inv now bit (record k { bit_ch = rest }))
]
step-Inv (key_expires now) k h = ground arith
step-Inv (code_expires now) k h = ground arith

pub run-Inv : (es : List Event) (k : Reader) → Inv k → Inv (run es k)
unfolding run
run-Inv [] k h = h
run-Inv (e ∷ es) k h = run-Inv es (step e k) (step-Inv e k h)

-- From a new reader, whatever edges, time-outs and reads happen, in any order: fewer than four
-- bits and fewer than five keys are waiting, a timer runs exactly while something waits for it,
-- and the channel holds at most 64 bits.
pub new_keypad_reader-Inv : (es : List Event) → Inv (run es new_keypad_reader)
unfolding new_keypad_reader
new_keypad_reader-Inv es = run-Inv es new_keypad_reader (ground arith)

-- What is printed on a key, and "?" for the values that no key sends.
abbrev pub key_signs : List String
key_signs = "0" ∷ "1" ∷ "2" ∷ "3" ∷ "4" ∷ "5" ∷ "6" ∷ "7" ∷ "8" ∷ "9" ∷ "*" ∷ "#" ∷ "?" ∷ []

pub record IsKey (key : String) : Type 0 where
  pub printed : contains key_signs key ≡ true

either_IsKey : (b : Bool) (x y : String) → IsKey x → IsKey y → IsKey (if b then x else y)
either_IsKey true x y h h' = h
either_IsKey false x y h h' = h'

key_name-IsKey : (val : ℕ) → IsKey (key_name val)
unfolding key_name string_eq
key_name-IsKey val =
    let k : (s : String) → contains key_signs s ≡ true → IsKey s = λ s p. record { printed = p } in
    either_IsKey (eqb val 0) "0" _ (k "0" refl) (
      either_IsKey (eqb val 1) "1" _ (k "1" refl) (
        either_IsKey (eqb val 2) "2" _ (k "2" refl) (
          either_IsKey (eqb val 3) "3" _ (k "3" refl) (
            either_IsKey (eqb val 4) "4" _ (k "4" refl) (
              either_IsKey (eqb val 5) "5" _ (k "5" refl) (
                either_IsKey (eqb val 6) "6" _ (k "6" refl) (
                  either_IsKey (eqb val 7) "7" _ (k "7" refl) (
                    either_IsKey (eqb val 8) "8" _ (k "8" refl) (
                      either_IsKey (eqb val 9) "9" _ (k "9" refl) (
                        either_IsKey (eqb val 10) "*" _ (k "*" refl)
                          (either_IsKey (eqb val 11) "#" "?" (k "#" refl) (k "?" refl))))))))))))

parse_keypad4-IsKey :
    (bits : List ℤ) (key : String) (val : ℕ) → parse_keypad4 bits ≡ ok (key, val) → IsKey key
parse_keypad4-IsKey bits key val h =
    subst IsKey (sym (parse_keypad4-key_name bits key val h)) (key_name-IsKey val)

-- A code that was sent: one to five keys, one after the other.
pub record IsCode (code : String) : Type 0 where
  pub code_keys : List String
  pub not_empty : 0 < length code_keys
  pub at_most_five : length code_keys ≤ 5
  pub keys_only : All IsKey code_keys
  pub joined : code ≡ join code_keys

sent-IsCode :
    (keys : List String) (received : List String)
    → 0 < length keys
    → All IsKey keys
    → length keys ≤ 5
    → All IsCode received
    → All IsCode (received ++ join keys ∷ [])
sent-IsCode keys received some_keys only few all = All-append IsCode received (join keys ∷ []) all (
  record {
    code_keys = keys;
    not_empty = some_keys;
    at_most_five = few;
    keys_only = only;
    joined = refl;
  },
  tt,
)

-- The codes that were sent, and the keys that wait.
record OnlyKeys (k : Reader) : Type 0 where
  sent : All IsCode k.received
  waiting : All IsKey k.keys

receive_bit-OnlyKeys :
    (now : ℕ) (bit : ℤ) (k : Reader)
    → length k.keys < 5
    → OnlyKeys k
    → OnlyKeys (receive_bit now bit k)
unfolding receive_bit
receive_bit-OnlyKeys now bit k few o = elim (pair_cases (parse_keypad4 (k.key_bits ++ bit ∷ []))) [
  | inl (e, bad) ↦ ground arith
  | inr (key, val, good) ↦
      let more = length-append {0} k.keys (key ∷ []) in
      let only =
        All-append IsKey k.keys (key ∷ []) o.waiting (parse_keypad4-IsKey _ key val good, tt) in
      ground (
        arith,
        only,
        sent-IsCode (k.keys ++ key ∷ []) k.received (omega arith) only (omega arith) o.sent,
      )
]

step-OnlyKeys : (e : Event) (k : Reader) → Inv k → OnlyKeys k → OnlyKeys (step e k)
unfolding step
step-OnlyKeys (takes_bit now) k h o = elim (List-cases k.bit_ch) [
  | inl empty ↦ ground arith
  | inr (bit, rest, waiting) ↦
      ground (arith, receive_bit-OnlyKeys now bit (record k { bit_ch = rest }))
]
step-OnlyKeys (code_expires now) k h o = elim (List-cases k.keys) [
  | inl empty ↦ ground arith
  | inr (key, rest, waiting) ↦
      let only : All IsKey (key ∷ rest) = subst (All IsKey) waiting o.waiting in
      ground (arith, sent-IsCode (key ∷ rest) k.received (omega arith) only (ground arith) o.sent)
]
step-OnlyKeys (key_expires now) k h o = ground arith
step-OnlyKeys edge_d0 k h o = ground arith
step-OnlyKeys edge_d1 k h o = ground arith
step-OnlyKeys stops k h o = ground arith

run-OnlyKeys : (es : List Event) (k : Reader) → Inv k → OnlyKeys k → OnlyKeys (run es k)
unfolding run
run-OnlyKeys [] k h o = o
run-OnlyKeys (e ∷ es) k h o = run-OnlyKeys es (step e k) (step-Inv e k h) (step-OnlyKeys e k h o)

-- From a new reader, `onCodeReceived` is only ever called with one to five keys, one after the
-- other, each of them a digit, "*", "#", or the "?" that stands for a value that no key sends.
pub new_keypad_reader-IsCode : (es : List Event) → All IsCode (run es new_keypad_reader).received
unfolding new_keypad_reader
new_keypad_reader-IsCode es =
    (run-OnlyKeys es new_keypad_reader (ground arith) (record { sent = tt; waiting = tt })).sent
