-- ===== src/Gate/Keypad/Reader/Typing.antt =====
-- From the pulses of the keys to the code.
use pigate.Prelude.{
  ℕ, ◌+◌, ◌≡◌, refl, ap, ◌∙◌, inl, inr, String, ◌<>◌, Bool, none, some, List, [], ◌∷◌, ◌++◌, ℤ,
  arith, Result, ok, err, length, eqb, if◌then◌else◌, List-cases, pair_cases, append_assoc,
  append-nil, sym,
}
use text.Mathlib.TextLemmas.{
  append_assoc as text-append_assoc, append-nil as text-append-nil, nil-append,
}
use pigate.Gate.Keypad.Frame.{parse_keypad4, key_name}
use pigate.Gate.Keypad.Frame.Laws.{bit, value, parse_keypad4_lem}
use pigate.Gate.Keypad.Reader.{
  Reader, receive_bit, join, Event, edge_d0, edge_d1, stops, takes_bit, key_expires, code_expires,
  step, run,
}

pub join-append : (xs ys : List String) → join (xs ++ ys) ≡ join xs <> join ys
unfolding join
join-append [] ys = sym (nil-append (join ys))
join-append (x ∷ xs) ys =
    ap (λ s. x <> s) (join-append xs ys) ∙ sym (text-append_assoc x (join xs) (join ys))

-- All that was sent, and what waits to be sent.
abbrev pub typed : Reader → List String
typed k = k.received ++ k.keys

abbrev key_of : Result (String × ℕ) → List String
key_of (err e) = []
key_of (ok (key, val)) = key ∷ []

abbrev completes : List ℤ → List String
completes bits = if eqb (length bits) 4 then key_of (parse_keypad4 bits) else []

abbrev next_key : List ℤ → List ℤ → List String
next_key bits [] = []
next_key bits (bit ∷ rest) = completes (bits ++ bit ∷ [])

-- The key that an event completes, if it does.
pub recognized : Event → Reader → List String
recognized (takes_bit now) k = if k.stopped then [] else next_key k.key_bits k.bit_ch
recognized _ k = []

join_one : (s : String) → join (s ∷ []) ≡ s
unfolding join
join_one s = text-append-nil s

sent_join :
    (received keys : List String)
    → join ((received ++ join keys ∷ []) ++ []) ≡ join (received ++ keys)
sent_join received keys =
    ap join (append-nil (received ++ join keys ∷ []))
    ∙ join-append received (join keys ∷ [])
    ∙ ap (λ s. join received <> s) (join_one (join keys))
    ∙ sym (join-append received keys)

grown_join :
    (received keys : List String) (key : String)
    → join (received ++ (keys ++ key ∷ [])) ≡ join (received ++ keys) <> join (key ∷ [])
grown_join received keys key =
    ap join (sym (append_assoc received keys (key ∷ [])))
    ∙ join-append (received ++ keys) (key ∷ [])

nothing : (k : Reader) → join (typed k) <> join [] ≡ join (typed k)
unfolding join
nothing k = text-append-nil (join (typed k))

receive_bit-join :
    (now : ℕ) (bit : ℤ) (k : Reader)
    → join (typed (receive_bit now bit k))
      ≡ join (typed k) <> join (completes (k.key_bits ++ bit ∷ []))
unfolding receive_bit
receive_bit-join now bit k = elim (pair_cases (parse_keypad4 (k.key_bits ++ bit ∷ []))) [
  | inl (e, bad) ↦ ground (arith, nothing k)
  | inr (key, val, good) ↦ ground (
    arith,
    nothing k,
    grown_join k.received k.keys key,
    sent_join k.received (k.keys ++ key ∷ []),
  )
]

step-join :
    (e : Event) (k : Reader) → join (typed (step e k)) ≡ join (typed k) <> join (recognized e k)
unfolding step recognized
step-join (takes_bit now) k = elim (List-cases k.bit_ch) [
  | inl empty ↦ ground (arith, nothing k)
  | inr (bit, rest, waiting) ↦
      ground (arith, nothing k, receive_bit-join now bit (record k { bit_ch = rest }))
]
step-join (code_expires now) k = ground (arith, nothing k, sent_join k.received k.keys)
step-join (key_expires now) k = ground (arith, nothing k)
step-join edge_d0 k = ground (arith, nothing k)
step-join edge_d1 k = ground (arith, nothing k)
step-join stops k = ground (arith, nothing k)

-- The keys that a run completes, in their order.
pub keys_of : List Event → Reader → List String
keys_of [] k = []
keys_of (e ∷ es) k = recognized e k ++ keys_of es (step e k)

-- No key is lost, doubled or moved: after any events, what was sent followed by what waits is
-- what it was before, followed by the keys that were completed since, in their order.
pub run-join :
    (es : List Event) (k : Reader) → join (typed (run es k)) ≡ join (typed k) <> join (keys_of es k)
unfolding run keys_of
run-join [] k = sym (nothing k)
run-join (e ∷ es) k =
    run-join es (step e k)
    ∙ ap (λ s. s <> join (keys_of es (step e k))) (step-join e k)
    ∙ text-append_assoc (join (typed k)) (join (recognized e k)) (join (keys_of es (step e k)))
    ∙ ap (λ s. join (typed k) <> s) (sym (join-append (recognized e k) (keys_of es (step e k))))

-- A key of the pad: its four bits, and when each of them is read.
pub record Press : Type 0 where
  pub bits : Bool × Bool × Bool × Bool
  pub times : ℕ × ℕ × ℕ × ℕ

abbrev pub last_time : Press → ℕ
last_time p = p.times.3

abbrev pub name_of : Press → String
name_of p = key_name (value p.bits.0 p.bits.1 p.bits.2 p.bits.3)

-- The four bits of a key are read, with no time-out between them.
unfoldable pub press : Press → Reader → Reader
press p k = receive_bit p.times.3 (bit p.bits.3) (
    receive_bit p.times.2 (bit p.bits.2)
      (receive_bit p.times.1 (bit p.bits.1) (receive_bit p.times.0 (bit p.bits.0) k)))

pub press_lem :
    (p : Press) (k : Reader)
    → k.key_bits ≡ []
    → press p k ≡ (
        let k' = record k {
          keys = k.keys ++ name_of p ∷ [];
          key_timer = none;
          code_timer = some (last_time p + 3000);
        } in
        if eqb (length k'.keys) 5
        then record k' { received = k.received ++ join k'.keys ∷ []; keys = []; code_timer = none }
        else k')
unfolding press receive_bit
press_lem p k idle =
    let named = parse_keypad4_lem p.bits.0 p.bits.1 p.bits.2 p.bits.3 in ground arith

unfoldable pub press_all : List Press → Reader → Reader
press_all [] k = k
press_all (p ∷ ps) k = press_all ps (press p k)

-- The reader with some keys that wait for more.
abbrev holding : List String → ℕ → Reader → Reader
holding names due k = record k {
  key_bits = [];
  keys = names;
  key_timer = none;
  code_timer = some due;
}

press_first :
    (p : Press) (k : Reader)
    → k.key_bits ≡ []
    → k.keys ≡ []
    → press p k ≡ holding (name_of p ∷ []) (last_time p + 3000) k
press_first p k idle none_yet = ground (arith, press_lem p k idle)

abbrev pub sent_code : List String → Reader → Reader
sent_code names k = record k {
  key_bits = [];
  keys = [];
  key_timer = none;
  code_timer = none;
  received = k.received ++ join names ∷ [];
}

-- Five keys that are pressed on an idle reader, with no time-out between them, are sent as one
-- code: the characters of the keys in their order. The reader is idle again, with its timers off,
-- and the channel and `Stop` are not touched.
pub press_five :
    (p q r s t : Press) (k : Reader)
    → k.key_bits ≡ []
    → k.keys ≡ []
    → press_all (p ∷ q ∷ r ∷ s ∷ t ∷ []) k
      ≡ sent_code (name_of p ∷ name_of q ∷ name_of r ∷ name_of s ∷ name_of t ∷ []) k
unfolding press_all
press_five p q r s t k idle none_yet =
    ap (λ j. press_all (q ∷ r ∷ s ∷ t ∷ []) j) (press_first p k idle none_yet)
    ∙ ap (λ j. press_all (r ∷ s ∷ t ∷ []) j)
        (press_lem q (holding (name_of p ∷ []) (last_time p + 3000) k) refl)
    ∙ ap (λ j. press_all (s ∷ t ∷ []) j)
        (press_lem r (holding (name_of p ∷ name_of q ∷ []) (last_time q + 3000) k) refl)
    ∙ ap (λ j. press t j)
        (press_lem s (holding (name_of p ∷ name_of q ∷ name_of r ∷ []) (last_time r + 3000) k) refl)
    ∙ press_lem t
        (holding (name_of p ∷ name_of q ∷ name_of r ∷ name_of s ∷ []) (last_time s + 3000) k) refl
