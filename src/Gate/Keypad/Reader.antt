-- ===== src/Gate/Keypad/Reader.antt =====
-- pigate/pkg/gate/keypad.go, `KeypadReader`: the channel of bits and the loop `run` over it. Times
-- are in milliseconds.
pub mod Invariant
pub mod Typing
pub mod Draining
use pigate.Prelude.{
  ℕ, ◌+◌, String, ◌<>◌, Bool, true, false, Option, none, some, List, [], ◌∷◌, ◌++◌, ℤ, pos, Result,
  ok, err, length, eqb, leb, ltb, if◌then◌else◌,
}
use pigate.Gate.Keypad.Frame.{parse_keypad4}

abbrev pub key_frame_timeout : ℕ
key_frame_timeout = 100

abbrev pub code_frame_timeout : ℕ
code_frame_timeout = 3000

abbrev pub max_keys_per_code : ℕ
max_keys_per_code = 5

abbrev pub channel_size : ℕ
channel_size = 64

-- The variables of `run`, the channel, and the codes that `onCodeReceived` was called with. A
-- timer is `none` while it is stopped and drained, and otherwise holds when it goes off.
pub record Reader : Type 0 where
  pub key_bits : List ℤ
  pub keys : List String
  pub key_timer : Option ℕ
  pub code_timer : Option ℕ
  pub bit_ch : List ℤ
  pub stopped : Bool
  pub received : List String

unfoldable pub new_keypad_reader : Reader
new_keypad_reader = record {
  key_bits = [];
  keys = [];
  key_timer = none;
  code_timer = none;
  bit_ch = [];
  stopped = false;
  received = [];
}

-- A bit that finds the channel full is dropped.
unfoldable pub enqueue_bit : ℤ → Reader → Reader
enqueue_bit bit k =
    if ltb (length k.bit_ch) channel_size then record k { bit_ch = k.bit_ch ++ bit ∷ [] } else k

-- `strings.Join(keys, "")`.
unfoldable pub join : List String → String
join [] = ""
join (key ∷ keys) = key <> join keys

-- `onCodeReceived(strings.Join(keys, ""))`, after which `keys` is nil.
abbrev send_code : Reader → Reader
send_code k = record k { received = k.received ++ join k.keys ∷ []; keys = [] }

-- A key is appended, the code timer starts again, and five keys are sent at once.
abbrev add_key : ℕ → String → Reader → Reader
add_key now key k =
    let k' = record k { keys = k.keys ++ key ∷ []; code_timer = some (now + code_frame_timeout) } in
    if eqb (length k'.keys) max_keys_per_code
    then record (send_code k') { code_timer = none }
    else k'

-- A frame that does not parse is logged.
abbrev parsed : ℕ → Result (String × ℕ) → Reader → Reader
parsed now (err e) k = k
parsed now (ok (key, val)) k = add_key now key k

abbrev key_done : Reader → Reader
key_done k = record k { key_bits = []; key_timer = none }

-- `case bit := <-k.bitCh`.
unfoldable pub receive_bit : ℕ → ℤ → Reader → Reader
receive_bit now bit k =
    let k' = record k {
      key_bits = k.key_bits ++ bit ∷ [];
      key_timer = some (now + key_frame_timeout);
    } in
    if eqb (length k'.key_bits) 4 then key_done (parsed now (parse_keypad4 k'.key_bits) k') else k'

-- `case <-keyTimer.C`.
unfoldable pub key_timeout : Reader → Reader
key_timeout k = record k { key_timer = none; key_bits = [] }

abbrev send_keys : List String → Reader → Reader
send_keys [] k = k
send_keys (key ∷ keys) k = send_code k

-- `case <-codeTimer.C`.
unfoldable pub code_timeout : Reader → Reader
code_timeout k = let k' = record k { code_timer = none } in send_keys k'.keys k'

-- What can happen: an edge on one of the two lines, a case of the `select` at a time, `Stop`.
pub data Event : Type 0 where
  edge_d0 edge_d1 stops : Event
  takes_bit key_expires code_expires : ℕ → Event

abbrev take_bit : ℕ → List ℤ → Reader → Reader
take_bit now [] k = k
take_bit now (bit ∷ rest) k = receive_bit now bit (record k { bit_ch = rest })

abbrev is_due : ℕ → Option ℕ → Bool
is_due now none = false
is_due now (some due) = leb due now

-- The loop has returned once the reader is stopped; a case that is not ready is not taken.
unfoldable pub step : Event → Reader → Reader
unfolding enqueue_bit key_timeout code_timeout
step edge_d0 k = enqueue_bit (pos 0) k
step edge_d1 k = enqueue_bit (pos 1) k
step stops k = record k { stopped = true }
step (takes_bit now) k = if k.stopped then k else take_bit now k.bit_ch k
step (key_expires now) k =
    if k.stopped then k else if is_due now k.key_timer then key_timeout k else k
step (code_expires now) k =
    if k.stopped then k else if is_due now k.code_timer then code_timeout k else k

unfoldable pub run : List Event → Reader → Reader
run [] k = k
run (e ∷ es) k = run es (step e k)
