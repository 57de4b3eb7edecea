-- ===== src/Examples/Keypad.antt =====
-- The keypad reader at concrete pulses.
use pigate.Prelude.{◌≡◌, refl, true, false, List, [], ◌∷◌, int_eq, ◌<>◌, All}
use pigate.Gate.Keypad.Frame.{parse_keypad4, key_name}
use pigate.Gate.Keypad.Reader.{
  new_keypad_reader, edge_d0, edge_d1, takes_bit, key_expires, code_expires, Event, join, run, step,
  receive_bit,
}
use pigate.Gate.Keypad.Reader.Invariant.{IsCode, new_keypad_reader-IsCode}
use pigate.Gate.Keypad.Reader.Typing.{Press, typed, keys_of, run-join}

abbrev key : Press
key = record { bits = (false, true, false, true); times = (10, 20, 30, 40) }

-- A star, and a key that is broken off.
abbrev pulses : List Event
pulses =
    edge_d1
    ∷ edge_d0
    ∷ edge_d1
    ∷ edge_d0
    ∷ edge_d1
    ∷ takes_bit 1
    ∷ takes_bit 2
    ∷ takes_bit 3
    ∷ takes_bit 4
    ∷ takes_bit 5
    ∷ key_expires 50
    ∷ key_expires 105
    ∷ code_expires 3004
    ∷ []

star_sent : run pulses new_keypad_reader ≡ record new_keypad_reader { received = "*" ∷ [] }
unfolding run step receive_bit parse_keypad4 key_name join new_keypad_reader int_eq
star_sent = refl

new_keypad_reader-IsCode_example : All IsCode (run pulses new_keypad_reader).received
new_keypad_reader-IsCode_example = new_keypad_reader-IsCode pulses

run-join_example :
    join (typed (run pulses new_keypad_reader))
    ≡ join (typed new_keypad_reader) <> join (keys_of pulses new_keypad_reader)
run-join_example = run-join pulses new_keypad_reader
