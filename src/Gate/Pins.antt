-- ===== src/Gate/Pins.antt =====
-- pigate/pkg/gate/gpio_linux.go and gpio_unsupported.go: the pins, and what the methods of
-- pigate/pkg/gate/gate.go call on them. The driver of the chip is a library, and a parameter here.
pub mod Relay
use pigate.Prelude.{
  ℕ, Bool, true, false, Option, none, some, List, [], ◌∷◌, String, Error, Result, ok, err, M, leb,
  get_elem?, string_eq, ◌==◌, if◌then◌else◌,
}
use pigate.Messenger.Messages.{
  command_open_message, command_close_message, command_hold_open_message,
}
use pigate.Gate.Controller.{GateState, closed, opened, locked_open}
use pigate.Gate.World.{
  Decision, refused, temporary, locked, World, Event, passes, enters, receives, wakes, publishes,
  fails, shuts, step,
}

-- `rpio`, by the number of the pin.
pub record Rpio : Type 1 where
  pub State : Type 0
  pub open_driver : M State (Unit {0})
  pub output : ℕ → State → State
  pub set_high : ℕ → State → State
  pub set_low : ℕ → State → State

-- The interface `outputPin`; a method changes what the driver holds.
pub record OutputPin (S : Type 0) : Type 0 where
  pub high : S → S
  pub low : S → S

-- `gpio_unsupported.go`.
abbrev pub noop_output_pin : {S : Type 0} → OutputPin S
noop_output_pin = record { high = λ s. s; low = λ s. s }

module _ (chip : Rpio) where
  open chip use {State}

  -- `gpio_linux.go`.
  unfoldable pub open_pin_driver : M State (Unit {0})
  open_pin_driver = chip.open_driver

  abbrev pub gpio_output_pin : ℕ → OutputPin State
  gpio_output_pin number = record { high = chip.set_high number; low = chip.set_low number }

  unfoldable pub new_output_pin : ℕ → State → OutputPin State × State
  new_output_pin number s = (gpio_output_pin number, chip.set_low number (chip.output number s))

-- `pin` and `ledPin`; `none` is nil.
pub record Pins (S : Type 0) : Type 0 where
  pub pin : Option (OutputPin S)
  pub led_pin : Option (OutputPin S)

module _ {S : Type 0} where
  abbrev drive_high : Option (OutputPin S) → S → S
  drive_high none s = s
  drive_high (some p) s = p.high s

  abbrev drive_low : Option (OutputPin S) → S → S
  drive_low none s = s
  drive_low (some p) s = p.low s

  -- `newPin` is `newOutputPin`.
  unfoldable pub init_pins : (ℕ → S → OutputPin S × S) → ℕ → ℕ → S → Pins S × S
  init_pins new_pin relay_pin_number led_pin_number s =
      let (pin, s') = new_pin relay_pin_number s in
      let (led_pin, s'') = new_pin led_pin_number s' in
      (record { pin = some pin; led_pin = some led_pin }, s'')

  module _ (p : Pins S) where
    abbrev raise : S → S
    raise s = drive_high p.led_pin (drive_high p.pin s)

    abbrev lower : S → S
    lower s = drive_low p.led_pin (drive_low p.pin s)

    -- What each method calls on the pins, by the state in which it is called.
    unfoldable pub temp_open_pins : GateState → S → S
    temp_open_pins closed s = raise s
    temp_open_pins other s = s

    unfoldable pub lock_open_pins : GateState → S → S
    lock_open_pins locked_open s = s
    lock_open_pins other s = raise s

    unfoldable pub close_pins : GateState → S → S
    close_pins closed s = s
    close_pins other s = lower s

    unfoldable pub wake_up_pins : GateState → S → S
    wake_up_pins opened s = lower s
    wake_up_pins other s = s

    unfoldable pub command_pins : String → GateState → S → S
    unfolding temp_open_pins close_pins lock_open_pins
    command_pins msg state s =
        if msg == command_open_message
        then temp_open_pins state s
        else if msg == command_close_message
        then close_pins state s
        else if msg == command_hold_open_message
        then lock_open_pins state s
        else s

    abbrev decide_pins : Decision → GateState → S → S
    decide_pins refused state s = s
    decide_pins temporary state s = temp_open_pins state s
    decide_pins locked state s = lock_open_pins state s

    abbrev wake_pins : Option ℕ → World → S → S
    wake_pins none w s = s
    wake_pins (some due) w s = if leb due w.now then wake_up_pins w.gate.state s else s

    -- What an event of the gate calls on the pins.
    unfoldable pub event_pins : Event → World → S → S
    unfolding command_pins
    event_pins (enters d) w s = decide_pins d w.gate.state s
    event_pins (receives msg) w s = command_pins msg w.gate.state s
    event_pins (wakes i) w s = wake_pins (get_elem? w.gate.timers i) w s
    event_pins shuts w s = close_pins w.gate.state s
    event_pins other w s = s

    unfoldable pub run_pins : List Event → World → S → S
    run_pins [] w s = s
    run_pins (e ∷ es) w s = run_pins es (step e w) (event_pins e w s)
