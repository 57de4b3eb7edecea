-- ===== src/Gate/World/Invariant.antt =====
-- What holds of the gate after any events.
use pigate.Prelude.{◌≡◌, false, some, List, [], ◌∷◌, arith, All, ◌==◌, string_eq}
use pigate.Messenger.Messages.{command_close_message}
use pigate.Gate.Controller.{GateState, closed, opened, locked_open, Level, low, high}
use pigate.Gate.World.{Event, World, passes, receives, shuts, step, run}

-- The relay is driven exactly while the gate is not closed.
abbrev pub shown : GateState → Level
shown closed = low
shown opened = high
shown locked_open = high

-- The pins, once they are set up, show the state.
pub record Shows (w : World) : Type 0 where
  pub pin_shows : w.gate.pin ≡ some (shown w.gate.state)
  pub led_shows : w.gate.led_pin ≡ some (shown w.gate.state)

step-Shows : (e : Event) (w : World) → Shows w → Shows (step e w)
unfolding step
step-Shows (passes n) w h = ground arith
step-Shows e w h = ground arith

-- From pins that are set up and show the state, whatever happens, and in whatever order: the relay
-- and the LED are high while the gate is open or locked open, and low while it is closed.
pub run-Shows : (es : List Event) (w : World) → Shows w → Shows (run es w)
unfolding run
run-Shows [] w h = h
run-Shows (e ∷ es) w h = run-Shows es (step e w) (step-Shows e w h)

-- Neither the command `close` nor the end of the program.
abbrev pub StaysLocked : Event → Type 0
StaysLocked (receives msg) = (msg == command_close_message) ≡ false
StaysLocked shuts = ⊥
StaysLocked _ = Unit

step_locked :
    (e : Event) (w : World)
    → StaysLocked e
    → w.gate.state ≡ locked_open
    → (step e w).gate.state ≡ locked_open
unfolding step
step_locked (passes n) w s h = ground arith
step_locked e w s h = ground arith

-- A gate that is locked open stays so through everything but the command `close` and the end of
-- the program: no code, no timer and no other command closes it.
pub run_locked :
    (es : List Event) (w : World)
    → All StaysLocked es
    → w.gate.state ≡ locked_open
    → (run es w).gate.state ≡ locked_open
unfolding run
run_locked [] w s h = h
run_locked (e ∷ es) w s h = run_locked es (step e w) s.1 (step_locked e w s.0 h)
