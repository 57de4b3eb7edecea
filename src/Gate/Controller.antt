-- ===== src/Gate/Controller.antt =====
-- pigate/pkg/gate/gate.go, `GateController`: the state of the gate, its pins, the goroutines that
-- close it again and those that publish its status. Methods run under one mutex, so each is one
-- function of the state. Instants and durations are in seconds.
use pigate.Prelude.{
  ℕ, ◌+◌, Bool, true, false, ◌||◌, Option, none, some, List, [], ◌∷◌, ◌++◌, String, ℤ, pos, negsuc,
  string_eq, ◌==◌, if◌then◌else◌,
}
use pigate.Messenger.Messages.{
  command_open_message, command_close_message, command_hold_open_message,
}

pub data GateState : Type 0 where
  closed opened locked_open : GateState

-- What an `outputPin` drives.
pub data Level : Type 0 where
  low high : Level

-- The three calls of a `StatusNotifier`.
pub data Status : Type 0 where
  gate_open gate_locked_open gate_closed : Status

-- A pin is `none` until `InitPinControl`. `timers` are the wake-up times of the goroutines that
-- `tempOpen` has started and that still sleep; `notices` are the calls of the notifier that were
-- started in goroutines of their own and have not been made yet, in the order in which they were
-- started.
pub record GateController : Type 0 where
  pub pin : Option Level
  pub led_pin : Option Level
  pub state : GateState
  pub gate_open_duration : ℤ
  pub has_notifier : Bool
  pub timers : List ℕ
  pub notices : List Status

unfoldable pub new_gate_controller : ℤ → GateController
new_gate_controller duration = record {
  pin = none;
  led_pin = none;
  state = closed;
  gate_open_duration = duration;
  has_notifier = false;
  timers = [];
  notices = [];
}

unfoldable pub set_status_notifier : GateController → GateController
set_status_notifier g = record g { has_notifier = true }

-- `newOutputPin` drives a pin low.
unfoldable pub init_pin_control : GateController → GateController
init_pin_control g = record g { pin = some low; led_pin = some low }

abbrev pub drive : Level → Option Level → Option Level
drive level none = none
drive level (some old) = some level

-- `notifyGateOpen`, `notifyGateLockedOpen`, `notifyGateClosed`.
unfoldable pub notify : Status → GateController → GateController
notify status g = if g.has_notifier then record g { notices = g.notices ++ status ∷ [] } else g

abbrev is_closed : GateState → Bool
is_closed closed = true
is_closed _ = false

abbrev is_opened : GateState → Bool
is_opened opened = true
is_opened _ = false

abbrev is_locked_open : GateState → Bool
is_locked_open locked_open = true
is_locked_open _ = false

-- `time.Sleep` returns at once for a duration that is not positive. The product with `time.Second`, in 64
-- bits, is in Gate.Duration.
abbrev pub sleep : ℤ → ℕ
sleep (pos n) = n
sleep (negsuc n) = 0

-- The goroutine that will close the gate is started.
abbrev schedule : ℕ → GateController → GateController
schedule now g = record g { timers = g.timers ++ (now + sleep g.gate_open_duration) ∷ [] }

unfoldable pub temp_open : ℕ → GateController → GateController
unfolding notify
temp_open now g =
    if is_locked_open g.state || is_opened g.state
    then g
    else schedule now (
        notify gate_open
          (record g { state = opened; pin = drive high g.pin; led_pin = drive high g.led_pin }))

unfoldable pub lock_open : GateController → GateController
unfolding notify
lock_open g =
    if is_locked_open g.state
    then g
    else notify gate_locked_open
        (record g { state = locked_open; pin = drive high g.pin; led_pin = drive high g.led_pin })

-- The internal helper of the timers.
unfoldable pub close_locked_or_open : GateController → GateController
unfolding notify
close_locked_or_open g =
    notify gate_closed
      (record g { pin = drive low g.pin; led_pin = drive low g.led_pin; state = closed })

unfoldable pub close : GateController → GateController
unfolding notify
close g =
    if is_opened g.state || is_locked_open g.state
    then notify gate_closed
        (record g { pin = drive low g.pin; led_pin = drive low g.led_pin; state = closed })
    else g

-- What a goroutine of `tempOpen` does when it wakes up.
unfoldable pub wake_up : GateController → GateController
unfolding close_locked_or_open
wake_up g = if is_opened g.state then close_locked_or_open g else g

-- `CommandHandler`. A message that is no command is logged.
unfoldable pub command_handler : ℕ → String → GateController → GateController
unfolding temp_open close lock_open
command_handler now msg g =
    if msg == command_open_message
    then temp_open now g
    else if msg == command_close_message
    then close g
    else if msg == command_hold_open_message
    then lock_open g
    else g
