-- ===== src/Gate/World.antt =====
-- The gate among everything that acts on it: the clock, the keypad and the remote commands, the
-- sleeping goroutines, and the goroutines that publish the status. A run is a list of events; an
-- event that cannot happen changes nothing.
pub mod Invariant
pub mod Timing
pub mod Closing
pub mod Notices
use pigate.Prelude.{
  ℕ, zero, suc, ◌+◌, Bool, true, false, Option, none, some, List, [], ◌∷◌, ◌++◌, String, leb,
  get_elem?, if◌then◌else◌,
}
use pigate.Gate.Controller.{
  GateState, opened, GateController, Status, temp_open, lock_open, close, wake_up, command_handler,
}

-- What `Open` does with a code once the credential has been looked up.
pub data Decision : Type 0 where
  refused temporary locked : Decision

unfoldable pub decide : Decision → ℕ → GateController → GateController
unfolding temp_open lock_open
decide refused now g = g
decide temporary now g = temp_open now g
decide locked now g = lock_open g

-- `published` are the statuses that the broker has got, in the order in which it got them, and
-- `lost` those whose publication failed. `opened_at` is when
-- the gate was last opened for a while; nothing in the program reads it.
pub record World : Type 0 where
  pub gate : GateController
  pub now : ℕ
  pub published : List Status
  pub lost : List Status
  pub opened_at : ℕ

-- `wakes i` and `publishes i` are for the `i`-th of the goroutines that wait: they run in any
-- order. A goroutine wakes at its time or later. `shuts` is the deferred `Close` of the program.
pub data Event : Type 0 where
  passes : ℕ → Event
  enters : Decision → Event
  receives : String → Event
  wakes : ℕ → Event
  publishes : ℕ → Event
  fails : ℕ → Event
  shuts : Event

abbrev pub remove_at {ℓ} : {A : Type ℓ} → ℕ → List A → List A
remove_at i [] = []
remove_at zero (x ∷ xs) = xs
remove_at (suc i) (x ∷ xs) = x ∷ remove_at i xs

abbrev wake_at : Option ℕ → ℕ → World → World
wake_at none i w = w
wake_at (some due) i w =
    if leb due w.now
    then record w { gate = wake_up (record (w.gate) { timers = remove_at i w.gate.timers }) }
    else w

abbrev take_notice : ℕ → GateController → GateController
take_notice i g = record g { notices = remove_at i g.notices }

abbrev publish_at : Option Status → ℕ → World → World
publish_at none i w = w
publish_at (some status) i w = record w {
  gate = take_notice i w.gate;
  published = w.published ++ status ∷ [];
}

abbrev fail_at : Option Status → ℕ → World → World
fail_at none i w = w
fail_at (some status) i w = record w { gate = take_notice i w.gate; lost = w.lost ++ status ∷ [] }

happens : Event → World → World
unfolding decide command_handler wake_up close
happens (passes n) w = record w { now = w.now + n }
happens (enters d) w = record w { gate = decide d w.now w.gate }
happens (receives msg) w = record w { gate = command_handler w.now msg w.gate }
happens (wakes i) w = wake_at (get_elem? w.gate.timers i) i w
happens (publishes i) w = publish_at (get_elem? w.gate.notices i) i w
happens (fails i) w = fail_at (get_elem? w.gate.notices i) i w
happens shuts w = record w { gate = close w.gate }

abbrev opening_time : GateState → GateState → ℕ → ℕ → ℕ
opening_time opened opened now at = at
opening_time before opened now at = now
opening_time before after now at = at

unfoldable pub step : Event → World → World
unfolding happens
step e w =
    let w' = happens e w in
    record w' { opened_at = opening_time w.gate.state w'.gate.state w.now w.opened_at }

unfoldable pub run : List Event → World → World
run [] w = w
run (e ∷ es) w = run es (step e w)
