-- ===== src/Examples/Gate.antt =====
-- The gate at concrete events.
use pigate.Prelude.{
  ℕ, ◌+◌, ◌-◌, ◌≤◌, ◌<◌, ◌≡◌, refl, true, false, List, [], ◌∷◌, pos, arith, string_eq,
  if◌then◌else◌, leb, ltb,
}
use pigate.Database.Models.{Time}
use pigate.Gate.Clock.{is_time_of_day_in_range, is_time_of_day_in_range_lem, on_first_day, elapsed}
use pigate.Gate.Controller.{
  GateController, new_gate_controller, init_pin_control, set_status_notifier, closed, locked_open,
  gate_open, gate_closed, lock_open, sleep,
}
use pigate.Gate.World.{
  World, Event, temporary, passes, enters, receives, wakes, publishes, step, run,
}
use pigate.Gate.World.Invariant.{run_locked}
use pigate.Gate.World.Timing.{opened_in_time, opened_long_enough, stale_timer_closes}
use pigate.Gate.World.Closing.{closes_in_time}

abbrev at : ℕ → ℕ → Time
at hour minute = record { day = 3; hour = hour; minute = minute; second = 0 }

-- A window over midnight.
is_time_of_day_in_range_lem_example : is_time_of_day_in_range (at 1 30) (at 22 0) (at 6 0) ≡ (
    if leb (on_first_day (at 22 0)) (on_first_day (at 6 0))
    then leb (elapsed (at 22 0) (at 1 30)) (elapsed (at 22 0) (at 6 0))
    else ltb (elapsed (at 22 0) (at 1 30)) (elapsed (at 22 0) (at 6 0)))
is_time_of_day_in_range_lem_example =
    is_time_of_day_in_range_lem (at 1 30) (at 22 0) (at 6 0) (omega arith) (omega arith)
      (omega arith)

-- The last second of a window within the day is in it, that of one over midnight is not.
ends :
    (is_time_of_day_in_range (at 17 0) (at 9 0) (at 17 0) ≡ true)
    × (is_time_of_day_in_range (at 6 0) (at 22 0) (at 6 0) ≡ false)
unfolding is_time_of_day_in_range
ends = (refl, refl)

start_gate : GateController
unfolding new_gate_controller init_pin_control set_status_notifier
start_gate = set_status_notifier (init_pin_control (new_gate_controller (pos 20)))

abbrev start : World
start = record { gate = start_gate; now = 100; published = []; lost = []; opened_at = 0 }

abbrev visit : List Event
visit = enters temporary ∷ passes 20 ∷ wakes 0 ∷ publishes 0 ∷ publishes 0 ∷ []

visit_ends :
    ((run visit start).gate.state ≡ closed)
    × ((run visit start).published ≡ gate_open ∷ gate_closed ∷ [])
unfolding run step start_gate
visit_ends = (refl, refl)

abbrev held : World
held = record start { gate = lock_open start_gate }

abbrev knocks : List Event
knocks = enters temporary ∷ receives "open" ∷ passes 100 ∷ wakes 0 ∷ []

run_locked_example : (run knocks held).gate.state ≡ locked_open
unfolding start_gate lock_open string_eq
run_locked_example = run_locked knocks held (tt, (refl, (tt, (tt, tt)))) refl

abbrev opening : List Event
opening = enters temporary ∷ passes 5 ∷ []

opened_in_time_example :
    (run opening start).now < (run opening start).opened_at + sleep start.gate.gate_open_duration
unfolding run step start_gate
opened_in_time_example = opened_in_time opening start (λ p. cc) refl (omega arith)

closes_in_time_example :
    let u = run opening start in
    (i : ℕ) × (let late = u.opened_at + sleep start.gate.gate_open_duration - u.now in
      (run (passes late ∷ wakes i ∷ []) u).gate.state ≡ closed)
unfolding run step start_gate
closes_in_time_example = closes_in_time opening start (λ p. cc) refl

opened_long_enough_example : start.now + sleep start.gate.gate_open_duration ≤ (run visit start).now
unfolding run step start_gate
opened_long_enough_example =
    opened_long_enough start (passes 20 ∷ wakes 0 ∷ publishes 0 ∷ publishes 0 ∷ []) refl refl
      (tt, (tt, (tt, (tt, tt)))) refl

-- Opened at 100, closed by hand at 110: the goroutine of that opening wakes at 120.
abbrev reopened : World
reopened = run (enters temporary ∷ passes 10 ∷ receives "close" ∷ []) start

stale_timer_closes_example :
    ((run (enters temporary ∷ passes 10 ∷ wakes 0 ∷ []) reopened).gate.state ≡ closed)
    × ((run (enters temporary ∷ passes 10 ∷ wakes 0 ∷ []) reopened).now
        < (run (enters temporary ∷ passes 10 ∷ wakes 0 ∷ []) reopened).opened_at
          + sleep reopened.gate.gate_open_duration)
unfolding run step start_gate string_eq
stale_timer_closes_example = stale_timer_closes reopened 0 120 refl refl (omega arith) (omega arith)
