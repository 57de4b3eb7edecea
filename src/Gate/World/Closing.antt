-- ===== src/Gate/World/Closing.antt =====
-- That an open gate does close.
use pigate.Prelude.{
  ℕ, suc, ◌+◌, ◌-◌, ◌≤◌, ◌≡◌, refl, ◌≢◌, inl, inr, some, List, [], ◌∷◌, arith, get_elem?,
}
use pigate.Gate.Controller.{closed, opened, sleep}
use pigate.Gate.World.{Event, World, passes, wakes, step, run}
use pigate.Gate.World.Timing.{WakesBy, run-WillClose}

-- A goroutine that sleeps, and when it wakes up.
record Sleeper (t : ℕ) (timers : List ℕ) : Type 0 where
  place : ℕ
  due : ℕ
  found : get_elem? timers place ≡ some due
  early : due ≤ t

sleeper : (t : ℕ) (timers : List ℕ) → WakesBy t timers → Sleeper t timers
sleeper t [] h = absurd h
sleeper t (due ∷ timers) (inl early) = record { place = 0; due = due; found = refl; early = early }
sleeper t (due ∷ timers) (inr later) =
    let s = sleeper t timers later in
    record { place = suc s.place; due = s.due; found = s.found; early = s.early }

wake-passes :
    (u : World) (t : ℕ)
    → u.gate.state ≡ opened
    → (s : Sleeper t u.gate.timers)
    → (run (passes (t - u.now) ∷ wakes s.place ∷ []) u).gate.state ≡ closed
unfolding run step
wake-passes u t is_open s =
    let late : s.due ≤ u.now + (t - u.now) = omega (arith, s.early) in ground (arith, s.found, late)

-- From a gate that is not open, after any events: when the gate is open, there is a goroutine that
-- closes it as soon as the configured duration since the opening is over.
pub closes_in_time :
    (es : List Event) (w : World)
    → w.gate.state ≢ opened
    → let u = run es w in
      u.gate.state ≡ opened
      → (i : ℕ) × (let late = u.opened_at + sleep w.gate.gate_open_duration - u.now in
          (run (passes late ∷ wakes i ∷ []) u).gate.state ≡ closed)
closes_in_time es w shut is_open =
    let closes =
      run-WillClose w.gate.gate_open_duration es w
        (record { duration = refl; timer = λ p. absurd (shut p) }) in
    let s = sleeper _ _ (closes.timer is_open) in (s.place, wake-passes (run es w) _ is_open s)
