-- ===== src/Gate/World/Timing.antt =====
-- How long the gate stays open after a temporary opening.
use pigate.Prelude.{
  ℕ, zero, suc, ◌+◌, ◌-◌, ◌≤◌, ◌<◌, ◌≡◌, refl, ◌≢◌, ◌⊎◌, inl, inr, some, List, [], ◌∷◌, ◌++◌, ℤ,
  arith, get_elem?, All, All-append, string_eq, Option-cases,
}
use pigate.Gate.Controller.{closed, opened, sleep}
use pigate.Gate.World.{temporary, Event, World, passes, enters, wakes, step, run, remove_at}
use pigate.Gate.World.Invariant.{StaysLocked}

-- One of the sleeping goroutines wakes up at `t` or before.
abbrev pub WakesBy : ℕ → List ℕ → Type 0
WakesBy t [] = ⊥
WakesBy t (due ∷ timers) = (due ≤ t) ⊎ WakesBy t timers

WakesBy-append : (t due : ℕ) (timers : List ℕ) → due ≤ t → WakesBy t (timers ++ due ∷ [])
WakesBy-append t due [] h = inl h
WakesBy-append t due (d ∷ timers) h = inr (WakesBy-append t due timers h)

-- An open gate has a goroutine that will close it in time.
pub record WillClose (d : ℤ) (w : World) : Type 0 where
  pub duration : w.gate.gate_open_duration ≡ d
  pub timer : w.gate.state ≡ opened → WakesBy (w.opened_at + sleep d) w.gate.timers

step-WillClose : (d : ℤ) (e : Event) (w : World) → WillClose d w → WillClose d (step e w)
unfolding step
step-WillClose d (passes n) w h = ground arith
step-WillClose d e w h =
    ground (arith, WakesBy-append (w.now + sleep d) (w.now + sleep d) w.gate.timers)

pub run-WillClose : (d : ℤ) (es : List Event) (w : World) → WillClose d w → WillClose d (run es w)
unfolding run
run-WillClose d [] w h = h
run-WillClose d (e ∷ es) w h = run-WillClose d es (step e w) (step-WillClose d e w h)

WakesBy-lt :
    (t now : ℕ) (timers : List ℕ) → WakesBy t timers → All (λ due. now < due) timers → now < t
WakesBy-lt t now [] h a = absurd h
WakesBy-lt t now (due ∷ timers) (inl early) a = omega arith
WakesBy-lt t now (due ∷ timers) (inr later) a = WakesBy-lt t now timers later a.1

-- From a gate that is not open, after any events: while the gate is open and no goroutine is
-- overdue, less than the configured duration has passed since it was opened.
pub opened_in_time :
    (es : List Event) (w : World)
    → w.gate.state ≢ opened
    → let u = run es w in
      u.gate.state ≡ opened
      → All (λ due. u.now < due) u.gate.timers
      → u.now < u.opened_at + sleep w.gate.gate_open_duration
opened_in_time es w shut is_open quiet =
    let closes =
      run-WillClose w.gate.gate_open_duration es w
        (record { duration = refl; timer = λ p. absurd (shut p) }) in
    WakesBy-lt _ _ _ (closes.timer is_open) quiet

All-remove_at : (P : ℕ → Type 0) (i : ℕ) (xs : List ℕ) → All P xs → All P (remove_at i xs)
All-remove_at P i [] h = tt
All-remove_at P zero (x ∷ xs) h = h.1
All-remove_at P (suc i) (x ∷ xs) h = (h.0, All-remove_at P i xs h.1)

All-get_elem? :
    (P : ℕ → Type 0) (i : ℕ) (xs : List ℕ) {x : ℕ} → All P xs → get_elem? xs i ≡ some x → P x
All-get_elem? P i [] h q = absurd (cc)
All-get_elem? P zero (x ∷ xs) h q = ground (arith, h)
All-get_elem? P (suc i) (y ∷ xs) {x} h q = All-get_elem? P i xs h.1 q

-- The gate was opened at `t`, and is not closed by a timer before its duration is over.
record Lasts (t : ℕ) (d : ℤ) (w : World) : Type 0 where
  duration : w.gate.gate_open_duration ≡ d
  later : t ≤ w.now
  holds :
      (t + sleep d ≤ w.now)
      ⊎ ((w.gate.state ≢ closed) × All (λ due. t + sleep d ≤ due) w.gate.timers)

abbrev DueAfter : ℕ → List ℕ → Type 0
DueAfter t timers = All (λ due. t ≤ due) timers

step-Lasts :
    (t : ℕ) (d : ℤ) (e : Event) (w : World) → StaysLocked e → Lasts t d w → Lasts t d (step e w)
unfolding step
step-Lasts t d (passes n) w s h = ground arith
step-Lasts t d (wakes i) w s h = elim (Option-cases (get_elem? w.gate.timers i)) [
  | inl gone ↦ ground arith
  | inr (due, found) ↦ elim h.holds [
    | inl over ↦ ground arith
    | inr (still, all) ↦
        let late : t + sleep d ≤ due =
          All-get_elem? (λ due. t + sleep d ≤ due) i w.gate.timers all found in
        let rest = All-remove_at (λ due. t + sleep d ≤ due) i w.gate.timers all in ground arith
  ]
]
step-Lasts t d e w s h =
    ground (arith, All-append (λ due. t + sleep d ≤ due) w.gate.timers ((w.now + sleep d) ∷ []))

run-Lasts :
    (t : ℕ) (d : ℤ) (es : List Event) (w : World)
    → All StaysLocked es
    → Lasts t d w
    → Lasts t d (run es w)
unfolding run
run-Lasts t d [] w s h = h
run-Lasts t d (e ∷ es) w s h = run-Lasts t d es (step e w) s.1 (step-Lasts t d e w s.0 h)

-- A gate that is opened for a while from a closed state, with no goroutine of an earlier opening
-- still asleep, is not closed before its duration is over, whatever happens but the command
-- `close` and the end of the program.
pub opened_long_enough :
    (w : World) (es : List Event)
    → w.gate.state ≡ closed
    → w.gate.timers ≡ []
    → All StaysLocked es
    → let u = run (enters temporary ∷ es) w in
      u.gate.state ≡ closed → w.now + sleep w.gate.gate_open_duration ≤ u.now
unfolding run
opened_long_enough w es shut fresh s now_shut =
    let lasts = run-Lasts w.now w.gate.gate_open_duration es (step (enters temporary) w) s (
      unfold step in
      record { duration = ground arith; later = ground arith; holds = ground arith }) in
    ground (arith, lasts)

get_elem?-append :
    (i : ℕ) (xs ys : List ℕ) {x : ℕ} → get_elem? xs i ≡ some x → get_elem? (xs ++ ys) i ≡ some x
get_elem?-append i [] ys q = absurd (cc)
get_elem?-append zero (x ∷ xs) ys q = q
get_elem?-append (suc i) (x ∷ xs) ys q = get_elem?-append i xs ys q

-- A goroutine of an earlier opening that is still asleep closes a gate that was closed by hand
-- and opened again in the meantime: at its own time, which is before the new duration is over.
pub stale_timer_closes :
    (w : World) (i due : ℕ)
    → w.gate.state ≡ closed
    → get_elem? w.gate.timers i ≡ some due
    → w.now ≤ due
    → due < w.now + sleep w.gate.gate_open_duration
    → let u = run (enters temporary ∷ passes (due - w.now) ∷ wakes i ∷ []) w in
      (u.gate.state ≡ closed) × (u.now < u.opened_at + sleep w.gate.gate_open_duration)
unfolding run step
stale_timer_closes w i due shut asleep before early =
    let still =
      get_elem?-append i w.gate.timers ((w.now + sleep w.gate.gate_open_duration) ∷ []) asleep in
    ground arith
