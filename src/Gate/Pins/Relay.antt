-- ===== src/Gate/Pins/Relay.antt =====
-- What the pins of the chip are driven to.
use pigate.Prelude.{
  ℕ, ◌≡◌, ◌≢◌, sym, subst, ◌∙◌, get_elem?, Option-cases, Bool-cases, inl, inr, some, List, [], ◌∷◌,
  arith, eqb, leb, string_eq, if◌then◌else◌,
}
use native.Mathlib.Decide.{ℕ_discrete}
use pigate.Gate.Controller.{GateState, closed, opened, Level, low, high}
use pigate.Gate.World.{
  World, Event, passes, enters, receives, wakes, publishes, fails, shuts, step, run,
}
use pigate.Gate.World.Invariant.{shown}
use pigate.Gate.Pins.{
  Rpio, gpio_output_pin, new_output_pin, Pins, init_pins, event_pins, run_pins, temp_open_pins,
  lock_open_pins, close_pins, wake_up_pins,
}

-- A pin stays driven to what was last set, and no other pin is touched.
pub record HoldsLevels (chip : Rpio) : Type 0 where
  pub level : chip.State → ℕ → Level
  pub set_high_lem :
      (n m : ℕ) (s : chip.State)
      → level (chip.set_high n s) m ≡ (if eqb n m then high else level s m)
  pub set_low_lem :
      (n m : ℕ) (s : chip.State) → level (chip.set_low n s) m ≡ (if eqb n m then low else level s m)
  pub output_keeps : (n m : ℕ) (s : chip.State) → n ≢ m → level (chip.output n s) m ≡ level s m

module _ (chip : Rpio) (holds : HoldsLevels chip) (relay led : ℕ) where
  abbrev pins : Pins chip.State
  pins = record {
    pin = some (gpio_output_pin chip relay);
    led_pin = some (gpio_output_pin chip led);
  }

  -- The relay and the LED are driven to what the state is worth.
  pub record Lit (state : GateState) (s : chip.State) : Type 0 where
    pub relay_lit : holds.level s relay ≡ shown state
    pub led_lit : holds.level s led ≡ shown state

  raised : (s : chip.State) → Lit opened (chip.set_high led (chip.set_high relay s))
  raised s =
      let first = holds.set_high_lem relay relay s in
      let second = holds.set_high_lem led relay (chip.set_high relay s) in
      let third = holds.set_high_lem led led (chip.set_high relay s) in
      record { relay_lit = ground arith; led_lit = ground arith }

  lowered : (s : chip.State) → Lit closed (chip.set_low led (chip.set_low relay s))
  lowered s =
      let first = holds.set_low_lem relay relay s in
      let second = holds.set_low_lem led relay (chip.set_low relay s) in
      let third = holds.set_low_lem led led (chip.set_low relay s) in
      record { relay_lit = ground arith; led_lit = ground arith }

  step-Lit :
      (e : Event) (w : World) (s : chip.State)
      → Lit w.gate.state s
      → Lit (step e w).gate.state (event_pins pins e w s)
  unfolding step event_pins temp_open_pins lock_open_pins close_pins wake_up_pins
  step-Lit (passes n) w s h = h
  step-Lit (enters d) w s h = ground (arith, raised s, lowered s)
  step-Lit (receives msg) w s h = ground (arith, raised s, lowered s)
  step-Lit (wakes i) w s h = elim (Option-cases (get_elem? w.gate.timers i)) [
    | inl gone ↦ ground arith
    | inr (due, asleep) ↦ elim (Bool-cases (leb due w.now)) [
      | inl time ↦ ground (arith, lowered s)
      | inr early ↦ ground arith
    ]
  ]
  step-Lit (publishes i) w s h = ground (arith)
  step-Lit (fails i) w s h = ground (arith)
  step-Lit shuts w s h = ground (arith, raised s, lowered s)

  ready-Lit :
      (s : chip.State)
      → Lit closed (chip.set_low led (chip.output led (chip.set_low relay (chip.output relay s))))
  ready-Lit s =
      let s1 = chip.output relay s in
      let s2 = chip.output led (chip.set_low relay s1) in
      let first = holds.set_low_lem relay relay s1 in
      let last = holds.set_low_lem led relay s2 in
      record {
        relay_lit = elim (ℕ_discrete led relay) [
          | yes same ↦ ground arith
          | no other ↦
              let kept = holds.output_keeps led relay (chip.set_low relay s1) other in ground arith
        ];
        led_lit = holds.set_low_lem led led s2 ∙ ground arith;
      }

  run-Lit :
      (es : List Event) (w : World) (s : chip.State)
      → Lit w.gate.state s
      → Lit (run es w).gate.state (run_pins pins es w s)
  unfolding run run_pins
  run-Lit [] w s h = h
  run-Lit (e ∷ es) w s h = run-Lit es (step e w) (event_pins pins e w s) (step-Lit e w s h)

  -- The pins are set up and the program begins; whatever happens then, and in whatever order, the chip
  -- drives the relay and the LED high while the gate is open or locked open, and low while it is
  -- closed, also where both are one pin.
  pub run_pins-Lit :
      (es : List Event) (w : World) (s : chip.State)
      → w.gate.state ≡ closed
      → let (p, ready) = init_pins (new_output_pin chip) relay led s in
        Lit (run es w).gate.state (run_pins p es w ready)
  unfolding init_pins new_output_pin
  run_pins-Lit es w s shut =
      let ready = (init_pins (new_output_pin chip) relay led s).1 in
      run-Lit es w ready (subst (λ g. Lit g ready) (sym shut) (ready-Lit s))
