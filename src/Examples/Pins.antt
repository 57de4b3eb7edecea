-- ===== src/Examples/Pins.antt =====
-- A chip that holds its levels, and an opening.
use pigate.Prelude.{ℕ, refl, eqb, if◌then◌else◌, ok, List, [], ◌∷◌, pos, string_eq}
use pigate.Gate.Controller.{Level, low, high}
use pigate.Gate.World.{Event, passes, enters, temporary, run}
use pigate.Gate.Pins.{Rpio, new_output_pin, init_pins, run_pins}
use pigate.Gate.Pins.Relay.{HoldsLevels, Lit, run_pins-Lit}
use pigate.System.{new_world}

abbrev chip : Rpio
chip = record {
  State = ℕ → Level;
  open_driver = λ s. (ok tt, s);
  output = λ n s. s;
  set_high = λ n s m. if eqb n m then high else s m;
  set_low = λ n s m. if eqb n m then low else s m;
}

abbrev chip-HoldsLevels : HoldsLevels chip
chip-HoldsLevels = record {
  level = λ s n. s n;
  set_high_lem = λ n m s. refl;
  set_low_lem = λ n m s. refl;
  output_keeps = λ n m s other. refl;
}

abbrev visit : List Event
visit = passes 5 ∷ enters temporary ∷ []

run_pins-Lit_example :
    let (p, ready) = init_pins (new_output_pin chip) 17 27 (λ n. high) in
    Lit chip chip-HoldsLevels 17 27
      (run visit (new_world (pos 10) 0)).gate.state
      (run_pins p visit (new_world (pos 10) 0) ready)
run_pins-Lit_example =
    run_pins-Lit chip chip-HoldsLevels 17 27 visit (new_world (pos 10) 0) (λ n. high)
      (unfold new_world in refl)
