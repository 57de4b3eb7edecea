-- ===== src/Gate/Access.antt =====
-- pigate/pkg/gate/gate.go, `Open`, `ValidateCredential` and `isLockCode`: which codes open the gate.
pub mod Safety
pub mod Local
use pigate.Prelude.{
  ℕ, String, Bool, true, false, Option, none, some, ℤ, Result, ok, err, Outcome, returns, panics, M,
  string_eq, ◌==◌, if◌then◌else◌,
}
use pigate.Database.Models
use pigate.Database.Models.{Time, Credential, AccessTime}
use pigate.Gate.Clock.{is_time_of_day_in_range}
use pigate.Gate.Controller.{GateController, temp_open, lock_open}

-- The methods of `database.GateManager` that the controller calls. `ok none` is a nil pointer that
-- comes without an error: to read a field of it is a panic.
pub record GateManager : Type 1 where
  pub State : Type 0
  pub get_credential : String → M State (Option Credential)
  pub get_access_time : ℤ → M State (Option AccessTime)

module _ (gm : GateManager) where
  open gm use {State}

  abbrev in_window : Time → Result (Option AccessTime) × State → Outcome Bool × State
  in_window now (err e, s) = (returns false, s)
  in_window now (ok none, s) = (panics, s)
  in_window now (ok (some at), s) =
      (returns (is_time_of_day_in_range now at.start_time at.end_time), s)

  abbrev check_credential : Time → Result (Option Credential) × State → Outcome Bool × State
  check_credential now (err e, s) = (returns false, s)
  check_credential now (ok none, s) = (panics, s)
  check_credential now (ok (some cred), s) =
      if cred.locked_out
      then (returns false, s)
      else in_window now (gm.get_access_time cred.access_group s)

  unfoldable pub validate_credential : String → Time → State → Outcome Bool × State
  validate_credential code now s = check_credential now (gm.get_credential code s)

  abbrev lock_mode : Result (Option Credential) × State → Outcome (Result Bool) × State
  lock_mode (err e, s) = (returns (err e), s)
  lock_mode (ok none, s) = (panics, s)
  lock_mode (ok (some cred), s) = (returns (ok (cred.open_mode == Models.lock_open)), s)

  unfoldable pub is_lock_code : String → State → Outcome (Result Bool) × State
  is_lock_code code s = lock_mode (gm.get_credential code s)

  abbrev open_by_mode :
      ℕ → GateController → Outcome (Result Bool) × State → Outcome GateController × State
  open_by_mode instant g (panics, s) = (panics, s)
  open_by_mode instant g (returns (err e), s) = (returns g, s)
  open_by_mode instant g (returns (ok true), s) = (returns (lock_open g), s)
  open_by_mode instant g (returns (ok false), s) = (returns (temp_open instant g), s)

  abbrev open_if_valid :
      ℕ → String → GateController → Outcome Bool × State → Outcome GateController × State
  open_if_valid instant code g (panics, s) = (panics, s)
  open_if_valid instant code g (returns false, s) = (returns g, s)
  open_if_valid instant code g (returns true, s) = open_by_mode instant g (is_lock_code code s)

  -- `Open(code, currentTime)`. It returns nil in every case. `instant` is the time of the call in
  -- seconds, from which a temporary opening counts.
  unfoldable pub open_gate :
      String → Time → ℕ → GateController → State → Outcome GateController × State
  open_gate code now instant g s = open_if_valid instant code g (validate_credential code now s)
