-- ===== src/Gate/Access/Safety.antt =====
-- No code moves the gate unless its credential allows it at that time.
use pigate.Prelude.{
  ℕ, ◌≡◌, ◌≢◌, inl, inr, String, Bool, true, false, Option, none, some, ℤ, arith, Result, ok,
  Outcome, returns, panics, string_eq, ◌==◌, if◌then◌else◌, pointer_cases,
}
use pigate.Database.Models
use pigate.Database.Models.{Time, Credential, AccessTime}
use pigate.Gate.Clock.{is_time_of_day_in_range}
use pigate.Gate.Controller.{GateController, temp_open, lock_open}
use pigate.Gate.World.{Decision, refused, temporary, locked, decide}
use pigate.Gate.Access.{GateManager, validate_credential, is_lock_code, open_gate}

module _ (gm : GateManager) (code : String) (now : Time) (s : gm.State) where
  -- What the manager said when the credential was validated.
  pub record IsAllowed : Type 0 where
    pub credential : Credential
    pub access_time : AccessTime
    pub found : (gm.get_credential code s).0 ≡ ok (some credential)
    pub not_locked_out : credential.locked_out ≡ false
    pub window :
        (gm.get_access_time credential.access_group (gm.get_credential code s).1).0
        ≡ ok (some access_time)
    pub in_range : is_time_of_day_in_range now access_time.start_time access_time.end_time ≡ true

  abbrev first_lookup : Result (Option Credential) × gm.State
  first_lookup = gm.get_credential code s

  validate_found :
      (c : Credential)
      → first_lookup.0 ≡ ok (some c)
      → (validate_credential gm code now s).0 ≡ returns true
      → IsAllowed
  unfolding validate_credential
  validate_found c found h =
      elim (pointer_cases (gm.get_access_time c.access_group first_lookup.1).0) [
        | inl (e, failed) ↦ absurd (ground arith)
        | inr (inl nil) ↦ absurd (ground arith)
        | inr (inr (at, window)) ↦ record {
          credential = c;
          access_time = at;
          found = found;
          not_locked_out = ground arith;
          window = window;
          in_range = ground arith;
        }
      ]

  -- `ValidateCredential` returns true only for a credential that the manager finds, that is not
  -- locked out, and whose group has an access time that contains the time of day.
  pub validate_credential-IsAllowed :
      (validate_credential gm code now s).0 ≡ returns true → IsAllowed
  validate_credential-IsAllowed h = elim (pointer_cases first_lookup.0) [
    | inl (e, failed) ↦ absurd (unfold validate_credential in ground arith)
    | inr (inl nil) ↦ absurd (unfold validate_credential in ground arith)
    | inr (inr (c, found)) ↦ validate_found c found h
  ]

  pub validate_credential_of_IsAllowed :
      IsAllowed → (validate_credential gm code now s).0 ≡ returns true
  unfolding validate_credential
  validate_credential_of_IsAllowed a = ground (arith, a)

  -- The state of the manager after the validation.
  abbrev pub validated : gm.State
  validated = (validate_credential gm code now s).1

  -- A call of `Open` that changes the gate was made with an allowed code, and has opened the gate
  -- for a while, or locked it open if the credential, looked up once more, says so.
  pub open_gate-IsAllowed :
      (instant : ℕ) (g g' : GateController)
      → (open_gate gm code now instant g s).0 ≡ returns g'
      → g' ≢ g
      → IsAllowed
        × (c : Credential) × ((gm.get_credential code validated).0 ≡ ok (some c))
        × (g' ≡ (if c.open_mode == Models.lock_open then lock_open g else temp_open instant g))
  unfolding open_gate is_lock_code
  open_gate-IsAllowed instant g g' h moved =
      let valid : (validate_credential gm code now s).0 ≡ returns true = ground arith in
      elim (pointer_cases (gm.get_credential code validated).0) [
        | inl (e, failed) ↦ absurd (ground arith)
        | inr (inl nil) ↦ absurd (ground arith)
        | inr (inr (c, again)) ↦ (validate_credential-IsAllowed valid, c, again, ground arith)
      ]

  -- An allowed code always does that: `Open` refuses no code that `ValidateCredential` accepts and
  -- whose second lookup finds a credential.
  pub open_gate_of_IsAllowed :
      (instant : ℕ) (g : GateController) (c : Credential)
      → IsAllowed
      → (gm.get_credential code validated).0 ≡ ok (some c)
      → (open_gate gm code now instant g s).0
        ≡ returns (if c.open_mode == Models.lock_open then lock_open g else temp_open instant g)
  unfolding open_gate is_lock_code
  open_gate_of_IsAllowed instant g c a again = ground (arith, validate_credential_of_IsAllowed a)

  -- What `Open` decides from its two lookups.
  decision : Outcome Bool → Outcome (Result Bool) → Decision
  decision (returns true) (returns (ok true)) = locked
  decision (returns true) (returns (ok false)) = temporary
  decision valid mode = refused

  -- Every call of `Open` that returns is one of the three decisions of the model of the gate.
  pub open_gate-decide :
      (instant : ℕ) (g g' : GateController)
      → (open_gate gm code now instant g s).0 ≡ returns g'
      → (d : Decision) × (g' ≡ decide d instant g)
  unfolding open_gate decision decide
  open_gate-decide instant g g' h = (
    decision (validate_credential gm code now s).0 (is_lock_code gm code validated).0,
    ground arith,
  )

-- The manager returns a pointer that is not nil wherever it returns no error.
pub record NeverNil (gm : GateManager) : Type 0 where
  pub credential_found : (code : String) (s : gm.State) → (gm.get_credential code s).0 ≢ ok none
  pub access_time_found : (group : ℤ) (s : gm.State) → (gm.get_access_time group s).0 ≢ ok none

module _ (gm : GateManager) (total : NeverNil gm) (code : String) (now : Time) (s : gm.State) where
  validate_credential-ne-panics : (validate_credential gm code now s).0 ≢ panics
  unfolding validate_credential
  validate_credential-ne-panics h = elim (pointer_cases (gm.get_credential code s).0) [
    | inl (e, failed) ↦ ground arith
    | inr (inl nil) ↦ total.credential_found code s nil
    | inr (inr (c, found)) ↦
        let second = gm.get_access_time c.access_group (gm.get_credential code s).1 in
        elim (pointer_cases second.0) [
          | inl (e, failed) ↦ ground arith
          | inr (inl nil) ↦ total.access_time_found _ _ nil
          | inr (inr (at, window)) ↦ ground arith
        ]
  ]

  -- With such a manager `Open` never panics.
  pub open_gate-ne-panics :
      (instant : ℕ) (g : GateController) → (open_gate gm code now instant g s).0 ≢ panics
  unfolding open_gate is_lock_code
  open_gate-ne-panics instant g h = ground (
    arith,
    validate_credential-ne-panics,
    total.credential_found code (validate_credential gm code now s).1,
  )
