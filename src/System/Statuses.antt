-- ===== src/System/Statuses.antt =====
-- The statuses of the gate as messages, and the last of them.
use pigate.Prelude.{◌≡◌, refl, ap, true, false, String, List, [], ◌∷◌, ◌++◌}
use pigate.Gate.Controller.{
  GateState, closed, opened, locked_open, Status, gate_open, gate_locked_open, gate_closed,
}
use pigate.Gate.World.Notices.{change}
use pigate.System.{payload_of, is_changed}

abbrev pub last_of {ℓ} : {A : Type ℓ} → A → List A → A
last_of x [] = x
last_of x (y ∷ ys) = last_of y ys

pub last_of-append :
    {A : Type 0} (x : A) (xs ys : List A) → last_of x (xs ++ ys) ≡ last_of (last_of x xs) ys
last_of-append x [] ys = refl
last_of-append x (y ∷ xs) ys = last_of-append y xs ys

-- The status that stands for a state.
abbrev pub shown : GateState → String
shown closed = payload_of gate_closed
shown opened = payload_of gate_open
shown locked_open = payload_of gate_locked_open

abbrev pub payloads : List Status → List String
payloads [] = []
payloads (status ∷ rest) = payload_of status ∷ payloads rest

pub payloads-append : (xs ys : List Status) → payloads (xs ++ ys) ≡ payloads xs ++ payloads ys
payloads-append [] ys = refl
payloads-append (x ∷ xs) ys = ap (λ l. payload_of x ∷ l) (payloads-append xs ys)

pub last_of-moved :
    (x : String) (a b : GateState)
    → is_changed a b ≡ true
    → last_of x (payloads (change a b)) ≡ shown b
last_of-moved x closed closed h = absurd (cc)
last_of-moved x closed opened h = refl
last_of-moved x closed locked_open h = refl
last_of-moved x opened closed h = refl
last_of-moved x opened opened h = absurd (cc)
last_of-moved x opened locked_open h = refl
last_of-moved x locked_open closed h = refl
last_of-moved x locked_open opened h = refl
last_of-moved x locked_open locked_open h = absurd (cc)

pub is_changed-same : (a b : GateState) → is_changed a b ≡ false → (a ≡ b) × (change a b ≡ [])
is_changed-same closed closed h = (refl, refl)
is_changed-same closed opened h = absurd (cc)
is_changed-same closed locked_open h = absurd (cc)
is_changed-same opened closed h = absurd (cc)
is_changed-same opened opened h = (refl, refl)
is_changed-same opened locked_open h = absurd (cc)
is_changed-same locked_open closed h = absurd (cc)
is_changed-same locked_open opened h = absurd (cc)
is_changed-same locked_open locked_open h = (refl, refl)
