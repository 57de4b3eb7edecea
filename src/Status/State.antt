-- ===== src/Status/State.antt =====
-- pigate/cmd/statusserver/main.go, `statusState`: what the server knows in memory. Instants are in
-- microseconds, the precision of the columns that they are stored in; `none` is a nil time.
use pigate.Prelude.{ℕ, String, Option, none, some, string_eq, ◌==◌, if◌then◌else◌}

pub record StatusState : Type 0 where
  pub location_id : String
  pub gate_status : String
  pub gate_status_at : Option ℕ
  pub credential_status : String
  pub credential_status_at : Option ℕ
  pub last_command : String
  pub last_command_at : Option ℕ

unfoldable pub new_status_state : String → StatusState
new_status_state location_id = record {
  location_id = location_id;
  gate_status = "unknown";
  gate_status_at = none;
  credential_status = "unknown";
  credential_status_at = none;
  last_command = "";
  last_command_at = none;
}

unfoldable pub set_gate_status : String → ℕ → StatusState → StatusState
set_gate_status status at s = record s { gate_status = status; gate_status_at = some at }

unfoldable pub set_credential_status : String → ℕ → StatusState → StatusState
set_credential_status status at s = record s {
  credential_status = status;
  credential_status_at = some at;
}

unfoldable pub set_command : String → ℕ → StatusState → StatusState
set_command command at s = record s { last_command = command; last_command_at = some at }

pub record PersistedLatest : Type 0 where
  pub gate_status : String
  pub gate_status_at : Option ℕ
  pub credential_status : String
  pub credential_status_at : Option ℕ
  pub last_command : String
  pub last_command_at : Option ℕ

-- `if latest != "" { … = latest }`.
abbrev pub unless_empty : String → String → String
unless_empty new old = if new == "" then old else new

unfoldable pub apply_latest : PersistedLatest → StatusState → StatusState
apply_latest latest s = record {
  location_id = s.location_id;
  gate_status = unless_empty latest.gate_status s.gate_status;
  gate_status_at = latest.gate_status_at;
  credential_status = unless_empty latest.credential_status s.credential_status;
  credential_status_at = latest.credential_status_at;
  last_command = latest.last_command;
  last_command_at = latest.last_command_at;
}
