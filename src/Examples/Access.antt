-- ===== src/Examples/Access.antt =====
-- Codes at the gate, with concrete tables.
use pigate.Prelude.{
  ◌≡◌, refl, ◌≢◌, false, some, none, [], pos, int_eq, string_eq, ok, returns, ◌==◌, if◌then◌else◌,
}
use pigate.Database.Models
use pigate.Database.Models.{Credential}
use pigate.Database.ClockText.{format, parse, get_num, field, skip_colon, is_end}
use pigate.Database.Sql.{call}
use pigate.Database.Table.{find}
use pigate.Database.Credentials.{select_credential}
use pigate.Database.Credentials.Quiet.{calm}
use pigate.Database.Sqlite
use pigate.Database.Sqlite.{Local, access_row, access_time}
use pigate.Gate.Clock.{is_time_of_day_in_range}
use pigate.Gate.Controller.{GateController, closed, temp_open, lock_open}
use pigate.Gate.Access.{validate_credential, is_lock_code, open_gate}
use pigate.Gate.Access.Safety.{IsAllowed, open_gate-IsAllowed, validated}
use pigate.Gate.Access.Local.{local_manager}
use pigate.Examples.Data.{noon, guest, near}

abbrev pub gate : GateController
gate = record {
  pin = none;
  led_pin = none;
  state = closed;
  gate_open_duration = pos 20;
  has_notifier = false;
  timers = [];
  notices = [];
}

opens : (open_gate local_manager "4711" noon 100 gate (calm near)).0 ≡ returns (temp_open 100 gate)
unfolding open_gate validate_credential is_lock_code Sqlite.get_credential Sqlite.get_access_time
    call select_credential find string_eq int_eq access_time access_row format parse field get_num
    skip_colon is_end is_time_of_day_in_range
opens = refl

moves : temp_open 100 gate ≢ gate
unfolding temp_open
moves h = cc

open_gate-IsAllowed_example :
    IsAllowed local_manager "4711" noon (calm near)
    × (c : Credential) × ((local_manager.get_credential "4711"
          (validated local_manager "4711" noon (calm near))).0
        ≡ ok (some c))
    × (temp_open 100 gate
        ≡ (if c.open_mode == Models.lock_open then lock_open gate else temp_open 100 gate))
open_gate-IsAllowed_example =
    open_gate-IsAllowed local_manager "4711" noon (calm near) 100 gate (temp_open 100 gate) opens
      moves

guest_allowed : IsAllowed local_manager "4711" noon (calm near)
guest_allowed = open_gate-IsAllowed_example.0

found_again :
    (local_manager.get_credential "4711" (validated local_manager "4711" noon (calm near))).0
    ≡ ok (some guest)
unfolding validate_credential Sqlite.get_credential Sqlite.get_access_time call select_credential
    find string_eq int_eq access_time access_row format parse field get_num skip_colon is_end
found_again = refl
