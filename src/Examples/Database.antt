-- ===== src/Examples/Database.antt =====
-- The databases at concrete rows.
use pigate.Prelude.{
  ◌≡◌, refl, ◌⊎◌, true, false, [], ◌∷◌, string_eq, pos, int_eq, arith, All, Error, ok, err,
}
use mathlib.Core.Option.{or_else}
use pigate.Database.Table.{find}
use pigate.Database.Credentials.{code_of, allowed}
use pigate.Database.Credentials.Laws.{stored}
use pigate.Database.Credentials.Quiet.{calm}
use pigate.Database.Sqlite
use pigate.Database.Sqlite.{Local, get_access_time, put_access_time}
use pigate.Database.Sqlite.Batch.{put_credentials_atomic}
use pigate.Database.Sqlite.AccessTimes.{HasValidTimes, undated, access_time-access_row}
use pigate.Database.Sqlite.Invariant
use pigate.Database.Sqlite.Invariant.{perform, put_many}
use pigate.Database.Postgres
use pigate.Database.Postgres.{Remote}
use pigate.Database.Managers.{sqlite_access_manager as sqlite}
use pigate.Database.Models.{GateLog, status_granted}
use pigate.Database.Updater.{handle_update_notification}
use pigate.Database.Updater.Times.{row_of, handle_update_notification_lem}
use pigate.Examples.Data.{keeper, hours, near, remote}

-- The third call to the database fails.
abbrev shaky : Local
shaky = record { tables = near; faults = false ∷ false ∷ true ∷ [] }

abbrev shaky_remote : Remote
shaky_remote = record { tables = remote; faults = false ∷ false ∷ true ∷ [] }

put_credentials_atomic_example :
    let (r, db') = Sqlite.put_credentials (keeper ∷ []) shaky in
    ((r ≡ ok tt)
      × (db'.tables ≡ stored (keeper ∷ []) near)
      × All (λ c. allowed c.open_mode ≡ true) (keeper ∷ []))
    ⊎ ((e : Error) × (r ≡ err e) × (db'.tables ≡ near))
put_credentials_atomic_example = put_credentials_atomic (keeper ∷ []) shaky

pub hours_valid : HasValidTimes hours
hours_valid = record {
  start_valid = record { hour_lt = omega arith; minute_lt = omega arith; second_lt = omega arith };
  end_valid = record { hour_lt = omega arith; minute_lt = omega arith; second_lt = omega arith };
}

pub near-IsValid : Invariant.IsValid near
unfolding allowed string_eq find
near-IsValid = record {
  codes = (refl, tt);
  modes = (refl, tt);
  groups = (refl, tt);
  times = ((undated hours, access_time-access_row hours hours_valid), tt);
}

handle_update_notification_lem_example :
    let s =
      handle_update_notification sqlite "north/credentials/status" "update_available"
        (record { near = calm near; remote = calm remote }) in
    (find code_of "9*9" s.near.tables.credentials
      ≡ or_else (find code_of "9*9" remote.credentials) (find code_of "9*9" near.credentials))
    × (find Sqlite.group_of (pos 0) s.near.tables.access_times
        ≡ or_else
            (row_of (find Postgres.group_of (pos 0) remote.access_times))
            (find Sqlite.group_of (pos 0) near.access_times))
unfolding allowed string_eq find
handle_update_notification_lem_example =
    handle_update_notification_lem near remote "north/credentials/status" "update_available" "9*9"
      (pos 0) (refl, tt) (refl, tt) (refl, tt)

abbrev visit : GateLog
visit = record { code = "4711"; time = 7500000000; status = status_granted }
