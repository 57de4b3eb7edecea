-- ===== src/Gate/Access/Local.antt =====
-- The gate with its local database.
use pigate.Prelude.{
  ℕ, ◌≡◌, ap, ◌∙◌, String, Bool, true, false, not, ◌&&◌, ◌≢◌, inl, inr, Outcome-cases, Option-cases,
  Option, none, some, List, ℤ, int_eq, string_eq, arith, All, Result, ok, returns, panics,
}
use mathlib.Core.Option.{or_else}
use pigate.Database.Models.{Time, Credential, AccessTime}
use pigate.Database.Sql.{call}
use pigate.Database.Table.{find, NodupKeys}
use pigate.Database.Credentials.{Tables, code_of, allowed, select_credential}
use pigate.Database.Credentials.Laws.{stored}
use pigate.Database.Credentials.Quiet.{calm}
use pigate.Database.Sqlite
use pigate.Database.Sqlite.{AccessRow, Local, group_of, access_time}
use pigate.Database.Postgres
use pigate.Database.Managers.{AccessManager, sqlite_access_manager, postgres_access_manager}
use pigate.Database.Updater.{sync_credentials}
use pigate.Database.Updater.Merge.{sync_credentials_quiet, find-stored}
use pigate.Gate.Clock.{is_time_of_day_in_range}
use pigate.Gate.Controller.{GateController}
use pigate.Gate.Access.{GateManager, validate_credential, open_gate}
use pigate.Gate.Access.Safety.{NeverNil, open_gate-ne-panics}

-- An access manager as the controller sees it.
abbrev pub as_gate_manager : AccessManager → GateManager
as_gate_manager a = record {
  State = a.State;
  get_credential = a.get_credential;
  get_access_time = a.get_access_time;
}

abbrev pub local_manager : GateManager
local_manager = as_gate_manager sqlite_access_manager

get_credential-ne-nil : (code : String) (db : Local) → (Sqlite.get_credential code db).0 ≢ ok none
unfolding Sqlite.get_credential call select_credential
get_credential-ne-nil code db h = ground arith

pub access_time-ne-nil : (row : Option AccessRow) → access_time row ≢ ok none
unfolding access_time
access_time-ne-nil none h = cc
access_time-ne-nil (some r) h = ground arith

get_access_time-ne-nil : (group : ℤ) (db : Local) → (Sqlite.get_access_time group db).0 ≢ ok none
unfolding Sqlite.get_access_time call
get_access_time-ne-nil group db h =
    ground (arith, access_time-ne-nil (find group_of group db.tables.access_times))

pub local_manager-NeverNil : NeverNil local_manager
local_manager-NeverNil = record {
  credential_found = get_credential-ne-nil;
  access_time_found = get_access_time-ne-nil;
}

-- With the local database `Open` never panics, whatever calls to the database fail.
pub open_gate_returns :
    (code : String) (now : Time) (instant : ℕ) (g : GateController) (db : Local)
    → (g' : GateController) × ((open_gate local_manager code now instant g db).0 ≡ returns g')
open_gate_returns code now instant g db =
    elim (Outcome-cases (open_gate local_manager code now instant g db).0) [
      | inl crash ↦
          absurd
            (open_gate-ne-panics local_manager local_manager-NeverNil code now db instant g crash)
      | inr fine ↦ fine
    ]

abbrev window : Time → Result (Option AccessTime) → Bool
window now (ok (some at)) = is_time_of_day_in_range now at.start_time at.end_time
window now _ = false

-- Whether a code is valid, from its row of `credentials` and the rows of `access_times`.
unfoldable pub verdict : Time → Option Credential → List AccessRow → Bool
verdict now none rows = false
verdict now (some c) rows =
    not c.locked_out && window now (access_time (find group_of c.access_group rows))

pub validate_credential_quiet :
    (code : String) (now : Time) (t : Tables AccessRow)
    → (validate_credential local_manager code now (calm t)).0
      ≡ returns (verdict now (find code_of code t.credentials) t.access_times)
unfolding validate_credential verdict Sqlite.get_credential Sqlite.get_access_time call
    select_credential
validate_credential_quiet code now t = elim (Option-cases (find code_of code t.credentials)) [
  | inl missing ↦ ground arith
  | inr (c, found) ↦
      ground (arith, access_time-ne-nil (find group_of c.access_group t.access_times))
]

-- With no failing call, and a remote database that meets its PRIMARY KEY and its CHECK: after
-- `SyncCredentials` a code of the remote database is judged by its remote credential, and every
-- other code, one that was removed from the remote database included, as before.
pub validate_credential-sync_credentials :
    (near : Tables AccessRow) (remote : Tables AccessTime) (code : String) (now : Time)
    → NodupKeys code_of remote.credentials
    → All (λ c. allowed c.open_mode ≡ true) remote.credentials
    → let s =
        (sync_credentials sqlite_access_manager
          (record { near = calm near; remote = calm remote })).1 in
      (validate_credential local_manager code now s.near).0
      ≡ returns (
          verdict now
            (or_else (find code_of code remote.credentials) (find code_of code near.credentials))
            near.access_times)
validate_credential-sync_credentials near remote code now u fits =
    rw (sync_credentials_quiet near remote fits) (
      validate_credential_quiet code now (stored remote.credentials near)
      ∙ ap (λ c. returns (verdict now c near.access_times)) (find-stored near remote code u))

-- With the manager of the remote database, which returns nil without an error for a missing code,
-- and no failing call, `ValidateCredential` panics on every code that is not in the database.
pub validate_credential_nil :
    (code : String) (now : Time) (t : Tables AccessTime)
    → find code_of code t.credentials ≡ none
    → (validate_credential (as_gate_manager postgres_access_manager) code now (calm t)).0 ≡ panics
unfolding validate_credential Postgres.get_credential call select_credential
validate_credential_nil code now t missing = ground arith
