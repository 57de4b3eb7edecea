-- ===== src/Status/Store.antt =====
-- pigate/cmd/statusserver/main.go, `statusStore`: the events, and the latest row of each location.
use pigate.Prelude.{
  ℕ, String, Option, none, some, List, [], ◌∷◌, ◌++◌, Result, ok, err, M, ◌>>◌, string_eq, ◌==◌,
  if◌then◌else◌,
}
use pigate.Database.Sql.{Db, call}
use pigate.Database.Table.{find}
use pigate.Status.State.{StatusState, PersistedLatest, apply_latest}

-- A row of `pigate_status_events`, less its serial number, which nothing reads.
pub record StatusEvent : Type 0 where
  pub location_id : String
  pub event_type : String
  pub topic : String
  pub payload : String
  pub created_at : ℕ

-- A row of `pigate_status_latest`, less `updated_at`, which nothing reads.
pub record LatestRow : Type 0 where
  pub location_id : String
  pub gate_status : String
  pub gate_status_at : Option ℕ
  pub credential_status : String
  pub credential_status_at : Option ℕ
  pub last_command : Option String
  pub last_command_at : Option ℕ

abbrev pub location_of : LatestRow → String
location_of r = r.location_id

pub record StatusTables : Type 0 where
  pub events : List StatusEvent
  pub latest : List LatestRow

-- `none` is a store without a client of the database.
abbrev pub StatusStore : Type 0
StatusStore = Option (Db StatusTables)

-- `if s.db == nil { return nil }`.
abbrev with_db : {A : Type 0} → A → M (Db StatusTables) A → M StatusStore A
with_db nothing m none = (ok nothing, none)
with_db nothing m (some db) = let (r, db') = m db in (r, some db')

-- The defaults of the columns.
abbrev pub default_row : String → LatestRow
default_row location = record {
  location_id = location;
  gate_status = "unknown";
  gate_status_at = none;
  credential_status = "unknown";
  credential_status_at = none;
  last_command = none;
  last_command_at = none;
}

-- `INSERT … ON CONFLICT (location_id) DO UPDATE SET` some of the columns.
unfoldable pub set_columns : String → (LatestRow → LatestRow) → List LatestRow → List LatestRow
set_columns location f [] = f (default_row location) ∷ []
set_columns location f (r ∷ rows) =
    if location_of r == location then f r ∷ rows else r ∷ set_columns location f rows

abbrev set_latest : String → (LatestRow → LatestRow) → M StatusStore (Unit {0})
set_latest location f =
    with_db tt (call (λ t. (ok tt, record t { latest = set_columns location f t.latest })))

unfoldable pub record_event : StatusEvent → M StatusStore (Unit {0})
record_event e = with_db tt (call (λ t. (ok tt, record t { events = t.events ++ e ∷ [] })))

module _ (location : String) where
  unfoldable pub upsert_gate_status : String → ℕ → M StatusStore (Unit {0})
  upsert_gate_status status at =
      set_latest location (λ r. record r { gate_status = status; gate_status_at = some at })

  unfoldable pub upsert_credential_status : String → ℕ → M StatusStore (Unit {0})
  upsert_credential_status status at =
      set_latest location
        (λ r. record r { credential_status = status; credential_status_at = some at })

  unfoldable pub upsert_command : String → ℕ → M StatusStore (Unit {0})
  upsert_command command at =
      set_latest location (λ r. record r { last_command = some command; last_command_at = some at })

  abbrev pub event : String → String → String → ℕ → StatusEvent
  event kind topic payload at = record {
    location_id = location;
    event_type = kind;
    topic = topic;
    payload = payload;
    created_at = at;
  }

  unfoldable pub record_gate_status : String → String → ℕ → M StatusStore (Unit {0})
  record_gate_status topic payload at = do
    record_event (event "gate_status" topic payload at)
    upsert_gate_status payload at

  unfoldable pub record_credential_status : String → String → ℕ → M StatusStore (Unit {0})
  record_credential_status topic payload at = do
    record_event (event "credential_status" topic payload at)
    upsert_credential_status payload at

  unfoldable pub record_command : String → String → ℕ → M StatusStore (Unit {0})
  record_command topic payload at = do
    record_event (event "gate_command" topic payload at)
    upsert_command payload at

-- `if lastCommand.Valid { … }` of a variable that begins as "".
abbrev pub or_empty : Option String → String
or_empty none = ""
or_empty (some s) = s

abbrev pub persisted : LatestRow → PersistedLatest
persisted r = record {
  gate_status = r.gate_status;
  gate_status_at = r.gate_status_at;
  credential_status = r.credential_status;
  credential_status_at = r.credential_status_at;
  last_command = or_empty r.last_command;
  last_command_at = r.last_command_at;
}

abbrev load : Result (Option LatestRow) → StatusState → StatusState
load (ok (some r)) state = apply_latest (persisted r) state
load _ state = state

abbrev result_of : Result (Option LatestRow) → Result (Unit {0})
result_of (ok row) = ok tt
result_of (err e) = err e

-- `loadLatest`: that there is no row is no error. The state comes back with the result.
unfoldable pub load_latest :
    StatusState → StatusStore → (Result (Unit {0}) × StatusState) × StatusStore
load_latest state store =
    let (row, store') =
      with_db none (call (λ t. (ok (find location_of state.location_id t.latest), t))) store in
    ((result_of row, load row state), store')
