-- ===== src/Database/Setup.antt =====
-- pigate/pkg/database/sqlite_repository.go, `NewSqliteGateManager` and what it calls: the file of the local
-- database is opened, and its tables are created where they are not there yet.
use pigate.Prelude.{
  ◌≡◌, refl, ◌⊎◌, inl, inr, Bool, true, false, Option, none, some, List, [], ◌∷◌, Error, Result, ok,
  err, M, ◌>>◌,
}
use pigate.Database.Models.{Credential}
use pigate.Database.Sql.{Db, call}
use pigate.Database.Sqlite.{AccessRow}
use pigate.Database.Logger.{LogRow}

-- `none` is a table that is not there.
pub record DbFile : Type 0 where
  pub credentials : Option (List Credential)
  pub access_times : Option (List AccessRow)
  pub gate_request_log : Option (List LogRow)

-- `CREATE TABLE IF NOT EXISTS`.
abbrev pub created : {R : Type 0} → Option (List R) → Option (List R)
created none = some []
created (some rows) = some rows

-- `createTables` of the access manager, which `NewSQLiteAccessManager` calls.
unfoldable pub new_sqlite_access_manager : M (Db DbFile) (Unit {0})
new_sqlite_access_manager = do
  call (λ f. (ok tt, record f { credentials = created f.credentials }))
  call (λ f. (ok tt, record f { access_times = created f.access_times }))

-- `createTables` of the access logger, which `NewAccessLogger` calls.
unfoldable pub new_access_logger : M (Db DbFile) (Unit {0})
new_access_logger = call (λ f. (ok tt, record f { gate_request_log = created f.gate_request_log }))

-- What comes back: a manager that holds the open file, or an error and whether the file was closed.
pub data Opening : Type 0 where
  manager : Opening
  refused : Error → Bool → Opening

abbrev with_logger : Result (Unit {0}) × Db DbFile → Opening × Db DbFile
with_logger (err e, db) = (refused e true, db)
with_logger (ok unit, db) = (manager, db)

abbrev with_access : Result (Unit {0}) × Db DbFile → Opening × Db DbFile
with_access (err e, db) = (refused e true, db)
with_access (ok unit, db) = with_logger (new_access_logger db)

-- The first argument is what `sql.Open` gives.
unfoldable pub new_sqlite_gate_manager : Result (Unit {0}) → Db DbFile → Opening × Db DbFile
new_sqlite_gate_manager (err e) db = (refused e false, db)
new_sqlite_gate_manager (ok unit) db = with_access (new_sqlite_access_manager db)

-- The table is as it was, or it is new and empty.
abbrev pub IsKept : {R : Type 0} → Option (List R) → Option (List R) → Type 0
IsKept before after = (after ≡ before) ⊎ ((before ≡ none) × (after ≡ some []))

pub record AreKept (before after : DbFile) : Type 0 where
  pub credentials_kept : IsKept before.credentials after.credentials
  pub access_times_kept : IsKept before.access_times after.access_times
  pub log_kept : IsKept before.gate_request_log after.gate_request_log

created-IsKept : {R : Type 0} (t : Option (List R)) → IsKept t (created t)
created-IsKept none = inr (refl, refl)
created-IsKept (some rows) = inl refl

created-AreKept :
    (f : DbFile)
    → AreKept f (record {
      credentials = created f.credentials;
      access_times = created f.access_times;
      gate_request_log = created f.gate_request_log;
    })
created-AreKept f = record {
  credentials_kept = created-IsKept f.credentials;
  access_times_kept = created-IsKept f.access_times;
  log_kept = created-IsKept f.gate_request_log;
}

-- What `NewSqliteGateManager` may end in.
abbrev pub Ends : DbFile → Opening × Db DbFile → Type 0
Ends f (o, db') =
    AreKept f db'.tables
    × (((o ≡ manager)
          × (db'.tables ≡ record {
            credentials = created f.credentials;
            access_times = created f.access_times;
            gate_request_log = created f.gate_request_log;
          }))
        ⊎ ((e : Error) × (o ≡ refused e true)))

-- A start of the program keeps every row of the local database, whatever calls fail. With a manager
-- there are all three tables; with an error of a call the file is closed.
pub new_sqlite_gate_manager_lem :
    (f : DbFile) (faults : List Bool)
    → Ends f (new_sqlite_gate_manager (ok tt) (record { tables = f; faults = faults }))
unfolding new_sqlite_gate_manager new_sqlite_access_manager new_access_logger call
new_sqlite_gate_manager_lem f [] = (created-AreKept f, inl (refl, refl))
new_sqlite_gate_manager_lem f (true ∷ faults) = (
  record { credentials_kept = inl refl; access_times_kept = inl refl; log_kept = inl refl },
  inr (_, refl),
)
new_sqlite_gate_manager_lem f (false ∷ []) = (created-AreKept f, inl (refl, refl))
new_sqlite_gate_manager_lem f (false ∷ true ∷ faults) = (
  record {
    credentials_kept = created-IsKept f.credentials;
    access_times_kept = inl refl;
    log_kept = inl refl;
  },
  inr (_, refl),
)
new_sqlite_gate_manager_lem f (false ∷ false ∷ []) = (created-AreKept f, inl (refl, refl))
new_sqlite_gate_manager_lem f (false ∷ false ∷ true ∷ faults) = (
  record {
    credentials_kept = created-IsKept f.credentials;
    access_times_kept = created-IsKept f.access_times;
    log_kept = inl refl;
  },
  inr (_, refl),
)
new_sqlite_gate_manager_lem f (false ∷ false ∷ false ∷ faults) =
    (created-AreKept f, inl (refl, refl))
