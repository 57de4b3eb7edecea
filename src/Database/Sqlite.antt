-- ===== src/Database/Sqlite.antt =====
-- pigate/pkg/database/sqlite_repository.go: the access manager of the gate, on a local database.
pub mod Batch
pub mod AccessTimes
pub mod Invariant
use pigate.Prelude.{
  ℕ, Option, none, some, List, [], ◌∷◌, String, ℤ, int_eq, Result, ok, err, no_rows, service, text,
  wrapped, M, pure, ◌>>=◌, ◌>>◌, if◌then◌else◌,
}
use pigate.Database.Models.{Time, Credential, AccessTime}
use pigate.Database.ClockText.{format, parse}
use pigate.Database.Sql.{Db, call, request, in_transaction, for_each, query}
use pigate.Database.Credentials.{Tables, upsert_credential, delete_credential, select_credential}
use pigate.Database.Table.{find, upsert, delete}

-- A row of `access_times`: the two times are texts.
pub record AccessRow : Type 0 where
  pub access_group : ℤ
  pub start_time : List ℕ
  pub end_time : List ℕ
  pub start_weekday : ℤ
  pub end_weekday : ℤ

abbrev pub Local : Type 0
Local = Db (Tables AccessRow)

abbrev pub group_of : AccessRow → ℤ
group_of r = r.access_group

unfoldable pub put_credential : Credential → M Local (Unit {0})
put_credential c = call (upsert_credential c)

-- The statement is prepared once, and executed for each credential within the transaction.
unfoldable pub put_credentials : List Credential → M Local (Unit {0})
put_credentials creds =
    in_transaction (do request; for_each (λ c. call (upsert_credential c)) creds)

-- `QueryRow(…).Scan(…)` returns `sql.ErrNoRows` where the code is not in the table.
abbrev row_or_error {ℓ} : {A : Type ℓ} → Option A → Result A
row_or_error none = err no_rows
row_or_error (some a) = ok a

-- The pointer that is returned without an error is never nil.
abbrev pointer {ℓ} : {A : Type ℓ} → Result A → Result (Option A)
pointer (ok a) = ok (some a)
pointer (err e) = err e

unfoldable pub get_credential : String → M Local (Option Credential)
get_credential code = do row ← call (select_credential code); λ db. (pointer (row_or_error row), db)

-- The loop is followed by `rows.Err()`.
unfoldable pub get_credentials : M Local (List Credential)
get_credentials = do
  rows ← query (λ t. t.credentials)
  λ db. (if rows.broken then err service else ok rows.read, db)

unfoldable pub remove_credential : String → M Local (Unit {0})
remove_credential code = call (delete_credential code)

unfoldable pub delete_credentials : List String → M Local (Unit {0})
delete_credentials [] = pure tt
delete_credentials (code ∷ codes) =
    in_transaction (do request; for_each (λ c. call (delete_credential c)) (code ∷ codes))

-- Only the time of day is stored.
unfoldable pub access_row : AccessTime → AccessRow
access_row a = record {
  access_group = a.access_group;
  start_time = format a.start_time;
  end_time = format a.end_time;
  start_weekday = a.start_weekday;
  end_weekday = a.end_weekday;
}

unfoldable pub put_access_time : AccessTime → M Local (Unit {0})
put_access_time a =
    call (λ t. (ok tt, record t { access_times = upsert group_of (access_row a) t.access_times }))

abbrev with_end : AccessRow → Time → Option Time → Result (Option AccessTime)
with_end r start none = err (wrapped "failed to parse end_time" (text "parsing time"))
with_end r start (some end) = ok (
    some (record {
      access_group = r.access_group;
      start_time = start;
      end_time = end;
      start_weekday = r.start_weekday;
      end_weekday = r.end_weekday;
    }))

abbrev with_start : AccessRow → Option Time → Result (Option AccessTime)
with_start r none = err (wrapped "failed to parse start_time" (text "parsing time"))
with_start r (some start) = with_end r start (parse r.end_time)

-- The row as it is read back, or the error of the first text that does not parse.
unfoldable pub access_time : Option AccessRow → Result (Option AccessTime)
access_time none = err no_rows
access_time (some r) = with_start r (parse r.start_time)

unfoldable pub get_access_time : ℤ → M Local (Option AccessTime)
get_access_time group = do
  row ← call (λ t. (ok (find group_of group t.access_times), t))
  λ db. (access_time row, db)

unfoldable pub delete_access_time : ℤ → M Local (Unit {0})
delete_access_time group =
    call (λ t. (ok tt, record t { access_times = delete group_of group t.access_times }))
