-- ===== src/Database/Postgres.antt =====
-- pigate/pkg/database/postgresql_repository.go: the remote database, the source of truth.
pub mod Batch
use pigate.Prelude.{Option, List, [], ◌∷◌, String, ℤ, int_eq, string_eq, ok, M, pure, ◌>>=◌, ◌>>◌}
use pigate.Database.Models.{Credential, AccessTime}
use pigate.Database.Sql.{Db, call, request, for_each, query}
use pigate.Database.Credentials.{
  Tables, code_of, upsert_credential, delete_credential, select_credential,
}
use pigate.Database.Table.{find, upsert, delete, delete_any}

abbrev pub Remote : Type 0
Remote = Db (Tables AccessTime)

abbrev pub group_of : AccessTime → ℤ
group_of a = a.access_group

-- The two `CREATE TABLE IF NOT EXISTS`: the tables of the model exist.
unfoldable pub init_schema : M Remote (Unit {0})
init_schema = do request; request

-- `NewPostgresAccessManager`: `sql.Open`, `Ping`, and the schema.
unfoldable pub connect : M Remote (Unit {0})
connect = do request; request; init_schema

unfoldable pub put_credential : Credential → M Remote (Unit {0})
put_credential c = call (upsert_credential c)

-- A transaction is begun and committed, but the statements go through `r.db`, not through `tx`, so
-- each of them is committed by itself, and the deferred `Rollback` takes none of them back.
unfoldable pub put_credentials : List Credential → M Remote (Unit {0})
put_credentials creds = do request; for_each put_credential creds; request

-- No row is a nil pointer without an error.
unfoldable pub get_credential : String → M Remote (Option Credential)
get_credential code = call (select_credential code)

-- `rows.Err()` is not asked: a loop that breaks off returns what it has read.
unfoldable pub get_credentials : M Remote (List Credential)
get_credentials = do rows ← query (λ t. t.credentials); pure rows.read

unfoldable pub remove_credential : String → M Remote (Unit {0})
remove_credential code = call (delete_credential code)

unfoldable pub delete_credentials : List String → M Remote (Unit {0})
delete_credentials [] = pure tt
delete_credentials (code ∷ codes) =
    call (λ t. (ok tt, record t { credentials = delete_any code_of (code ∷ codes) t.credentials }))

-- A column of type TIME keeps the time of day.
unfoldable pub access_row : AccessTime → AccessTime
access_row a = record a {
  start_time = record (a.start_time) { day = 0 };
  end_time = record (a.end_time) { day = 0 };
}

unfoldable pub put_access_time : AccessTime → M Remote (Unit {0})
put_access_time a =
    call (λ t. (ok tt, record t { access_times = upsert group_of (access_row a) t.access_times }))

unfoldable pub get_access_time : ℤ → M Remote (Option AccessTime)
get_access_time group = call (λ t. (ok (find group_of group t.access_times), t))

unfoldable pub get_access_times : M Remote (List AccessTime)
get_access_times = do rows ← query (λ t. t.access_times); pure rows.read

unfoldable pub delete_access_time : ℤ → M Remote (Unit {0})
delete_access_time group =
    call (λ t. (ok tt, record t { access_times = delete group_of group t.access_times }))
