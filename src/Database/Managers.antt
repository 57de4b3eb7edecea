-- ===== src/Database/Managers.antt =====
-- pigate/pkg/database/access_manager.go: the interfaces, and the two managers that fill the first.
-- A method that returns a pointer gives `none` for nil.
pub mod Registry
pub mod Views
pub mod Origin
pub mod Refinement
pub mod Local
pub mod Remote
use pigate.Prelude.{String, Option, List, ℤ, M}
use pigate.Database.Models.{Credential, AccessTime}
use pigate.Database.Sqlite
use pigate.Database.Postgres

pub record AccessManager : Type 1 where
  pub State : Type 0
  pub put_credential : Credential → M State (Unit {0})
  pub put_credentials : List Credential → M State (Unit {0})
  pub get_credential : String → M State (Option Credential)
  pub get_credentials : M State (List Credential)
  pub delete_credential : String → M State (Unit {0})
  pub delete_credentials : List String → M State (Unit {0})
  pub put_access_time : AccessTime → M State (Unit {0})
  pub get_access_time : ℤ → M State (Option AccessTime)
  pub delete_access_time : ℤ → M State (Unit {0})

abbrev pub sqlite_access_manager : AccessManager
sqlite_access_manager = record {
  State = Sqlite.Local;
  put_credential = Sqlite.put_credential;
  put_credentials = Sqlite.put_credentials;
  get_credential = Sqlite.get_credential;
  get_credentials = Sqlite.get_credentials;
  delete_credential = Sqlite.remove_credential;
  delete_credentials = Sqlite.delete_credentials;
  put_access_time = Sqlite.put_access_time;
  get_access_time = Sqlite.get_access_time;
  delete_access_time = Sqlite.delete_access_time;
}

abbrev pub postgres_access_manager : AccessManager
postgres_access_manager = record {
  State = Postgres.Remote;
  put_credential = Postgres.put_credential;
  put_credentials = Postgres.put_credentials;
  get_credential = Postgres.get_credential;
  get_credentials = Postgres.get_credentials;
  delete_credential = Postgres.remove_credential;
  delete_credentials = Postgres.delete_credentials;
  put_access_time = Postgres.put_access_time;
  get_access_time = Postgres.get_access_time;
  delete_access_time = Postgres.delete_access_time;
}
