-- ===== src/Database/Managers/Refinement.antt =====
-- The two databases as maps of credentials.
use pigate.Prelude.{List}
use pigate.Database.Sqlite
use pigate.Database.Postgres
use pigate.Database.Managers.{sqlite_access_manager, postgres_access_manager}
use pigate.Database.Managers.Registry.{Operation, Runs, perform_all, perform_all-Runs}
use pigate.Database.Managers.Views.{shown}
use pigate.Database.Managers.Local.{sqlite-IsRegistry}
use pigate.Database.Managers.Remote.{postgres-IsRegistry}

-- Any operations on the credentials of the local database, and any on those of the remote one,
-- whatever calls fail in them, are with their answers operations on a map from codes to credentials:
-- each is done as a whole; or it fails, and then a batch of upserts may have put its first
-- credentials, and nothing else has changed; what is found is there, and a code that is said to be
-- missing, by nil or by `sql.ErrNoRows`, is missing; and what is listed is there, though a list may
-- lack some.
pub managers_refine :
    (ops : List Operation) (near : Sqlite.Local) (remote : Postgres.Remote)
    → (let (answers, near') = perform_all sqlite_access_manager ops near in
        Runs (shown near) ops answers (shown near'))
      × (let (answers, remote') = perform_all postgres_access_manager ops remote in
          Runs (shown remote) ops answers (shown remote'))
managers_refine ops near remote = (
  perform_all-Runs sqlite_access_manager sqlite-IsRegistry ops near,
  perform_all-Runs postgres_access_manager postgres-IsRegistry ops remote,
)
