-- ===== src/Examples/Registry.antt =====
-- The two databases as maps, at concrete operations of which some fail.
use pigate.Prelude.{◌≡◌, refl, ◌⊎◌, true, false, some, List, [], ◌∷◌, string_eq}
use pigate.Database.Sql.{call}
use pigate.Database.Table.{find, upsert}
use pigate.Database.Credentials.{allowed, upsert_credential, select_credential}
use pigate.Database.Sqlite.{Local, get_credential, put_credential}
use pigate.Database.Postgres
use pigate.Database.Postgres.{Remote}
use pigate.Database.Managers.{sqlite_access_manager, postgres_access_manager}
use pigate.Database.Managers.Registry.{
  Operation, put_one, put_many, get_one, delete_one, found, Runs, perform, perform_all,
}
use pigate.Database.Managers.Views.{shown}
use pigate.Database.Managers.Origin.{Put, sqlite_access_manager-Put, postgres_access_manager-Put}
use pigate.Database.Managers.Refinement.{managers_refine}
use pigate.Examples.Data.{guest, keeper, near, remote}

-- The third call to the database fails.
abbrev shaky : Local
shaky = record { tables = near; faults = false ∷ false ∷ true ∷ [] }

abbrev shaky_remote : Remote
shaky_remote = record { tables = remote; faults = false ∷ false ∷ true ∷ [] }

abbrev requests : List Operation
requests = put_one keeper ∷ put_many (guest ∷ keeper ∷ []) ∷ delete_one guest.code ∷ []

managers_refine_example :
    (let (answers, near') = perform_all sqlite_access_manager requests shaky in
      Runs (shown shaky) requests answers (shown near'))
    × (let (answers, remote') = perform_all postgres_access_manager requests shaky_remote in
        Runs (shown shaky_remote) requests answers (shown remote'))
managers_refine_example = managers_refine requests shaky shaky_remote

after_put :
    (perform sqlite_access_manager
      (get_one keeper.code)
      (perform_all sqlite_access_manager (put_one keeper ∷ []) shaky).1).0
    ≡ found keeper
unfolding perform perform_all get_credential call put_credential select_credential find
    upsert_credential allowed string_eq upsert
after_put = refl

after_remote_put :
    (perform postgres_access_manager
      (get_one keeper.code)
      (perform_all postgres_access_manager (put_one keeper ∷ []) shaky_remote).1).0
    ≡ found keeper
unfolding perform perform_all Postgres.get_credential call Postgres.put_credential select_credential
    find upsert_credential allowed string_eq upsert
after_remote_put = refl

sqlite_access_manager-Put_example :
    (shown shaky keeper.code ≡ some keeper)
    ⊎ (Put keeper (put_one keeper ∷ []) × (keeper.code ≡ keeper.code))
sqlite_access_manager-Put_example =
    sqlite_access_manager-Put (put_one keeper ∷ []) shaky keeper.code keeper after_put

postgres_access_manager-Put_example :
    (shown shaky_remote keeper.code ≡ some keeper)
    ⊎ (Put keeper (put_one keeper ∷ []) × (keeper.code ≡ keeper.code))
postgres_access_manager-Put_example =
    postgres_access_manager-Put (put_one keeper ∷ []) shaky_remote keeper.code keeper
      after_remote_put
