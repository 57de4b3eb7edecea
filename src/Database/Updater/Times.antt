-- ===== src/Database/Updater/Times.antt =====
-- What an update notification leaves in the local database, access times included.
use pigate.Prelude.{
  ◌≡◌, refl, ap, ◌∙◌, true, Option, none, some, List, [], ◌∷◌, map, String, string_eq, ℤ, int_eq,
  arith, All, ok,
}
use mathlib.Core.Option.{or_else}
use pigate.Database.Models.{AccessTime}
use pigate.Database.Sql.{call, query}
use pigate.Database.Table.{find, NodupKeys, upsert, upsert_all}
use pigate.Database.Table.Laws.{latest, find-upsert_all}
use pigate.Database.Credentials.{Tables, code_of, allowed}
use pigate.Database.Credentials.Laws.{stored}
use pigate.Database.Credentials.Quiet.{calm}
use pigate.Database.Sqlite
use pigate.Database.Sqlite.{AccessRow, access_row, put_access_time}
use pigate.Database.Postgres
use pigate.Database.Postgres.{connect, init_schema, get_access_times}
use pigate.Database.Managers.{sqlite_access_manager as sqlite}
use pigate.Database.Updater.{put_each, sync_access_times, handle_update_notification}
use pigate.Database.Updater.Merge.{scan_quiet, sync_credentials_quiet, find-stored}

abbrev pub row_of : Option AccessTime → Option AccessRow
row_of none = none
row_of (some a) = some (access_row a)

latest-eq-row_of :
    (group : ℤ) (ats : List AccessTime) (old : Option AccessRow)
    → NodupKeys Postgres.group_of ats
    → latest Sqlite.group_of group (map access_row ats) old
      ≡ or_else (row_of (find Postgres.group_of group ats)) old
unfolding find or_else access_row
latest-eq-row_of group [] old u = refl
latest-eq-row_of group (a ∷ ats) old (fresh, u) =
    ground
      (arith, latest-eq-row_of group ats (some (access_row a)) u, latest-eq-row_of group ats old u)

abbrev pub timed : List AccessTime → Tables AccessRow → Tables AccessRow
timed ats t = record t {
  access_times = upsert_all Sqlite.group_of (map access_row ats) t.access_times;
}

put_each_quiet :
    (ats : List AccessTime) (t : Tables AccessRow)
    → put_each sqlite ats (calm t) ≡ calm (timed ats t)
unfolding put_each upsert_all put_access_time call
put_each_quiet [] t = refl
put_each_quiet (a ∷ ats) t =
    put_each_quiet ats
      (record t { access_times = upsert Sqlite.group_of (access_row a) t.access_times })

sync_access_times_quiet :
    (near : Tables AccessRow) (remote : Tables AccessTime)
    → sync_access_times sqlite (record { near = calm near; remote = calm remote })
      ≡ (ok tt, record { near = calm (timed remote.access_times near); remote = calm remote })
unfolding sync_access_times connect init_schema get_access_times query call
sync_access_times_quiet near remote =
    ground (arith, put_each_quiet remote.access_times near, scan_quiet remote.access_times)

pub handle_update_notification_quiet :
    (near : Tables AccessRow) (remote : Tables AccessTime) (topic message : String)
    → All (λ c. allowed c.open_mode ≡ true) remote.credentials
    → handle_update_notification sqlite topic message
        (record { near = calm near; remote = calm remote })
      ≡ record {
        near = calm (timed remote.access_times (stored remote.credentials near));
        remote = calm remote;
      }
unfolding handle_update_notification
handle_update_notification_quiet near remote topic message fits =
    ap (λ p. (sync_access_times sqlite p.1).1) (sync_credentials_quiet near remote fits)
    ∙ ap (λ p. p.1) (sync_access_times_quiet (stored remote.credentials near) remote)

-- With no failing call, and a remote database that meets its PRIMARY KEYs and its CHECK, the callback
-- of a notification leaves in the local database: under every code, the remote credential, or else
-- the local one that was there; under every group, the remote access time, or else the local one.
pub handle_update_notification_lem :
    (near : Tables AccessRow) (remote : Tables AccessTime) (topic message code : String) (group : ℤ)
    → NodupKeys code_of remote.credentials
    → All (λ c. allowed c.open_mode ≡ true) remote.credentials
    → NodupKeys Postgres.group_of remote.access_times
    → let s =
        handle_update_notification sqlite topic message
          (record { near = calm near; remote = calm remote }) in
      (find code_of code s.near.tables.credentials
        ≡ or_else (find code_of code remote.credentials) (find code_of code near.credentials))
      × (find Sqlite.group_of group s.near.tables.access_times
          ≡ or_else
              (row_of (find Postgres.group_of group remote.access_times))
              (find Sqlite.group_of group near.access_times))
handle_update_notification_lem near remote topic message code group u fits v =
    rw (handle_update_notification_quiet near remote topic message fits) (
      find-stored near remote code u,
      find-upsert_all Sqlite.group_of group (map access_row remote.access_times) near.access_times
          ∙ latest-eq-row_of group remote.access_times _ v,
    )
