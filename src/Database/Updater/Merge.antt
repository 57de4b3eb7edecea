-- ===== src/Database/Updater/Merge.antt =====
-- What a synchronisation leaves in the local database.
use pigate.Prelude.{
  ◌≡◌, refl, sym, ap, ◌∙◌, ◌⊎◌, inl, inr, Bool, true, false, Result-cases, append-nil, Option, some,
  List, [], ◌∷◌, ◌++◌, String, string_eq, arith, All, Error, ok, err,
}
use mathlib.Core.Option.{or_else}
use pigate.Database.Models.{Credential, AccessTime}
use pigate.Database.Sql.{call, request, in_transaction, query, scan}
use pigate.Database.Table.{find, NodupKeys}
use pigate.Database.Table.Laws.{latest, find-upsert_all}
use pigate.Database.Credentials.{Tables, code_of, allowed}
use pigate.Database.Credentials.Laws.{stored}
use pigate.Database.Credentials.Quiet.{calm, for_each_fit}
use pigate.Database.Sqlite.{AccessRow, put_credentials}
use pigate.Database.Sqlite.Batch.{put_credentials_atomic}
use pigate.Database.Postgres.{Remote, connect, init_schema, get_credentials}
use pigate.Database.Managers.{sqlite_access_manager as sqlite}
use pigate.Database.Updater.{Sides, sync_credentials}

pub scan_quiet :
    {V : Type 0} (vs : List V) → scan vs [] ≡ (record { read = vs; broken = false }, [])
unfolding scan
scan_quiet [] = refl
scan_quiet (v ∷ vs) = refl

-- The only row of a key is the last one.
pub latest-eq-or_else :
    (code : String) (rows : List Credential) (old : Option Credential)
    → NodupKeys code_of rows
    → latest code_of code rows old ≡ or_else (find code_of code rows) old
unfolding find or_else
latest-eq-or_else code [] old u = refl
latest-eq-or_else code (c ∷ rows) old (fresh, u) =
    ground (arith, latest-eq-or_else code rows (some c) u, latest-eq-or_else code rows old u)

put_credentials_quiet :
    (cs : List Credential) (t : Tables AccessRow)
    → All (λ c. allowed c.open_mode ≡ true) cs
    → put_credentials cs (calm t) ≡ (ok tt, calm (stored cs t))
unfolding put_credentials in_transaction call
put_credentials_quiet cs t fits = ground (arith, for_each_fit cs t fits)

pub sync_credentials_quiet :
    (near : Tables AccessRow) (remote : Tables AccessTime)
    → All (λ c. allowed c.open_mode ≡ true) remote.credentials
    → sync_credentials sqlite (record { near = calm near; remote = calm remote })
      ≡ (ok tt, record { near = calm (stored remote.credentials near); remote = calm remote })
unfolding sync_credentials connect init_schema get_credentials query call
sync_credentials_quiet near remote fits =
    ground
      (arith, put_credentials_quiet remote.credentials near fits, scan_quiet remote.credentials)

-- The remote credential of a code, or else the local one.
pub find-stored :
    (near : Tables AccessRow) (remote : Tables AccessTime) (code : String)
    → NodupKeys code_of remote.credentials
    → find code_of code (stored remote.credentials near).credentials
      ≡ or_else (find code_of code remote.credentials) (find code_of code near.credentials)
find-stored near remote code u =
    find-upsert_all code_of code remote.credentials near.credentials
    ∙ latest-eq-or_else code remote.credentials _ u

-- With no failing call, and a remote database that meets its PRIMARY KEY and its CHECK, after
-- `SyncCredentials` the local database has the remote credential of every code that has one, and
-- under every other code, one that was removed from the remote database included, the local
-- credential that it had before.
pub find-sync_credentials :
    (near : Tables AccessRow) (remote : Tables AccessTime) (code : String)
    → NodupKeys code_of remote.credentials
    → All (λ c. allowed c.open_mode ≡ true) remote.credentials
    → let (r, s) = sync_credentials sqlite (record { near = calm near; remote = calm remote }) in
      (r ≡ ok tt)
      × (find code_of code s.near.tables.credentials
          ≡ or_else (find code_of code remote.credentials) (find code_of code near.credentials))
find-sync_credentials near remote code u fits =
    rw (sync_credentials_quiet near remote fits) (refl, find-stored near remote code u)

-- The rows that a loop has read are the first ones of the table.
pub scan-prefix :
    {V : Type 0} (vs : List V) (faults : List Bool)
    → (rest : List V) × (vs ≡ (scan vs faults).0.read ++ rest)
unfolding scan
scan-prefix [] faults = ([], refl)
scan-prefix (v ∷ vs) [] = ([], sym (append-nil (v ∷ vs)))
scan-prefix (v ∷ vs) (true ∷ faults) = (v ∷ vs, refl)
scan-prefix (v ∷ vs) (false ∷ faults) =
    let (rest, same) = scan-prefix vs faults in (rest, ap (λ l. v ∷ l) same)

pub connect-tables : (db : Remote) → (connect db).1.tables ≡ db.tables
unfolding connect init_schema call
connect-tables db = ground arith

pub get_credentials-prefix :
    (db : Remote) {creds : List Credential}
    → (get_credentials db).0 ≡ ok creds
    → (rest : List Credential) × (db.tables.credentials ≡ creds ++ rest)
unfolding get_credentials query call
get_credentials-prefix db {creds} h =
    let faults = (request {T = Tables AccessTime} db).1.faults in
    let (rest, same) = scan-prefix db.tables.credentials faults in
    let read : (scan db.tables.credentials faults).0.read ≡ creds = ground arith in
    (rest, same ∙ ap (λ l. l ++ rest) read)

-- Either the local database is left alone and an error is returned, or the batch that was read is
-- put and its result dropped.
pub sync_credentials_cases :
    (s : Sides sqlite)
    → let (r, s') = sync_credentials sqlite s in
      let (read, _) = get_credentials (connect s.remote).1 in
      ((s'.near ≡ s.near) × ((e : Error) × (r ≡ err e)))
      ⊎ ((creds : List Credential) × (read ≡ ok creds)
          × (r ≡ ok tt)
          × (s'.near ≡ (put_credentials creds s.near).1))
unfolding sync_credentials
sync_credentials_cases s = elim (Result-cases (connect s.remote).0) [
  | inr (e, failed) ↦ inl (ground arith, (e, ground arith))
  | inl (unit, fine) ↦ elim (Result-cases (get_credentials (connect s.remote).1).0) [
    | inr (e, failed) ↦ inl (ground arith, (e, ground arith))
    | inl (creds, got) ↦ inr (creds, got, ground arith, ground arith)
  ]
]

-- Whatever calls fail, `SyncCredentials` leaves the rows of the local database as they were, or it
-- has stored the first rows of the remote table, in order, and returns no error.
pub sync_credentials_any :
    (s : Sides sqlite)
    → let (r, s') = sync_credentials sqlite s in
      (s'.near.tables ≡ s.near.tables)
      ⊎ ((creds rest : List Credential) × (s.remote.tables.credentials ≡ creds ++ rest)
          × (s'.near.tables ≡ stored creds s.near.tables)
          × (r ≡ ok tt))
sync_credentials_any s = elim (sync_credentials_cases s) [
  | inl (same, failed) ↦ inl (ap (λ d. d.tables) same)
  | inr (creds, got, fine, put) ↦
      let (rest, split) = get_credentials-prefix (connect s.remote).1 got in
      elim (put_credentials_atomic creds s.near) [
        | inr (e, bad, kept) ↦ inl (ap (λ d. d.tables) put ∙ kept)
        | inl (good, effect, fits) ↦ inr (
          creds,
          rest,
          ap (λ t. t.credentials) (sym (connect-tables s.remote)) ∙ split,
          ap (λ d. d.tables) put ∙ effect,
          fine,
        )
      ]
]
