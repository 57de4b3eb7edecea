-- ===== src/Parser/Sync/Effect.antt =====
-- What the remote database holds after a file was handled.
use pigate.Prelude.{
  ◌≡◌, refl, sym, ap, ◌∙◌, String, Bool, true, false, not, ◌&&◌, Option, none, some, List, [], ◌∷◌,
  arith, All, ok, string_eq, contains, if◌then◌else◌,
}
use mathlib.Core.Option.{or_else}
use pigate.Database.Models.{Credential, AccessTime}
use pigate.Database.Sql.{call, query}
use pigate.Database.Table.{
  find, upsert, find-upsert, upsert_all, delete_any, find-delete_any, NodupKeys,
}
use pigate.Database.Table.Laws.{find-upsert_all}
use pigate.Database.Credentials.{Tables, code_of, allowed}
use pigate.Database.Credentials.Laws.{stored, removed, removed-nil}
use pigate.Database.Credentials.Quiet.{calm, for_each_fit}
use pigate.Database.Postgres.{
  connect, init_schema, get_credentials, put_credentials, put_credential, delete_credentials,
}
use pigate.Database.Updater.Merge.{latest-eq-or_else, scan_quiet}
use pigate.Parser.Sync.{
  build_remote_map, build_file_map, codes_to_delete, delete_old, put_new, sync_file,
}

-- What of a row comes from the feed, and what does not.
abbrev pub automatic : Option Credential → Option Credential
automatic none = none
automatic (some c) = if c.auto_update then some c else none

abbrev pub manual : Option Credential → Option Credential
manual none = none
manual (some c) = if c.auto_update then none else some c

abbrev pub is_some : Option Credential → Bool
is_some none = false
is_some (some c) = true

find-build_remote_map :
    (k : String) (rows map : List Credential)
    → NodupKeys code_of rows
    → find code_of k (build_remote_map rows map)
      ≡ or_else (automatic (find code_of k rows)) (find code_of k map)
unfolding build_remote_map find or_else
find-build_remote_map k [] map u = refl
find-build_remote_map k (r ∷ rows) map (fresh, u) = ground (
  arith,
  find-build_remote_map k rows map u,
  find-build_remote_map k rows (upsert code_of r map) u,
  find-upsert code_of k r map,
)

pub contains-codes_to_delete :
    (k : String) (file_map remote_map : List Credential)
    → contains (codes_to_delete file_map remote_map) k
      ≡ (is_some (find code_of k remote_map) && not (is_some (find code_of k file_map)))
unfolding codes_to_delete find
contains-codes_to_delete k file_map [] = refl
contains-codes_to_delete k file_map (r ∷ remote_map) =
    ground (arith, contains-codes_to_delete k file_map remote_map)

delete_old_quiet :
    (codes : List String) (t : Tables AccessTime)
    → delete_old codes (calm t) ≡ (ok tt, calm (removed codes t))
unfolding delete_credentials call
delete_old_quiet [] t = ap (λ u. (ok tt, calm u)) (sym (removed-nil t))
delete_old_quiet (c ∷ codes) t = ground arith

put_new_quiet :
    (creds : List Credential) (t : Tables AccessTime)
    → All (λ c. allowed c.open_mode ≡ true) creds
    → put_new creds (calm t) ≡ (ok tt, calm (stored creds t))
unfolding put_credentials put_credential call
put_new_quiet [] t fits = unfold upsert_all in refl
put_new_quiet (c ∷ creds) t fits = ground (arith, for_each_fit (c ∷ creds) t fits)

abbrev pub old_codes : List Credential → Tables AccessTime → List String
old_codes creds t = codes_to_delete (build_file_map creds) (build_remote_map t.credentials [])

pub sync_file_quiet :
    (creds : List Credential) (t : Tables AccessTime)
    → All (λ c. allowed c.open_mode ≡ true) creds
    → sync_file creds (calm t) ≡ (ok tt, calm (stored creds (removed (old_codes creds t) t)))
unfolding sync_file connect init_schema get_credentials query call
sync_file_quiet creds t fits = ground (
  arith,
  scan_quiet t.credentials,
  delete_old_quiet (old_codes creds t) t,
  put_new_quiet creds (removed (old_codes creds t) t) fits,
)

pub contains-old_codes :
    (k : String) (creds : List Credential) (t : Tables AccessTime)
    → NodupKeys code_of creds
    → NodupKeys code_of t.credentials
    → contains (old_codes creds t) k
      ≡ (is_some (automatic (find code_of k t.credentials)) && not (is_some (find code_of k creds)))
unfolding build_file_map find or_else
contains-old_codes k creds t uc ut = ground (
  arith,
  contains-codes_to_delete k (build_file_map creds) (build_remote_map t.credentials []),
  find-build_remote_map k t.credentials [] ut,
  find-upsert_all code_of k creds [],
  latest-eq-or_else k creds none uc,
)

-- With no failing call, a remote database that meets its PRIMARY KEY, and credentials of a file
-- with no code twice and with open modes that the CHECK allows, the remote database has afterwards:
-- under every code of the file, the credential of the file; under every other code, the credential
-- that was there if it does not come from the feed, and none if it does.
pub find-sync_file :
    (creds : List Credential) (t : Tables AccessTime) (code : String)
    → NodupKeys code_of creds
    → All (λ c. allowed c.open_mode ≡ true) creds
    → NodupKeys code_of t.credentials
    → let (r, db) = sync_file creds (calm t) in
      (r ≡ ok tt)
      × (find code_of code db.tables.credentials
          ≡ or_else (find code_of code creds) (manual (find code_of code t.credentials)))
find-sync_file creds t code uc fits ut = rw (sync_file_quiet creds t fits) (
  refl,
  find-upsert_all code_of code creds (removed (old_codes creds t) t).credentials
      ∙ latest-eq-or_else code creds _ uc
      ∙ kept_or_deleted,
)
  where
    kept_or_deleted :
        or_else
          (find code_of code creds)
          (find code_of code (delete_any code_of (old_codes creds t) t.credentials))
        ≡ or_else (find code_of code creds) (manual (find code_of code t.credentials))
    kept_or_deleted =
        unfold or_else in
        ground (
          arith,
          find-delete_any code_of code (old_codes creds t) t.credentials,
          contains-old_codes code creds t uc ut,
        )
