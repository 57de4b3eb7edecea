-- ===== src/Database/Sqlite/Invariant.antt =====
-- What holds of the local database after any requests.
use pigate.Prelude.{
  ◌≡◌, inl, inr, true, some, List, [], ◌∷◌, String, string_eq, ℤ, int_eq, arith, All, ok, subst,
  sym,
}
use pigate.Database.Models.{Credential, AccessTime}
use pigate.Database.Sql.{call, query}
use pigate.Database.Sql.Laws.{call_keeps}
use pigate.Database.Table.{
  NodupKeys, upsert-NodupKeys, delete-NodupKeys, delete_any-NodupKeys, upsert_all-NodupKeys,
}
use pigate.Database.Table.Laws.{All-upsert, All-upsert_all, All-delete, All-delete_any}
use pigate.Database.Credentials.{Tables, code_of, allowed, delete_credential, select_credential}
use pigate.Database.Credentials.Laws.{stored, removed, insert_one_cases}
use pigate.Database.Sqlite.{
  AccessRow, Local, group_of, access_row, access_time, put_credential, put_credentials,
  get_credential, get_credentials, remove_credential, delete_credentials, put_access_time,
  get_access_time, delete_access_time,
}
use pigate.Database.Sqlite.Batch.{put_credentials_atomic, delete_credentials_atomic}
use pigate.Database.Sqlite.AccessTimes.{HasValidTimes, undated, access_time-access_row}

-- Both texts of a row parse.
abbrev pub Reads : AccessRow → Type 0
Reads r = (a : AccessTime) × (access_time (some r) ≡ ok (some a))

pub record IsValid (t : Tables AccessRow) : Type 0 where
  pub codes : NodupKeys code_of t.credentials
  pub modes : All (λ c. allowed c.open_mode ≡ true) t.credentials
  pub groups : NodupKeys group_of t.access_times
  pub times : All Reads t.access_times

-- The methods of the interface `AccessManager`, with their arguments.
pub data Request : Type 0 where
  put_one : Credential → Request
  put_many : List Credential → Request
  get_one : String → Request
  get_all : Request
  delete_one : String → Request
  delete_many : List String → Request
  put_time : AccessTime → Request
  get_time : ℤ → Request
  delete_time : ℤ → Request

unfoldable pub perform : Request → Local → Local
perform (put_one c) db = (put_credential c db).1
perform (put_many cs) db = (put_credentials cs db).1
perform (get_one code) db = (get_credential code db).1
perform get_all db = (get_credentials db).1
perform (delete_one code) db = (remove_credential code db).1
perform (delete_many codes) db = (delete_credentials codes db).1
perform (put_time a) db = (put_access_time a db).1
perform (get_time group) db = (get_access_time group db).1
perform (delete_time group) db = (delete_access_time group db).1

-- The times that a request carries are times of Go.
abbrev pub IsWellTimed : Request → Type 0
IsWellTimed (put_time a) = HasValidTimes a
IsWellTimed _ = Unit

stored-IsValid :
    (cs : List Credential) (t : Tables AccessRow)
    → All (λ c. allowed c.open_mode ≡ true) cs
    → IsValid t
    → IsValid (stored cs t)
stored-IsValid cs t fits v = record {
  codes = upsert_all-NodupKeys code_of cs t.credentials v.codes;
  modes = All-upsert_all code_of (λ c. allowed c.open_mode ≡ true) cs t.credentials fits v.modes;
  groups = v.groups;
  times = v.times;
}

removed-IsValid :
    (codes : List String) (t : Tables AccessRow) → IsValid t → IsValid (removed codes t)
removed-IsValid codes t v = record {
  codes = delete_any-NodupKeys code_of codes t.credentials v.codes;
  modes = All-delete_any code_of (λ c. allowed c.open_mode ≡ true) codes t.credentials v.modes;
  groups = v.groups;
  times = v.times;
}

pub get_credential-tables :
    (code : String) (db : Local) → (get_credential code db).1.tables ≡ db.tables
unfolding get_credential select_credential call
get_credential-tables code db = ground arith

pub get_credentials-tables : (db : Local) → (get_credentials db).1.tables ≡ db.tables
unfolding get_credentials query
get_credentials-tables db = ground arith

pub get_access_time-tables :
    (group : ℤ) (db : Local) → (get_access_time group db).1.tables ≡ db.tables
unfolding get_access_time call
get_access_time-tables group db = ground arith

-- Every request, whatever calls fail in it, keeps the local database valid: no code and no group
-- twice, only the two open modes, and only texts that read back as times.
pub perform-IsValid :
    (q : Request) (db : Local) → IsWellTimed q → IsValid db.tables → IsValid (perform q db).tables
unfolding perform put_credential remove_credential put_access_time delete_access_time
perform-IsValid (put_one c) db w v = elim (insert_one_cases c db) [
  | inl (fine, fits, effect) ↦
      subst IsValid (sym effect) (stored-IsValid (c ∷ []) db.tables (fits, tt) v)
  | inr (e, failed, kept) ↦ subst IsValid (sym kept) v
]
perform-IsValid (put_many cs) db w v = elim (put_credentials_atomic cs db) [
  | inl (fine, effect, fits) ↦ subst IsValid (sym effect) (stored-IsValid cs db.tables fits v)
  | inr (e, failed, kept) ↦ subst IsValid (sym kept) v
]
perform-IsValid (get_one code) db w v = subst IsValid (sym (get_credential-tables code db)) v
perform-IsValid get_all db w v = subst IsValid (sym (get_credentials-tables db)) v
perform-IsValid (delete_one code) db w v = call_keeps IsValid (delete_credential code) db v (
    unfold delete_credential in
    record {
      codes = delete-NodupKeys code_of code db.tables.credentials v.codes;
      modes =
          All-delete code_of (λ c. allowed c.open_mode ≡ true) code db.tables.credentials v.modes;
      groups = v.groups;
      times = v.times;
    })
perform-IsValid (delete_many codes) db w v = elim (delete_credentials_atomic codes db) [
  | inl (fine, effect) ↦ subst IsValid (sym effect) (removed-IsValid codes db.tables v)
  | inr (e, failed, kept) ↦ subst IsValid (sym kept) v
]
perform-IsValid (put_time a) db w v = call_keeps IsValid _ db v (record {
  codes = v.codes;
  modes = v.modes;
  groups = upsert-NodupKeys group_of (access_row a) db.tables.access_times v.groups;
  times =
      All-upsert group_of Reads (access_row a) db.tables.access_times
        (undated a, access_time-access_row a w) v.times;
})
perform-IsValid (get_time group) db w v = subst IsValid (sym (get_access_time-tables group db)) v
perform-IsValid (delete_time group) db w v = call_keeps IsValid _ db v (record {
  codes = v.codes;
  modes = v.modes;
  groups = delete-NodupKeys group_of group db.tables.access_times v.groups;
  times = All-delete group_of Reads group db.tables.access_times v.times;
})
