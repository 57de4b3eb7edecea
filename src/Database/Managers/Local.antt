-- ===== src/Database/Managers/Local.antt =====
-- The local database keeps the contract of an `AccessManager`, whatever calls fail.
use pigate.Prelude.{
  ◌≡◌, ap, ◌∙◌, ◌⊎◌, inl, inr, String, none, some, List, [], ◌∷◌, ◌++◌, arith, service, no_rows, ok,
  err, Result-cases, Option-cases, string_eq,
}
use pigate.Database.Models.{Credential}
use pigate.Database.Sql.{call, request, query, scan}
use pigate.Database.Sql.Laws.{call_cases}
use pigate.Database.Table.{find}
use pigate.Database.Credentials.{code_of, select_credential}
use pigate.Database.Credentials.Laws.{insert_one_cases}
use pigate.Database.Sqlite
use pigate.Database.Sqlite.Batch.{put_credentials_atomic, delete_credentials_atomic}
use pigate.Database.Sqlite.Invariant.{get_credential-tables, get_credentials-tables}
use pigate.Database.Updater.Merge.{scan-prefix}
use pigate.Database.Managers.{sqlite_access_manager}
use pigate.Database.Managers.Registry.{
  Operation, put_one, put_many, get_one, get_all, delete_one, delete_many, told, told_one, told_all,
  puts, put_fails, puts_all, puts_some, finds, has_no_row, get_fails, get_all_fails, deletes_all,
  delete_all_fails, perform, Obeys, IsRegistry,
}
use pigate.Database.Managers.Views.{
  shown, map_of, map_of-stored, map_of-removed, becomes, service-ne-no_rows, some_rows,
  delete_cases,
}

abbrev pub LocalObeys : Operation → Sqlite.Local → Type 0
LocalObeys = Obeys sqlite_access_manager shown

local_put : (c : Credential) (s : Sqlite.Local) → LocalObeys (put_one c) s
unfolding perform Sqlite.put_credential
local_put c s = elim (insert_one_cases c s) [
  | inl (fine, fits, moved) ↦
      becomes (ap told fine) (ap map_of moved ∙ map_of-stored (c ∷ []) s.tables) (puts c)
  | inr (e, bad, kept) ↦ becomes (ap told bad) (ap map_of kept) (put_fails c e)
]

local_put_many : (creds : List Credential) (s : Sqlite.Local) → LocalObeys (put_many creds) s
unfolding perform
local_put_many creds s = elim (put_credentials_atomic creds s) [
  | inl (fine, moved, fits) ↦
      becomes (ap told fine) (ap map_of moved ∙ map_of-stored creds s.tables) (puts_all creds)
  | inr (e, bad, kept) ↦ becomes (ap told bad) (ap map_of kept) (puts_some [] creds e)
]

local_lookup :
    (code : String) (s : Sqlite.Local)
    → let r = (Sqlite.get_credential code s).0 in
      (r ≡ err service)
      ⊎ ((shown s code ≡ none) × (r ≡ err no_rows)
          ⊎ ((c : Credential) × (shown s code ≡ some c) × (r ≡ ok (some c))))
unfolding Sqlite.get_credential select_credential
local_lookup code s = elim (call_cases (select_credential code) s) [
  | inl (bad, kept) ↦ inl (ground arith)
  | inr (fine, kept) ↦ elim (Option-cases (find code_of code s.tables.credentials)) [
    | inl missing ↦ inr (inl (missing, ground arith))
    | inr (c, there) ↦ inr (inr (c, there, ground arith))
  ]
]

local_get : (code : String) (s : Sqlite.Local) → LocalObeys (get_one code) s
unfolding perform
local_get code s =
    let same : shown (Sqlite.get_credential code s).1 ≡ shown s =
      ap map_of (get_credential-tables code s) in
    elim (local_lookup code s) [
      | inl bad ↦ becomes (ap told_one bad) same (get_fails code service service-ne-no_rows)
      | inr (inl (missing, r)) ↦ becomes (ap told_one r) same (has_no_row code missing)
      | inr (inr (c, there, r)) ↦ becomes (ap told_one r) same (finds code c there)
    ]

local_rows :
    (s : Sqlite.Local) (creds : List Credential)
    → (Sqlite.get_credentials s).0 ≡ ok creds
    → (rest : List Credential) × (s.tables.credentials ≡ creds ++ rest)
unfolding Sqlite.get_credentials query call
local_rows s creds h =
    let faults = (request s).1.faults in
    let (rest, same) = scan-prefix s.tables.credentials faults in
    let read : (scan s.tables.credentials faults).0.read ≡ creds = ground arith in
    (rest, same ∙ ap (λ l. l ++ rest) read)

local_get_all : (s : Sqlite.Local) → LocalObeys get_all s
unfolding perform
local_get_all s =
    let same : shown (Sqlite.get_credentials s).1 ≡ shown s =
      ap map_of (get_credentials-tables s) in
    elim (Result-cases (Sqlite.get_credentials s).0) [
      | inr (e, bad) ↦ becomes (ap told_all bad) same (get_all_fails e)
      | inl (creds, fine) ↦
          let (rest, split) = local_rows s creds fine in
          becomes (ap told_all fine) same (some_rows s.tables creds rest split)
    ]

local_delete_many : (codes : List String) (s : Sqlite.Local) → LocalObeys (delete_many codes) s
unfolding perform
local_delete_many codes s = elim (delete_credentials_atomic codes s) [
  | inl (fine, moved) ↦
      becomes (ap told fine) (ap map_of moved ∙ map_of-removed codes s.tables) (deletes_all codes)
  | inr (e, bad, kept) ↦ becomes (ap told bad) (ap map_of kept) (delete_all_fails codes e)
]

pub local_does : (op : Operation) (s : Sqlite.Local) → LocalObeys op s
unfolding perform Sqlite.remove_credential
local_does (put_one c) s = local_put c s
local_does (put_many creds) s = local_put_many creds s
local_does (get_one code) s = local_get code s
local_does get_all s = local_get_all s
local_does (delete_one code) s = delete_cases code s
local_does (delete_many codes) s = local_delete_many codes s

abbrev pub sqlite-IsRegistry : IsRegistry sqlite_access_manager
sqlite-IsRegistry = record { view = shown; does = local_does }
