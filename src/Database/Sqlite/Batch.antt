-- ===== src/Database/Sqlite/Batch.antt =====
-- The batches of the local database are all or nothing.
use pigate.Prelude.{
  ◌≡◌, refl, sym, ap, ◌∙◌, ◌⊎◌, inl, inr, true, List, [], ◌∷◌, String, arith, All, Error, service,
  ok, err, M, ◌>>◌, string_eq, Result-cases,
}
use pigate.Database.Models.{Credential}
use pigate.Database.Sql.{Db, call, request, for_each}
use pigate.Database.Sql.Laws.{
  in_transaction-eq-err, in_transaction-eq-ok, call_cases, for_each_step, for_each_stop,
}
use pigate.Database.Table.{delete_all, delete_all-eq-delete_any}
use pigate.Database.Credentials.{Tables, code_of, allowed, delete_credential}
use pigate.Database.Credentials.Laws.{
  stored, insert_one, for_each-Stored, Stored-whole, removed, removed-nil,
}
use pigate.Database.Sqlite.{AccessRow, Local, put_credentials, delete_credentials}

-- A call that succeeded first, and what follows it.
after_request :
    {T A : Type 0} (k : M (Db T) A) (db : Db T) {a : A}
    → ((do request; k) db).0 ≡ ok a
    → (s : Db T) × (s.tables ≡ db.tables) × ((k s).0 ≡ ok a) × (((do request; k) db).1 ≡ (k s).1)
unfolding call
after_request k db h = ((request db).1, ground arith, ground arith, ground arith)

-- `PutCredentials` of the local database either returns no error, has stored every credential of
-- the batch in order, and each had one of the two open modes; or it returns an error and the
-- tables are as they were.
pub put_credentials_atomic :
    (creds : List Credential) (db : Local)
    → let (r, db') = put_credentials creds db in
      ((r ≡ ok tt)
        × (db'.tables ≡ stored creds db.tables)
        × All (λ c. allowed c.open_mode ≡ true) creds)
      ⊎ ((e : Error) × (r ≡ err e) × (db'.tables ≡ db.tables))
unfolding put_credentials
put_credentials_atomic creds db = elim (Result-cases (put_credentials creds db).0) [
  | inr (e, failed) ↦ inr (e, failed, in_transaction-eq-err _ db failed)
  | inl (unit, fine) ↦
      let (s, same, did, effect) = in_transaction-eq-ok _ db fine in
      let (u, same', did', effect') = after_request (for_each insert_one creds) s did in
      let (kept, fits) = Stored-whole creds _ _ _ (for_each-Stored creds u) did' in
      inl
        (fine, effect ∙ ap (λ d. d.tables) effect' ∙ kept ∙ ap (stored creds) (same' ∙ same), fits)
]

abbrev deleted : List String → Tables AccessRow → Tables AccessRow
deleted codes t = record t { credentials = delete_all code_of codes t.credentials }

deleted-eq-removed :
    (codes : List String) (t : Tables AccessRow) → deleted codes t ≡ removed codes t
deleted-eq-removed codes t i = record t {
  credentials = delete_all-eq-delete_any code_of codes t.credentials i;
}

abbrev delete_one : String → M Local (Unit {0})
delete_one c = call (delete_credential c)

for_each-delete :
    (codes : List String) (db : Local)
    → (for_each delete_one codes db).0 ≡ ok tt
    → (for_each delete_one codes db).1.tables ≡ deleted codes db.tables
unfolding delete_all
for_each-delete [] db h = unfold for_each in refl
for_each-delete (c ∷ codes) db h = elim (call_cases (delete_credential c) db) [
  | inl (failed, kept) ↦ absurd (cc (for_each_stop delete_one c codes db service failed, h))
  | inr (fine, moved) ↦
      let first : (delete_one c db).0 ≡ ok tt = fine ∙ unfold delete_credential in refl in
      let step = for_each_step delete_one c codes db first in
      rw step (
        for_each-delete codes (delete_one c db).1 (rw step at h)
        ∙ ap (deleted codes) (moved ∙ unfold delete_credential in refl))
]

-- `DeleteCredentials` of the local database either returns no error and has removed exactly the
-- rows of the listed codes; or it returns an error and the tables are as they were.
pub delete_credentials_atomic :
    (codes : List String) (db : Local)
    → let (r, db') = delete_credentials codes db in
      ((r ≡ ok tt) × (db'.tables ≡ removed codes db.tables))
      ⊎ ((e : Error) × (r ≡ err e) × (db'.tables ≡ db.tables))
unfolding delete_credentials
delete_credentials_atomic [] db = inl (refl, sym (removed-nil db.tables))
delete_credentials_atomic (c ∷ codes) db =
    elim (Result-cases (delete_credentials (c ∷ codes) db).0) [
      | inr (e, failed) ↦ inr (e, failed, in_transaction-eq-err _ db failed)
      | inl (unit, fine) ↦
          let (s, same, did, effect) = in_transaction-eq-ok _ db fine in
          let (u, same', did', effect') = after_request (for_each delete_one (c ∷ codes)) s did in
          inl (
            fine,
            effect
                ∙ ap (λ d. d.tables) effect'
                ∙ for_each-delete (c ∷ codes) u did'
                ∙ ap (deleted (c ∷ codes)) (same' ∙ same)
                ∙ deleted-eq-removed (c ∷ codes) db.tables,
          )
    ]
