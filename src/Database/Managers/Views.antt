-- ===== src/Database/Managers/Views.antt =====
-- The credentials of a database as a map from codes, and what the statements do to it.
use pigate.Prelude.{
  ◌≡◌, ap, ◌∙◌, ◌≢◌, inl, inr, fun_ext, String, some, List, [], ◌∷◌, ◌++◌, arith, service, no_rows,
  string_eq,
}
use pigate.Database.Models.{Credential}
use pigate.Database.Sql.{Db, call}
use pigate.Database.Sql.Laws.{call_cases}
use pigate.Database.Table.{find, find-delete, find-delete_any}
use pigate.Database.Table.Laws.{find-upsert_all}
use pigate.Database.Credentials.{Tables, code_of, delete_credential}
use pigate.Database.Credentials.Laws.{stored, removed}
use pigate.Database.Managers.Registry.{
  CodeMap, with_all, without, Operation, get_all, delete_one, Answer, listed, told, Does, lists,
  deletes, delete_fails,
}

module _ {R : Type 0} where
  abbrev pub shown : Db (Tables R) → CodeMap
  shown db k = find code_of k db.tables.credentials

  abbrev pub map_of : Tables R → CodeMap
  map_of t k = find code_of k t.credentials

  pub map_of-stored :
      (creds : List Credential) (t : Tables R) → map_of (stored creds t) ≡ with_all creds (map_of t)
  map_of-stored creds t = fun_ext (λ k. find-upsert_all code_of k creds t.credentials)

  pub map_of-removed :
      (codes : List String) (t : Tables R) → map_of (removed codes t) ≡ without codes (map_of t)
  map_of-removed codes t = fun_ext (λ k. find-delete_any code_of k codes t.credentials)

  map_of-delete :
      (code : String) (t : Tables R)
      → map_of (delete_credential code t).1 ≡ without (code ∷ []) (map_of t)
  unfolding delete_credential
  map_of-delete code t = fun_ext (λ k. find-delete code_of k code t.credentials ∙ ground (arith))

-- The answer and the map are those of another step.
pub becomes :
    {m u u' : CodeMap} {op : Operation} {a a' : Answer}
    → a' ≡ a
    → u' ≡ u
    → Does m op a u
    → Does m op a' u'
becomes p q d = rw (p, q) d

find-append :
    (k : String) (c : Credential) (rows rest : List Credential)
    → find code_of k rows ≡ some c
    → find code_of k (rows ++ rest) ≡ some c
unfolding find
find-append k c [] rest h = absurd (cc)
find-append k c (r ∷ rows) rest h = ground (arith, find-append k c rows rest)

pub service-ne-no_rows : service ≢ no_rows
service-ne-no_rows h = absurd (cc)

-- The first rows of a table.
pub some_rows :
    {R : Type 0} (t : Tables R) (creds rest : List Credential)
    → t.credentials ≡ creds ++ rest
    → Does (map_of t) get_all (listed creds) (map_of t)
some_rows t creds rest split =
    lists creds (λ k c h. ap (find code_of k) split ∙ find-append k c creds rest h)

-- `DeleteCredential` of either engine.
pub delete_cases :
    {R : Type 0} (code : String) (db : Db (Tables R))
    → let (r, db') = call (delete_credential code) db in
      Does (shown db) (delete_one code) (told r) (shown db')
unfolding delete_credential
delete_cases code db = elim (call_cases (delete_credential code) db) [
  | inl (bad, kept) ↦ becomes (ap told bad) (ap map_of kept) (delete_fails code service)
  | inr (fine, moved) ↦
      becomes (ap told fine) (ap map_of moved ∙ map_of-delete code db.tables) (deletes code)
]
