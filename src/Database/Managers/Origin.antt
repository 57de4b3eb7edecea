-- ===== src/Database/Managers/Origin.antt =====
-- A client of the contract: where the credentials of a manager come from.
use pigate.Prelude.{
  ◌≡◌, subst, ◌⊎◌, inl, inr, String, Bool-cases, Option, some, List, [], ◌∷◌, ◌++◌, arith,
  string_eq, ◌==◌, if◌then◌else◌,
}
use pigate.Database.Models.{Credential}
use pigate.Database.Table.Laws.{latest}
use pigate.Database.Credentials.{code_of}
use pigate.Database.Sqlite
use pigate.Database.Postgres
use pigate.Database.Managers.{AccessManager, sqlite_access_manager, postgres_access_manager}
use pigate.Database.Managers.Views.{shown}
use pigate.Database.Managers.Local.{sqlite-IsRegistry}
use pigate.Database.Managers.Remote.{postgres-IsRegistry}
use pigate.Database.Managers.Registry.{
  CodeMap, Operation, put_one, put_many, get_one, Answer, found, Does, puts, put_fails, puts_all,
  puts_some, finds, misses, has_no_row, get_fails, lists, get_all_fails, deletes, delete_fails,
  deletes_all, delete_all_fails, perform, perform_all, IsRegistry, Runs, ends, goes_on,
  perform_all-Runs,
}

abbrev pub Among : Credential → List Credential → Type 0
Among c [] = ⊥
Among c (x ∷ xs) = (x ≡ c) ⊎ Among c xs

Among-append : (c : Credential) (xs ys : List Credential) → Among c xs → Among c (xs ++ ys)
Among-append c [] ys h = absurd h
Among-append c (x ∷ xs) ys (inl same) = inl same
Among-append c (x ∷ xs) ys (inr later) = inr (Among-append c xs ys later)

-- The credentials that an operation puts.
abbrev pub puts_of : Operation → List Credential
puts_of (put_one c) = c ∷ []
puts_of (put_many creds) = creds
puts_of op = []

abbrev pub Put : Credential → List Operation → Type 0
Put c [] = ⊥
Put c (op ∷ ops) = Among c (puts_of op) ⊎ Put c ops

latest_origin :
    (k : String) (c : Credential) (creds : List Credential) (old : Option Credential)
    → latest code_of k creds old ≡ some c
    → (old ≡ some c) ⊎ (Among c creds × (c.code ≡ k))
latest_origin k c [] old h = inl h
latest_origin k c (v ∷ vs) old h =
    elim (latest_origin k c vs (if v.code == k then some v else old) h) [
      | inl first ↦ elim (Bool-cases (v.code == k)) [
        | inl hit ↦ ground arith
        | inr miss ↦ inl (rw miss at first)
      ]
      | inr (later, same) ↦ inr (inr later, same)
    ]

module _ (k : String) (c : Credential) where
  Does-origin :
      {m u : CodeMap} {op : Operation} {a : Answer}
      → Does m op a u
      → u k ≡ some c
      → (m k ≡ some c) ⊎ (Among c (puts_of op) × (c.code ≡ k))
  Does-origin {m = m} (puts d) h = latest_origin k c (d ∷ []) (m k) h
  Does-origin (put_fails d e) h = inl h
  Does-origin {m = m} (puts_all creds) h = latest_origin k c creds (m k) h
  Does-origin {m = m} (puts_some creds rest e) h = elim (latest_origin k c creds (m k) h) [
    | inl before ↦ inl before
    | inr (here, same) ↦ inr (Among-append c creds rest here, same)
  ]
  Does-origin (finds code d q) h = inl h
  Does-origin (misses code q) h = inl h
  Does-origin (has_no_row code q) h = inl h
  Does-origin (get_fails code e n) h = inl h
  Does-origin (lists rows q) h = inl h
  Does-origin (get_all_fails e) h = inl h
  Does-origin (deletes code) h = inl (ground arith)
  Does-origin (delete_fails code e) h = inl h
  Does-origin {m = m} (deletes_all codes) h = inl (ground arith)
  Does-origin (delete_all_fails codes e) h = inl h

  Runs-origin :
      {m u : CodeMap} {ops : List Operation} {answers : List Answer}
      → Runs m ops answers u
      → u k ≡ some c
      → (m k ≡ some c) ⊎ (Put c ops × (c.code ≡ k))
  Runs-origin ends h = inl h
  Runs-origin (goes_on d later) h = elim (Runs-origin later h) [
    | inr (put, same) ↦ inr (inr put, same)
    | inl before ↦ elim (Does-origin d before) [
      | inl earlier ↦ inl earlier
      | inr (put, same) ↦ inr (inl put, same)
    ]
  ]

Does-found :
    {m u : CodeMap} {code : String} {c : Credential}
    → Does m (get_one code) (found c) u
    → m code ≡ some c
Does-found (finds code c q) = q

module _ (manager : AccessManager) (r : IsRegistry manager) where
  perform_all-origin :
      (ops : List Operation) (s : manager.State) (code : String) (c : Credential)
      → let s' = (perform_all manager ops s).1 in
        (perform manager (get_one code) s').0 ≡ found c
        → (r.view s code ≡ some c) ⊎ (Put c ops × (c.code ≡ code))
  perform_all-origin ops s code c h =
      let s' = (perform_all manager ops s).1 in
      let u = r.view (perform manager (get_one code) s').1 in
      let there : r.view s' code ≡ some c =
        Does-found
          (subst (λ a. Does (r.view s') (get_one code) a u) h (r.does (get_one code) s')) in
      Runs-origin code c (perform_all-Runs manager r ops s) there

-- What the local database finds under a code, after any operations on its credentials and whatever
-- failed in them, it had under that code before, or one of them has put it and it has that code.
pub sqlite_access_manager-Put :
    (ops : List Operation) (near : Sqlite.Local) (code : String) (c : Credential)
    → let near' = (perform_all sqlite_access_manager ops near).1 in
      (perform sqlite_access_manager (get_one code) near').0 ≡ found c
      → (shown near code ≡ some c) ⊎ (Put c ops × (c.code ≡ code))
sqlite_access_manager-Put = perform_all-origin sqlite_access_manager sqlite-IsRegistry

-- What the remote database finds under a code, after any operations on its credentials and whatever
-- failed in them, it had under that code before, or one of them has put it and it has that code.
pub postgres_access_manager-Put :
    (ops : List Operation) (remote : Postgres.Remote) (code : String) (c : Credential)
    → let remote' = (perform_all postgres_access_manager ops remote).1 in
      (perform postgres_access_manager (get_one code) remote').0 ≡ found c
      → (shown remote code ≡ some c) ⊎ (Put c ops × (c.code ≡ code))
postgres_access_manager-Put = perform_all-origin postgres_access_manager postgres-IsRegistry
