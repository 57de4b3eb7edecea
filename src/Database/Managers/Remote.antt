-- ===== src/Database/Managers/Remote.antt =====
-- The remote database keeps the contract of an `AccessManager`, whatever calls fail.
use pigate.Prelude.{
  ◌≡◌, sym, ap, subst, append-nil, ◌∙◌, inl, inr, String, List, [], ◌∷◌, ◌++◌, arith, service, ok,
  Result-cases, Option-cases, string_eq,
}
use pigate.Database.Models.{Credential}
use pigate.Database.Sql.{query}
use pigate.Database.Sql.Laws.{call_cases}
use pigate.Database.Table.{find}
use pigate.Database.Credentials.{code_of, select_credential}
use pigate.Database.Credentials.Laws.{insert_one_cases}
use pigate.Database.Postgres
use pigate.Database.Postgres.Batch.{put_credentials-Stored, delete_credentials_lem}
use pigate.Database.Updater.Merge.{get_credentials-prefix}
use pigate.Database.Managers.{postgres_access_manager}
use pigate.Database.Managers.Registry.{
  with_all, Operation, put_one, put_many, get_one, get_all, delete_one, delete_many, failed, told,
  told_one, told_all, Does, puts, put_fails, puts_all, puts_some, finds, misses, get_fails,
  get_all_fails, deletes_all, delete_all_fails, perform, Obeys, IsRegistry,
}
use pigate.Database.Managers.Views.{
  shown, map_of, map_of-stored, map_of-removed, becomes, service-ne-no_rows, some_rows,
  delete_cases,
}

abbrev pub RemoteObeys : Operation → Postgres.Remote → Type 0
RemoteObeys = Obeys postgres_access_manager shown

remote_put : (c : Credential) (s : Postgres.Remote) → RemoteObeys (put_one c) s
unfolding perform Postgres.put_credential
remote_put c s = elim (insert_one_cases c s) [
  | inl (fine, fits, moved) ↦
      becomes (ap told fine) (ap map_of moved ∙ map_of-stored (c ∷ []) s.tables) (puts c)
  | inr (e, bad, kept) ↦ becomes (ap told bad) (ap map_of kept) (put_fails c e)
]

-- A batch of the remote database that fails has stored its first credentials.
remote_put_many : (creds : List Credential) (s : Postgres.Remote) → RemoteObeys (put_many creds) s
unfolding perform
remote_put_many creds s =
    let st = put_credentials-Stored creds s in
    let moved = ap map_of st.effect ∙ map_of-stored st.done s.tables in
    elim (Result-cases (Postgres.put_credentials creds s).0) [
      | inl (unit, fine) ↦
          let whole = st.split ∙ ap (λ l. st.done ++ l) (st.complete fine) ∙ append-nil st.done in
          becomes (ap told fine) (moved ∙ ap (λ l. with_all l (shown s)) (sym whole))
            (puts_all creds)
      | inr (e, bad) ↦ becomes (ap told bad) moved (
          subst (λ l. Does (shown s) (put_many l) (failed e) (with_all st.done (shown s)))
            (sym st.split) (puts_some st.done st.rest e))
    ]

remote_get : (code : String) (s : Postgres.Remote) → RemoteObeys (get_one code) s
unfolding perform Postgres.get_credential select_credential
remote_get code s = elim (call_cases (select_credential code) s) [
  | inl (bad, kept) ↦
      becomes (ap told_one bad) (ap map_of kept) (get_fails code service service-ne-no_rows)
  | inr (fine, kept) ↦ elim (Option-cases (find code_of code s.tables.credentials)) [
    | inl missing ↦
        becomes (ap told_one (fine ∙ ap ok missing)) (ap map_of kept) (misses code missing)
    | inr (c, there) ↦
        becomes (ap told_one (fine ∙ ap ok there)) (ap map_of kept) (finds code c there)
  ]
]

remote_kept : (s : Postgres.Remote) → (Postgres.get_credentials s).1.tables ≡ s.tables
unfolding Postgres.get_credentials query
remote_kept s = ground arith

remote_get_all : (s : Postgres.Remote) → RemoteObeys get_all s
unfolding perform
remote_get_all s =
    let same : shown (Postgres.get_credentials s).1 ≡ shown s = ap map_of (remote_kept s) in
    elim (Result-cases (Postgres.get_credentials s).0) [
      | inr (e, bad) ↦ becomes (ap told_all bad) same (get_all_fails e)
      | inl (creds, fine) ↦
          let (rest, split) = get_credentials-prefix s fine in
          becomes (ap told_all fine) same (some_rows s.tables creds rest split)
    ]

remote_delete_many : (codes : List String) (s : Postgres.Remote) → RemoteObeys (delete_many codes) s
unfolding perform
remote_delete_many codes s = elim (delete_credentials_lem codes s) [
  | inl (fine, moved) ↦
      becomes (ap told fine) (ap map_of moved ∙ map_of-removed codes s.tables) (deletes_all codes)
  | inr (e, bad, kept) ↦ becomes (ap told bad) (ap map_of kept) (delete_all_fails codes e)
]

pub remote_does : (op : Operation) (s : Postgres.Remote) → RemoteObeys op s
unfolding perform Postgres.remove_credential
remote_does (put_one c) s = remote_put c s
remote_does (put_many creds) s = remote_put_many creds s
remote_does (get_one code) s = remote_get code s
remote_does get_all s = remote_get_all s
remote_does (delete_one code) s = delete_cases code s
remote_does (delete_many codes) s = remote_delete_many codes s

abbrev pub postgres-IsRegistry : IsRegistry postgres_access_manager
postgres-IsRegistry = record { view = shown; does = remote_does }
