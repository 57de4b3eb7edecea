-- ===== src/Database/Updater/Validity.antt =====
-- An update against the invariant of the local database, whatever calls fail.
use pigate.Prelude.{
  ◌≡◌, sym, ap, ◌∙◌, ◌⊎◌, inl, inr, subst, Result-cases, List, [], ◌∷◌, ◌++◌, arith, All, ok,
}
use pigate.Database.Models.{AccessTime}
use pigate.Database.Sql.{call, request, query, scan}
use pigate.Database.Credentials.{Tables}
use pigate.Database.Sqlite.AccessTimes.{HasValidTimes}
use pigate.Database.Sqlite.Invariant.{IsValid, perform, put_many, put_time, perform-IsValid}
use pigate.Database.Postgres.{Remote, connect, get_credentials, get_access_times}
use pigate.Database.Managers.{sqlite_access_manager as sqlite}
use pigate.Database.Updater.{Sides, sync_credentials, sync_access_times, put_each}
use pigate.Database.Updater.Merge.{connect-tables, scan-prefix, sync_credentials_cases}

-- What an update needs and keeps.
pub record AreValid (s : Sides sqlite) : Type 0 where
  pub near_valid : IsValid s.near.tables
  pub times_valid : All HasValidTimes s.remote.tables.access_times

get_credentials-tables : (db : Remote) → (get_credentials db).1.tables ≡ db.tables
unfolding get_credentials query call
get_credentials-tables db = ground arith

get_access_times-tables : (db : Remote) → (get_access_times db).1.tables ≡ db.tables
unfolding get_access_times query call
get_access_times-tables db = ground arith

sync_credentials-tables :
    (s : Sides sqlite) → (sync_credentials sqlite s).1.remote.tables ≡ s.remote.tables
unfolding sync_credentials
sync_credentials-tables s =
    let first = connect-tables s.remote in
    let second = get_credentials-tables (connect s.remote).1 in ground (arith, first, second)

sync_access_times-tables :
    (s : Sides sqlite) → (sync_access_times sqlite s).1.remote.tables ≡ s.remote.tables
unfolding sync_access_times
sync_access_times-tables s =
    let first = connect-tables s.remote in
    let second = get_access_times-tables (connect s.remote).1 in ground (arith, first, second)

sync_credentials-AreValid : (s : Sides sqlite) → AreValid s → AreValid (sync_credentials sqlite s).1
sync_credentials-AreValid s v = record {
  near_valid = elim (sync_credentials_cases s) [
    | inl (same, failed) ↦ subst (λ d. IsValid d.tables) (sym same) v.near_valid
    | inr (creds, got, fine, put) ↦
        subst (λ d. IsValid d.tables) (sym put)
          (unfold perform in perform-IsValid (put_many creds) s.near tt v.near_valid)
  ];
  times_valid =
      subst (λ t. All HasValidTimes t.access_times) (sym (sync_credentials-tables s)) v.times_valid;
}

All_prefix : (P : AccessTime → Type 0) (xs ys : List AccessTime) → All P (xs ++ ys) → All P xs
All_prefix P [] ys h = tt
All_prefix P (x ∷ xs) ys (h, hs) = (h, All_prefix P xs ys hs)

get_access_times-prefix :
    (db : Remote) {ats : List AccessTime}
    → (get_access_times db).0 ≡ ok ats
    → (rest : List AccessTime) × (db.tables.access_times ≡ ats ++ rest)
unfolding get_access_times query call
get_access_times-prefix db {ats} h =
    let faults = (request {T = Tables AccessTime} db).1.faults in
    let (rest, same) = scan-prefix db.tables.access_times faults in
    let read : (scan db.tables.access_times faults).0.read ≡ ats = ground arith in
    (rest, same ∙ ap (λ l. l ++ rest) read)

put_each-IsValid :
    (ats : List AccessTime) (near : sqlite.State)
    → All HasValidTimes ats
    → IsValid near.tables
    → IsValid (put_each sqlite ats near).tables
unfolding put_each
put_each-IsValid [] near h v = v
put_each-IsValid (a ∷ ats) near (h, hs) v =
    put_each-IsValid ats _ hs (unfold perform in perform-IsValid (put_time a) near h v)

sync_access_times_cases :
    (s : Sides sqlite)
    → let s' = (sync_access_times sqlite s).1 in
      let (read, _) = get_access_times (connect s.remote).1 in
      (s'.near ≡ s.near)
      ⊎ ((ats : List AccessTime) × (read ≡ ok ats) × (s'.near ≡ put_each sqlite ats s.near))
unfolding sync_access_times
sync_access_times_cases s = elim (Result-cases (connect s.remote).0) [
  | inr (e, failed) ↦ inl (ground arith)
  | inl (unit, fine) ↦ elim (Result-cases (get_access_times (connect s.remote).1).0) [
    | inr (e, failed) ↦ inl (ground arith)
    | inl (ats, got) ↦ inr (ats, got, ground arith)
  ]
]

sync_access_times-AreValid :
    (s : Sides sqlite) → AreValid s → AreValid (sync_access_times sqlite s).1
sync_access_times-AreValid s v = record {
  near_valid = elim (sync_access_times_cases s) [
    | inl same ↦ subst (λ d. IsValid d.tables) (sym same) v.near_valid
    | inr (ats, got, put) ↦
        let (rest, split) = get_access_times-prefix (connect s.remote).1 got in
        let all : All HasValidTimes (ats ++ rest) =
          subst (All HasValidTimes)
            (ap (λ t. t.access_times) (sym (connect-tables s.remote)) ∙ split) v.times_valid in
        subst (λ d. IsValid d.tables) (sym put)
          (put_each-IsValid ats s.near (All_prefix HasValidTimes ats rest all) v.near_valid)
  ];
  times_valid =
      subst (λ t. All HasValidTimes t.access_times) (sym (sync_access_times-tables s))
        v.times_valid;
}

pub update-AreValid :
    (s : Sides sqlite)
    → AreValid s
    → AreValid (sync_access_times sqlite (sync_credentials sqlite s).1).1
update-AreValid s v = sync_access_times-AreValid _ (sync_credentials-AreValid s v)
