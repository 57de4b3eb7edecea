-- ===== src/Database/Credentials/Quiet.antt =====
-- Batches of upserts where no call fails.
use pigate.Prelude.{
  ◌≡◌, refl, true, false, List, [], ◌∷◌, ◌++◌, arith, All, check_violation, ok, err,
}
use pigate.Database.Models.{Credential}
use pigate.Database.Sql.{Db, call, for_each}
use pigate.Database.Table.{upsert_all}
use pigate.Database.Credentials.{Tables, allowed, upsert_credential}
use pigate.Database.Credentials.Laws.{stored, insert_one}

module _ {R : Type 0} where
  -- A database in which no further call fails.
  abbrev pub calm : Tables R → Db (Tables R)
  calm t = record { tables = t; faults = [] }

  insert_one_fit :
      (c : Credential) (t : Tables R)
      → allowed c.open_mode ≡ true
      → insert_one c (calm t) ≡ (ok tt, calm (stored (c ∷ []) t))
  unfolding upsert_credential upsert_all call
  insert_one_fit c t fit = ground arith

  insert_one_unfit :
      (c : Credential) (t : Tables R)
      → allowed c.open_mode ≡ false
      → insert_one c (calm t) ≡ (err check_violation, calm t)
  unfolding upsert_credential call
  insert_one_unfit c t unfit = ground arith

  pub for_each_fit :
      (creds : List Credential) (t : Tables R)
      → All (λ c. allowed c.open_mode ≡ true) creds
      → for_each insert_one creds (calm t) ≡ (ok tt, calm (stored creds t))
  unfolding for_each upsert_all
  for_each_fit [] t fit = refl
  for_each_fit (c ∷ creds) t (fit, more) =
      rw (insert_one_fit c t fit) (for_each_fit creds (stored (c ∷ []) t) more)

  pub for_each_unfit :
      (before after : List Credential) (bad : Credential) (t : Tables R)
      → All (λ c. allowed c.open_mode ≡ true) before
      → allowed bad.open_mode ≡ false
      → for_each insert_one (before ++ bad ∷ after) (calm t)
        ≡ (err check_violation, calm (stored before t))
  unfolding for_each upsert_all
  for_each_unfit [] after bad t fit unfit = rw (insert_one_unfit bad t unfit)
  for_each_unfit (c ∷ before) after bad t (fit, more) unfit =
      rw (insert_one_fit c t fit) (for_each_unfit before after bad (stored (c ∷ []) t) more unfit)
