-- ===== src/Database/Postgres/Batch.antt =====
-- The batches of the remote database.
use pigate.Prelude.{
  ◌≡◌, refl, sym, ap, ◌∙◌, ◌⊎◌, inl, inr, true, false, List, [], ◌∷◌, ◌++◌, String, arith, All,
  Error, service, check_violation, ok, err, string_eq,
}
use pigate.Database.Models.{Credential, AccessTime}
use pigate.Database.Sql.{call, request, for_each}
use pigate.Database.Sql.Laws.{call_cases}
use pigate.Database.Table.{upsert_all}
use pigate.Database.Credentials.{Tables, allowed}
use pigate.Database.Credentials.Laws.{
  stored, insert_one, for_each-Stored, Stored, removed, removed-nil,
}
use pigate.Database.Credentials.Quiet.{calm, for_each_unfit}
use pigate.Database.Postgres.{Remote, put_credential, put_credentials, delete_credentials}

-- The call that fails first, or the loop between two calls that leave the tables alone.
put_credentials_cases :
    (creds : List Credential) (db : Remote)
    → let u = (request db).1 in
      let (r, db') = put_credentials creds db in
      let (r', u') = for_each insert_one creds u in
      (u.tables ≡ db.tables)
      × (((r ≡ err service) × (db'.tables ≡ db.tables))
          ⊎ ((db'.tables ≡ u'.tables) × (r ≡ ok tt → r' ≡ ok tt)))
unfolding put_credentials put_credential call
put_credentials_cases creds db = ground arith

-- Whatever calls fail, `PutCredentials` of the remote database stores a prefix of the batch, in
-- order, and the whole batch where it returns no error.
pub put_credentials-Stored :
    (creds : List Credential) (db : Remote)
    → let (r, db') = put_credentials creds db in Stored creds db.tables db'.tables r
unfolding put_credentials
put_credentials-Stored creds db =
    let (same, cases) = put_credentials_cases creds db in
    elim cases [
      | inl (failed, kept) ↦ record {
        done = [];
        rest = creds;
        split = refl;
        effect = kept ∙ unfold upsert_all in refl;
        complete = λ h. absurd (cc (failed, h));
        fits = tt;
      }
      | inr (effect, fine) ↦
          let st = for_each-Stored creds (request db).1 in
          record {
            done = st.done;
            rest = st.rest;
            split = st.split;
            effect = effect ∙ st.effect ∙ ap (stored st.done) same;
            complete = λ h. st.complete (fine h);
            fits = st.fits;
          }
    ]

-- With no failing call, a batch whose credentials up to one that violates the CHECK of `open_mode`
-- are fit returns the violation, and the credentials before that one stay stored.
pub put_credentials_partial :
    (before after : List Credential) (bad : Credential) (t : Tables AccessTime)
    → All (λ c. allowed c.open_mode ≡ true) before
    → allowed bad.open_mode ≡ false
    → let (r, db') = put_credentials (before ++ bad ∷ after) (calm t) in
      (r ≡ err check_violation) × (db'.tables ≡ stored before t)
unfolding put_credentials put_credential call
put_credentials_partial before after bad t fit unfit =
    ground (arith, for_each_unfit before after bad t fit unfit)

-- `DeleteCredentials` of the remote database either returns no error and has removed exactly the
-- rows of the listed codes; or it returns an error and the tables are as they were.
pub delete_credentials_lem :
    (codes : List String) (db : Remote)
    → let (r, db') = delete_credentials codes db in
      ((r ≡ ok tt) × (db'.tables ≡ removed codes db.tables))
      ⊎ ((e : Error) × (r ≡ err e) × (db'.tables ≡ db.tables))
unfolding delete_credentials
delete_credentials_lem [] db = inl (refl, sym (removed-nil db.tables))
delete_credentials_lem (c ∷ codes) db = elim (call_cases (λ t. (ok tt, removed (c ∷ codes) t)) db) [
  | inl failed ↦ inr (service, failed.0, failed.1)
  | inr done ↦ inl done
]
