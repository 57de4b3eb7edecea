-- ===== src/Database/Credentials/Laws.antt =====
-- A batch of upserts, as far as it gets.
use pigate.Prelude.{
  ◌≡◌, refl, sym, ap, ◌∙◌, ◌⊎◌, inl, inr, true, List, [], ◌∷◌, ◌++◌, arith, Error, Result, ok, err,
  M, string_eq, Bool-cases, subst, append-nil, service, check_violation, All, String,
}
use pigate.Database.Models.{Credential}
use pigate.Database.Sql.{Db, call, for_each}
use pigate.Database.Sql.Laws.{call_cases, for_each_step, for_each_stop}
use pigate.Database.Table.{upsert_all, delete_any, delete_any-nil}
use pigate.Database.Credentials.{Tables, code_of, allowed, upsert_credential}

module _ {R : Type 0} where
  -- The tables after the upserts of a list of credentials.
  abbrev pub stored : List Credential → Tables R → Tables R
  stored creds t = record t { credentials = upsert_all code_of creds t.credentials }

  abbrev pub insert_one : Credential → M (Db (Tables R)) (Unit {0})
  insert_one c = call (upsert_credential c)

  -- One upsert is done as a whole or fails without an effect.
  pub insert_one_cases :
      (c : Credential) (db : Db (Tables R))
      → (((insert_one c db).0 ≡ ok tt)
          × (allowed c.open_mode ≡ true)
          × ((insert_one c db).1.tables ≡ stored (c ∷ []) db.tables))
        ⊎ ((e : Error) × ((insert_one c db).0 ≡ err e) × ((insert_one c db).1.tables ≡ db.tables))
  unfolding upsert_credential upsert_all
  insert_one_cases c db = elim (call_cases (upsert_credential c) db) [
    | inl failed ↦ inr (service, failed.0, failed.1)
    | inr done ↦ elim (Bool-cases (allowed c.open_mode)) [
      | inl fits ↦ inl (ground arith, fits, ground arith)
      | inr bad ↦ inr (check_violation, ground arith, ground arith)
    ]
  ]

  -- A loop of upserts stores a prefix of the list, and the whole list where it returns no error.
  pub record Stored (creds : List Credential) (before after : Tables R) (r : Result (Unit {0}))
      : Type 0 where
    pub done : List Credential
    pub rest : List Credential
    pub split : creds ≡ done ++ rest
    pub effect : after ≡ stored done before
    pub complete : r ≡ ok tt → rest ≡ []
    pub fits : All (λ c. allowed c.open_mode ≡ true) done

  pub for_each-Stored :
      (creds : List Credential) (db : Db (Tables R))
      → let (r, db') = for_each insert_one creds db in Stored creds db.tables db'.tables r
  unfolding upsert_all
  for_each-Stored [] db = record {
    done = [];
    rest = [];
    split = refl;
    effect = unfold for_each in refl;
    complete = λ h. refl;
    fits = tt;
  }
  for_each-Stored (c ∷ creds) db = elim (insert_one_cases c db) [
    | inl (fine, allow, moved) ↦
        let later = for_each-Stored creds (insert_one c db).1 in
        record {
          done = c ∷ later.done;
          rest = later.rest;
          split = ap (λ l. c ∷ l) later.split;
          effect =
              rw (for_each_step insert_one c creds db fine)
                (later.effect ∙ ap (stored later.done) moved);
          complete = λ h. later.complete (rw (for_each_step insert_one c creds db fine) at h);
          fits = (allow, later.fits);
        }
    | inr (e, failed, kept) ↦ record {
      done = [];
      rest = c ∷ creds;
      split = refl;
      effect = rw (for_each_stop insert_one c creds db e failed) kept;
      complete = λ h. absurd (cc (for_each_stop insert_one c creds db e failed, h));
      fits = tt;
    }
  ]

  -- Where no error is returned nothing is left over.
  pub Stored-whole :
      (creds : List Credential) (before after : Tables R) (r : Result (Unit {0}))
      → Stored creds before after r
      → r ≡ ok tt
      → (after ≡ stored creds before) × All (λ c. allowed c.open_mode ≡ true) creds
  Stored-whole creds before after r st h =
      let same : st.done ≡ creds =
        sym (st.split ∙ ap (λ l. st.done ++ l) (st.complete h) ∙ append-nil st.done) in
      (
        st.effect ∙ ap (λ l. stored l before) same,
        subst (All (λ c. allowed c.open_mode ≡ true)) same st.fits,
      )

  -- The tables without the rows of a list of codes.
  abbrev pub removed : List String → Tables R → Tables R
  removed codes t = record t { credentials = delete_any code_of codes t.credentials }

  pub removed-nil : (t : Tables R) → removed [] t ≡ t
  removed-nil t i = record t { credentials = delete_any-nil code_of t.credentials i }
