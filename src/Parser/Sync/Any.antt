-- ===== src/Parser/Sync/Any.antt =====
-- What handling any file does, where no call fails.
use pigate.Prelude.{
  ◌≡◌, refl, sym, subst, Bool-cases, ◌||◌, ap, ◌∙◌, ◌⊎◌, inl, inr, true, String, Option, none, some,
  List, [], ◌∷◌, ◌++◌, arith, All, All-append, Error, wrapped, Result, ok, err, returns, panics,
  Outcome-cases, Result-cases, Option-cases, string_eq, ℕ, ◌==◌, contains, get_elem?,
}
use pigate.Database.Models.{Credential, AccessTime}
use pigate.Database.Credentials.{Tables, allowed}
use pigate.Database.Credentials.Laws.{stored, removed}
use pigate.Database.Credentials.Quiet.{calm}
use pigate.Parser.File.{
  Entries, read_rows, no_entries, entry, add_row, add_rows, find_columns, no_columns,
  parse_credential_file,
}
use pigate.Parser.Text.{trim_space}
use pigate.Parser.Sync.{handle_file}
use pigate.Parser.Sync.Effect.{old_codes, sync_file_quiet}
use pigate.Parser.Sync.EndToEnd.{IsSound, sync_file-IsSound}

abbrev pub AllFit : List Credential → Type 0
AllFit = All (λ c. allowed c.open_mode ≡ true)

entry_fit : (code username lock : String) → AllFit (entry code username lock ∷ [])
unfolding allowed string_eq
entry_fit code username lock = (refl, tt)

module _ (u c l : ℕ) where
  -- A row adds an entry at most.
  add_row_cases :
      (row : List String) (p p' : Entries)
      → add_row u c l row p ≡ returns p'
      → (p'.entries ≡ p.entries)
        ⊎ ((code username lock : String) × (p'.entries
              ≡ p.entries ++ entry code username lock ∷ []))
  unfolding add_row
  add_row_cases row p p' h = elim (Option-cases (get_elem? row c)) [
    | inl gone ↦ absurd (ground arith)
    | inr (cell, at_c) ↦ elim (Option-cases (get_elem? row l)) [
      | inl gone ↦ inl (ground arith)
      | inr (lock, at_l) ↦ elim (Option-cases (get_elem? row u)) [
        | inl gone ↦ inl (ground arith)
        | inr (username, at_u) ↦
            elim (Bool-cases (trim_space cell == "" || contains p.seen (trim_space cell))) [
              | inl skipped ↦ inl (ground arith)
              | inr new ↦ inr (trim_space cell, username, lock, ground arith)
            ]
      ]
    ]
  ]

  add_row-AllFit :
      (row : List String) (p p' : Entries)
      → add_row u c l row p ≡ returns p'
      → AllFit p.entries
      → AllFit p'.entries
  add_row-AllFit row p p' h fit = elim (add_row_cases row p p' h) [
    | inl same ↦ subst AllFit (sym same) fit
    | inr (code, username, lock, more) ↦
        subst AllFit (sym more) (
          All-append _ p.entries (entry code username lock ∷ []) fit (entry_fit code username lock))
  ]

  add_rows-AllFit :
      (rows : List (List String)) (p p' : Entries)
      → add_rows u c l rows p ≡ returns p'
      → AllFit p.entries
      → AllFit p'.entries
  unfolding add_rows
  add_rows-AllFit [] p p' h fit = ground arith
  add_rows-AllFit (row ∷ rows) p p' h fit = elim (Outcome-cases (add_row u c l row p)) [
    | inl bad ↦ absurd (ground arith)
    | inr (q, fine) ↦ add_rows-AllFit rows q p' (ground arith) (add_row-AllFit row p q fine fit)
  ]

none_read : (creds : List Credential) → returns (ok []) ≡ returns (ok creds) → AllFit creds
none_read creds h = let nothing : [] ≡ creds = cc in subst AllFit nothing tt

read_rows-AllFit :
    (u c l : Option ℕ) (rows : List (List String)) (creds : List Credential)
    → read_rows u c l rows ≡ returns (ok creds)
    → AllFit creds
read_rows-AllFit none c l rows creds h = none_read creds h
read_rows-AllFit (some u) none l rows creds h = none_read creds h
read_rows-AllFit (some u) (some c) none rows creds h = none_read creds h
read_rows-AllFit (some u) (some c) (some l) rows creds h =
    elim (Outcome-cases (add_rows u c l rows no_entries)) [
      | inl bad ↦ absurd (ground arith)
      | inr (p, fine) ↦
          let same : p.entries ≡ creds = ground arith in
          subst AllFit same (add_rows-AllFit u c l rows no_entries p fine tt)
    ]

-- The credentials of any file have one of the two open modes.
parse_credential_file-AllFit :
    (read : Result (List (List String))) (creds : List Credential)
    → parse_credential_file read ≡ returns (ok creds)
    → AllFit creds
unfolding parse_credential_file
parse_credential_file-AllFit (err e) creds h = absurd (ground arith)
parse_credential_file-AllFit (ok []) creds h = ground arith
parse_credential_file-AllFit (ok (header ∷ [])) creds h = ground arith
parse_credential_file-AllFit (ok (header ∷ row ∷ rows)) creds h =
    let c = find_columns 0 header no_columns in
    read_rows-AllFit c.username c.code c.locked_out (row ∷ rows) creds h

-- A file makes the program panic, is rejected with the database as it was, or is handled as a whole.
pub handle_file_cases :
    (read : Result (List (List String))) (t : Tables AccessTime)
    → IsSound t.credentials
    → (handle_file read (calm t) ≡ panics)
      ⊎ (((e : Error) × (handle_file read (calm t) ≡ returns (err e, calm t)))
          ⊎ ((after : Tables AccessTime) × (handle_file read (calm t) ≡ returns (ok tt, calm after))
              × IsSound after.credentials))
unfolding handle_file
handle_file_cases read t s = elim (Outcome-cases (parse_credential_file read)) [
  | inl bad ↦ inl (rw bad refl)
  | inr (r, fine) ↦ elim (Result-cases r) [
    | inr (e, rejected) ↦ inr (inl (wrapped "failed to parse CSV file" e, rw (fine, rejected) refl))
    | inl (creds, read_in) ↦
        let fits = parse_credential_file-AllFit read creds (fine ∙ ap returns read_in) in
        inr (
          inr (
            stored creds (removed (old_codes creds t) t),
            rw (fine, read_in, sync_file_quiet creds t fits) refl,
            sync_file-IsSound creds t fits s,
          ))
  ]
]
