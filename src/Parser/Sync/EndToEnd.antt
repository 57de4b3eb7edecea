-- ===== src/Parser/Sync/EndToEnd.antt =====
-- From the exported file to the gate.
use pigate.Prelude.{
  ℕ, ◌≡◌, refl, ap, sym, ◌∙◌, ◌⊎◌, inl, inr, Option-cases, String, true, Option, none, some, List,
  [], ◌∷◌, arith, All, Result, ok, returns, string_eq,
}
use mathlib.Core.Option.{or_else}
use pigate.Database.Models.{Time, Credential, AccessTime}
use pigate.Database.Table.{find, NodupKeys, upsert_all-NodupKeys, delete_any-NodupKeys}
use pigate.Database.Table.Laws.{All-find, All-upsert_all, All-delete_any}
use pigate.Database.Credentials.{Tables, code_of, allowed}
use pigate.Database.Credentials.Laws.{stored, removed}
use pigate.Database.Credentials.Quiet.{calm}
use pigate.Database.Sqlite.{AccessRow}
use pigate.Database.Managers.{sqlite_access_manager}
use pigate.Database.Updater.{sync_credentials}
use pigate.Gate.Access.{validate_credential}
use pigate.Gate.Access.Local.{local_manager, verdict, validate_credential-sync_credentials}
use pigate.Parser.File.{no_columns, find_columns, parse_credential_file}
use pigate.Parser.File.Laws.{FromFeed, from_row}
use pigate.Parser.File.Credentials.{
  IsRectangular, parse_credential_file_lem, parse_credential_file_empty,
}
use pigate.Parser.Sync.{handle_file}
use pigate.Parser.Sync.Effect.{manual, old_codes, sync_file_quiet, find-sync_file}

-- The credentials of a table, as its PRIMARY KEY and its CHECK allow them.
pub record IsSound (creds : List Credential) : Type 0 where
  pub codes : NodupKeys code_of creds
  pub modes : All (λ c. allowed c.open_mode ≡ true) creds

FromFeed-allowed :
    (creds : List Credential) → All FromFeed creds → All (λ c. allowed c.open_mode ≡ true) creds
unfolding allowed
FromFeed-allowed [] f = tt
FromFeed-allowed (c ∷ creds) (f, more) = (ground (arith, f.mode), FromFeed-allowed creds more)

pub sync_file-IsSound :
    (creds : List Credential) (t : Tables AccessTime)
    → All (λ c. allowed c.open_mode ≡ true) creds
    → IsSound t.credentials
    → IsSound (stored creds (removed (old_codes creds t) t)).credentials
sync_file-IsSound creds t fits s = record {
  codes =
      upsert_all-NodupKeys code_of creds _
        (delete_any-NodupKeys code_of (old_codes creds t) t.credentials s.codes);
  modes =
      All-upsert_all code_of (λ c. allowed c.open_mode ≡ true) creds _ fits
        (All-delete_any code_of (λ c. allowed c.open_mode ≡ true) (old_codes creds t) t.credentials
          s.modes);
}

-- What handling a file leaves in the remote database: `row` gives the entry of a code in the file.
pub record Handled (read : Result (List (List String))) (t : Tables AccessTime)
    (row : String → Option Credential) : Type 0 where
  pub after : Tables AccessTime
  pub result : handle_file read (calm t) ≡ returns (ok tt, calm after)
  pub sound : IsSound after.credentials
  pub times : after.access_times ≡ t.access_times
  pub finds :
      (k : String)
      → find code_of k after.credentials ≡ or_else (row k) (manual (find code_of k t.credentials))
  -- What the file gives comes from the feed.
  pub from_feed : (k : String) → manual (row k) ≡ none

manual_feed :
    (creds : List Credential) (k : String)
    → All FromFeed creds
    → manual (find code_of k creds) ≡ none
manual_feed creds k feed = elim (Option-cases (find code_of k creds)) [
  | inl missing ↦ rw missing refl
  | inr (c, found) ↦
      let from = All-find code_of FromFeed k creds feed found in rw (found, from.automatic) refl
]

handled :
    (read : Result (List (List String))) (t : Tables AccessTime) (row : String → Option Credential)
    (creds : List Credential)
    → parse_credential_file read ≡ returns (ok creds)
    → NodupKeys code_of creds
    → All FromFeed creds
    → ((k : String) → find code_of k creds ≡ row k)
    → IsSound t.credentials
    → Handled read t row
unfolding handle_file
handled read t row creds parsed distinct feed finds s =
    let fits = FromFeed-allowed creds feed in
    let quiet = sync_file_quiet creds t fits in
    record {
      after = stored creds (removed (old_codes creds t) t);
      result = rw (parsed, quiet);
      sound = sync_file-IsSound creds t fits s;
      times = refl;
      finds = λ k.
          (rw quiet at (find-sync_file creds t k distinct fits s.codes)).1
          ∙ ap (λ o. or_else o (manual (find code_of k t.credentials))) (finds k);
      from_feed = λ k. ap manual (sym (finds k)) ∙ manual_feed creds k feed;
    }

-- With no failing call and a sound remote database, a file with the three columns, and records as
-- long as its header, is handled without an error and without a panic. Afterwards the remote
-- database is sound; a code of the file has the credential of its first row; every other code keeps
-- a credential that does not come from the feed, and loses one that does.
pub handle_file_lem :
    (header row : List String) (rows : List (List String)) (u c l : ℕ) (t : Tables AccessTime)
    → find_columns 0 header no_columns
      ≡ record { username = some u; code = some c; locked_out = some l }
    → IsRectangular header (row ∷ rows)
    → IsSound t.credentials
    → Handled (ok (header ∷ row ∷ rows)) t (λ k. from_row u c l k (row ∷ rows))
handle_file_lem header row rows u c l t found wide s =
    let (creds, parsed, distinct, feed, finds) =
      parse_credential_file_lem header row rows u c l found wide in
    handled _ t _ creds parsed distinct feed finds s

pub handle_file_empty :
    (header : List String) (rows : List (List String)) (t : Tables AccessTime)
    → let c = find_columns 0 header no_columns in
      (rows ≡ []) ⊎ ((c.username ≡ none) ⊎ ((c.code ≡ none) ⊎ (c.locked_out ≡ none)))
      → IsSound t.credentials
      → Handled (ok (header ∷ rows)) t (λ k. none)
handle_file_empty header rows t h s =
    handled _ t _ [] (parse_credential_file_empty header rows h) tt tt (λ k. unfold find in refl) s

-- From the file to the gate: with no failing call, after the file was handled and the gate has
-- synchronised, a code of the file is judged by its first row, a code of the remote database that
-- does not come from the feed by its remote credential, and any other code as before: a code that
-- left the file still opens the gate.
pub validate_credential-handle_file :
    (read : Result (List (List String))) (t : Tables AccessTime) (row : String → Option Credential)
    (near : Tables AccessRow) (code : String) (now : Time) (h : Handled read t row)
    → let s =
        (sync_credentials sqlite_access_manager
          (record { near = calm near; remote = calm h.after })).1 in
      (validate_credential local_manager code now s.near).0
      ≡ returns (
          verdict now
            (or_else
              (or_else (row code) (manual (find code_of code t.credentials)))
              (find code_of code near.credentials))
            near.access_times)
validate_credential-handle_file read t row near code now h =
    validate_credential-sync_credentials near h.after code now h.sound.codes h.sound.modes
    ∙ ap
        (λ o.
          returns (verdict now (or_else o (find code_of code near.credentials)) near.access_times))
        (h.finds code)
