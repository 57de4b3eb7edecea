-- ===== src/Parser/File/Credentials.antt =====
-- The whole of `ParseCredentialFile`.
use pigate.Prelude.{
  ℕ, suc, ◌+◌, ◌<◌, ◌≡◌, refl, subst, ◌∙◌, ◌⊎◌, String, Option, none, some, List, [], ◌∷◌, arith,
  ok, returns, string_eq, length, All,
}
use mathlib.Core.Option.{or_else}
use pigate.Database.Models.{Credential}
use pigate.Database.Table.{find, NodupKeys}
use pigate.Database.Credentials.{code_of}
use pigate.Parser.File.{
  Columns, note_column, no_columns, no_entries, find_columns, parse_credential_file,
}
use pigate.Parser.File.Laws.{IsWide, FromFeed, Agree, add_rows-Added, from_row}

abbrev Bounded : ℕ → Option ℕ → Type 0
Bounded n none = Unit
Bounded n (some i) = i < n

record Below (n : ℕ) (c : Columns) : Type 0 where
  username_lt : Bounded n c.username
  code_lt : Bounded n c.code
  lock_lt : Bounded n c.locked_out

Bounded-suc : (n : ℕ) (o : Option ℕ) → Bounded n o → Bounded (suc n) o
Bounded-suc n none h = tt
Bounded-suc n (some i) h = omega arith

note_column-Below :
    (i : ℕ) (col : String) (c : Columns) → Below i c → Below (suc i) (note_column i col c)
note_column-Below i col c b = ground (
  arith,
  Bounded-suc i c.username b.username_lt,
  Bounded-suc i c.code b.code_lt,
  Bounded-suc i c.locked_out b.lock_lt,
)

find_columns-Below :
    (i : ℕ) (header : List String) (c : Columns)
    → Below i c
    → Below (i + length header) (find_columns i header c)
unfolding find_columns
find_columns-Below i [] c b = ground arith
find_columns-Below i (col ∷ header) c b =
    let rest =
      find_columns-Below (suc i) header (note_column i col c) (note_column-Below i col c b) in
    let shift : suc i + length header ≡ i + suc (length header) = omega arith in
    subst (λ n. Below n (find_columns (suc i) header (note_column i col c))) shift rest

-- Every record of the file has as many fields as the first.
abbrev pub IsRectangular : List String → List (List String) → Type 0
IsRectangular header rows = All (λ row. length row ≡ length header) rows

IsWide-of_IsRectangular :
    (u c l : ℕ) (header : List String) (rows : List (List String))
    → u < length header
    → c < length header
    → l < length header
    → IsRectangular header rows
    → All (IsWide u c l) rows
IsWide-of_IsRectangular u c l header [] hu hc hl r = tt
IsWide-of_IsRectangular u c l header (row ∷ rows) hu hc hl r =
    (omega arith, IsWide-of_IsRectangular u c l header rows hu hc hl r.1)

no_entries-Agree : (u c l : ℕ) → Agree u c l no_entries
unfolding find
no_entries-Agree u c l = record { same = λ k. refl; distinct = tt; no_empty = refl; feed = tt }

-- Where the header has the three columns, and every record as many fields as the header, the file
-- is read without a panic. No code stands twice in the result, every entry is trimmed, not empty
-- and marked as coming from the feed, and every other code has the entry of the first row that
-- has it, or none if no row has it: the user name of that row, locked out exactly where its lock
-- column holds "00", in the group 0, with a regular opening.
pub parse_credential_file_lem :
    (header row : List String) (rows : List (List String)) (u c l : ℕ)
    → find_columns 0 header no_columns
      ≡ record { username = some u; code = some c; locked_out = some l }
    → IsRectangular header (row ∷ rows)
    → (es : List Credential) × (parse_credential_file (ok (header ∷ row ∷ rows)) ≡ returns (ok es))
      × NodupKeys code_of es
      × All FromFeed es
      × ((k : String) → find code_of k es ≡ from_row u c l k (row ∷ rows))
unfolding parse_credential_file
parse_credential_file_lem header row rows u c l found wide =
    let bounds = subst (Below (0 + length header)) found (
      find_columns-Below 0 header no_columns
        (record { username_lt = tt; code_lt = tt; lock_lt = tt })) in
    let wide_rows =
      IsWide-of_IsRectangular u c l header (row ∷ rows) (omega (arith, bounds.username_lt))
        (omega (arith, bounds.code_lt)) (omega (arith, bounds.lock_lt)) wide in
    let added = add_rows-Added u c l (row ∷ rows) no_entries wide_rows (no_entries-Agree u c l) in
    (
      added.result.entries,
      rw (found, added.runs),
      added.agree.distinct,
      added.agree.feed,
      λ k. added.finds k ∙ unfold find or_else in refl,
    )

-- A file with no row, or whose header lacks one of the columns, is read as no credentials at all
-- and no error.
pub parse_credential_file_empty :
    (header : List String) (rows : List (List String))
    → let c = find_columns 0 header no_columns in
      (rows ≡ []) ⊎ ((c.username ≡ none) ⊎ ((c.code ≡ none) ⊎ (c.locked_out ≡ none)))
      → parse_credential_file (ok (header ∷ rows)) ≡ returns (ok [])
unfolding parse_credential_file
parse_credential_file_empty header rows h = ground arith
