-- ===== src/Parser/File.antt =====
-- pigate/pkg/credentialparser/paser.go, `ParseCredentialFile`. What `os.Open` and the CSV reader
-- return is the argument: the records of the file, or an error. The reader refuses a file whose
-- records differ in length; a model of it is the hypothesis `IsRectangular` where it matters.
pub mod Laws
pub mod Credentials
use pigate.Prelude.{
  ℕ, zero, suc, ◌+◌, ◌<◌, String, Bool, true, false, Option, none, some, List, [], ◌∷◌, ◌++◌, ℤ,
  pos, Result, ok, err, Outcome, returns, panics, ◌==◌, string_eq, contains, get_elem?, length, ltb,
  if◌then◌else◌,
}
use pigate.Database.Models.{Credential, regular_open}
use pigate.Parser.Text.{trim_space}

abbrev pub default_access_group : ℤ
default_access_group = pos 0

-- The column indices, -1 being `none`.
pub record Columns : Type 0 where
  pub username : Option ℕ
  pub code : Option ℕ
  pub locked_out : Option ℕ

-- One round of the loop over the header.
abbrev note_column : ℕ → String → Columns → Columns
note_column i col c =
    if col == "Resident"
    then record c { username = some i }
    else if col == "DEVICE#"
    then record c { code = some i }
    else if col == "SL"
    then record c { locked_out = some i }
    else c

unfoldable pub find_columns : ℕ → List String → Columns → Columns
find_columns i [] c = c
find_columns i (col ∷ header) c = find_columns (suc i) header (note_column i col c)

-- The entry that a row with a code becomes.
abbrev pub entry : String → String → String → Credential
entry code username lock = record {
  code = code;
  username = username;
  access_group = default_access_group;
  locked_out = lock == "00";
  auto_update = true;
  open_mode = regular_open;
}

-- The variables of the loop over the rows.
pub record Entries : Type 0 where
  pub seen : List String
  pub entries : List Credential

abbrev add_entry : String → Option String → Option String → Entries → Outcome Entries
add_entry code none username p = panics
add_entry code (some lock) none p = panics
add_entry code (some lock) (some username) p =
    returns (record { seen = code ∷ p.seen; entries = p.entries ++ entry code username lock ∷ [] })

module _ (username_index code_index locked_out_index : ℕ) where
  -- One row, from its code on: an empty code and a code that was seen are skipped.
  abbrev add_code : List String → String → Entries → Outcome Entries
  add_code row code p =
      if code == ""
      then returns p
      else if contains p.seen code
      then returns p
      else add_entry code (get_elem? row locked_out_index) (get_elem? row username_index) p

  abbrev add_trimmed : List String → Option String → Entries → Outcome Entries
  add_trimmed row none p = panics
  add_trimmed row (some cell) p = add_code row (trim_space cell) p

  unfoldable pub add_row : List String → Entries → Outcome Entries
  add_row row p = add_trimmed row (get_elem? row code_index) p

  unfoldable pub add_rows : List (List String) → Entries → Outcome Entries
  add_rows [] p = returns p
  add_rows (row ∷ rows) p = elim (add_row row p) [ panics ↦ panics | returns p' ↦ add_rows rows p' ]

abbrev pub entries_of : Outcome Entries → Outcome (Result (List Credential))
entries_of panics = panics
entries_of (returns p) = returns (ok p.entries)

abbrev pub no_entries : Entries
no_entries = record { seen = []; entries = [] }

-- The rows, if the three columns were found.
abbrev pub read_rows :
    Option ℕ → Option ℕ → Option ℕ → List (List String) → Outcome (Result (List Credential))
read_rows (some u) (some c) (some l) rows = entries_of (add_rows u c l rows no_entries)
read_rows u c l rows = returns (ok [])

abbrev pub no_columns : Columns
no_columns = record { username = none; code = none; locked_out = none }

abbrev read_records : List (List String) → Outcome (Result (List Credential))
read_records [] = returns (ok [])
read_records (header ∷ []) = returns (ok [])
read_records (header ∷ row ∷ rows) =
    let c = find_columns 0 header no_columns in
    read_rows c.username c.code c.locked_out (row ∷ rows)

-- `ParseCredentialFile`. A file with no row, and a header that lacks a column, are no error: there
-- are no credentials then.
unfoldable pub parse_credential_file :
    Result (List (List String)) → Outcome (Result (List Credential))
parse_credential_file (err e) = returns (err e)
parse_credential_file (ok records) = read_records records
