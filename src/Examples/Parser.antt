-- ===== src/Examples/Parser.antt =====
-- A concrete export file.

use pigate.Prelude.{
  ◌≡◌, refl, inl, some, none, List, [], ◌∷◌, String, string_eq, All, ok, returns, Bool, true, false,
}
use pigate.Database.Models.{Credential}
use pigate.Database.Table.{find, NodupKeys}
use pigate.Database.Credentials.{code_of, allowed}
use pigate.Database.Credentials.Quiet.{calm}
use pigate.Parser.Text.{trim_space, trim_left, trim_right, is_space}
use pigate.Parser.File.{find_columns, no_columns, parse_credential_file, entry, add_rows, add_row}
use pigate.Parser.File.Laws.{FromFeed, from_row}
use pigate.Parser.File.Credentials.{parse_credential_file_lem}
use pigate.Parser.Sync.EndToEnd.{IsSound, Handled, handle_file_lem, handle_file_empty}
use pigate.Parser.Sync.{sync_file}
use pigate.Parser.Sync.Overlap.{begins, puts, move, overlap, alone, overlap-sync_file}
use pigate.Parser.Sync.Twice.{HandledTwice, handle_file-handle_file}
use pigate.Examples.Data.{guest, remote}

abbrev pub header : List String
header = "DEVICE#" ∷ "SL" ∷ "Resident" ∷ []

abbrev pub first : List String
first = " 4711" ∷ "00" ∷ "Guest" ∷ []

-- The same code once more, and no code.
abbrev pub more : List (List String)
more = ("4711 " ∷ "01" ∷ "Other" ∷ []) ∷ (" " ∷ "00" ∷ "Nobody" ∷ []) ∷ []

pub header_found :
    find_columns 0 header no_columns
    ≡ record { username = some 2; code = some 0; locked_out = some 1 }
unfolding find_columns string_eq
header_found = refl

file_read :
    parse_credential_file (ok (header ∷ first ∷ more))
    ≡ returns (ok (entry "4711" "Guest" "00" ∷ []))
unfolding parse_credential_file find_columns add_rows add_row string_eq trim_space trim_left
    trim_right is_space
file_read = refl

parse_credential_file_lem_example :
    (es : List Credential) × (parse_credential_file (ok (header ∷ first ∷ more)) ≡ returns (ok es))
    × NodupKeys code_of es
    × All FromFeed es
    × ((k : String) → find code_of k es ≡ from_row 2 0 1 k (first ∷ more))
parse_credential_file_lem_example =
    parse_credential_file_lem header first more 2 0 1 header_found (refl, (refl, (refl, tt)))

pub remote-IsSound : IsSound remote.credentials
unfolding allowed string_eq find
remote-IsSound = record { codes = (refl, tt); modes = (refl, tt) }

handle_file_lem_example :
    Handled (ok (header ∷ first ∷ more)) remote (λ k. from_row 2 0 1 k (first ∷ more))
handle_file_lem_example =
    handle_file_lem header first more 2 0 1 remote header_found (refl, (refl, (refl, tt)))
      remote-IsSound

handle_file_empty_example : Handled (ok (header ∷ [])) remote (λ k. none)
handle_file_empty_example = handle_file_empty header [] remote (inl refl) remote-IsSound

trim_space_idem_case : trim_space " 4711\t" ≡ "4711"
unfolding trim_space trim_left trim_right is_space
trim_space_idem_case = refl

-- The guest is no longer in the second file.
abbrev newcomer : List String
newcomer = "0815" ∷ "00" ∷ "Newcomer" ∷ []

handle_file-handle_file_example :
    HandledTwice
      (ok (header ∷ first ∷ more))
      (ok (header ∷ newcomer ∷ []))
      remote
      (λ k. from_row 2 0 1 k (first ∷ more))
      (λ k. from_row 2 0 1 k (newcomer ∷ []))
handle_file-handle_file_example =
    handle_file-handle_file header header first newcomer more [] 2 0 1 2 0 1 remote header_found
      header_found (refl, (refl, (refl, tt))) (refl, tt) remote-IsSound

-- The two goroutines read, delete and put by turns.
abbrev by_turns : List Bool
by_turns = true ∷ false ∷ true ∷ false ∷ false ∷ true ∷ []

by_turns_done : (overlap (guest ∷ []) by_turns begins begins remote).0 ≡ (puts [], puts [])
unfolding overlap move
by_turns_done = refl

overlap-sync_file_example :
    (sync_file (guest ∷ []) (calm remote)
      ≡ (ok tt, calm (overlap (guest ∷ []) (alone (guest ∷ [])) begins begins remote).1))
    × (find code_of "9*9" (overlap (guest ∷ []) by_turns begins begins remote).1.credentials
        ≡ find code_of "9*9" (sync_file (guest ∷ []) (calm remote)).1.tables.credentials)
unfolding allowed string_eq find
overlap-sync_file_example =
    overlap-sync_file (guest ∷ []) remote "9*9" by_turns (refl, tt) (refl, tt) (refl, tt)
      by_turns_done
