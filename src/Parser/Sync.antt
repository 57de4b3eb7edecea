-- ===== src/Parser/Sync.antt =====
-- pigate/pkg/credentialparser/paser.go, `HandleFile`: bringing the remote database in line with a
-- file. A Go map from codes to credentials is a table with the code as its key; the order in which
-- Go walks over a map is arbitrary, and the one statement that gets the codes to delete takes them
-- as a set.
pub mod Effect
pub mod EndToEnd
pub mod Twice
pub mod Overlap
pub mod Any
use pigate.Prelude.{
  String, Bool, true, false, Option, none, some, List, [], ◌∷◌, Error, wrapped, Result, ok, err,
  Outcome, returns, panics, M, and_then, pure, ◌>>=◌, ◌>>◌, string_eq, if◌then◌else◌,
}
use pigate.Database.Models.{Credential}
use pigate.Database.Table.{find, upsert, upsert_all}
use pigate.Database.Credentials.{code_of}
use pigate.Database.Postgres.{Remote, connect, get_credentials, put_credentials, delete_credentials}
use pigate.Parser.File.{parse_credential_file}

-- `fmt.Errorf("…: %w", err)`.
abbrev wrap_error : {A : Type 0} → String → Result A → Result A
wrap_error text (ok a) = ok a
wrap_error text (err e) = err (wrapped text e)

abbrev wrapping : {S A : Type 0} → String → M S A → M S A
wrapping text m s = let (r, s') = m s in (wrap_error text r, s')

-- The remote credentials that come from the feed, by their code.
unfoldable pub build_remote_map : List Credential → List Credential → List Credential
build_remote_map [] map = map
build_remote_map (r ∷ rows) map =
    build_remote_map rows (if r.auto_update then upsert code_of r map else map)

unfoldable pub build_file_map : List Credential → List Credential
build_file_map creds = upsert_all code_of creds []

abbrev unless_found : Option Credential → String → List String → List String
unless_found none code codes = code ∷ codes
unless_found (some f) code codes = codes

-- The codes of the remote map that the file map lacks.
unfoldable pub codes_to_delete : List Credential → List Credential → List String
codes_to_delete file_map [] = []
codes_to_delete file_map (r ∷ remote_map) =
    unless_found (find code_of r.code file_map) r.code (codes_to_delete file_map remote_map)

abbrev pub delete_old : List String → M Remote (Unit {0})
delete_old [] = pure tt
delete_old (code ∷ codes) = wrapping "delete old credentials" (delete_credentials (code ∷ codes))

abbrev pub put_new : List Credential → M Remote (Unit {0})
put_new [] = pure tt
put_new (c ∷ creds) = wrapping "put new credentials" (put_credentials (c ∷ creds))

-- Steps 2 to 6, with the credentials of the file.
unfoldable pub sync_file : List Credential → M Remote (Unit {0})
sync_file creds = do
  wrapping "new repo" connect
  remote_all ← wrapping "get remote credentials" get_credentials
  delete_old (codes_to_delete (build_file_map creds) (build_remote_map remote_all []))
  put_new creds

abbrev with_credentials :
    Outcome (Result (List Credential)) → Remote → Outcome (Result (Unit {0}) × Remote)
with_credentials panics db = panics
with_credentials (returns (err e)) db = returns (err (wrapped "failed to parse CSV file" e), db)
with_credentials (returns (ok creds)) db = returns (sync_file creds db)

-- `HandleFile`, with what the CSV reader gives for the file.
unfoldable pub handle_file :
    Result (List (List String)) → Remote → Outcome (Result (Unit {0}) × Remote)
handle_file read db = with_credentials (parse_credential_file read) db
