-- ===== src/Database/Credentials.antt =====
-- The table `credentials` that both engines hold, and the statements on it.
pub mod Laws
pub mod Quiet
use pigate.Prelude.{
  ◌≡◌, refl, Bool, true, false, ◌||◌, Option, List, [], ◌∷◌, String, arith, Result, ok, err,
  check_violation, M, if◌then◌else◌, ◌==◌, string_eq,
}
use pigate.Database.Models.{Credential, OpenMode, regular_open, lock_open}
use pigate.Database.Sql.{Db, call}
use pigate.Database.Table.{find, upsert, delete}

-- The tables of an access manager: `R` is how the engine stores a row of `access_times`.
pub record Tables (R : Type 0) : Type 0 where
  pub credentials : List Credential
  pub access_times : List R

abbrev pub code_of : Credential → String
code_of c = c.code

-- `CHECK (open_mode IN ('regular_open', 'lock_open'))`.
unfoldable pub allowed : OpenMode → Bool
allowed mode = mode == regular_open || mode == lock_open

module _ {R : Type 0} where
  -- The statement of `PutCredential`.
  unfoldable pub upsert_credential : Credential → Tables R → Result (Unit {0}) × Tables R
  upsert_credential c t =
      if allowed c.open_mode
      then (ok tt, record t { credentials = upsert code_of c t.credentials })
      else (err check_violation, t)

  -- The statement of `DeleteCredential`.
  unfoldable pub delete_credential : String → Tables R → Result (Unit {0}) × Tables R
  delete_credential code t = (ok tt, record t { credentials = delete code_of code t.credentials })

  -- The statement of `GetCredential`, with `QueryRow`.
  unfoldable pub select_credential : String → Tables R → Result (Option Credential) × Tables R
  select_credential code t = (ok (find code_of code t.credentials), t)
