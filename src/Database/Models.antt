-- ===== src/Database/Models.antt =====
-- pigate/pkg/database/models.go: the records that the managers store.
use pigate.Prelude.{ℕ, String, Bool, ℤ}

-- A `time.Time` as the program reads it: the day, and the clock of its own location. Nothing in
-- the program reads what is below a second.
pub record Time : Type 0 where
  pub day : ℕ
  pub hour : ℕ
  pub minute : ℕ
  pub second : ℕ

-- `OpenMode` is a string with two named values.
abbrev pub OpenMode : Type 0
OpenMode = String

abbrev pub regular_open : OpenMode
regular_open = "regular_open"

abbrev pub lock_open : OpenMode
lock_open = "lock_open"

pub record Credential : Type 0 where
  pub code : String
  pub username : String
  pub access_group : ℤ
  pub locked_out : Bool
  pub auto_update : Bool
  pub open_mode : OpenMode

pub record AccessTime : Type 0 where
  pub access_group : ℤ
  pub start_time : Time
  pub end_time : Time
  pub start_weekday : ℤ
  pub end_weekday : ℤ

abbrev pub status_granted : String
status_granted = "GRANTED"

abbrev pub status_denied : String
status_denied = "DENIED"

abbrev pub status_error : String
status_error = "ERROR"

-- `time` is the instant, in nanoseconds since the Unix epoch.
pub record GateLog : Type 0 where
  pub code : String
  pub time : ℕ
  pub status : String
