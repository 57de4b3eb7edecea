-- ===== src/Database/Sqlite/AccessTimes.antt =====
-- Access times in the local database: what is written as text is read back as a time of day.
use pigate.Prelude.{◌≡◌, refl, some, ℤ, int_eq, arith, ok, ◌==◌, if◌then◌else◌}
use pigate.Database.Models.{AccessTime}
use pigate.Database.ClockText.{IsValid, parse-format}
use pigate.Database.Sql.{call}
use pigate.Database.Table.{find-upsert}
use pigate.Database.Credentials.{Tables}
use pigate.Database.Credentials.Quiet.{calm}
use pigate.Database.Sqlite.{
  AccessRow, group_of, access_row, access_time, put_access_time, get_access_time,
}

-- The times of an access time, as Go keeps them.
pub record HasValidTimes (a : AccessTime) : Type 0 where
  pub start_valid : IsValid a.start_time
  pub end_valid : IsValid a.end_time

-- What is left of an access time in the database: its times lie on January 1 of year 0.
abbrev pub undated : AccessTime → AccessTime
undated a = record a {
  start_time = record (a.start_time) { day = 0 };
  end_time = record (a.end_time) { day = 0 };
}

pub access_time-access_row :
    (a : AccessTime) → HasValidTimes a → access_time (some (access_row a)) ≡ ok (some (undated a))
unfolding access_time access_row
access_time-access_row a v =
    ground (arith, parse-format a.start_time v.start_valid, parse-format a.end_time v.end_valid)

group_of-access_row : (a : AccessTime) → group_of (access_row a) ≡ a.access_group
unfolding access_row
group_of-access_row a = refl

-- With no failing call, after `PutAccessTime` the group of the access time reads back with its
-- two times of day and its weekdays, and every other group reads as before.
pub get_access_time-put_access_time :
    (a : AccessTime) (group : ℤ) (t : Tables AccessRow)
    → HasValidTimes a
    → (get_access_time group (put_access_time a (calm t)).1).0 ≡ (
        if a.access_group == group
        then ok (some (undated a))
        else (get_access_time group (calm t)).0)
unfolding get_access_time put_access_time call
get_access_time-put_access_time a group t v = ground (
  arith,
  find-upsert group_of group (access_row a) t.access_times,
  group_of-access_row a,
  access_time-access_row a v,
)
