-- ===== src/Examples/Data.antt =====
-- Credentials, access times and tables for the examples.
use pigate.Prelude.{ℕ, true, false, [], ◌∷◌, pos}
use pigate.Database.Models.{Time, Credential, AccessTime, regular_open, lock_open}
use pigate.Database.Credentials.{Tables}
use pigate.Database.Sqlite.{AccessRow, access_row}

abbrev pub clock : ℕ → ℕ → Time
clock hour minute = record { day = 0; hour = hour; minute = minute; second = 0 }

abbrev pub noon : Time
noon = clock 12 0

abbrev pub guest : Credential
guest = record {
  code = "4711";
  username = "Guest";
  access_group = pos 0;
  locked_out = false;
  auto_update = true;
  open_mode = regular_open;
}

-- Not from the feed.
abbrev pub keeper : Credential
keeper = record {
  code = "9*9";
  username = "Keeper";
  access_group = pos 0;
  locked_out = false;
  auto_update = false;
  open_mode = lock_open;
}

-- Its open mode violates the CHECK.
abbrev pub broken : Credential
broken = record guest { open_mode = "ajar" }

abbrev pub hours : AccessTime
hours = record {
  access_group = pos 0;
  start_time = clock 8 0;
  end_time = clock 18 0;
  start_weekday = pos 1;
  end_weekday = pos 5;
}

abbrev pub near : Tables AccessRow
near = record { credentials = guest ∷ []; access_times = access_row hours ∷ [] }

abbrev pub remote : Tables AccessTime
remote = record { credentials = keeper ∷ []; access_times = hours ∷ [] }
