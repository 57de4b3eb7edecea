-- ===== src/Gate/Clock.antt =====
-- pigate/pkg/gate/gate.go, `isTimeOfDayInRange`: access windows within a day and over midnight.
use pigate.Prelude.{
  ℕ, ◌+◌, ◌-◌, ◌*◌, ◌%◌, ◌≡◌, Bool, not, ◌&&◌, ◌||◌, arith, ltb, leb, eqb, if◌then◌else◌,
}
use pigate.Database.Models.{Time}
use pigate.Database.ClockText.{IsValid}

-- `time.Date(0, 1, 1, t.Hour(), t.Minute(), t.Second(), 0, time.UTC)`, in seconds of that day.
abbrev pub on_first_day : Time → ℕ
on_first_day t = t.hour * 3600 + t.minute * 60 + t.second

-- `Equal`, `After` and `Before` of two times on that day.
unfoldable pub is_time_of_day_in_range : Time → Time → Time → Bool
is_time_of_day_in_range current start end =
    let c : ℕ = on_first_day current in
    let s : ℕ = on_first_day start in
    let e : ℕ = on_first_day end in
    if not (ltb e s)
    then (eqb c s || ltb s c) && (eqb c e || ltb c e)
    else eqb c s || ltb s c || ltb c e

abbrev pub day : ℕ
day = 86400

-- The seconds from one time of day to the next occurrence of another.
abbrev pub elapsed : Time → Time → ℕ
elapsed start t = (on_first_day t + day - on_first_day start) % day

-- On a clock that wraps at midnight, the current time is in range exactly when it is reached from
-- the start no later than the end is; in a window over midnight, strictly sooner.
pub is_time_of_day_in_range_lem :
    (current start end : Time)
    → IsValid current
    → IsValid start
    → IsValid end
    → is_time_of_day_in_range current start end ≡ (
        if leb (on_first_day start) (on_first_day end)
        then leb (elapsed start current) (elapsed start end)
        else ltb (elapsed start current) (elapsed start end))
unfolding is_time_of_day_in_range
is_time_of_day_in_range_lem current start end vc vs ve = ground arith
