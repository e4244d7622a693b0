-- ===== src/Format/Relative.antt =====
-- What `formatRelative` shows of the time between two instants.
use guardian_os_ai.Base.{
  ℕ, ◌+◌, ◌-◌, ◌*◌, ◌/◌, ◌≤◌, ◌<◌, String, ◌≡◌, arith, ltb, ◌^^◌, decimal, if◌then◌else◌,
}
use guardian_os_ai.Format.{second, seconds_between, format_delta, format_relative}

pub data AgeUnit : Type 0 where
  seconds minutes hours days : AgeUnit

-- The length of a unit in seconds, how many of them are shown at most, and its letter.
abbrev pub unit_size : AgeUnit → ℕ
unit_size seconds = 1
unit_size minutes = 60
unit_size hours = 3600
unit_size days = 86400

abbrev pub suffix : AgeUnit → String
suffix seconds = "s ago"
suffix minutes = "m ago"
suffix hours = "h ago"
suffix days = "d ago"

-- The ages for which a unit is the largest that fits once.
abbrev pub IsUnitOf : AgeUnit → ℕ → Type 0
IsUnitOf seconds delta = delta < 60
IsUnitOf minutes delta = (60 ≤ delta) × (delta < 3600)
IsUnitOf hours delta = (3600 ≤ delta) × (delta < 86400)
IsUnitOf days delta = 86400 ≤ delta

-- `text` shows the age `delta` as `count` units, rounded down, in the largest unit that fits once.
pub record Shows (text : String) (delta : ℕ) : Type 0 where
  pub count : ℕ
  pub unit : AgeUnit
  pub shown : text ≡ decimal count ^^ suffix unit
  pub at_least : count * unit_size unit ≤ delta
  pub less_than : delta < (count + 1) * unit_size unit
  pub is_unit : IsUnitOf unit delta

-- The unit that the code chooses for an age.
chosen : ℕ → AgeUnit
chosen delta =
    if ltb delta 60
    then seconds
    else if ltb delta 3600
    then minutes
    else if ltb delta 86400
    then hours
    else days

format_delta-Shows : (delta : ℕ) → Shows (format_delta delta) delta
unfolding format_delta chosen
format_delta-Shows delta = record {
  count = delta / unit_size (chosen delta);
  unit = chosen delta;
  shown = ground arith;
  at_least = ground arith;
  less_than = ground arith;
  is_unit = ground arith;
}

-- The age is the time between the two instants, rounded to the nearest second, halves up, and 0 for
-- an instant that is not past. It is shown in the largest of the units second, minute, hour and day
-- that it fills at least once, as a whole number of them, rounded down.
pub format_relative-Shows :
    (epoch now : ℕ)
    → (delta : ℕ) × Shows (format_relative epoch now) delta
      × (delta * second ≤ now - epoch + 500000)
      × (now - epoch + 500000 < (delta + 1) * second)
unfolding format_relative
format_relative-Shows epoch now =
    (seconds_between epoch now, format_delta-Shows (seconds_between epoch now), lower, upper)
  where
    lower : seconds_between epoch now * second ≤ now - epoch + 500000
    lower = unfold seconds_between in omega arith

    upper : now - epoch + 500000 < (seconds_between epoch now + 1) * second
    upper = unfold seconds_between in omega arith
