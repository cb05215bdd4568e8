-- ===== src/Shared/Tests.antt =====
-- The shop's default hours in Ecuador's zone, and the theorems at concrete instants.
use opticutter_api.Prelude.{
  map, ℕ, ◌+◌, ◌-◌, ◌*◌, ◌≤◌, ◌≡◌, ◌↔◌, ◌⊎◌, refl, List, [], ◌∷◌, none, some, arith,
}
use opticutter_api.Shared.Clock.{minutes, to_int, both_ints, day_minutes, clock}
use opticutter_api.Shared.Schedule.{
  StoredDay, day_windows_of, not_iterable_day, stored_window, items, other_bound, not_iterable,
  wrong_length, read_day, Window, by_day, raised, parsed, overlapping_windows, read_windows,
  check_windows, parse_sorted, parse_day, parse_days, parse_schedule, WorkSchedule, to_dict,
  from_dict,
}
use opticutter_api.Shared.ScheduleLaws.{AreWorkdays, from_dict-AreWorkdays, from_dict-to_dict}
use opticutter_api.Shared.Windows.{
  minute, day_span, Zone, IsFixed, local_date, local_midnight, day_windows, windows_from, windows,
  clip, overlap, stay_late, overtime_limit, worked,
}
use opticutter_api.Shared.Intervals.{Any, Lies}
use opticutter_api.Shared.WindowLaws.{IsWorking}
use opticutter_api.Shared.WorkedTime.{overlap_iff, worked_iff}

abbrev hours : WorkSchedule
hours =
    let weekday : List Window = (480, 780) ∷ (840, 1080) ∷ [] in
    record { days = weekday ∷ weekday ∷ weekday ∷ weekday ∷ weekday ∷ ((480, 780) ∷ []) ∷ [] ∷ [] }

hours-AreWorkdays : AreWorkdays hours.days
hours-AreWorkdays = omega arith

-- 08:00 to 24:00 is read; windows that overlap are refused, in whatever order they are stored.
read_clock : minutes (50 ∷ 52 ∷ 58 ∷ 48 ∷ 48 ∷ []) ≡ some 1440
unfolding minutes to_int both_ints day_minutes
read_clock = refl

abbrev two_windows : StoredDay
two_windows = day_windows_of (map stored_window ((540, 600) ∷ (480, 541) ∷ []))

overlapping : parse_schedule (by_day ((2, two_windows) ∷ [])) ≡ raised overlapping_windows
unfolding parse_schedule parse_days read_day parse_day parse_sorted read_windows check_windows
    minutes to_int both_ints day_minutes clock
overlapping = refl

-- A number in place of a day raises TypeError, a window of one end ValueError.
malformed :
    (parse_schedule (by_day ((2, not_iterable_day) ∷ [])) ≡ raised not_iterable)
    × (parse_schedule (by_day ((2, day_windows_of (items (other_bound ∷ []) ∷ [])) ∷ []))
        ≡ raised wrong_length)
unfolding parse_schedule parse_days read_day parse_day parse_sorted read_windows check_windows
malformed = (refl, refl)

from_dict-AreWorkdays_example :
    (s : WorkSchedule) × (from_dict (by_day ((2, not_iterable_day) ∷ [])) ≡ parsed s)
    × AreWorkdays s.days
from_dict-AreWorkdays_example = from_dict-AreWorkdays (by_day ((2, not_iterable_day) ∷ []))

from_dict-to_dict_example : from_dict (to_dict hours) ≡ parsed hours
from_dict-to_dict_example = from_dict-to_dict hours (omega arith)

-- UTC-5.
abbrev guayaquil : Zone
guayaquil = record { to_wall = λ t. t - 18_000_000_000; of_wall = λ w. w + 18_000_000_000 }

guayaquil-IsFixed : IsFixed guayaquil
guayaquil-IsFixed = record { of_wall_lem = λ w. omega arith; of_wall-to_wall = λ t l. omega arith }

-- A wall clock on the second day of the calendar, a Monday.
abbrev at : ℕ → ℕ
at minutes_of_day = 18_000_000_000 + day_span + minutes_of_day * minute

-- From 12:50 to 14:30 the lunch hour does not count; a mark at 18:40 after 17:00 stayed late.
over_lunch :
    overlap guayaquil hours (at 770) (at 870) none ≡ (at 770, at 780) ∷ (at 840, at 870) ∷ []
unfolding overlap clip windows windows_from day_windows local_date local_midnight
over_lunch = refl

late : worked guayaquil hours (at 1020) (at 1120) none ≡ (at 1020, at 1120) ∷ []
unfolding worked stay_late clip windows windows_from day_windows local_date local_midnight
late = refl

overlap_iff_example :
    Any (Lies (at 775)) (overlap guayaquil hours (at 770) (at 870) none)
    ↔ IsWorking guayaquil hours none (at 775)
overlap_iff_example =
    overlap_iff guayaquil guayaquil-IsFixed hours hours-AreWorkdays none (at 770) (at 870) (at 775)
      (omega arith) (omega arith) (omega arith)

worked_iff_example :
    (IsWorking guayaquil hours none (at 775)
      → Any (Lies (at 775)) (worked guayaquil hours (at 770) (at 870) none))
    × (Any (Lies (at 775)) (worked guayaquil hours (at 770) (at 870) none)
        → IsWorking guayaquil hours none (at 775) ⊎ (at 870 ≤ at 775 + overtime_limit))
worked_iff_example =
    worked_iff guayaquil guayaquil-IsFixed hours hours-AreWorkdays none (at 770) (at 870) (at 775)
      (omega arith) (omega arith) (omega arith)
