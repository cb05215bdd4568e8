-- ===== src/Orders/Production/Tests.antt =====
-- A day at the saw, and the theorems at it. Instants are minutes of a Monday.
use opticutter_api.Prelude.{ℕ, ◌+◌, ◌-◌, ◌*◌, ◌≤◌, ◌≡◌, refl, List, [], ◌∷◌, none, some, All, arith}
use opticutter_api.Shared.Schedule.{Window, WorkSchedule}
use opticutter_api.Shared.Windows.{minute, day_span, Zone, IsFixed, Interval}
use opticutter_api.Orders.Production.Days.{
  Phase, loading, sawing, WorkSegment, DayWork, work_seconds, split_by_day, split_fuel, union_from,
  union_seconds, work_by_day,
}
use opticutter_api.Orders.Production.Union.{is_covered, count, union_seconds-count}
use opticutter_api.Orders.Production.DayLaws.{AreDays, split_by_day-AreDays}
use opticutter_api.Orders.Production.DayTotals.{AreApartDays, work_by_day-le}
use opticutter_api.Orders.Production.Segments.{
  TimelineEvent, EventKind, take, mark, pause, resume, cut_segments, mark_times,
}
use opticutter_api.Orders.Production.SegmentLaws.{IsCutTime, cut_segments-IsCutTime}

abbrev hours : WorkSchedule
hours =
    let weekday : List Window = (480, 780) ∷ (840, 1080) ∷ [] in
    record { days = weekday ∷ weekday ∷ weekday ∷ weekday ∷ weekday ∷ ((480, 780) ∷ []) ∷ [] ∷ [] }

abbrev utc_5 : Zone
utc_5 = record { to_wall = λ t. t - 18_000_000_000; of_wall = λ w. w + 18_000_000_000 }

utc_5-IsFixed : IsFixed utc_5
utc_5-IsFixed = record { of_wall_lem = λ w. omega arith; of_wall-to_wall = λ t l. omega arith }

abbrev at : ℕ → ℕ
at minutes_of_day = 18_000_000_000 + day_span + minutes_of_day * minute

-- 3 to 7 and 5 to 9 are six instants.
overlapping_union : union_seconds ((5, 9) ∷ (3, 7) ∷ []) ≡ 6
unfolding union_seconds union_from
overlapping_union = refl

union_seconds-count_example :
    union_seconds ((5, 9) ∷ (3, 7) ∷ []) ≡ count (is_covered ((5, 9) ∷ (3, 7) ∷ [])) 0 12
union_seconds-count_example = union_seconds-count 12 ((5, 9) ∷ (3, 7) ∷ []) (omega arith)

-- From Monday at 22:00 to Tuesday at 02:00.
split_by_day-AreDays_example :
    (pieces : List Interval) × (split_by_day utc_5
        (split_fuel utc_5 (at 1320) (at 1560))
        (at 1320)
        (at 1560)
      ≡ some pieces)
    × AreDays utc_5 (at 1320) (at 1560) pieces
split_by_day-AreDays_example =
    split_by_day-AreDays utc_5 utc_5-IsFixed (at 1320) (at 1560) (omega arith) (omega arith)

abbrev segment : Phase → ℕ → ℕ → WorkSegment
segment phase from to = record { start = at from; end = at to; phase = phase; user_id = none }

work_by_day-le_example :
    (days : List DayWork) × (work_by_day utc_5
        (segment loading 480 500 ∷ segment sawing 490 600 ∷ [])
        none
        none
      ≡ some days)
    × AreApartDays (λ d. d.day) days
    × All (λ d. work_seconds d ≤ day_span) days
work_by_day-le_example =
    work_by_day-le utc_5 utc_5-IsFixed (segment loading 480 500 ∷ segment sawing 490 600 ∷ []) none
      none (omega arith)

abbrev event_at : EventKind → ℕ → TimelineEvent
event_at kind minutes_of_day = record { at = at minutes_of_day; kind = kind; user_id = some 7 }

abbrev morning : List TimelineEvent
morning =
    event_at take 480
    ∷ event_at mark 700
    ∷ event_at pause 520
    ∷ event_at resume 600
    ∷ event_at mark 510
    ∷ []

cut_segments-IsCutTime_example :
    IsCutTime (at 480) (cut_segments utc_5 hours none morning) (mark_times morning)
cut_segments-IsCutTime_example =
    cut_segments-IsCutTime utc_5 utc_5-IsFixed hours (omega arith) none (at 480) morning
      (omega arith)
