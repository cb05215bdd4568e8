-- ===== src/Shared/Windows.antt =====
-- src/shared/business_time.py, `local_date` and `local_midnight_utc`, and src/shared/work_schedule.py,
-- `windows`, `overlap`, `worked` and `seconds`. Instants and spans are whole microseconds, what `datetime`
-- resolves; days are ordinals. `ZoneInfo`, which is the interpreter's, is a parameter.
use opticutter_api.Prelude.{
  ℕ, zero, suc, ◌+◌, ◌-◌, ◌*◌, ◌/◌, ◌%◌, ◌≤◌, ◌≡◌, max, min, Bool, true, ◌&&◌, List, [], ◌∷◌, ◌++◌,
  Option, none, some, map, get_elem?, any_by, sum_of, leb, ltb, if◌then◌else◌,
}
use opticutter_api.Shared.Schedule.{Window, WorkSchedule}

abbrev pub minute : ℕ
minute = 60_000_000

abbrev pub day_span : ℕ
day_span = 86_400_000_000

-- The business's wall clock of an instant, and the instant of a wall clock.
pub record Zone : Type 0 where
  pub to_wall : ℕ → ℕ
  pub of_wall : ℕ → ℕ

-- An offset from UTC that never changes, as Ecuador's has not since 1993; `of_wall 0` is the first
-- instant that has a wall clock here.
pub record IsFixed (z : Zone) : Type 0 where
  pub of_wall_lem : (w : ℕ) → z.of_wall w ≡ z.of_wall 0 + w
  pub of_wall-to_wall : (t : ℕ) → z.of_wall 0 ≤ t → z.of_wall (z.to_wall t) ≡ t

unfoldable pub local_date : Zone → ℕ → ℕ
local_date z t = z.to_wall t / day_span

unfoldable pub local_midnight : Zone → ℕ → ℕ
local_midnight z day = z.of_wall (day * day_span)

-- `date.weekday()`: the first day of the calendar is a Monday.
abbrev pub weekday : ℕ → ℕ
weekday day = (day + 6) % 7

-- From and to.
abbrev pub Interval : Type 0
Interval = ℕ × ℕ

abbrev pub OpenDays : Type 0
OpenDays = Option (ℕ → Bool)

abbrev pub is_open_day : OpenDays → ℕ → Bool
is_open_day none day = true
is_open_day (some open_days) day = open_days day

-- A schedule has seven days.
abbrev pub windows_on : WorkSchedule → ℕ → List Window
windows_on s day = elim (get_elem? s.days (weekday day)) [ none ↦ [] | some ws ↦ ws ]

abbrev pub window_at : ℕ → Window → Interval
window_at midnight w = (midnight + w.0 * minute, midnight + w.1 * minute)

unfoldable pub day_windows : Zone → WorkSchedule → OpenDays → ℕ → List Interval
day_windows z s open_days day =
    if is_open_day open_days day
    then map (window_at (local_midnight z day)) (windows_on s day)
    else []

-- `n` days from `day` on.
unfoldable pub windows_from : Zone → WorkSchedule → OpenDays → ℕ → ℕ → List Interval
windows_from z s open_days day zero = []
windows_from z s open_days day (suc n) =
    day_windows z s open_days day ++ windows_from z s open_days (suc day) n

-- `while day <= last`, from the day before to the day after.
unfoldable pub windows : Zone → WorkSchedule → ℕ → ℕ → OpenDays → List Interval
windows z s start end open_days =
    let day = local_date z start - 1 in
    let last = local_date z end + 1 in windows_from z s open_days day (last + 1 - day)

unfoldable pub clip : ℕ → ℕ → List Interval → List Interval
clip start end [] = []
clip start end ((opens, closes) ∷ rest) =
    let later = clip start end rest in
    if ltb start closes && ltb opens end then (max start opens, min end closes) ∷ later else later

unfoldable pub overlap : Zone → WorkSchedule → ℕ → ℕ → OpenDays → List Interval
overlap z s start end open_days =
    if leb end start then [] else clip start end (windows z s start end open_days)

abbrev pub overtime_limit : ℕ
overtime_limit = 3_600_000_000

-- `pieces[-1] = (pieces[-1][0], end)` if it ends within the limit.
unfoldable pub stay_late : ℕ → List Interval → List Interval
stay_late end [] = []
stay_late end ((from, to) ∷ []) =
    if leb (end - to) overtime_limit then (from, end) ∷ [] else (from, to) ∷ []
stay_late end (i ∷ j ∷ rest) = i ∷ stay_late end (j ∷ rest)

unfoldable pub worked : Zone → WorkSchedule → ℕ → ℕ → OpenDays → List Interval
worked z s start end open_days =
    if leb end start
    then []
    else if leb (end - start) overtime_limit
    then (start, end) ∷ []
    else (let pieces = clip start end (windows z s start end open_days) in
        if any_by (λ w. leb (w.0) end && ltb end (w.1)) (windows z s start end open_days)
        then pieces
        else stay_late end pieces)

-- No interval ends before it begins.
abbrev pub seconds : List Interval → ℕ
seconds = sum_of (λ i. i.1 - i.0)
