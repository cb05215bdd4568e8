-- ===== src/Orders/Production/Days.antt =====
-- src/modules/orders/production.py, `_split_by_day`, `_union_seconds`, `_clip`, `work_by_day` and
-- `paused_by_day`. Spans are microseconds. The fuel of `split_by_day` is the number of its rounds;
-- `none` means that it ran out.
use opticutter_api.Prelude.{
  ℕ, zero, suc, ◌+◌, ◌-◌, max, min, List, [], ◌∷◌, ◌++◌, Option, none, some, map, sort_by, ltb,
  ◌==◌, if◌then◌else◌,
}
use opticutter_api.Shared.Schedule.{window_lt, WorkSchedule}
use opticutter_api.Shared.Windows.{Zone, Interval, OpenDays, local_date, local_midnight, overlap}

pub data Phase : Type 0 where
  loading sawing : Phase

-- `user_id` is null where nobody registered the event.
pub record WorkSegment : Type 0 where
  pub start : ℕ
  pub end : ℕ
  pub phase : Phase
  pub user_id : Option ℕ

pub record DayWork : Type 0 where
  pub day : ℕ
  pub loading_seconds : ℕ
  pub sawing_seconds : ℕ

abbrev pub work_seconds : DayWork → ℕ
work_seconds d = d.loading_seconds + d.sawing_seconds

abbrev pub cons_piece : Interval → Option (List Interval) → Option (List Interval)
cons_piece i none = none
cons_piece i (some is) = some (i ∷ is)

unfoldable pub split_by_day : Zone → ℕ → ℕ → ℕ → Option (List Interval)
split_by_day z zero start end = none
split_by_day z (suc fuel) start end =
    let cut = min end (local_midnight z (local_date z start + 1)) in
    let rest = split_by_day z fuel cut end in
    if ltb start end then cons_piece (start, cut) rest else some []

-- A round for each day of the span, and one that finds nothing left.
abbrev pub split_fuel : Zone → ℕ → ℕ → ℕ
split_fuel z start end = suc (suc (local_date z end - local_date z start))

-- The loop, `reach` being how far the intervals before have come.
unfoldable pub union_from : Option ℕ → List Interval → ℕ
union_from reach [] = 0
union_from none ((start, end) ∷ rest) = end - start + union_from (some end) rest
union_from (some reach) ((start, end) ∷ rest) =
    let further = union_from (some end) rest in
    let same = union_from (some reach) rest in
    if ltb reach start
    then end - start + further
    else if ltb reach end
    then end - reach + further
    else same

unfoldable pub union_seconds : List Interval → ℕ
union_seconds intervals = union_from none (sort_by window_lt intervals)

abbrev pub raised_to : Option ℕ → ℕ → ℕ
raised_to none start = start
raised_to (some lower) start = max start lower

abbrev pub lowered_to : Option ℕ → ℕ → ℕ
lowered_to none end = end
lowered_to (some upper) end = min end upper

-- `_clip`
unfoldable pub clip_span : ℕ → ℕ → Option ℕ → Option ℕ → Option Interval
clip_span start end lower upper =
    let from = raised_to lower start in
    let to = lowered_to upper end in if ltb from to then some (from, to) else none

-- The intervals of one business day, by phase; the days in the order in which they came up.
pub record DayPieces : Type 0 where
  pub day : ℕ
  pub loading_pieces : List Interval
  pub sawing_pieces : List Interval

abbrev pub add_to : Phase → Interval → DayPieces → DayPieces
add_to loading piece d = record d { loading_pieces = d.loading_pieces ++ piece ∷ [] }
add_to sawing piece d = record d { sawing_pieces = d.sawing_pieces ++ piece ∷ [] }

-- `by_day[day][phase].append(piece)` of a `defaultdict`.
unfoldable pub add_piece : ℕ → Phase → Interval → List DayPieces → List DayPieces
add_piece day phase piece [] =
    add_to phase piece (record { day = day; loading_pieces = []; sawing_pieces = [] }) ∷ []
add_piece day phase piece (d ∷ ds) =
    if d.day == day then add_to phase piece d ∷ ds else d ∷ add_piece day phase piece ds

unfoldable pub add_pieces : Zone → Phase → List Interval → List DayPieces → List DayPieces
add_pieces z phase [] days = days
add_pieces z phase (piece ∷ pieces) days =
    add_pieces z phase pieces (add_piece (local_date z (piece.0)) phase piece days)

unfoldable pub add_split :
    Zone → Phase → Option (List Interval) → List DayPieces → Option (List DayPieces)
add_split z phase none days = none
add_split z phase (some pieces) days = some (add_pieces z phase pieces days)

unfoldable pub add_span : Zone → Phase → Option Interval → List DayPieces → Option (List DayPieces)
add_span z phase none days = some days
add_span z phase (some (from, to)) days =
    add_split z phase (split_by_day z (split_fuel z from to) from to) days

-- `None` of the bounds is no bound.
unfoldable pub collect :
    Zone
    → Option ℕ
    → Option ℕ
    → List WorkSegment
    → Option (List DayPieces)
    → Option (List DayPieces)
collect z start end [] days = days
collect z start end (s ∷ segments) none = none
collect z start end (s ∷ segments) (some days) =
    collect z start end segments (add_span z s.phase (clip_span s.start s.end start end) days)

unfoldable pub day_work : DayPieces → DayWork
day_work d =
    let sawing = union_seconds d.sawing_pieces in
    let total = union_seconds (d.sawing_pieces ++ d.loading_pieces) in
    record { day = d.day; loading_seconds = total - sawing; sawing_seconds = sawing }

abbrev pub each_day {ℓ} : {A : Type ℓ} → (DayPieces → A) → Option (List DayPieces) → Option (List A)
each_day f none = none
each_day f (some days) = some (map f days)

unfoldable pub work_by_day : Zone → List WorkSegment → Option ℕ → Option ℕ → Option (List DayWork)
work_by_day z segments start end = each_day day_work (collect z start end segments (some []))

-- The intervals of a pause that fall in working hours, by the day they begin on.
unfoldable pub add_windows :
    Zone → List Interval → Option (List DayPieces) → Option (List DayPieces)
add_windows z [] days = days
add_windows z ((from, to) ∷ rest) none = none
add_windows z ((from, to) ∷ rest) (some days) =
    add_windows z rest (add_split z sawing (split_by_day z (split_fuel z from to) from to) days)

unfoldable pub add_pause :
    Zone
    → WorkSchedule
    → OpenDays
    → Option Interval
    → Option (List DayPieces)
    → Option (List DayPieces)
add_pause z s open_days none days = days
add_pause z s open_days (some (from, to)) days = add_windows z (overlap z s from to open_days) days

unfoldable pub collect_pauses :
    Zone
    → WorkSchedule
    → OpenDays
    → Option ℕ
    → Option ℕ
    → List Interval
    → Option (List DayPieces)
    → Option (List DayPieces)
collect_pauses z s open_days start end [] days = days
collect_pauses z s open_days start end ((paused_at, resumed_at) ∷ pauses) days =
    collect_pauses z s open_days start end pauses
      (add_pause z s open_days (clip_span paused_at resumed_at start end) days)

-- A day and the time it was paused. The one list of a day is the sawing one here.
abbrev pub paused_day : DayPieces → ℕ × ℕ
paused_day d = (d.day, union_seconds d.sawing_pieces)

unfoldable pub paused_by_day :
    Zone → List Interval → WorkSchedule → OpenDays → Option ℕ → Option ℕ → Option (List (ℕ × ℕ))
paused_by_day z pauses s open_days start end =
    each_day paused_day (collect_pauses z s open_days start end pauses (some []))
