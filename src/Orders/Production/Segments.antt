-- ===== src/Orders/Production/Segments.antt =====
-- src/modules/orders/production.py, `_worked_stretches`, `cut_segments`, `activity_seconds` and
-- `clocked_seconds`: the stretches of a timeline that count as work.
use opticutter_api.Prelude.{
  ℕ, ◌-◌, max, min, Bool, true, false, not, ◌&&◌, List, [], ◌∷◌, ◌++◌, Option, none, some, map,
  sort_by, filter_by, sum_of, leb, ltb, ◌==◌, if◌then◌else◌,
}
use opticutter_api.Shared.Schedule.{WorkSchedule}
use opticutter_api.Shared.Windows.{Zone, Interval, OpenDays, worked}
use opticutter_api.Orders.Production.Days.{loading, sawing, WorkSegment}

pub data EventKind : Type 0 where
  take mark pause resume : EventKind

abbrev pub kind_order : EventKind → ℕ
kind_order take = 0
kind_order resume = 1
kind_order mark = 2
kind_order pause = 3

pub record TimelineEvent : Type 0 where
  pub at : ℕ
  pub kind : EventKind
  pub user_id : Option ℕ

-- `(e.at, _KIND_ORDER[e.kind])`
abbrev pub event_lt : TimelineEvent → TimelineEvent → Bool
event_lt a b =
    if ltb a.at b.at
    then true
    else if a.at == b.at
    then ltb (kind_order a.kind) (kind_order b.kind)
    else false

abbrev pub is_mark : EventKind → Bool
is_mark mark = true
is_mark take = false
is_mark pause = false
is_mark resume = false

-- `kind not in (mark, pause)`, negated, and `kind is pause`.
abbrev pub closes_work : EventKind → Bool
closes_work mark = true
closes_work pause = true
closes_work take = false
closes_work resume = false

abbrev pub is_pause : EventKind → Bool
is_pause pause = true
is_pause take = false
is_pause mark = false
is_pause resume = false

-- A stretch and the event that closes it.
pub record Stretch : Type 0 where
  pub start : ℕ
  pub end : ℕ
  pub closing : TimelineEvent

abbrev pub stretch_to : TimelineEvent → Interval → Stretch
stretch_to cur i = record { start = i.0; end = i.1; closing = cur }

module _ (z : Zone) (schedule : WorkSchedule) (open_days : OpenDays) where
  -- The body of the loop over consecutive events.
  unfoldable pub stretches_between : TimelineEvent → TimelineEvent → List Stretch
  stretches_between prev cur =
      if closes_work cur.kind && not (is_pause prev.kind)
      then map (stretch_to cur) (worked z schedule prev.at cur.at open_days)
      else []

  unfoldable pub stretches_after : TimelineEvent → List TimelineEvent → List Stretch
  stretches_after prev [] = []
  stretches_after prev (cur ∷ rest) = stretches_between prev cur ++ stretches_after cur rest

  abbrev pub stretches_of : List TimelineEvent → List Stretch
  stretches_of [] = []
  stretches_of (e ∷ es) = stretches_after e es

  unfoldable pub worked_stretches : List TimelineEvent → List Stretch
  worked_stretches events = stretches_of (sort_by event_lt events)

-- `[e.at for e in events if e.kind is EventKind.mark]`
abbrev pub mark_times : List TimelineEvent → List ℕ
mark_times events = map (λ e. e.at) (filter_by (λ e. is_mark e.kind) events)

-- `min` and `max` of a list that is not empty.
abbrev pub minimum : ℕ → List ℕ → ℕ
minimum x [] = x
minimum x (y ∷ ys) = min x (minimum y ys)

abbrev pub maximum : ℕ → List ℕ → ℕ
maximum x [] = x
maximum x (y ∷ ys) = max x (maximum y ys)

abbrev pub segment_of : ℕ → Stretch → WorkSegment
segment_of first_mark s = record {
  start = s.start;
  end = s.end;
  phase = if leb s.closing.at first_mark then loading else sawing;
  user_id = s.closing.user_id;
}

module _ (z : Zone) (schedule : WorkSchedule) (open_days : OpenDays) where
  unfoldable pub segments_by : List TimelineEvent → List ℕ → List WorkSegment
  segments_by events [] = []
  segments_by events (m ∷ ms) =
      map (segment_of (minimum m ms))
        (worked_stretches z schedule open_days (filter_by (λ e. leb e.at (maximum m ms)) events))

  unfoldable pub cut_segments : List TimelineEvent → List WorkSegment
  cut_segments events = segments_by events (mark_times events)

abbrev pub min_clocked : ℕ
min_clocked = 60_000_000

-- A close before its start is under the minimum, as the difference stops at 0 here.
unfoldable pub clocked_seconds : Option ℕ → Option ℕ → Option ℕ
clocked_seconds none finished_at = none
clocked_seconds (some started_at) none = none
clocked_seconds (some started_at) (some finished_at) =
    if ltb (finished_at - started_at) min_clocked then none else some (finished_at - started_at)

abbrev pub event : EventKind → ℕ → TimelineEvent
event kind at = record { at = at; kind = kind; user_id = none }

abbrev pub pause_events : List (ℕ × Option ℕ) → List TimelineEvent
pause_events [] = []
pause_events ((paused_at, none) ∷ pauses) = event pause paused_at ∷ pause_events pauses
pause_events ((paused_at, some resumed_at) ∷ pauses) =
    event pause paused_at ∷ event resume resumed_at ∷ pause_events pauses

abbrev pub stretch_seconds : List Stretch → ℕ
stretch_seconds = sum_of (λ s. s.end - s.start)

module _ (z : Zone) (schedule : WorkSchedule) (open_days : OpenDays) where
  unfoldable pub activity_seconds : Option ℕ → Option ℕ → List (ℕ × Option ℕ) → Option ℕ
  activity_seconds none finished_at pauses = none
  activity_seconds (some started_at) none pauses = none
  activity_seconds (some started_at) (some finished_at) pauses =
      elim (clocked_seconds (some started_at) (some finished_at)) [
        | none ↦ none
        | some span ↦ some (
            stretch_seconds (
              worked_stretches z schedule open_days
                (event take started_at ∷ event mark finished_at ∷ pause_events pauses)))
      ]
