-- ===== src/Shared/Schedule.antt =====
-- src/shared/work_schedule.py, `parse_schedule`, `from_dict` and `to_dict`: the shop's working hours
-- as they are stored and as minutes after midnight. What is stored is a value of JSON, read as the loops
-- read it: a dictionary by day (Monday 0 to Sunday 6) or something else; of a day what its loop runs over, of a
-- window what unpacking gives. The loops also run over a text, by its characters, and over a
-- dictionary, by its keys, which is how those values are written here.
use opticutter_api.Prelude.{
  ℕ, Bool, true, false, List, [], ◌∷◌, Option, none, some, map, length, sort_by, leb, ltb, ◌==◌,
  if◌then◌else◌,
}
use opticutter_api.Cutting.Models.{Text}
use opticutter_api.Shared.Clock.{minutes, clock}

-- Minutes after midnight, from and to.
abbrev pub Window : Type 0
Window = ℕ × ℕ

-- One end of a window. `_minutes` reads `str(value)`: that of a number, of a truth value, of `None`, of a
-- list or of a dictionary is no clock.
pub data StoredBound : Type 0 where
  text_bound : Text → StoredBound
  other_bound : StoredBound

pub data StoredWindow : Type 0 where
  items : List StoredBound → StoredWindow
  not_iterable_window : StoredWindow

-- `falsy_day` is a missing day and one of `None`, `0`, `False`, an empty text, list or dictionary.
pub data StoredDay : Type 0 where
  falsy_day : StoredDay
  day_windows_of : List StoredWindow → StoredDay
  not_iterable_day : StoredDay

pub data Stored : Type 0 where
  not_a_dict : Stored
  by_day : List (ℕ × StoredDay) → Stored

pub data ScheduleError : Type 0 where
  schedule_not_a_dict bad_clock too_many_windows empty_window overlapping_windows : ScheduleError
  wrong_length not_iterable : ScheduleError

-- The classes of exceptions that reading a schedule raises.
pub data Raised : Type 0 where
  value_error type_error : Raised

unfoldable pub class_of : ScheduleError → Raised
class_of not_iterable = type_error
class_of schedule_not_a_dict = value_error
class_of bad_clock = value_error
class_of too_many_windows = value_error
class_of empty_window = value_error
class_of overlapping_windows = value_error
class_of wrong_length = value_error

-- `except (ValueError, TypeError, AttributeError)`; nothing here raises the last.
unfoldable pub is_caught : Raised → Bool
is_caught value_error = true
is_caught type_error = true

pub data Parsed {ℓ} (A : Type ℓ) : Type ℓ where
  raised : ScheduleError → Parsed A
  parsed : A → Parsed A

abbrev pub max_windows_per_day : ℕ
max_windows_per_day = 3

-- `raw.get(key) or []`
abbrev pub windows_of : List (ℕ × StoredDay) → ℕ → StoredDay
windows_of [] key = falsy_day
windows_of ((day, windows) ∷ rest) key = if day == key then windows else windows_of rest key

abbrev pub read_window : Option ℕ → Option ℕ → Parsed (List Window) → Parsed (List Window)
read_window none end rest = raised bad_clock
read_window (some start) none rest = raised bad_clock
read_window (some start) (some end) (raised e) = raised e
read_window (some start) (some end) (parsed ws) = parsed ((start, end) ∷ ws)

abbrev pub read_bound : StoredBound → Option ℕ
read_bound (text_bound text) = minutes text
read_bound other_bound = none

-- `start, end` of one element of a day.
abbrev pub read_item : StoredWindow → Parsed (List Window) → Parsed (List Window)
read_item not_iterable_window rest = raised not_iterable
read_item (items []) rest = raised wrong_length
read_item (items (start ∷ [])) rest = raised wrong_length
read_item (items (start ∷ end ∷ [])) rest = read_window (read_bound start) (read_bound end) rest
read_item (items (start ∷ end ∷ further ∷ more)) rest = raised wrong_length

-- `(_minutes(start), _minutes(end)) for start, end in …`
unfoldable pub read_windows : List StoredWindow → Parsed (List Window)
read_windows [] = parsed []
read_windows (window ∷ rest) = read_item window (read_windows rest)

unfoldable pub read_day : StoredDay → Parsed (List Window)
read_day falsy_day = parsed []
read_day (day_windows_of windows) = read_windows windows
read_day not_iterable_day = raised not_iterable

-- Python's order of pairs.
abbrev pub window_lt : Window → Window → Bool
window_lt a b = if ltb (a.0) (b.0) then true else if a.0 == b.0 then ltb (a.1) (b.1) else false

-- The loop over a day's windows, after one that ends at `previous`.
unfoldable pub check_windows : ℕ → List Window → Option ScheduleError
check_windows previous [] = none
check_windows previous ((start, end) ∷ rest) =
    let later = check_windows end rest in
    if leb end start
    then some empty_window
    else if ltb start previous
    then some overlapping_windows
    else later

abbrev pub unless_raised {ℓ} : {A : Type ℓ} → Option ScheduleError → A → Parsed A
unless_raised none a = parsed a
unless_raised (some e) a = raised e

unfoldable pub parse_sorted : List Window → Parsed (List Window)
parse_sorted windows =
    if ltb max_windows_per_day (length windows)
    then raised too_many_windows
    else unless_raised (check_windows 0 windows) windows

unfoldable pub parse_day : Parsed (List Window) → Parsed (List Window)
parse_day (raised e) = raised e
parse_day (parsed windows) = parse_sorted (sort_by window_lt windows)

abbrev pub add_day :
    Parsed (List Window) → Parsed (List (List Window)) → Parsed (List (List Window))
add_day (raised e) days = raised e
add_day (parsed day) (raised e) = raised e
add_day (parsed day) (parsed days) = parsed (day ∷ days)

abbrev pub day_keys : List ℕ
day_keys = 0 ∷ 1 ∷ 2 ∷ 3 ∷ 4 ∷ 5 ∷ 6 ∷ []

-- `for key in …: …`
unfoldable pub parse_days : List (ℕ × StoredDay) → List ℕ → Parsed (List (List Window))
parse_days raw [] = parsed []
parse_days raw (key ∷ keys) =
    add_day (parse_day (read_day (windows_of raw key))) (parse_days raw keys)

unfoldable pub parse_schedule : Stored → Parsed (List (List Window))
parse_schedule not_a_dict = raised schedule_not_a_dict
parse_schedule (by_day raw) = parse_days raw day_keys

abbrev pub stored_window : Window → StoredWindow
stored_window w = items (text_bound (clock (w.0)) ∷ text_bound (clock (w.1)) ∷ [])

-- `zip(DAY_KEYS, self.days)`
unfoldable pub stored_days : List ℕ → List (List Window) → List (ℕ × StoredDay)
stored_days [] days = []
stored_days (key ∷ keys) [] = []
stored_days (key ∷ keys) (day ∷ days) =
    (key, day_windows_of (map stored_window day)) ∷ stored_days keys days

-- 08:00 to 13:00 and 14:00 to 18:00 from Monday to Friday, and the morning of Saturday.
abbrev pub default_work_schedule : Stored
default_work_schedule =
    let eight : Text = 48 ∷ 56 ∷ 58 ∷ 48 ∷ 48 ∷ [] in
    let one : Text = 49 ∷ 51 ∷ 58 ∷ 48 ∷ 48 ∷ [] in
    let two : Text = 49 ∷ 52 ∷ 58 ∷ 48 ∷ 48 ∷ [] in
    let six : Text = 49 ∷ 56 ∷ 58 ∷ 48 ∷ 48 ∷ [] in
    let from_to : Text → Text → StoredWindow =
      λ start end. items (text_bound start ∷ text_bound end ∷ []) in
    let weekday : StoredDay = day_windows_of (from_to eight one ∷ from_to two six ∷ []) in
    by_day (
      (0, weekday)
      ∷ (1, weekday)
      ∷ (2, weekday)
      ∷ (3, weekday)
      ∷ (4, weekday)
      ∷ (5, day_windows_of (from_to eight one ∷ []))
      ∷ (6, day_windows_of [])
      ∷ [])

-- `WorkSchedule`
pub record WorkSchedule : Type 0 where
  pub days : List (List Window)

unfoldable pub to_dict : WorkSchedule → Stored
to_dict s = by_day (stored_days day_keys s.days)

abbrev pub as_schedule : Parsed (List (List Window)) → Parsed WorkSchedule
as_schedule (raised e) = raised e
as_schedule (parsed days) = parsed (record { days = days })

abbrev pub or_default : Parsed (List (List Window)) → Parsed WorkSchedule
or_default (raised e) =
    if is_caught (class_of e) then as_schedule (parse_schedule default_work_schedule) else raised e
or_default (parsed days) = parsed (record { days = days })

unfoldable pub from_dict : Stored → Parsed WorkSchedule
from_dict raw = or_default (parse_schedule raw)
