-- ===== src/Shared/ScheduleLaws.antt =====
-- src/shared/work_schedule.py: what `parse_schedule` accepts, and that a schedule survives being stored.
use opticutter_api.Prelude.{
  true, ℕ, suc, ◌≤◌, ◌<◌, ◌≡◌, refl, ap, ◌∙◌, false, List, [], ◌∷◌, Option, none, some, map, length,
  sort_by, insert_by, sort_by-perm, All, All-perm, leb, ltb, if◌then◌else◌, arith, Bool-cases, inl,
  inr,
}
use mathlib.Core.List.Permᴰ
use opticutter_api.Prelude.Int.{ℤ, pos, negsuc}
use opticutter_api.Cutting.Models.{Text}
use opticutter_api.Shared.Clock.{minutes, both_ints, day_minutes, to_int, minutes-clock}
use opticutter_api.Shared.Schedule.{
  StoredBound, text_bound, other_bound, items, not_iterable_window, StoredDay, falsy_day,
  day_windows_of, not_iterable_day, read_bound, read_item, read_day, is_caught, class_of, Window,
  StoredWindow, Stored, not_a_dict, by_day, ScheduleError, too_many_windows, Parsed, raised, parsed,
  windows_of, read_window, read_windows, window_lt, check_windows, unless_raised, parse_sorted,
  parse_day, add_day, day_keys, parse_days, parse_schedule, stored_window, stored_days,
  default_work_schedule, WorkSchedule, to_dict, from_dict, as_schedule, or_default,
  max_windows_per_day,
}

-- Windows in order, none empty and none into the next.
abbrev pub AreSpaced : ℕ → List Window → Type 0
AreSpaced previous [] = Unit
AreSpaced previous ((start, end) ∷ rest) = (previous ≤ start) × (start < end) × AreSpaced end rest

abbrev pub IsWorkday : List Window → Type 0
IsWorkday ws = AreSpaced 0 ws × All (λ w. w.1 ≤ 1440) ws × (length ws ≤ 3)

abbrev pub AreWorkdays : List (List Window) → Type 0
AreWorkdays days = (length days ≡ 7) × All IsWorkday days

-- A result that is right if there is one.
pub data Ensures {ℓ κ} {A : Type ℓ} (P : A → Type κ) : Parsed A → Type (ℓ ⊔ κ) where
  ensures_raised : (e : ScheduleError) → Ensures P (raised e)
  ensures : (a : A) → P a → Ensures P (parsed a)

day_minutes-le : (h m : ℤ) (n : ℕ) → day_minutes h m ≡ some n → n ≤ 1440
unfolding day_minutes
day_minutes-le (pos h) (pos m) n e = ground arith
day_minutes-le (negsuc h) (pos m) n e = absurd (cc)
day_minutes-le (pos h) (negsuc m) n e = absurd (cc)
day_minutes-le (negsuc h) (negsuc m) n e = absurd (cc)

both_ints-le : (a b : Option ℤ) (n : ℕ) → both_ints a b ≡ some n → n ≤ 1440
unfolding both_ints
both_ints-le (some h) (some m) n e = day_minutes-le h m n e
both_ints-le (some h) none n e = absurd (cc)
both_ints-le none m n e = absurd (cc)

minutes-le : (text : Text) (n : ℕ) → minutes text ≡ some n → n ≤ 1440
unfolding minutes
minutes-le text n e = both_ints-le _ _ n e

abbrev Ends : List Window → Type 0
Ends = All (λ w. w.1 ≤ 1440)

read_window-Ends :
    (o q : Option ℕ) (rest : Parsed (List Window))
    → ((n : ℕ) → q ≡ some n → n ≤ 1440)
    → Ensures Ends rest
    → Ensures Ends (read_window o q rest)
read_window-Ends none q rest h e = ensures_raised _
read_window-Ends (some start) none rest h e = ensures_raised _
read_window-Ends (some start) (some end) _ h (ensures_raised e) = ensures_raised e
read_window-Ends (some start) (some end) _ h (ensures ws k) = ensures _ (h end refl, k)

read_bound-le : (b : StoredBound) (n : ℕ) → read_bound b ≡ some n → n ≤ 1440
read_bound-le (text_bound text) n e = minutes-le text n e
read_bound-le other_bound n e = absurd (cc)

read_item-Ends :
    (w : StoredWindow) (rest : Parsed (List Window))
    → Ensures Ends rest
    → Ensures Ends (read_item w rest)
read_item-Ends not_iterable_window rest h = ensures_raised _
read_item-Ends (items []) rest h = ensures_raised _
read_item-Ends (items (a ∷ [])) rest h = ensures_raised _
read_item-Ends (items (a ∷ b ∷ [])) rest h =
    read_window-Ends (read_bound a) (read_bound b) rest (read_bound-le b) h
read_item-Ends (items (a ∷ b ∷ c ∷ more)) rest h = ensures_raised _

read_windows-Ends : (ws : List StoredWindow) → Ensures Ends (read_windows ws)
unfolding read_windows
read_windows-Ends [] = ensures [] tt
read_windows-Ends (window ∷ rest) = read_item-Ends window _ (read_windows-Ends rest)

read_day-Ends : (day : StoredDay) → Ensures Ends (read_day day)
unfolding read_day
read_day-Ends falsy_day = ensures [] tt
read_day-Ends (day_windows_of ws) = read_windows-Ends ws
read_day-Ends not_iterable_day = ensures_raised _

check_windows-AreSpaced :
    (previous : ℕ) (ws : List Window) → check_windows previous ws ≡ none → AreSpaced previous ws
unfolding check_windows
check_windows-AreSpaced previous [] h = tt
check_windows-AreSpaced previous ((start, end) ∷ rest) h = elim (Bool-cases (leb end start)) [
  | inl e ↦ absurd (ground arith)
  | inr e ↦ elim (Bool-cases (ltb start previous)) [
    | inl d ↦ absurd (ground arith)
    | inr d ↦ (ground arith, ground arith, check_windows-AreSpaced end rest (ground arith))
  ]
]

not-lt : (a b : ℕ) → ltb a b ≡ false → b ≤ a
not-lt a b e = ground arith

parse_sorted-IsWorkday : (ws : List Window) → Ends ws → Ensures IsWorkday (parse_sorted ws)
unfolding parse_sorted
parse_sorted-IsWorkday ws h = elim (Bool-cases (ltb max_windows_per_day (length ws))) [
  | inl e ↦ rw e (ensures_raised _)
  | inr e ↦ rw e (checked e (check_windows 0 ws) refl)
]
  where
    checked :
        ltb max_windows_per_day (length ws) ≡ false
        → (o : Option ScheduleError) → check_windows 0 ws ≡ o
        → Ensures IsWorkday (unless_raised o ws)
    checked e none d = ensures ws (check_windows-AreSpaced 0 ws d, h, not-lt 3 (length ws) e)
    checked e (some e') d = ensures_raised e'

parse_day-IsWorkday : (p : Parsed (List Window)) → Ensures Ends p → Ensures IsWorkday (parse_day p)
unfolding parse_day
parse_day-IsWorkday _ (ensures_raised e) = ensures_raised e
parse_day-IsWorkday _ (ensures ws h) =
    parse_sorted-IsWorkday _ (All-perm (λ w. w.1 ≤ 1440) (Permᴰ.symm (sort_by-perm window_lt ws)) h)

add_day-AreWorkdays :
    (n : ℕ) (p : Parsed (List Window)) (q : Parsed (List (List Window)))
    → Ensures IsWorkday p
    → Ensures (λ days. (length days ≡ n) × All IsWorkday days) q
    → Ensures (λ days. (length days ≡ suc n) × All IsWorkday days) (add_day p q)
add_day-AreWorkdays n _ q (ensures_raised e) k = ensures_raised e
add_day-AreWorkdays n _ _ (ensures day h) (ensures_raised e) = ensures_raised e
add_day-AreWorkdays n _ _ (ensures day h) (ensures days k) = ensures _ (ap suc k.0, (h, k.1))

parse_days-AreWorkdays :
    (raw : List (ℕ × StoredDay)) (keys : List ℕ)
    → Ensures (λ days. (length days ≡ length keys) × All IsWorkday days) (parse_days raw keys)
unfolding parse_days
parse_days-AreWorkdays raw [] = ensures [] (refl, tt)
parse_days-AreWorkdays raw (key ∷ keys) =
    add_day-AreWorkdays _ _ _ (parse_day-IsWorkday _ (read_day-Ends (windows_of raw key)))
      (parse_days-AreWorkdays raw keys)

parse_schedule-AreWorkdays : (raw : Stored) → Ensures AreWorkdays (parse_schedule raw)
unfolding parse_schedule
parse_schedule-AreWorkdays not_a_dict = ensures_raised _
parse_schedule-AreWorkdays (by_day raw) = parse_days-AreWorkdays raw day_keys

default_days : List (List Window)
default_days =
    let weekday : List Window = (480, 780) ∷ (840, 1080) ∷ [] in
    weekday ∷ weekday ∷ weekday ∷ weekday ∷ weekday ∷ ((480, 780) ∷ []) ∷ [] ∷ []

default_is_read : parse_schedule default_work_schedule ≡ parsed default_days
unfolding parse_schedule parse_days read_day parse_day parse_sorted read_windows minutes to_int
    both_ints day_minutes check_windows default_days
default_is_read = refl

caught : (e : ScheduleError) → is_caught (class_of e) ≡ true
unfolding is_caught class_of
caught e = ground arith

-- Whatever value of JSON is stored (no dictionary, days that are no lists, windows that are no pairs, ends that
-- are no clocks), `from_dict` gives a schedule without raising, and one of seven days, each with three windows
-- at most that lie within the day, are not empty and do not overlap, in order.
pub from_dict-AreWorkdays :
    (raw : Stored) → (s : WorkSchedule) × (from_dict raw ≡ parsed s) × AreWorkdays s.days
unfolding from_dict default_days
from_dict-AreWorkdays raw = read _ (parse_schedule-AreWorkdays raw)
  where
    read :
        (p : Parsed (List (List Window)))
        → Ensures AreWorkdays p
        → (s : WorkSchedule) × (or_default p ≡ parsed s) × AreWorkdays s.days
    read _ (ensures_raised e) = (
      record { days = default_days },
      rw (caught e) (ap as_schedule default_is_read),
      omega arith,
    )
    read _ (ensures days h) = (record { days = days }, refl, h)

-- Windows in order are read back as they are.
read_windows-map :
    (previous : ℕ) (ws : List Window)
    → AreSpaced previous ws
    → All (λ w. w.1 ≤ 1440) ws
    → read_windows (map stored_window ws) ≡ parsed ws
unfolding read_windows
read_windows-map previous [] s h = refl
read_windows-map previous ((start, end) ∷ ws) s h =
    rw (minutes-clock start (omega arith))
      (rw (minutes-clock end h.0) (rw (read_windows-map end ws s.2 h.1) refl))

sort_by-AreSpaced :
    (previous : ℕ) (ws : List Window) → AreSpaced previous ws → sort_by window_lt ws ≡ ws
sort_by-AreSpaced previous [] s = refl
sort_by-AreSpaced previous ((start, end) ∷ ws) s =
    ap (insert_by window_lt (start, end)) (sort_by-AreSpaced end ws s.2) ∙ first ws s.2
  where
    first :
        (us : List Window)
        → AreSpaced end us
        → insert_by window_lt (start, end) us ≡ (start, end) ∷ us
    first [] k = refl
    first ((start', end') ∷ us) k = ground arith

AreSpaced-check_windows :
    (previous : ℕ) (ws : List Window) → AreSpaced previous ws → check_windows previous ws ≡ none
unfolding check_windows
AreSpaced-check_windows previous [] s = refl
AreSpaced-check_windows previous ((start, end) ∷ ws) s =
    let later = AreSpaced-check_windows end ws s.2 in ground arith

parse_day-stored :
    (ws : List Window)
    → IsWorkday ws
    → parse_day (read_day (day_windows_of (map stored_window ws))) ≡ parsed ws
unfolding read_day parse_day parse_sorted
parse_day-stored ws h =
    rw (read_windows-map 0 ws h.0 h.1) (
      rw (sort_by-AreSpaced 0 ws h.0) (rw (AreSpaced-check_windows 0 ws h.0) (few (length ws) h.2)))
  where
    few :
        (n : ℕ)
        → n ≤ 3
        → (if ltb max_windows_per_day n then raised too_many_windows else parsed ws) ≡ parsed ws
    few n k = ground arith

-- A schedule in order comes back from storage as it went.
parse_schedule-stored :
    (days : List (List Window))
    → AreWorkdays days
    → parse_schedule (by_day (stored_days day_keys days)) ≡ parsed days
unfolding parse_schedule parse_days stored_days
parse_schedule-stored (a ∷ b ∷ c ∷ d ∷ e ∷ f ∷ g ∷ []) h = rw (parse_day-stored a h.1.0) (
    rw (parse_day-stored b h.1.1.0) (
      rw (parse_day-stored c h.1.1.1.0) (
        rw (parse_day-stored d h.1.1.1.1.0) (
          rw (parse_day-stored e h.1.1.1.1.1.0) (
            rw (parse_day-stored f h.1.1.1.1.1.1.0)
              (rw (parse_day-stored g h.1.1.1.1.1.1.1.0) refl))))))
parse_schedule-stored [] h = absurd (omega arith)
parse_schedule-stored (a ∷ []) h = absurd (omega arith)
parse_schedule-stored (a ∷ b ∷ []) h = absurd (omega arith)
parse_schedule-stored (a ∷ b ∷ c ∷ []) h = absurd (omega arith)
parse_schedule-stored (a ∷ b ∷ c ∷ d ∷ []) h = absurd (omega arith)
parse_schedule-stored (a ∷ b ∷ c ∷ d ∷ e ∷ []) h = absurd (omega arith)
parse_schedule-stored (a ∷ b ∷ c ∷ d ∷ e ∷ f ∷ []) h = absurd (omega arith)
parse_schedule-stored (a ∷ b ∷ c ∷ d ∷ e ∷ f ∷ g ∷ i ∷ rest) h = absurd (omega arith)

-- A schedule of seven days in order, stored by `to_dict`, is read back by `from_dict` as it was.
pub from_dict-to_dict : (s : WorkSchedule) → AreWorkdays s.days → from_dict (to_dict s) ≡ parsed s
unfolding from_dict to_dict
from_dict-to_dict s h = ap or_default (parse_schedule-stored s.days h)
