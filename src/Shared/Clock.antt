-- ===== src/Shared/Clock.antt =====
-- src/shared/work_schedule.py, `_minutes` and `_clock`: a time of day as text. Text is a list of code
-- points; of what Python's `int` reads, digits and spaces beyond ASCII are left out.
use opticutter_api.Prelude.{
  ℕ, ◌+◌, ◌-◌, ◌*◌, ◌/◌, ◌%◌, ◌≤◌, ◌<◌, ◌≡◌, Bool, true, false, ◌&&◌, ◌||◌, [], ◌∷◌, ◌++◌, Option,
  none, some, leb, ltb, ◌==◌, if◌then◌else◌, arith,
}
use opticutter_api.Prelude.Int.{ℤ, pos, negsuc, sub_ℕ}
use opticutter_api.Cutting.Models.{Text}

abbrev pub is_space : ℕ → Bool
is_space c = (leb 9 c && leb c 13) || (leb 28 c && leb c 32)

abbrev pub is_digit : ℕ → Bool
is_digit c = leb 48 c && leb c 57

-- `str.strip`, from the left and from the right.
abbrev pub strip_left : Text → Text
strip_left [] = []
strip_left (c ∷ cs) = if is_space c then strip_left cs else c ∷ cs

abbrev pub strip_right : Text → Text
strip_right [] = []
strip_right (c ∷ cs) =
    let rest = strip_right cs in
    elim rest [ [] ↦ if is_space c then [] else c ∷ [] | d ∷ ds ↦ c ∷ d ∷ ds ]

-- Digits with single underscores between them; `after_digit` says what the last one was.
abbrev pub digits : ℕ → Bool → Text → Option ℕ
digits acc after_digit [] = if after_digit then some acc else none
digits acc after_digit (c ∷ cs) =
    let value = digits (10 * acc + (c - 48)) true cs in
    let gap = digits acc false cs in
    if is_digit c then value else if (c == 95) && after_digit then gap else none

abbrev pub negated : Option ℕ → Option ℤ
negated none = none
negated (some n) = some (sub_ℕ 0 n)

abbrev pub positive : Option ℕ → Option ℤ
positive none = none
positive (some n) = some (pos n)

abbrev pub signed : Text → Option ℤ
signed [] = none
signed (c ∷ cs) =
    if c == 45
    then negated (digits 0 false cs)
    else if c == 43
    then positive (digits 0 false cs)
    else positive (digits 0 false (c ∷ cs))

-- `int(text)`, `none` where it raises.
unfoldable pub to_int : Text → Option ℤ
to_int text = signed (strip_right (strip_left text))

-- `text.partition(":")`, without the separator.
abbrev pub partition_colon : Text → Text × Text
partition_colon [] = ([], [])
partition_colon (c ∷ cs) =
    let rest = partition_colon cs in if c == 58 then ([], cs) else (c ∷ rest.0, rest.1)

-- The total of hours and minutes where it is a time of the day.
unfoldable pub day_minutes : ℤ → ℤ → Option ℕ
day_minutes (pos h) (pos m) = if ltb m 60 && leb (h * 60 + m) 1440 then some (h * 60 + m) else none
day_minutes (negsuc h) (pos m) = none
day_minutes h (negsuc m) = none

unfoldable pub both_ints : Option ℤ → Option ℤ → Option ℕ
both_ints (some h) (some m) = day_minutes h m
both_ints (some h) none = none
both_ints none m = none

-- `_minutes`
unfoldable pub minutes : Text → Option ℕ
minutes text = let parts = partition_colon text in both_ints (to_int (parts.0)) (to_int (parts.1))

-- `f"{n:02d}"` below a hundred, which all the numbers of a clock are.
abbrev pub two_digits : ℕ → Text
two_digits n = (48 + n / 10) ∷ (48 + n % 10) ∷ []

-- `_clock`
unfoldable pub clock : ℕ → Text
clock m = two_digits (m / 60) ++ (58 ∷ two_digits (m % 60))

module _ (a b : ℕ) (low : a < 10) (high : b < 10) where
  two_digits_int : to_int ((48 + a) ∷ (48 + b) ∷ []) ≡ some (pos (10 * a + b))
  unfolding to_int
  two_digits_int = ground arith

  partition_colon_two :
      (rest : Text)
      → partition_colon ((48 + a) ∷ (48 + b) ∷ 58 ∷ rest) ≡ ((48 + a) ∷ (48 + b) ∷ [], rest)
  partition_colon_two rest = ground arith

-- A time of the day is read back from its text.
pub minutes-clock : (m : ℕ) → m ≤ 1440 → minutes (clock m) ≡ some m
unfolding minutes clock both_ints day_minutes
minutes-clock m h =
    let split =
      partition_colon_two (m / 60 / 10) (m / 60 % 10) (omega arith) (omega arith)
        (two_digits (m % 60)) in
    let hours = two_digits_int (m / 60 / 10) (m / 60 % 10) (omega arith) (omega arith) in
    let mins = two_digits_int (m % 60 / 10) (m % 60 % 10) (omega arith) (omega arith) in
    rw split (rw hours (rw mins (ground arith)))
