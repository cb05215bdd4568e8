-- ===== src/Orders/Doubles.antt =====
-- Amounts of money as Python's floats: a double that is not negative, counted in units of 2^-59 dollars.
-- The doubles from 2^-7 up, and zero, are whole numbers of that unit.
use opticutter_api.Prelude.{ℕ, zero, suc, ◌+◌, ◌-◌, ◌*◌, ◌/◌, ◌%◌, Bool, ltb, if◌then◌else◌}

-- 2^59
abbrev pub units_per_dollar : ℕ
units_per_dollar = 576_460_752_303_423_488

-- 2^53
abbrev significands : ℕ
significands = 9_007_199_254_740_992

-- The whole number nearest to `n / d`, and of two as near the even one.
unfoldable pub half_even : ℕ → ℕ → ℕ
half_even n d =
    let quotient = n / d in
    let twice = 2 * (n % d) in
    if ltb twice d then quotient else if ltb d twice then suc quotient else quotient + quotient % 2

-- The least power of two, of at most 2 to the fuel, by which `bound` grows above `n`.
unfoldable pub spacing : ℕ → ℕ → ℕ → ℕ
spacing zero n bound = 1
spacing (suc fuel) n bound =
    let rest = spacing fuel n (2 * bound) in if ltb n bound then 1 else 2 * rest

-- The double nearest to `n / d` units; 64 doublings reach amounts far beyond any order's.
unfoldable pub to_double : ℕ → ℕ → ℕ
to_double n d = let step = spacing 64 n (d * significands) in half_even n (d * step) * step

-- The double of a number of cents.
unfoldable pub cents : ℕ → ℕ
cents n = to_double (n * units_per_dollar) 100

-- `round(x, 2)`, in cents.
unfoldable pub round_cents : ℕ → ℕ
round_cents x = half_even (x * 100) units_per_dollar

-- `a - b` of doubles, of which the first is no less.
unfoldable pub double_sub : ℕ → ℕ → ℕ
double_sub a b = to_double (a - b) 1

unfoldable pub double_add : ℕ → ℕ → ℕ
double_add a b = to_double (a + b) 1

-- `owed > BALANCE_TOLERANCE` where the credit is a cent above what came in: 100.01 - 100.00 is above 0.01.
unfoldable pub cent_is_above : ℕ → ℕ → Bool
cent_is_above sold collected = ltb (cents 1) (double_sub (cents sold) (cents collected))

-- `paying > balance + BALANCE_TOLERANCE` where what is paid is a cent above the balance.
unfoldable pub cent_is_too_much : ℕ → ℕ → Bool
cent_is_too_much balance paying = ltb (double_add (cents balance) (cents 1)) (cents paying)
