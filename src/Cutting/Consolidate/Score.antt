-- ===== src/Cutting/Consolidate/Score.antt =====
-- src/cutting/consolidate.py, `_score`: the ranking of a set of leftovers. `round` is Python's, to
-- the nearest with ties to even; 1e-6 m2 are 10^12 square nanometres, 1e-9 m4 are 10^27 of their
-- squares and 1e-3 mm are 1000.
use opticutter_api.Prelude.{
  ℕ, ◌+◌, ◌*◌, ◌/◌, ◌%◌, Bool, true, false, ◌&&◌, List, length, sum_of, leb, ltb, ◌==◌,
  if◌then◌else◌,
}
use opticutter_api.Cutting.Models.{Rectangle, rectangle_area}

-- `n` in units of `unit`, rounded.
unfoldable pub round_to : ℕ → ℕ → ℕ
round_to unit n =
    let quotient = n / unit in
    let twice = 2 * (n % unit) in
    if ltb twice unit
    then quotient
    else if ltb unit twice
    then quotient + 1
    else quotient + quotient % 2

-- The first two components of the tuple are negated in the source; `score_lt` compares them the
-- other way round.
pub record Score : Type 0 where
  pub usable : ℕ
  pub squares : ℕ
  pub count : ℕ
  pub travel : ℕ

abbrev pub is_usable : ℕ → Rectangle → Bool
is_usable min_usable r = leb min_usable r.width && leb min_usable r.height

abbrev pub usable_area : ℕ → Rectangle → ℕ
usable_area min_usable r = if is_usable min_usable r then rectangle_area r else 0

unfoldable pub score : List Rectangle → ℕ → ℕ → Score
score rects travel min_usable = record {
  usable = round_to 1_000_000_000_000 (sum_of (usable_area min_usable) rects);
  squares =
      round_to 1_000_000_000_000_000_000_000_000_000
        (sum_of (λ r. usable_area min_usable r * usable_area min_usable r) rects);
  count = length rects;
  travel = round_to 1000 travel;
}

-- `first < second`, or the same and then `rest`
abbrev pub before : ℕ → ℕ → Bool → Bool
before a b rest = if ltb a b then true else (if a == b then rest else false)

-- The score of a candidate: `_score(…) + (position, horizontal)`.
pub record Ranked : Type 0 where
  pub score : Score
  pub position : ℕ
  pub horizontal : Bool

abbrev pub score_before : Score → Score → Bool → Bool
score_before a b rest =
    before b.usable a.usable
      (before b.squares a.squares (before a.count b.count (before a.travel b.travel rest)))

unfoldable pub score_lt : Score → Score → Bool
score_lt a b = score_before a b false

unfoldable pub ranked_lt : Ranked → Ranked → Bool
ranked_lt a b =
    score_before a.score b.score
      (before a.position b.position (if a.horizontal then false else b.horizontal))
