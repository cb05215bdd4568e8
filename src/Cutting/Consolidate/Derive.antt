-- ===== src/Cutting/Consolidate/Derive.antt =====
-- src/cutting/consolidate.py, `solve`, `_apply`, `derive_tree` and `consolidate_layout`. The fuel of
-- `solve` is the depth of its recursion; `none` means that it ran out.
use opticutter_api.Prelude.{
  ℕ, zero, suc, ◌+◌, ◌-◌, max, Bool, true, false, ◌||◌, List, [], ◌∷◌, map, Option, none, some,
  length, filter_by, sort_by, ltb, ◌==◌, if◌then◌else◌,
}
use opticutter_api.Cutting.Models.{Material, CuttingParameters, CuttingLayout, cut_length}
use opticutter_api.Cutting.Geometry.{Box, placed_box}
use opticutter_api.Cutting.Consolidate.Score.{Ranked, score, score_lt, ranked_lt, before}
use opticutter_api.Cutting.Consolidate.Search.{
  Consolidator, Plan, Search, Answer, Solver, cached, is_exhausted, spend, remember, nothing,
  leftover, is_freed, is_near, is_far, candidates, cut_at, near_bounds, far_bounds, join, is_open,
}

abbrev pub is_nil : List ℕ → Bool
is_nil [] = true
is_nil (i ∷ is) = false

-- The best candidate so far; and how the loop over the candidates ends.
pub record Contender : Type 0 where
  pub ranked : Ranked
  pub plan : Plan

pub data Verdict : Type 0 where
  stopped : Verdict
  decided : Option Contender → Verdict

module _ (c : Consolidator) (rec : Solver) (r : Box) (idxs : List ℕ) where
  module _ (horizontal : Bool) (position : ℕ) where
    unfoldable pub after_far : Plan → Answer → Answer
    after_far near none = none
    after_far near (some (none, s)) = some (none, s)
    after_far near (some (some far, s)) =
        some (some (join (cut_at r horizontal position) near far), s)

    unfoldable pub after_near : Answer → Answer
    after_near none = none
    after_near (some (none, s)) = some (none, s)
    after_near (some (some near, s)) =
        let bounds = far_bounds c.kerf r horizontal position in
        let far = filter_by (is_far c horizontal position) idxs in
        if is_open bounds
        then after_far near (rec bounds far s)
        else if is_nil far
        then some (some (join (cut_at r horizontal position) near nothing), s)
        else some (none, s)

    -- `_apply`
    unfoldable pub apply : Search → Answer
    apply s =
        let near = filter_by (is_near c horizontal position) idxs in
        let far = filter_by (is_far c horizontal position) idxs in
        if length near + length far == length idxs
        then after_near (rec (near_bounds r horizontal position) near s)
        else some (none, s)

  -- `if best_score is None or score < best_score: …`
  unfoldable pub contend : Bool → ℕ → Plan → Option Contender → Option Contender
  contend horizontal position plan best =
      let ranked : Ranked = record {
        score = score plan.rects plan.travel c.min_usable;
        position = position;
        horizontal = horizontal;
      } in
      let this : Contender = record { ranked = ranked; plan = plan } in
      elim best [
        | none ↦ some this
        | some b ↦ if ranked_lt ranked b.ranked then some this else some b
      ]

  -- The rest of the loop is `next`.
  unfoldable pub after_candidate :
      (Option Contender → Search → Option (Verdict × Search))
      → Bool
      → ℕ
      → Option Contender
      → Answer
      → Option (Verdict × Search)
  after_candidate next horizontal position best none = none
  after_candidate next horizontal position best (some (none, s)) =
      if is_exhausted s then some (stopped, s) else next best s
  after_candidate next horizontal position best (some (some plan, s)) =
      next (contend horizontal position plan best) s

  unfoldable pub choose : List (Bool × ℕ) → Option Contender → Search → Option (Verdict × Search)
  choose [] best s = some (decided best, s)
  choose ((horizontal, position) ∷ rest) best s =
      after_candidate (choose rest) horizontal position best (apply horizontal position s)

  unfoldable pub settle : Option (Verdict × Search) → Answer
  settle none = none
  settle (some (stopped, s)) = some (none, s)
  settle (some (decided none, s)) = remember r idxs none s
  settle (some (decided (some best), s)) = remember r idxs (some best.plan) s

  -- `solve` past the memo.
  unfoldable pub visit : Search → Answer
  visit s =
      if is_exhausted s
      then some (none, s)
      else if is_nil idxs
      then remember r idxs (some (leftover c r)) s
      else if is_freed c r idxs
      then remember r idxs (some nothing) s
      else settle (choose (candidates c r idxs) none s)

unfoldable pub solve : Consolidator → ℕ → Solver
solve c zero r idxs s = none
solve c (suc fuel) r idxs s = elim (cached r idxs s.memo) [
  | some plan ↦ some (plan, s)
  | none ↦ visit c (solve c fuel) r idxs (spend s)
]

-- Python's order of tuples.
abbrev pub box_lt : Box → Box → Bool
box_lt a b = before a.x0 b.x0 (before a.y0 b.y0 (before a.x1 b.x1 (ltb a.y1 b.y1)))

-- `range(start, start + n)`
abbrev pub range_from : ℕ → ℕ → List ℕ
range_from start zero = []
range_from start (suc n) = start ∷ range_from (suc start) n

unfoldable pub consolidator : List Box → CuttingParameters → ℕ → ℕ → Consolidator
consolidator boxes params min_rect_size min_usable = record {
  boxes = sort_by box_lt boxes;
  kerf = max 0 params.kerf;
  min_rect_size = max 10_000 min_rect_size;
  min_usable = min_usable;
}

-- The answer with whether the budget ran out. Each level of the recursion spends one of the budget,
-- so that two more than the budget are deep enough.
unfoldable pub derive_tree :
    List Box → Box → CuttingParameters → ℕ → ℕ → ℕ → Option (Option Plan × Bool)
derive_tree boxes bounds params min_rect_size min_usable node_budget =
    let fresh : Search = record { budget = some node_budget; memo = [] } in
    elim (solve (consolidator boxes params min_rect_size min_usable) (suc (suc node_budget)) bounds
      (range_from 0 (length boxes)) fresh) [
        | none ↦ none
        | some (none, s) ↦ some (none, is_exhausted s)
        | some (some plan, s) ↦ some (some plan, false)
      ]

-- The sheet less its trims.
abbrev pub trimmed : Material → CuttingParameters → Box
trimmed m params = record {
  x0 = params.left_trim;
  y0 = params.bottom_trim;
  x1 = m.width - params.right_trim;
  y1 = m.height - params.top_trim;
}

unfoldable pub prefer : CuttingLayout → ℕ → Option (Option Plan × Bool) → Option CuttingLayout
prefer layout min_usable none = none
prefer layout min_usable (some (none, exhausted)) = some layout
prefer layout min_usable (some (some plan, exhausted)) =
    if score_lt (score plan.rects plan.travel min_usable)
      (score layout.remainders (cut_length layout) min_usable)
    then some (record layout { remainders = plan.rects; cuts = plan.cuts })
    else some layout

-- `x1 - x0 < min_rect_size or y1 - y0 < min_rect_size`
unfoldable pub is_too_small : Material → CuttingParameters → ℕ → Bool
is_too_small m params min_rect_size =
    ltb m.width (params.left_trim + params.right_trim + min_rect_size)
    || ltb m.height (params.top_trim + params.bottom_trim + min_rect_size)

unfoldable pub consolidate_layout :
    CuttingLayout → CuttingParameters → ℕ → ℕ → ℕ → Option CuttingLayout
consolidate_layout layout params min_rect_size min_usable node_budget =
    let b = trimmed layout.material params in
    elim layout.placed_pieces [
      | [] ↦ some layout
      | p ∷ ps ↦
          if is_too_small layout.material params min_rect_size
          then some layout
          else prefer layout min_usable
              (derive_tree (map placed_box (p ∷ ps)) b params min_rect_size min_usable node_budget)
    ]

-- `both` of two results that may have run out of fuel.
abbrev pub cons_both :
    Option CuttingLayout → Option (List CuttingLayout) → Option (List CuttingLayout)
cons_both (some l) (some ls) = some (l ∷ ls)
cons_both (some l) none = none
cons_both none ls = none

-- `min_rect_size` and `node_budget` are `consolidate_layout`'s defaults at the calls.
unfoldable pub consolidate_layouts :
    List CuttingLayout → CuttingParameters → ℕ → ℕ → ℕ → Option (List CuttingLayout)
consolidate_layouts [] params min_rect_size min_usable node_budget = some []
consolidate_layouts (l ∷ ls) params min_rect_size min_usable node_budget =
    cons_both (consolidate_layout l params min_rect_size min_usable node_budget)
      (consolidate_layouts ls params min_rect_size min_usable node_budget)
