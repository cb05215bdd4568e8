-- ===== src/Cutting/Consolidate/Tree.antt =====
-- The guillotine trees of a region: what a plan of the search has to be, apart from how it is found.
use opticutter_api.Prelude.{ℕ, ◌≤◌, ◌<◌, ◌≡◌, ◌⊎◌, Bool, true, false, List, [], filter_by, All}
use opticutter_api.Cutting.Geometry.{Box}
use opticutter_api.Cutting.Consolidate.Search.{
  Consolidator, Plan, nothing, leftover, is_freed, is_near, is_far, cut_at, near_bounds, far_bounds,
  join, is_open,
}

abbrev pub IsProper : Box → Type 0
IsProper r = (r.x0 ≤ r.x1) × (r.y0 ≤ r.y1)

-- The cut lies strictly within the region.
abbrev pub IsInside : Box → Bool → ℕ → Type 0
IsInside r true position = (r.y0 < position) × (position < r.y1)
IsInside r false position = (r.x0 < position) × (position < r.x1)

module _ (c : Consolidator) where
  -- The blade passes no piece: each is on one side of it.
  abbrev pub IsCovered : List ℕ → Bool → ℕ → Type 0
  IsCovered idxs h p = All (λ i. (is_far c h p i ≡ true) ⊎ (is_near c h p i ≡ true)) idxs

  -- A region without pieces is a leftover; a region that is its one piece needs no cut; any other is
  -- cut in two, through no piece, and what is cut off is cut in turn. The far side has no tree
  -- where the blade consumes it.
  pub data Tree : Box → List ℕ → Plan → Type 0 where
    offcut : (r : Box) → Tree r [] (leftover c r)
    freed : (r : Box) (idxs : List ℕ) → is_freed c r idxs ≡ true → Tree r idxs nothing
    cut_in_two :
        (r : Box) (idxs : List ℕ) (h : Bool) (p : ℕ) (near far : Plan)
        → IsInside r h p
        → IsCovered idxs h p
        → is_open (far_bounds c.kerf r h p) ≡ true
        → Tree (near_bounds r h p) (filter_by (is_near c h p) idxs) near
        → Tree (far_bounds c.kerf r h p) (filter_by (is_far c h p) idxs) far
        → Tree r idxs (join (cut_at r h p) near far)
    cut_off :
        (r : Box) (idxs : List ℕ) (h : Bool) (p : ℕ) (near : Plan)
        → IsInside r h p
        → IsCovered idxs h p
        → filter_by (is_far c h p) idxs ≡ []
        → Tree (near_bounds r h p) (filter_by (is_near c h p) idxs) near
        → Tree r idxs (join (cut_at r h p) near nothing)
