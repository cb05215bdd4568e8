-- ===== src/Cutting/Consolidate/Tests.antt =====
-- A sheet of 300 by 200 mm with two pieces: what the derivation answers, and the theorems at it.
use opticutter_api.Prelude.{ℕ, ◌≡◌, refl, true, false, some, List, [], ◌∷◌, map}
use opticutter_api.Cutting.Models.{PlacedPiece, CuttingLayout, CuttingParameters}
use opticutter_api.Cutting.Consolidate.Score.{score, score_lt, ranked_lt, round_to}
use opticutter_api.Cutting.Consolidate.Search.{
  cached, spend, is_freed, candidates, positions, add_inside, box_at, insert_once, is_clear, cut_at,
  far_bounds, is_far, is_near, join, leftover, near_bounds, remember,
}
use opticutter_api.Cutting.Consolidate.Derive.{
  is_too_small, prefer, solve, visit, settle, choose, after_candidate, after_far, after_near, apply,
  contend, consolidator, derive_tree, consolidate_layout, consolidate_layouts,
}
use opticutter_api.Cutting.Consolidate.Never.{
  Consolidates, consolidate_layout-Consolidates, consolidate_layouts_keeps,
}

abbrev params : CuttingParameters
params = record {
  kerf = 4_000_000;
  top_trim = 10_000_000;
  bottom_trim = 10_000_000;
  left_trim = 10_000_000;
  right_trim = 10_000_000;
}

abbrev piece_at : ℕ → ℕ → PlacedPiece
piece_at x y = record {
  piece = record {
    id = [];
    width = 100_000_000;
    height = 50_000_000;
    quantity = 1;
    can_rotate = true;
    priority = 0;
  };
  x = x;
  y = y;
  width = 100_000_000;
  height = 50_000_000;
  rotated = false;
}

-- Two pieces side by side along the bottom, with one leftover above each as the packer splits them.
abbrev layout : CuttingLayout
layout = record {
  material = record {
    id = [];
    width = 224_000_000;
    height = 200_000_000;
    thickness = 18_000_000;
    cost_per_unit = 0;
    half_board = false;
  };
  placed_pieces = piece_at 10_000_000 10_000_000 ∷ piece_at 114_000_000 10_000_000 ∷ [];
  remainders =
      record { x = 10_000_000; y = 64_000_000; width = 100_000_000; height = 126_000_000 }
      ∷ record { x = 114_000_000; y = 64_000_000; width = 100_000_000; height = 126_000_000 }
      ∷ [];
  sheet_number = 1;
  cuts = [];
}

-- One crosscut and one rip, which leave one band.
consolidated_layout :
    consolidate_layout layout params 100_000 50_000_000 50
    ≡ some (record layout {
      remainders =
          record { x = 10_000_000; y = 64_000_000; width = 204_000_000; height = 126_000_000 } ∷ [];
      cuts =
          record { x = 10_000_000; y = 60_000_000; length = 204_000_000; is_horizontal = true }
          ∷ record { x = 110_000_000; y = 10_000_000; length = 50_000_000; is_horizontal = false }
          ∷ [];
    })
unfolding consolidate_layout is_too_small prefer derive_tree solve cached visit spend is_freed
    settle choose candidates positions add_inside box_at consolidator insert_once is_clear
    after_candidate after_far after_near apply contend ranked_lt round_to score score_lt cut_at
    far_bounds is_far is_near join leftover near_bounds remember
consolidated_layout = refl

-- A budget of two regions is not enough.
exhausted_budget : consolidate_layout layout params 100_000 50_000_000 2 ≡ some layout
unfolding consolidate_layout is_too_small prefer derive_tree solve cached visit spend is_freed
    settle choose candidates positions add_inside box_at consolidator insert_once is_clear
    after_candidate after_far after_near apply contend ranked_lt round_to score score_lt cut_at
    far_bounds is_far is_near join leftover near_bounds remember
exhausted_budget = refl

consolidate_layout-Consolidates_example :
    Consolidates layout params 50_000_000 (consolidate_layout layout params 100_000 50_000_000 50)
consolidate_layout-Consolidates_example =
    consolidate_layout-Consolidates layout params 100_000 50_000_000 50

consolidate_layouts_keeps_example :
    (out : List CuttingLayout) × (consolidate_layouts
        (layout ∷ layout ∷ [])
        params
        100_000
        50_000_000
        50
      ≡ some out)
    × (map (λ l. l.material) out ≡ layout.material ∷ layout.material ∷ [])
    × (map (λ l. l.placed_pieces) out ≡ layout.placed_pieces ∷ layout.placed_pieces ∷ [])
consolidate_layouts_keeps_example =
    consolidate_layouts_keeps (layout ∷ layout ∷ []) params 100_000 50_000_000 50
