-- ===== src/Cutting/SheetCheck/Tests.antt =====
-- A sheet that a seller rearranged, and the theorems at concrete inputs.
use opticutter_api.Prelude.{ℕ, ◌*◌, ◌≡◌, ◌↔◌, refl, true, false, [], ◌∷◌, map, All, Pairwise}
use opticutter_api.Prelude.Int.{ℤ, pos, negsuc, ◌+ℤ◌, ◌-ℤ◌}
use opticutter_api.Cutting.Models.{
  Rectangle, PlacedPiece, Piece, Material, CuttingParameters, SplitRule, Selection,
}
use opticutter_api.Cutting.Packer.Split.{Settings, State}
use opticutter_api.Cutting.Packer.Place.{init, ready}
use opticutter_api.Cutting.Packer.Optimize.{Gives}
use opticutter_api.Cutting.SheetCheck.Violations.{
  SheetPiece, SheetRectangle, violation, out_of_bounds, overlap, kerf_violation, usable_bounds,
  piece_box, offcut_box, separation, exceeds, same_size, piece_violations, too_close,
  pair_violations, offcut_violations, offcuts_violations, iter_violations, is_cuttable, on_sheet,
}
use opticutter_api.Cutting.SheetCheck.Physical.{
  IsAllowed, AreApart, AreOffcutsFree, iter_violations_iff,
}
use opticutter_api.Cutting.SheetCheck.Packed.{optimize-is_cuttable}

abbrev mm : ℕ → ℕ
mm n = n * 1_000_000

abbrev saw : CuttingParameters
saw = record {
  kerf = mm 5;
  top_trim = mm 10;
  bottom_trim = mm 10;
  left_trim = mm 10;
  right_trim = mm 10;
}

abbrev door : Piece
door = record {
  id = b'd' ∷ [];
  width = mm 400;
  height = mm 300;
  quantity = 1;
  can_rotate = false;
  priority = 0;
}

abbrev at : ℤ → ℤ → SheetPiece
at x y = record { piece = door; x = x; y = y; width = mm 400; height = mm 300; rotated = false }

abbrev shelf_offcut : SheetRectangle
shelf_offcut = record { x = pos (mm 10); y = pos (mm 400); width = mm 500; height = mm 100 }

check : Unit {0}
unfolding iter_violations offcuts_violations offcut_violations pair_violations too_close
    piece_violations same_size exceeds separation offcut_box piece_box usable_bounds ◌+ℤ◌ ◌-ℤ◌
check = tt

-- One door hangs over the sheet, two are nearer than the blade, one lies on the trim.
three_doors :
    iter_violations
      (mm 1000)
      (mm 600)
      (at (negsuc 9) (pos (mm 10))
        ∷ at (pos (mm 402)) (pos (mm 10))
        ∷ at (pos (mm 500)) (pos (mm 200))
        ∷ [])
      saw
      []
    ≡ violation out_of_bounds (door.id ∷ [])
      ∷ violation kerf_violation (door.id ∷ door.id ∷ [])
      ∷ violation overlap (door.id ∷ door.id ∷ [])
      ∷ []
unfolding check
three_doors = refl

iter_violations_iff_example :
    (iter_violations
        (mm 1000)
        (mm 600)
        (at (pos (mm 10)) (pos (mm 10)) ∷ at (pos (mm 415)) (pos (mm 10)) ∷ [])
        saw
        (shelf_offcut ∷ [])
      ≡ [])
    ↔ (All
          (IsAllowed (mm 1000) (mm 600) saw)
          (at (pos (mm 10)) (pos (mm 10)) ∷ at (pos (mm 415)) (pos (mm 10)) ∷ [])
        × Pairwise
            (AreApart (mm 1000) (mm 600) saw)
            (at (pos (mm 10)) (pos (mm 10)) ∷ at (pos (mm 415)) (pos (mm 10)) ∷ [])
        × AreOffcutsFree
            (mm 1000)
            (mm 600)
            saw
            (at (pos (mm 10)) (pos (mm 10)) ∷ at (pos (mm 415)) (pos (mm 10)) ∷ [])
            (shelf_offcut ∷ []))
iter_violations_iff_example =
    iter_violations_iff (mm 1000) (mm 600) saw
      (at (pos (mm 10)) (pos (mm 10)) ∷ at (pos (mm 415)) (pos (mm 10)) ∷ []) (shelf_offcut ∷ [])

abbrev board : Material
board = record {
  id = b'b' ∷ [];
  width = mm 1000;
  height = mm 600;
  thickness = mm 18;
  cost_per_unit = 455_000;
  half_board = false;
}

abbrev settings : Settings
settings = record {
  selection = Selection.bottom_left;
  split_rule = SplitRule.maximize_area;
  kerf = mm 5;
  min_rect_size = 100_000;
}

abbrev start : State
start = record {
  remainders = record { x = mm 10; y = mm 10; width = mm 980; height = mm 580 } ∷ [];
  placed_pieces = [];
  cuts = [];
}

init_bottom_left :
    init board saw SplitRule.maximize_area 100_000 Selection.bottom_left ≡ ready settings start
unfolding init
init_bottom_left = refl

optimize-is_cuttable_example :
    Gives board saw SplitRule.maximize_area 100_000 Selection.bottom_left init_bottom_left
      (door ∷ door ∷ [])
      true
      (λ placed un s'.
        (iter_violations (mm 1000) (mm 600) (map on_sheet placed) saw [] ≡ [])
        × (is_cuttable (mm 1000) (mm 600) (map on_sheet placed) saw ≡ true))
optimize-is_cuttable_example =
    optimize-is_cuttable board saw SplitRule.maximize_area 100_000 Selection.bottom_left
      init_bottom_left (door ∷ door ∷ []) true

abbrev small_board : Material
small_board = record {
  id = [];
  width = mm 1000;
  height = mm 600;
  thickness = mm 18;
  cost_per_unit = 0;
  half_board = false;
}

abbrev door_at : ℕ → ℕ → PlacedPiece
door_at x y = record {
  piece = door;
  x = x;
  y = y;
  width = mm 400;
  height = mm 300;
  rotated = false;
}

-- Two doors side by side and a whole offcut above them.
abbrev kept_offcut : Rectangle
kept_offcut = record { x = mm 10; y = mm 400; width = mm 980; height = mm 100 }
