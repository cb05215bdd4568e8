-- ===== src/Cutting/SheetCheck/Realize.antt =====
-- src/cutting/sheet_check.py, `realize_sheet`: the cuts and the leftovers of a sheet laid out by hand,
-- from the same derivation that the engine uses. Corners are natural numbers here: the nanometre by
-- which the check lets a piece pass the sheet's near edges has no value, and the trims leave something
-- of the sheet. The call ends with `none` when the derivation's fuel runs out.
use opticutter_api.Prelude.{
  ℕ, ◌-◌, ◌≡◌, ◌⊎◌, Bool, List, [], ◌∷◌, ◌++◌, map, Option, none, some, if◌then◌else◌,
}
use opticutter_api.Prelude.Int.{pos}
use opticutter_api.Cutting.Models.{
  Rectangle, Cut, Material, PlacedPiece, CuttingLayout, CuttingParameters,
}
use opticutter_api.Cutting.Geometry.{Box, placed_box, rectangle_box}
use opticutter_api.Cutting.Consolidate.Search.{Plan}
use opticutter_api.Cutting.Consolidate.Derive.{derive_tree, trimmed}
use opticutter_api.Cutting.Consolidate.Never.{IsSawable}
use opticutter_api.Cutting.SheetCheck.Violations.{
  SheetRectangle, Code, Violation, violation, not_guillotine, unverifiable, iter_violations,
  on_sheet,
}

abbrev pub Realized : Type 0
Realized = Option (Option CuttingLayout × List Violation)

abbrev pub sheet_rectangle : Rectangle → SheetRectangle
sheet_rectangle r = record { x = pos r.x; y = pos r.y; width = r.width; height = r.height }

-- The usable sheet as the one leftover of a sheet without pieces.
abbrev pub usable_rectangle : Box → Rectangle
usable_rectangle b = record { x = b.x0; y = b.y0; width = b.x1 - b.x0; height = b.y1 - b.y0 }

module _ (material : Material) (placed : List PlacedPiece) (params : CuttingParameters)
    (whole_offcuts : List Rectangle) where
  abbrev pub sheet_violations : List Violation
  sheet_violations =
      iter_violations material.width material.height (map on_sheet placed) params
        (map sheet_rectangle whole_offcuts)

  abbrev pub sheet_boxes : List Box
  sheet_boxes = map placed_box placed ++ map rectangle_box whole_offcuts

  abbrev pub realized_layout : List Rectangle → List Cut → CuttingLayout
  realized_layout leftovers cuts = record {
    material = material;
    placed_pieces = placed;
    remainders = leftovers ++ whole_offcuts;
    sheet_number = 1;
    cuts = cuts;
  }

  unfoldable pub realize_plan : Option (Option Plan × Bool) → Realized
  realize_plan none = none
  realize_plan (some (none, exhausted)) =
      some (none, violation (if exhausted then unverifiable else not_guillotine) [] ∷ [])
  realize_plan (some (some plan, exhausted)) =
      some (some (realized_layout plan.rects plan.cuts), [])

  module _ (min_rect_size min_usable node_budget : ℕ) where
    unfoldable pub realize_boxes : List Box → Realized
    realize_boxes [] =
        some (some (realized_layout (usable_rectangle (trimmed material params) ∷ []) []), [])
    realize_boxes (b ∷ bs) =
        realize_plan (
          derive_tree (b ∷ bs) (trimmed material params) params min_rect_size min_usable
            node_budget)

    unfoldable pub realize_sheet : Realized
    realize_sheet = elim sheet_violations [
      | [] ↦ realize_boxes sheet_boxes
      | v ∷ vs ↦ some (none, v ∷ vs)
    ]

  -- What comes of a sheet: its own violations, or that no tree was found, or a layout that can be sawn.
  pub data Realizes : Realized → Type 0 where
    invalid :
        (v : Violation) (vs : List Violation)
        → sheet_violations ≡ v ∷ vs
        → Realizes (some (none, v ∷ vs))
    uncuttable :
        (code : Code)
        → sheet_violations ≡ []
        → (code ≡ unverifiable) ⊎ (code ≡ not_guillotine)
        → Realizes (some (none, violation code [] ∷ []))
    cuttable :
        (leftovers : List Rectangle) (cuts : List Cut)
        → sheet_violations ≡ []
        → IsSawable params.kerf (trimmed material params) sheet_boxes leftovers cuts
        → Realizes (some (some (realized_layout leftovers cuts), []))
