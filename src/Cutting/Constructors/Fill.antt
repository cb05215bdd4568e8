-- ===== src/Cutting/Constructors/Fill.antt =====
-- src/cutting/constructors.py, `BinFill` and `greedy_fill`.
use opticutter_api.Prelude.{ℕ, ◌*◌, Option, none, some, List, [], ◌∷◌, map, sum_of, sort_by, true}
use opticutter_api.Prelude.Int.{ℤ, sub_ℕ}
use opticutter_api.Cutting.Models.{
  Text, Rectangle, Cut, Piece, PlacedPiece, placed_area, BinSpec, to_material, CuttingParameters,
}
use opticutter_api.Cutting.Packer.Split.{State}
use opticutter_api.Cutting.Packer.Place.{ready, value_error, init, optimize}
use opticutter_api.Cutting.Constructors.Order.{
  Signature, signature_of, key_lt, sort_keys, GreedyConfig,
}

pub record BinFill : Type 0 where
  pub spec : BinSpec
  pub placed : List PlacedPiece
  pub remainders : List Rectangle
  pub cuts : List Cut

abbrev pub fill_used_area : BinFill → ℕ
fill_used_area f = sum_of placed_area f.placed

abbrev pub fill_waste_area : BinFill → ℤ
fill_waste_area f = sub_ℕ (f.spec.width * f.spec.height) (fill_used_area f)

abbrev pub type_signature : BinFill → Signature
type_signature f = signature_of f.placed

abbrev pub ids_of : List PlacedPiece → List Text
ids_of placed = map (λ pp. pp.piece.id) placed

abbrev pub placed_ids : BinFill → List Text
placed_ids f = ids_of f.placed

-- What follows a pack of the pool. The outer `none` is an IndexError of the packer.
unfoldable pub filled :
    BinSpec → Option (List PlacedPiece × List Piece × State) → Option (Option BinFill)
filled spec none = none
filled spec (some ([], _, s)) = some none
filled spec (some (pp ∷ pps, _, s)) =
    some
      (some (record { spec = spec; placed = pp ∷ pps; remainders = s.remainders; cuts = s.cuts }))

unfoldable pub greedy_fill :
    List Piece → BinSpec → CuttingParameters → GreedyConfig → ℕ → Option (Option BinFill)
greedy_fill pool spec params config min_rect_size =
    elim (init (to_material spec) params config.split min_rect_size config.selection) [
      | value_error _ ↦ some none
      | ready c s ↦ filled spec (optimize c (sort_by (key_lt (sort_keys config.sort)) pool) true s)
    ]
