-- ===== src/Cutting/Models.antt =====
-- src/cutting/models.py, parameters.py and enums.py: the value objects of the engine. Dimensions
-- that the constructors reject as negative have no value here; what else a `__post_init__` refuses
-- is a Boolean function `…_validates`. `cost_per_unit` is in hundredths of a cent.
use opticutter_api.Prelude.{ℕ, ◌*◌, Bool, ◌&&◌, Option, List, ltb, leb, sum_of}
use opticutter_api.Prelude.Int.{ℤ, sub_ℕ}

-- The code points of a Python string.
abbrev pub Text : Type 0
Text = List ℕ

pub record Rectangle : Type 0 where
  pub x : ℕ
  pub y : ℕ
  pub width : ℕ
  pub height : ℕ

abbrev pub rectangle_area : Rectangle → ℕ
rectangle_area r = r.width * r.height

abbrev pub contains : Rectangle → ℕ → ℕ → Bool
contains r width height = leb width r.width && leb height r.height

pub record Cut : Type 0 where
  pub x : ℕ
  pub y : ℕ
  pub length : ℕ
  pub is_horizontal : Bool

pub record Piece : Type 0 where
  pub id : Text
  pub width : ℕ
  pub height : ℕ
  pub quantity : ℕ
  pub can_rotate : Bool
  pub priority : ℕ

-- `Piece.__post_init__` raises unless this holds.
abbrev pub piece_validates : Piece → Bool
piece_validates p = ltb 0 p.width && ltb 0 p.height && leb 1 p.quantity

abbrev pub piece_area : Piece → ℕ
piece_area p = p.width * p.height

pub record PlacedPiece : Type 0 where
  pub piece : Piece
  pub x : ℕ
  pub y : ℕ
  pub width : ℕ
  pub height : ℕ
  pub rotated : Bool

abbrev pub placed_area : PlacedPiece → ℕ
placed_area p = p.width * p.height

pub record Material : Type 0 where
  pub id : Text
  pub width : ℕ
  pub height : ℕ
  pub thickness : ℕ
  pub cost_per_unit : ℕ
  pub half_board : Bool

-- `Material.__post_init__` raises unless this holds.
abbrev pub material_validates : Material → Bool
material_validates m = ltb 0 m.width && ltb 0 m.height

abbrev pub material_area : Material → ℕ
material_area m = m.width * m.height

-- `count` is `None` for a sheet of unlimited supply.
pub record BinSpec : Type 0 where
  pub key : Text
  pub width : ℕ
  pub height : ℕ
  pub thickness : ℕ
  pub cost_per_unit : ℕ
  pub count : Option ℕ
  pub half_board : Bool

abbrev pub to_material : BinSpec → Material
to_material s = record {
  id = s.key;
  width = s.width;
  height = s.height;
  thickness = s.thickness;
  cost_per_unit = s.cost_per_unit;
  half_board = s.half_board;
}

pub record CuttingLayout : Type 0 where
  pub material : Material
  pub placed_pieces : List PlacedPiece
  pub remainders : List Rectangle
  pub sheet_number : ℕ
  pub cuts : List Cut

abbrev pub used_area : CuttingLayout → ℕ
used_area l = sum_of placed_area l.placed_pieces

abbrev pub cut_length : CuttingLayout → ℕ
cut_length l = sum_of (λ c. c.length) l.cuts

abbrev pub waste_area : CuttingLayout → ℤ
waste_area l = sub_ℕ (material_area l.material) (used_area l)

-- All are non-negative: `CuttingParameters.__post_init__` raises otherwise.
pub record CuttingParameters : Type 0 where
  pub kerf : ℕ
  pub top_trim : ℕ
  pub bottom_trim : ℕ
  pub left_trim : ℕ
  pub right_trim : ℕ

pub data SplitRule : Type 0 where
  shorter_leftover_axis longer_leftover_axis minimize_area maximize_area shorter_axis longer_axis :
      SplitRule

pub data Selection : Type 0 where
  best_area_fit bottom_left : Selection
