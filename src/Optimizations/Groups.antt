-- ===== src/Optimizations/Groups.antt =====
-- src/modules/optimizations/patterns.py, `order_sheets`, `layout_signature` and `group_layouts`: the
-- sheets of a payload by cutting pattern. A sheet is the part of its dictionary that these read.
use opticutter_api.Prelude.{
  ℕ, zero, suc, ◌+◌, Bool, true, false, ◌&&◌, Option, none, some, List, [], ◌∷◌, ◌++◌, map, length,
  ◌==◌, if◌then◌else◌, sort_by, not,
}
use opticutter_api.Cutting.Models.{Text}
use opticutter_api.Cutting.Packer.Place.{lex_lt}
use opticutter_api.Cutting.Constructors.Order.{same_id}
use opticutter_api.Optimizations.Patterns.{base_label}

pub record LaidPiece : Type 0 where
  pub piece_id : Text
  pub x : ℕ
  pub y : ℕ
  pub width : ℕ
  pub height : ℕ
  pub rotated : Bool

pub record Sheet : Type 0 where
  pub material_key : Option Text
  pub half_board : Bool
  pub sheet_number : Option ℕ
  pub placed_pieces : List LaidPiece

-- False sorts before true, and the sort is stable.
unfoldable pub order_sheets : List Sheet → List Sheet
order_sheets = sort_by (λ a b. not a.half_board && b.half_board)

-- `piece_id` is then the base label.
unfoldable pub labelled : LaidPiece → LaidPiece
labelled p = record p { piece_id = base_label p.piece_id }

abbrev pub piece_key : LaidPiece → List ℕ
piece_key p = p.x ∷ p.y ∷ p.width ∷ p.height ∷ p.piece_id

pub record LayoutSignature : Type 0 where
  pub material_key : Option Text
  pub half_board : Bool
  pub pieces : List LaidPiece

unfoldable pub layout_signature : Sheet → LayoutSignature
layout_signature layout = record {
  material_key = layout.material_key;
  half_board = layout.half_board;
  pieces = sort_by (λ p q. lex_lt (piece_key p) (piece_key q)) (map labelled layout.placed_pieces);
}

-- Equality of signatures, as of the keys of a dictionary.
unfoldable pub same_bool : Bool → Bool → Bool
same_bool true b = b
same_bool false b = not b

unfoldable pub same_key : Option Text → Option Text → Bool
same_key none none = true
same_key none (some t) = false
same_key (some s) none = false
same_key (some s) (some t) = same_id s t

unfoldable pub same_piece : LaidPiece → LaidPiece → Bool
same_piece p q =
    same_id p.piece_id q.piece_id
    && (p.x == q.x
        && (p.y == q.y
            && (p.width == q.width && (p.height == q.height && same_bool p.rotated q.rotated))))

unfoldable pub same_pieces : List LaidPiece → List LaidPiece → Bool
same_pieces [] [] = true
same_pieces (p ∷ ps) (q ∷ qs) = same_piece p q && same_pieces ps qs
same_pieces [] (q ∷ qs) = false
same_pieces (p ∷ ps) [] = false

unfoldable pub same_layout : LayoutSignature → LayoutSignature → Bool
same_layout a b =
    same_key a.material_key b.material_key
    && (same_bool a.half_board b.half_board && same_pieces a.pieces b.pieces)

pub record Group : Type 0 where
  pub pattern_id : ℕ
  pub count : ℕ
  pub sheet_numbers : List (Option ℕ)
  pub material_key : Option Text
  pub layout : Sheet

abbrev pub Index : Type 0
Index = List (LayoutSignature × ℕ)

-- `index_by_signature.get(signature)`
unfoldable pub find_index : LayoutSignature → Index → Option ℕ
find_index signature [] = none
find_index signature ((other, i) ∷ index) =
    if same_layout signature other then some i else find_index signature index

unfoldable pub one_more : Option ℕ → Group → Group
one_more sheet_number g = record g {
  count = g.count + 1;
  sheet_numbers = g.sheet_numbers ++ sheet_number ∷ [];
}

-- `groups[i]` grows; `none` is an IndexError.
unfoldable pub add_to_group : ℕ → Option ℕ → List Group → Option (List Group)
add_to_group i sheet_number [] = none
add_to_group zero sheet_number (g ∷ groups) = some (one_more sheet_number g ∷ groups)
add_to_group (suc i) sheet_number (g ∷ groups) = elim (add_to_group i sheet_number groups) [
  | none ↦ none
  | some rest ↦ some (g ∷ rest)
]

unfoldable pub new_group : ℕ → Sheet → Group
new_group groups layout = record {
  pattern_id = groups + 1;
  count = 1;
  sheet_numbers = layout.sheet_number ∷ [];
  material_key = layout.material_key;
  layout = layout;
}

-- The loop, from the groups and the index that it has built.
unfoldable pub group_from : List Sheet → List Group → Index → Option (List Group)
group_from [] groups index = some groups
group_from (layout ∷ layouts) groups index = elim (find_index (layout_signature layout) index) [
  | some i ↦ elim (add_to_group i layout.sheet_number groups) [
    | none ↦ none
    | some groups' ↦ group_from layouts groups' index
  ]
  | none ↦
      group_from layouts (groups ++ new_group (length groups) layout ∷ [])
        (index ++ (layout_signature layout, length groups) ∷ [])
]

unfoldable pub group_layouts : List Sheet → Option (List Group)
group_layouts layouts = group_from layouts [] []
