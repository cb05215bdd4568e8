-- ===== src/Optimizations/Tests.antt =====
-- A cut list with repeated labels, and the theorems at concrete inputs.
use opticutter_api.Prelude.{
  ℕ, ◌≡◌, ◌≢◌, Bool, true, false, refl, Option, none, some, List, [], ◌∷◌, map, Pairwise, arith,
}
use opticutter_api.Cutting.Models.{Text}
use opticutter_api.Cutting.Packer.Expand.{digits_from, decimal}
use opticutter_api.Optimizations.Patterns.{
  is_number, after_number, base_label, CutListEntry, unnamed, base_of, bases_from, counter_get,
  counter_add, count_totals, instance_name, name_instances, name_entries, piece_instance_ids,
}
use opticutter_api.Optimizations.Groups.{
  LaidPiece, Sheet, order_sheets, labelled, layout_signature, same_bool, same_key, same_piece,
  same_pieces, same_layout, Group, find_index, one_more, add_to_group, new_group, group_from,
  group_layouts,
}
use opticutter_api.Optimizations.Patterning.{IsGrouping, group_layouts-IsGrouping}
use opticutter_api.Cutting.Packer.Place.{lex_lt}
use opticutter_api.Optimizations.Instances.{rows, piece_instance_ids-rows}

program : Unit {0}
unfolding is_number after_number base_label unnamed base_of bases_from counter_get counter_add
    count_totals instance_name name_instances name_entries piece_instance_ids decimal digits_from
    rows order_sheets labelled layout_signature same_bool same_key same_piece same_pieces
    same_layout find_index one_more add_to_group new_group group_from group_layouts lex_lt
program = tt

abbrev door : Text
door = b'd' ∷ []

-- Two doors, an unnamed piece, and one more door.
abbrev cut_list : List CutListEntry
cut_list = (some door, 2) ∷ (none, 1) ∷ (some door, 1) ∷ []

abbrev marked : ℕ → Text
marked k = b'd' ∷ b'#' ∷ k ∷ []

ids-cut_list :
    piece_instance_ids cut_list
    ≡ (0, marked b'1')
      ∷ (0, marked b'2')
      ∷ (1, b'p' ∷ b'i' ∷ b'e' ∷ b'c' ∷ b'e' ∷ b'_' ∷ b'2' ∷ [])
      ∷ (2, marked b'3')
      ∷ []
unfolding program
ids-cut_list = refl

-- A label that is written like an instance's name takes that name.
ids-clash :
    piece_instance_ids ((some door, 2) ∷ (some (marked b'1'), 1) ∷ [])
    ≡ (0, marked b'1') ∷ (0, marked b'2') ∷ (1, marked b'1') ∷ []
unfolding program
ids-clash = refl

piece_instance_ids-rows_example :
    Pairwise (λ p q. p.1 ≢ q.1) (piece_instance_ids cut_list)
    × (map (λ p. (p.0, base_label p.1)) (piece_instance_ids cut_list)
        ≡ rows 0 (bases_from 0 cut_list))
piece_instance_ids-rows_example =
    piece_instance_ids-rows cut_list ((omega arith, tt), (tt, ((omega arith, tt), tt)))

abbrev sheet : ℕ → Bool → List LaidPiece → Sheet
sheet number half pieces = record {
  material_key = some (b'm' ∷ []);
  half_board = half;
  sheet_number = some number;
  placed_pieces = pieces;
}

abbrev laid : ℕ → ℕ → LaidPiece
laid k x = record { piece_id = marked k; x = x; y = 10; width = 300; height = 500; rotated = false }

-- Two doors a sheet, listed in either order, and a half board with the same doors.
abbrev sheets : List Sheet
sheets =
    sheet 1 false (laid b'1' 10 ∷ laid b'2' 315 ∷ [])
    ∷ sheet 2 true (laid b'3' 10 ∷ laid b'4' 315 ∷ [])
    ∷ sheet 3 false (laid b'6' 315 ∷ laid b'5' 10 ∷ [])
    ∷ []

abbrev sheets_of : Option (List Group) → List (ℕ × List (Option ℕ))
sheets_of none = []
sheets_of (some gs) = map (λ g. (g.count, g.sheet_numbers)) gs

groups-sheets : sheets_of (group_layouts sheets) ≡ (2, some 1 ∷ some 3 ∷ []) ∷ (1, some 2 ∷ []) ∷ []
unfolding program
groups-sheets = refl

numbers-order_sheets :
    map (λ s. s.sheet_number) (order_sheets sheets) ≡ some 1 ∷ some 3 ∷ some 2 ∷ []
unfolding program
numbers-order_sheets = refl

group_layouts-IsGrouping_example :
    (gs : List Group) × (group_layouts sheets ≡ some gs) × IsGrouping sheets gs
group_layouts-IsGrouping_example = group_layouts-IsGrouping sheets
