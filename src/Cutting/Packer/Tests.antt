-- ===== src/Cutting/Packer/Tests.antt =====
-- A small sheet through the packer, and the theorems at concrete inputs.
use opticutter_api.Prelude.{
  ℕ, ◌*◌, ◌≡◌, refl, Bool, true, false, some, List, [], ◌∷◌, ◌++◌, map, All, Permᴰ,
}
use opticutter_api.Cutting.Models.{Piece, Material, CuttingParameters, SplitRule, Selection}
use opticutter_api.Cutting.Packer.Expand.{
  placement_lt, sort_pieces, decimal, instance_id, instance_of, instances_from, expand_all,
  expand_pieces,
}
use opticutter_api.Cutting.Packer.Split.{
  Settings, State, leftovers, vertical_split_first, horizontal_split_first, max_area,
  split_orientation, split_as, create_split_rectangles, cuts_for, is_kept, smaller, pop_at,
  split_remainder,
}
use opticutter_api.Cutting.Packer.Place.{
  ready, init, lex_lt, fits, score_of, improve, try_orientation, scan, put_piece, place_at,
  place_piece, place_all, optimize,
}
use opticutter_api.Cutting.Packer.Placement.{FitsNowhere, Outcome, place_piece-Outcome}
use opticutter_api.Cutting.Packer.Invariant.{IsSound}
use opticutter_api.Cutting.Packer.Optimize.{
  usable_box, Gives, optimize-IsSound, optimize-pieces, optimize_maximal,
}

-- Millimetres.
abbrev mm : ℕ → ℕ
mm n = n * 1_000_000

abbrev board : Material
board = record {
  id = b'b' ∷ [];
  width = mm 1000;
  height = mm 600;
  thickness = mm 18;
  cost_per_unit = 455_000;
  half_board = false;
}

abbrev saw : CuttingParameters
saw = record {
  kerf = mm 5;
  top_trim = mm 10;
  bottom_trim = mm 10;
  left_trim = mm 10;
  right_trim = mm 10;
}

abbrev shelf : Piece
shelf = record {
  id = b's' ∷ [];
  width = mm 400;
  height = mm 300;
  quantity = 3;
  can_rotate = true;
  priority = 0;
}

abbrev long_rail : Piece
long_rail = record {
  id = b'r' ∷ [];
  width = mm 2000;
  height = mm 70;
  quantity = 1;
  can_rotate = false;
  priority = 1;
}

abbrev job : List Piece
job = shelf ∷ long_rail ∷ []

abbrev settings : Settings
settings = record {
  selection = Selection.best_area_fit;
  split_rule = SplitRule.shorter_leftover_axis;
  kerf = mm 5;
  min_rect_size = 100_000;
}

abbrev start : State
start = record {
  remainders = record { x = mm 10; y = mm 10; width = mm 980; height = mm 580 } ∷ [];
  placed_pieces = [];
  cuts = [];
}

program : Unit {0}
unfolding init optimize place_all place_piece place_at put_piece scan try_orientation improve
    score_of fits lex_lt split_remainder pop_at smaller is_kept cuts_for create_split_rectangles
    split_as split_orientation max_area vertical_split_first horizontal_split_first leftovers
    expand_pieces expand_all instances_from instance_of instance_id decimal sort_pieces placement_lt
program = tt

init_board :
    init board saw SplitRule.shorter_leftover_axis 100_000 Selection.best_area_fit
    ≡ ready settings start
unfolding program
init_board = refl

instance_ids :
    map (λ p. p.id) (expand_pieces job)
    ≡ (b's' ∷ b'#' ∷ b'1' ∷ [])
      ∷ (b's' ∷ b'#' ∷ b'2' ∷ [])
      ∷ (b's' ∷ b'#' ∷ b'3' ∷ [])
      ∷ (b'r' ∷ [])
      ∷ []
unfolding program
instance_ids = refl

decimal_1207 : decimal 1207 ≡ b'1' ∷ b'2' ∷ b'0' ∷ b'7' ∷ []
unfolding program
decimal_1207 = refl

optimize-IsSound_example :
    Gives board saw SplitRule.shorter_leftover_axis 100_000 Selection.best_area_fit init_board job
      false
      (λ placed un s'.
        (placed ≡ s'.placed_pieces)
        × (settings.kerf ≡ saw.kerf)
        × IsSound settings (usable_box board saw) s')
optimize-IsSound_example =
    optimize-IsSound board saw SplitRule.shorter_leftover_axis 100_000 Selection.best_area_fit
      init_board job false

optimize-pieces_example :
    Gives board saw SplitRule.shorter_leftover_axis 100_000 Selection.best_area_fit init_board job
      false
      (λ placed un s'. Permᴰ (map (λ q. q.piece) placed ++ un) (expand_pieces job))
optimize-pieces_example =
    optimize-pieces board saw SplitRule.shorter_leftover_axis 100_000 Selection.best_area_fit
      init_board job false

optimize_maximal_example :
    Gives board saw SplitRule.shorter_leftover_axis 100_000 Selection.best_area_fit init_board job
      false
      (λ placed un s'. All (λ p. FitsNowhere p s') un)
optimize_maximal_example =
    optimize_maximal board saw SplitRule.shorter_leftover_axis 100_000 Selection.best_area_fit
      init_board job false

place_piece-Outcome_example :
    (placed : Bool) × (s' : State) × (place_piece settings shelf start ≡ some (placed, s'))
    × Outcome settings shelf start placed s'
place_piece-Outcome_example = place_piece-Outcome settings shelf start
