-- ===== src/Cutting/Constructors/Tests.antt =====
-- A small board filled by strips and greedily, and the theorems at concrete inputs.
use opticutter_api.Prelude.{
  ℕ, ◌*◌, ◌≡◌, refl, false, Option, none, some, List, [], ◌∷◌, length, arith,
}
use opticutter_api.Cutting.Models.{
  Piece, BinSpec, CuttingParameters, to_material, SplitRule, Selection,
}
use opticutter_api.Cutting.Packer.Expand.{
  decimal, instance_id, instance_of, instances_from, expand_all, expand_pieces,
}
use opticutter_api.Cutting.Packer.Split.{
  leftovers, vertical_split_first, horizontal_split_first, max_area, split_orientation, split_as,
  create_split_rectangles, cuts_for, is_kept, smaller, pop_at, split_remainder,
}
use opticutter_api.Cutting.Packer.Place.{
  init, lex_lt, fits, score_of, improve, try_orientation, scan, put_piece, place_at, place_piece,
  place_all, optimize,
}
use opticutter_api.Cutting.Packer.Optimize.{usable_box}
use opticutter_api.Cutting.Constructors.Order.{
  GreedyConfig, SortKey, greedy_portfolio, key_lt, sort_keys, signature_of, count_types, count_in,
  count_of, type_key, same_signature,
}
use opticutter_api.Cutting.Constructors.Pieces.{AreDistinct, same_id-ne}
use opticutter_api.Cutting.Constructors.Fill.{BinFill, greedy_fill, ids_of}
use opticutter_api.Cutting.Constructors.Strip.{
  StripJob, best_strip, try_size, pack_fitting, packed, capped, strip_of, keep_better, beats,
  strip_key, fit_across, fits_strip, open_strip, translate, strip_candidate_dims, add_dims, add_dim,
}
use opticutter_api.Cutting.Constructors.Rounds.{
  strip_fill, fill_strips, next_room, round, commit, with_strip, count_strip, minus, sizes_to_try,
  close, tail_of,
}
use opticutter_api.Cutting.Constructors.Parted.{IsParted}
use opticutter_api.Cutting.Constructors.Packs.{MayBe}
use opticutter_api.Cutting.Constructors.Advance.{job_box}
use opticutter_api.Cutting.Constructors.Distances.{contents, strip_fill-IsParted}
use opticutter_api.Cutting.Constructors.Greedy.{IsGreedy, greedy_fill-IsGreedy}
use opticutter_api.Cutting.Constructors.Pool.{Shares, strip_fill-Shares}

abbrev mm : ℕ → ℕ
mm n = n * 1_000_000

abbrev board : BinSpec
board = record {
  key = b'b' ∷ [];
  width = mm 1000;
  height = mm 600;
  thickness = mm 18;
  cost_per_unit = 455_000;
  count = none;
  half_board = false;
}

abbrev saw : CuttingParameters
saw = record {
  kerf = mm 5;
  top_trim = mm 10;
  bottom_trim = mm 10;
  left_trim = mm 10;
  right_trim = mm 10;
}

abbrev panel : ℕ → ℕ → ℕ → Piece
panel id width height = record {
  id = id ∷ [];
  width = mm width;
  height = mm height;
  quantity = 1;
  can_rotate = false;
  priority = 0;
}

-- Two doors and a shelf of 300 mm, and a rail that spans the board.
abbrev pool : List Piece
pool = panel b'd' 300 580 ∷ panel b'e' 300 580 ∷ panel b's' 300 200 ∷ panel b'r' 70 580 ∷ []

abbrev job : Option ℕ → StripJob
job max_repeat = record {
  spec = board;
  params = saw;
  horizontal = false;
  first_dim = none;
  max_repeat = max_repeat;
  min_rect_size = 100_000;
}

abbrev ids : Option (Option BinFill) → List (List ℕ)
ids (some (some f)) = ids_of f.placed
ids (some none) = []
ids none = []

portfolio_length : length greedy_portfolio ≡ 48
portfolio_length = refl

program : Unit {0}
unfolding strip_fill fill_strips next_room round commit with_strip count_strip minus sizes_to_try
    close tail_of best_strip try_size pack_fitting packed capped strip_of keep_better beats
    strip_key fit_across fits_strip open_strip translate strip_candidate_dims add_dims add_dim
    key_lt sort_keys signature_of count_types count_in count_of type_key same_signature init
    optimize place_all place_piece place_at put_piece scan try_orientation improve score_of fits
    lex_lt split_remainder pop_at smaller is_kept cuts_for create_split_rectangles split_as
    split_orientation max_area vertical_split_first horizontal_split_first leftovers expand_pieces
    expand_all instances_from instance_of instance_id decimal
program = tt

-- Both doors and the rail; the shelf is wider than the room left.
ids-strip_fill : ids (strip_fill pool (job none)) ≡ (b'd' ∷ []) ∷ (b'e' ∷ []) ∷ (b'r' ∷ []) ∷ []
unfolding program
ids-strip_fill = refl

-- With one strip of each kind, the second door stays out.
ids_capped : ids (strip_fill pool (job (some 1))) ≡ (b'd' ∷ []) ∷ (b'r' ∷ []) ∷ []
unfolding program
ids_capped = refl

strip_fill-IsParted_example :
    (o : Option BinFill) × (strip_fill pool (job none) ≡ some o)
    × MayBe (λ f. IsParted (mm 5) (job_box (job none)) (contents f)) o
strip_fill-IsParted_example = strip_fill-IsParted pool (job none) (omega arith)

pool-AreDistinct : AreDistinct pool
pool-AreDistinct = (
  (same_id-ne _ _ refl, (same_id-ne _ _ refl, (same_id-ne _ _ refl, tt))),
  ((same_id-ne _ _ refl, (same_id-ne _ _ refl, tt)), ((same_id-ne _ _ refl, tt), (tt, tt))),
)

strip_fill-Shares_example :
    (o : Option BinFill) × (strip_fill pool (job none) ≡ some o) × MayBe (Shares pool) o
strip_fill-Shares_example =
    strip_fill-Shares pool (job none) pool-AreDistinct (refl, (refl, (refl, (refl, tt))))

abbrev config : GreedyConfig
config = record {
  sort = SortKey.area;
  split = SplitRule.shorter_leftover_axis;
  selection = Selection.best_area_fit;
}

greedy_fill-IsGreedy_example :
    (o : Option BinFill) × (greedy_fill pool board saw config 100_000 ≡ some o)
    × MayBe (IsGreedy (mm 5) (usable_box (to_material board) saw) pool) o
greedy_fill-IsGreedy_example = greedy_fill-IsGreedy pool board saw config 100_000
