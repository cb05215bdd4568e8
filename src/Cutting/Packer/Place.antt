-- ===== src/Cutting/Packer/Place.antt =====
-- src/cutting/packer.py, `GuillotineOptimizer.__init__`, `_place_piece` and `optimize`.
use opticutter_api.Prelude.{
  ℕ, suc, ◌+◌, ◌-◌, max, Bool, true, false, ◌&&◌, Option, none, some, List, [], ◌∷◌, ◌++◌, ltb, leb,
  ◌==◌, if◌then◌else◌,
}
use opticutter_api.Cutting.Models.{
  Rectangle, rectangle_area, Piece, piece_area, PlacedPiece, Material, CuttingParameters, SplitRule,
  Selection,
}
use opticutter_api.Cutting.Packer.Expand.{expand_pieces, sort_pieces}
use opticutter_api.Cutting.Packer.Split.{Settings, State, pop_at, split_remainder}

pub data InitError : Type 0 where
  horizontal_trims vertical_trims : InitError

pub data InitResult : Type 0 where
  ready : Settings → State → InitResult
  value_error : InitError → InitResult

-- `__init__`, once its defaults are filled in.
unfoldable pub init : Material → CuttingParameters → SplitRule → ℕ → Selection → InitResult
init material params split_rule min_rect_size selection =
    let kerf = max 0 params.kerf in
    let top_trim = max 0 params.top_trim in
    let bottom_trim = max 0 params.bottom_trim in
    let left_trim = max 0 params.left_trim in
    let right_trim = max 0 params.right_trim in
    if leb material.width (left_trim + right_trim)
    then value_error horizontal_trims
    else (if leb material.height (top_trim + bottom_trim)
        then value_error vertical_trims
        else ready
            (record {
              selection = selection;
              split_rule = split_rule;
              kerf = kerf;
              min_rect_size = max 10_000 min_rect_size;
            })
            (record {
              remainders =
                  record {
                    x = left_trim;
                    y = bottom_trim;
                    width = material.width - left_trim - right_trim;
                    height = material.height - top_trim - bottom_trim;
                  }
                  ∷ [];
              placed_pieces = [];
              cuts = [];
            }))

-- Sort keys: tuples compare from the left.
unfoldable pub lex_lt : List ℕ → List ℕ → Bool
lex_lt [] [] = false
lex_lt [] (b ∷ bs) = true
lex_lt (a ∷ as') [] = false
lex_lt (a ∷ as') (b ∷ bs) = if ltb a b then true else (if a == b then lex_lt as' bs else false)

-- The best candidate so far: its score, the index of its rectangle and its orientation.
pub record Best : Type 0 where
  pub score : List ℕ
  pub index : ℕ
  pub rotated : Bool

-- The dimensions that the piece takes on the sheet.
abbrev pub across : Piece → Bool → ℕ
across p rotated = if rotated then p.height else p.width

abbrev pub along : Piece → Bool → ℕ
along p rotated = if rotated then p.width else p.height

-- The piece may be turned so, and then fits: the two tests of the loop's body.
unfoldable pub fits : Piece → Bool → Rectangle → Bool
fits p true rect = p.can_rotate && leb p.height rect.width && leb p.width rect.height
fits p false rect = leb p.width rect.width && leb p.height rect.height

-- `score = (fit, rect_w - …)`. Both differences are read only where the piece fits.
unfoldable pub score_of : Selection → Piece → Bool → Rectangle → List ℕ
score_of Selection.bottom_left p rotated rect =
    rect.x ∷ rect.y ∷ (rectangle_area rect - piece_area p) ∷ (rect.width - across p rotated) ∷ []
score_of Selection.best_area_fit p rotated rect =
    (rectangle_area rect - piece_area p) ∷ (rect.width - across p rotated) ∷ []

-- `if best_score is None or score < best_score: …`
unfoldable pub improve : Option Best → Best → Option Best
improve none new = some new
improve (some best) new = if lex_lt new.score best.score then some new else some best

unfoldable pub try_orientation :
    Selection → Piece → ℕ → Rectangle → Bool → Option Best → Option Best
try_orientation sel p i rect rotated best =
    if fits p rotated rect
    then improve best (record { score = score_of sel p rotated rect; index = i; rotated = rotated })
    else best

-- The loop over the remainders, from index `i`.
unfoldable pub scan : Selection → Piece → ℕ → List Rectangle → Option Best → Option Best
scan sel p i [] best = best
scan sel p i (rect ∷ rects) best =
    scan sel p (suc i) rects
      (try_orientation sel p i rect true (try_orientation sel p i rect false best))

unfoldable pub put_piece : Piece → Bool → Rectangle → PlacedPiece
put_piece p rotated rect = record {
  piece = p;
  x = rect.x;
  y = rect.y;
  width = across p rotated;
  height = along p rotated;
  rotated = rotated;
}

-- What follows the loop. `none` is the IndexError of an index outside the remainders.
unfoldable pub place_at : Settings → Piece → State → Best → Option State
place_at c p s best = elim (pop_at s.remainders best.index) [
  | none ↦ none
  | some (rect, rest) ↦
      let placed = put_piece p best.rotated rect in
      some (
        split_remainder c (record s { placed_pieces = s.placed_pieces ++ placed ∷ [] }) rest rect
          placed)
]

-- `_place_piece`: whether the piece was placed, and the state after it.
unfoldable pub place_piece : Settings → Piece → State → Option (Bool × State)
place_piece c p s = elim (scan c.selection p 0 s.remainders none) [
  | none ↦ some (false, s)
  | some best ↦ elim (place_at c p s best) [ none ↦ none | some s' ↦ some (true, s') ]
]

-- The loop of `optimize`, on the pieces that it has left: the pieces not placed, in order.
unfoldable pub place_all : Settings → List Piece → State → Option (List Piece × State)
place_all c [] s = some ([], s)
place_all c (p ∷ ps) s = elim (place_piece c p s) [
  | none ↦ none
  | some (placed, s') ↦ elim (place_all c ps s') [
    | none ↦ none
    | some (unplaced, s'') ↦ some (if placed then unplaced else p ∷ unplaced, s'')
  ]
]

-- `optimize`: its two results, and the state it leaves.
unfoldable pub optimize :
    Settings → List Piece → Bool → State → Option (List PlacedPiece × List Piece × State)
optimize c [] presorted s = some ([], [], s)
optimize c (p ∷ ps) presorted s =
    let expanded = expand_pieces (p ∷ ps) in
    elim (place_all c (if presorted then expanded else sort_pieces expanded) s) [
      | none ↦ none
      | some (unplaced, s') ↦ some (s'.placed_pieces, unplaced, s')
    ]
