-- ===== src/Cutting/Constructors/Strip.antt =====
-- src/cutting/constructors.py, `_strip_candidate_dims`, `_strip_material`, `_translate` and the
-- body of the loop over the strip sizes of `strip_fill`.
use opticutter_api.Prelude.{
  ℕ, ◌+◌, ◌-◌, ◌*◌, max, Bool, true, false, ◌&&◌, ◌||◌, Option, none, some, List, [], ◌∷◌, map, leb,
  ltb, ◌==◌, if◌then◌else◌, any_by, filter_by, sort_by, sum_of,
}
use opticutter_api.Cutting.Models.{
  Rectangle, Cut, Piece, PlacedPiece, placed_area, Material, material_validates, BinSpec,
  CuttingParameters, SplitRule, Selection,
}
use opticutter_api.Cutting.Packer.Split.{Settings, State}
use opticutter_api.Cutting.Packer.Place.{ready, value_error, init, optimize}
use opticutter_api.Cutting.Constructors.Order.{
  Counts, count_of, Signature, same_signature, signature_of, key_lt,
}

-- `dims.add(d)`
unfoldable pub add_dim : ℕ → List ℕ → List ℕ
add_dim d dims = if any_by (λ e. e == d) dims then dims else d ∷ dims

unfoldable pub add_dims : List Piece → ℕ → Bool → List ℕ → List ℕ
add_dims [] limit across dims = dims
add_dims (p ∷ ps) limit across dims =
    let primary = if across then p.height else p.width in
    let secondary = if across then p.width else p.height in
    let one = if leb primary limit then add_dim primary dims else dims in
    add_dims ps limit across
      (if p.can_rotate && leb secondary limit then add_dim secondary one else one)

unfoldable pub strip_candidate_dims : List Piece → ℕ → Bool → List ℕ
strip_candidate_dims pool limit across = sort_by (λ a b. ltb b a) (add_dims pool limit across [])

abbrev pub strip_material : BinSpec → ℕ → ℕ → Material
strip_material spec width height = record {
  id = spec.key;
  width = width;
  height = height;
  thickness = spec.thickness;
  cost_per_unit = 0;
  half_board = false;
}

abbrev pub moved_piece : ℕ → ℕ → PlacedPiece → PlacedPiece
moved_piece dx dy pp = record pp { x = pp.x + dx; y = pp.y + dy }

abbrev pub moved_cut : ℕ → ℕ → Cut → Cut
moved_cut dx dy c = record c { x = c.x + dx; y = c.y + dy }

abbrev pub moved_rectangle : ℕ → ℕ → Rectangle → Rectangle
moved_rectangle dx dy r = record r { x = r.x + dx; y = r.y + dy }

-- `_translate`, on the three lists together.
unfoldable pub translate : ℕ → ℕ → State → State
translate dx dy s = record {
  remainders = map (moved_rectangle dx dy) s.remainders;
  placed_pieces = map (moved_piece dx dy) s.placed_pieces;
  cuts = map (moved_cut dx dy) s.cuts;
}

-- The arguments of a call of `strip_fill`, but for its pool.
pub record StripJob : Type 0 where
  pub spec : BinSpec
  pub params : CuttingParameters
  pub horizontal : Bool
  pub first_dim : Option ℕ
  pub max_repeat : Option ℕ
  pub min_rect_size : ℕ

abbrev pub usable_w : StripJob → ℕ
usable_w j = j.spec.width - max 0 j.params.left_trim - max 0 j.params.right_trim

abbrev pub usable_h : StripJob → ℕ
usable_h j = j.spec.height - max 0 j.params.top_trim - max 0 j.params.bottom_trim

abbrev pub axis_room : StripJob → ℕ
axis_room j = if j.horizontal then usable_h j else usable_w j

-- The strip's material, `mat_w` by `mat_h`.
abbrev pub mat_w : StripJob → ℕ → ℕ
mat_w j size = if j.horizontal then usable_w j else size

abbrev pub mat_h : StripJob → ℕ → ℕ
mat_h j size = if j.horizontal then size else usable_h j

abbrev pub strip_params : StripJob → CuttingParameters
strip_params j = record {
  kerf = max 0 j.params.kerf;
  top_trim = 0;
  bottom_trim = 0;
  left_trim = 0;
  right_trim = 0;
}

-- The nested packer, with its default rule and selection; `none` is a ValueError.
unfoldable pub open_strip : StripJob → ℕ → Option (Settings × State)
open_strip j size =
    let m = strip_material j.spec (mat_w j size) (mat_h j size) in
    if material_validates m
    then elim (init m (strip_params j) SplitRule.shorter_leftover_axis j.min_rect_size
        Selection.best_area_fit) [ value_error _ ↦ none | ready c s ↦ some (c, s) ]
    else none

unfoldable pub fits_strip : ℕ → ℕ → Piece → Bool
fits_strip w h p =
    (leb p.width w && leb p.height h) || (p.can_rotate && leb p.height w && leb p.width h)

-- `max(dims) if dims else 0.0`, on numbers that are not negative.
unfoldable pub fit_across : Piece → ℕ → Bool → ℕ
fit_across p limit across_height =
    let natural = if across_height then p.height else p.width in
    let rotated = if across_height then p.width else p.height in
    max (if leb natural limit then natural else 0)
      (if p.can_rotate && leb rotated limit then rotated else 0)

unfoldable pub strip_key : StripJob → ℕ → Piece → List ℕ
strip_key j size p =
    p.priority ∷ fit_across p size j.horizontal ∷ (if j.horizontal then p.width else p.height) ∷ []

-- A packed strip, `best` without its score, and what the score is computed from.
pub record Strip : Type 0 where
  pub size : ℕ
  pub area : ℕ
  pub placed : List PlacedPiece
  pub packer : State
  pub strip_sig : Option Signature

abbrev pub strip_used : Strip → ℕ
strip_used s = sum_of placed_area s.placed

-- `score > best[0]` for `(used / area, used, -size)`; the quotients are compared crosswise.
unfoldable pub beats : Strip → Strip → Bool
beats new best =
    let a = strip_used new * best.area in
    let b = strip_used best * new.area in
    if ltb b a
    then true
    else (if a == b
        then (if ltb (strip_used best) (strip_used new)
            then true
            else strip_used new == strip_used best && ltb new.size best.size)
        else false)

unfoldable pub keep_better : Option Strip → Option Strip → Option Strip
keep_better none best = best
keep_better (some new) none = some new
keep_better (some new) (some best) = if beats new best then some new else some best

abbrev pub Repeats : Type 0
Repeats = Counts Signature

unfoldable pub strip_of : StripJob → ℕ → List PlacedPiece → State → Option Signature → Strip
strip_of j size placed s sig = record {
  size = size;
  area = mat_w j size * mat_h j size;
  placed = placed;
  packer = s;
  strip_sig = sig;
}

-- The strip under `max_repeat`; `none` is `continue`.
unfoldable pub capped : StripJob → Repeats → ℕ → List PlacedPiece → State → Option Strip
capped j repeats size placed s = elim j.max_repeat [
  | none ↦ some (strip_of j size placed s none)
  | some most ↦
      let sig = signature_of placed in
      if leb most (count_of same_signature sig repeats)
      then none
      else some (strip_of j size placed s (some sig))
]

-- What follows the pack of a strip. The outer `none` is an IndexError of the packer.
unfoldable pub packed :
    StripJob → Repeats → ℕ → Option (List PlacedPiece × List Piece × State) → Option (Option Strip)
packed j repeats size none = none
packed j repeats size (some ([], _, s)) = some none
packed j repeats size (some (pp ∷ pps, _, s)) = some (capped j repeats size (pp ∷ pps) s)

unfoldable pub pack_fitting :
    StripJob → Repeats → ℕ → Settings → State → List Piece → Option (Option Strip)
pack_fitting j repeats size c s [] = some none
pack_fitting j repeats size c s (p ∷ ps) =
    packed j repeats size (optimize c (sort_by (key_lt (strip_key j size)) (p ∷ ps)) true s)

unfoldable pub try_size : StripJob → List Piece → Repeats → ℕ → Option (Option Strip)
try_size j remaining repeats size = elim (open_strip j size) [
  | none ↦ some none
  | some (c, s) ↦
      pack_fitting j repeats size c s
        (filter_by (fits_strip (mat_w j size) (mat_h j size)) remaining)
]

-- `for size in candidates`
unfoldable pub best_strip :
    StripJob → List Piece → Repeats → List ℕ → Option Strip → Option (Option Strip)
best_strip j remaining repeats [] best = some best
best_strip j remaining repeats (size ∷ sizes) best = elim (try_size j remaining repeats size) [
  | none ↦ none
  | some new ↦ best_strip j remaining repeats sizes (keep_better new best)
]
