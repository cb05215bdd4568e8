-- ===== src/Cutting/Packer/Split.antt =====
-- src/cutting/packer.py, `_split_remainder` and what it calls. The attributes that `__init__` fixes
-- are a `Settings`, those that packing changes are a `State`.
use opticutter_api.Prelude.{
  ℕ, zero, suc, ◌+◌, ◌-◌, max, Bool, true, false, ◌&&◌, Option, none, some, List, [], ◌∷◌, ◌++◌,
  ltb, leb, if◌then◌else◌, filter_by, sort_by,
}
use opticutter_api.Cutting.Models.{
  Rectangle, rectangle_area, Cut, PlacedPiece, SplitRule, Selection,
}

pub record Settings : Type 0 where
  pub selection : Selection
  pub split_rule : SplitRule
  pub kerf : ℕ
  pub min_rect_size : ℕ

pub record State : Type 0 where
  pub remainders : List Rectangle
  pub placed_pieces : List PlacedPiece
  pub cuts : List Cut

pub data Orientation : Type 0 where
  vertical_first horizontal_first : Orientation

-- What `_split_remainder` computes before it splits. A leftover is not negative: the piece fits.
pub record Leftovers : Type 0 where
  pub effective_width : ℕ
  pub effective_height : ℕ
  pub width_leftover : ℕ
  pub height_leftover : ℕ

unfoldable pub leftovers : Settings → Rectangle → PlacedPiece → Leftovers
leftovers c rect placed =
    let width_leftover = rect.width - placed.width in
    let height_leftover = rect.height - placed.height in
    record {
      effective_width = placed.width + (if ltb 0 width_leftover then c.kerf else 0);
      effective_height = placed.height + (if ltb 0 height_leftover then c.kerf else 0);
      width_leftover = width_leftover;
      height_leftover = height_leftover;
    }

-- `[rect] if test else []`, for the guarded `append`s.
abbrev pub only_if {ℓ} : {A : Type ℓ} → Bool → A → List A
only_if b x = if b then x ∷ [] else []

-- `remaining > 0` is tested on a difference that may be negative: then it is 0 here.
unfoldable pub vertical_split_first : Settings → Rectangle → Leftovers → List Rectangle
vertical_split_first c rect l =
    let remaining_width = rect.width - l.effective_width in
    let remaining_height = rect.height - l.effective_height in
    only_if (ltb 0 l.width_leftover && ltb 0 remaining_width) (record {
      x = rect.x + l.effective_width;
      y = rect.y;
      width = remaining_width;
      height = if ltb 0 l.height_leftover then l.effective_height - c.kerf else l.effective_height;
    })
    ++ only_if (ltb 0 l.height_leftover && ltb 0 remaining_height) (record {
      x = rect.x;
      y = rect.y + l.effective_height;
      width = rect.width;
      height = remaining_height;
    })

unfoldable pub horizontal_split_first : Settings → Rectangle → Leftovers → List Rectangle
horizontal_split_first c rect l =
    let remaining_width = rect.width - l.effective_width in
    let remaining_height = rect.height - l.effective_height in
    only_if (ltb 0 l.height_leftover && ltb 0 remaining_height) (record {
      x = rect.x;
      y = rect.y + l.effective_height;
      width = if ltb 0 l.width_leftover then l.effective_width - c.kerf else l.effective_width;
      height = remaining_height;
    })
    ++ only_if (ltb 0 l.width_leftover && ltb 0 remaining_width) (record {
      x = rect.x + l.effective_width;
      y = rect.y;
      width = remaining_width;
      height = rect.height;
    })

-- `max((r.area for r in rects), default=0)`
unfoldable pub max_area : List Rectangle → ℕ
max_area [] = 0
max_area (r ∷ rs) = max (rectangle_area r) (max_area rs)

unfoldable pub split_orientation : Settings → Rectangle → Leftovers → Orientation
split_orientation c rect l =
    let vertical = max_area (vertical_split_first c rect l) in
    let horizontal = max_area (horizontal_split_first c rect l) in
    let vertical? = λ (b : Bool). if b then vertical_first else horizontal_first in
    elim c.split_rule [
      | SplitRule.shorter_leftover_axis ↦ vertical? (leb l.width_leftover l.height_leftover)
      | SplitRule.longer_leftover_axis ↦ vertical? (leb l.height_leftover l.width_leftover)
      | SplitRule.shorter_axis ↦ vertical? (leb rect.width rect.height)
      | SplitRule.longer_axis ↦ vertical? (leb rect.height rect.width)
      | SplitRule.minimize_area ↦ vertical? (leb vertical horizontal)
      | SplitRule.maximize_area ↦ vertical? (leb horizontal vertical)
    ]

unfoldable pub split_as : Orientation → Settings → Rectangle → Leftovers → List Rectangle
split_as vertical_first c rect l = vertical_split_first c rect l
split_as horizontal_first c rect l = horizontal_split_first c rect l

unfoldable pub create_split_rectangles :
    Settings → Rectangle → Leftovers → List Rectangle × Orientation
create_split_rectangles c rect l =
    let orientation = split_orientation c rect l in (split_as orientation c rect l, orientation)

unfoldable pub cuts_for : Rectangle → PlacedPiece → Leftovers → Orientation → List Cut
cuts_for rect placed l vertical_first =
    only_if (ltb 0 l.height_leftover)
      (record { x = rect.x; y = rect.y + placed.height; length = rect.width; is_horizontal = true })
    ++ only_if (ltb 0 l.width_leftover) (record {
      x = rect.x + placed.width;
      y = rect.y;
      length = placed.height;
      is_horizontal = false;
    })
cuts_for rect placed l horizontal_first =
    only_if (ltb 0 l.width_leftover) (record {
      x = rect.x + placed.width;
      y = rect.y;
      length = rect.height;
      is_horizontal = false;
    })
    ++ only_if (ltb 0 l.height_leftover) (record {
      x = rect.x;
      y = rect.y + placed.height;
      length = placed.width;
      is_horizontal = true;
    })

-- `r.width >= self.min_rect_size and r.height >= self.min_rect_size`
unfoldable pub is_kept : Settings → Rectangle → Bool
is_kept c r = leb c.min_rect_size r.width && leb c.min_rect_size r.height

-- `self.remainders.sort(key=_AREA)`
unfoldable pub smaller : Rectangle → Rectangle → Bool
smaller a b = ltb (rectangle_area a) (rectangle_area b)

-- `self.remainders[i]` and `self.remainders.pop(i)` at once; `none` is an IndexError.
unfoldable pub pop_at {ℓ} : {A : Type ℓ} → List A → ℕ → Option (A × List A)
pop_at [] i = none
pop_at (x ∷ xs) zero = some (x, xs)
pop_at (x ∷ xs) (suc i) = elim (pop_at xs i) [ none ↦ none | some (y, ys) ↦ some (y, x ∷ ys) ]

-- `_split_remainder`, with the rectangle `rect` already popped: `rest` are the others.
unfoldable pub split_remainder : Settings → State → List Rectangle → Rectangle → PlacedPiece → State
split_remainder c s rest rect placed =
    let l = leftovers c rect placed in
    let (new_rects, orientation) = create_split_rectangles c rect l in
    record {
      remainders = sort_by smaller (rest ++ filter_by (is_kept c) new_rects);
      placed_pieces = s.placed_pieces;
      cuts = s.cuts ++ cuts_for rect placed l orientation;
    }
