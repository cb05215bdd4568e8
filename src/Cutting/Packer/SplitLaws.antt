-- ===== src/Cutting/Packer/SplitLaws.antt =====
-- What a split of a free rectangle leaves: parts of it, a blade's width from the piece and from
-- one another, and cuts that enter none of them.
use opticutter_api.Prelude.{
  ℕ, ◌+◌, ◌-◌, ◌*◌, ◌≤◌, ◌≡◌, List, ◌∷◌, map, arith, All, Pairwise, sum_of,
}
use opticutter_api.Cutting.Models.{Rectangle, rectangle_area, PlacedPiece, placed_area}
use opticutter_api.Cutting.Geometry.{
  Box, rectangle_box, placed_box, blade_box, Within, Apart, grown,
}
use opticutter_api.Cutting.Packer.Split.{
  Settings, leftovers, Orientation, vertical_first, horizontal_first, vertical_split_first,
  horizontal_split_first, split_as, cuts_for,
}

-- The piece sits in the rectangle's corner and does not reach over it.
pub record IsSeated (rect : Rectangle) (placed : PlacedPiece) : Type 0 where
  pub at_x : placed.x ≡ rect.x
  pub at_y : placed.y ≡ rect.y
  pub wide : placed.width ≤ rect.width
  pub high : placed.height ≤ rect.height

-- The boxes of a split: the piece and the new rectangles.
abbrev pub parts : Settings → Rectangle → PlacedPiece → Orientation → List Box
parts c rect placed o =
    placed_box placed ∷ map rectangle_box (split_as o c rect (leftovers c rect placed))

mul_mono : (a b c : ℕ) → a ≤ b → a * c ≤ b * c
mul_mono a b c h = grind arith

-- A column of two on the left, under a band across: their areas fit in the whole.
stack-le : (w h p q u v : ℕ) → p + u ≤ w → q + v ≤ h → p * q + u * q + w * v ≤ w * h
stack-le w h p q u v hu hv = omega (arith, mul_mono (p + u) w q hu, mul_mono (q + v) h w hv)

module _ (c : Settings) (rect : Rectangle) (placed : PlacedPiece)
    (seated : IsSeated rect placed) where
  pub parts-Within : (o : Orientation) → All (Within (rectangle_box rect)) (parts c rect placed o)
  unfolding split_as leftovers vertical_split_first horizontal_split_first
  parts-Within vertical_first = ground arith
  parts-Within horizontal_first = ground arith

  pub parts-Apart : (o : Orientation) → Pairwise (Apart c.kerf) (parts c rect placed o)
  unfolding split_as leftovers vertical_split_first horizontal_split_first
  parts-Apart vertical_first = ground arith
  parts-Apart horizontal_first = ground arith

  pub cuts_for-Apart :
      (o : Orientation)
      → All
          (λ cut. All (Apart 0 (blade_box c.kerf cut)) (parts c rect placed o))
          (cuts_for rect placed (leftovers c rect placed) o)
  unfolding split_as leftovers vertical_split_first horizontal_split_first cuts_for
  cuts_for-Apart vertical_first = ground arith
  cuts_for-Apart horizontal_first = ground arith

  -- A box that keeps its distance from the split rectangle is not entered either.
  pub cuts_for-Apart_outside :
      (o : Orientation) (b : Box)
      → Apart c.kerf (rectangle_box rect) b
      → All
          (λ cut. Apart 0 (blade_box c.kerf cut) b)
          (cuts_for rect placed (leftovers c rect placed) o)
  unfolding leftovers cuts_for
  cuts_for-Apart_outside vertical_first b h = ground arith
  cuts_for-Apart_outside horizontal_first b h = ground arith

  pub cuts_for-Within :
      (o : Orientation)
      → All
          (λ cut. Within (grown c.kerf (rectangle_box rect)) (blade_box c.kerf cut))
          (cuts_for rect placed (leftovers c rect placed) o)
  unfolding leftovers cuts_for
  cuts_for-Within vertical_first = ground arith
  cuts_for-Within horizontal_first = ground arith

  pub parts-area :
      (o : Orientation)
      → placed_area placed + sum_of rectangle_area (split_as o c rect (leftovers c rect placed))
        ≤ rectangle_area rect
  unfolding split_as leftovers vertical_split_first horizontal_split_first
  parts-area vertical_first =
      let stack = stack-le rect.width rect.height placed.width placed.height in
      let l = leftovers c rect placed in
      let u = rect.width - l.effective_width in
      let v = rect.height - l.effective_height in
      ground (arith, stack u v, stack u 0, stack 0 v, stack 0 0)
  parts-area horizontal_first =
      let stack = stack-le rect.height rect.width placed.height placed.width in
      let l = leftovers c rect placed in
      let u = rect.width - l.effective_width in
      let v = rect.height - l.effective_height in
      ground (arith, stack v u, stack v 0, stack 0 u, stack 0 0)
