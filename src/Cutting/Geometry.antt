-- ===== src/Cutting/Geometry.antt =====
-- Boxes on a sheet: containment, and being a blade's width apart. The vocabulary in which the
-- packer's and the sheet check's promises are stated.
use opticutter_api.Prelude.{ℕ, ◌+◌, ◌≤◌, ◌⊎◌, inl, inr, if◌then◌else◌, arith}
use opticutter_api.Cutting.Models.{Rectangle, Cut, PlacedPiece}

pub record Box : Type 0 where
  pub x0 : ℕ
  pub y0 : ℕ
  pub x1 : ℕ
  pub y1 : ℕ

abbrev pub rectangle_box : Rectangle → Box
rectangle_box r = record { x0 = r.x; y0 = r.y; x1 = r.x + r.width; y1 = r.y + r.height }

abbrev pub placed_box : PlacedPiece → Box
placed_box p = record { x0 = p.x; y0 = p.y; x1 = p.x + p.width; y1 = p.y + p.height }

-- What the blade removes: the cut's travel, by the kerf.
abbrev pub blade_box : ℕ → Cut → Box
blade_box kerf c =
    if c.is_horizontal
    then record { x0 = c.x; y0 = c.y; x1 = c.x + c.length; y1 = c.y + kerf }
    else record { x0 = c.x; y0 = c.y; x1 = c.x + kerf; y1 = c.y + c.length }

abbrev pub Within : Box → Box → Type 0
Within outer inner =
    (outer.x0 ≤ inner.x0) × (outer.y0 ≤ inner.y0) × (inner.x1 ≤ outer.x1) × (inner.y1 ≤ outer.y1)

-- On some axis one of the two ends at least `gap` before the other begins.
abbrev pub Apart : ℕ → Box → Box → Type 0
Apart gap a b =
    ((a.x1 + gap ≤ b.x0) ⊎ (b.x1 + gap ≤ a.x0)) ⊎ ((a.y1 + gap ≤ b.y0) ⊎ (b.y1 + gap ≤ a.y0))

pub Apart-sym : (gap : ℕ) (a b : Box) → Apart gap a b → Apart gap b a
Apart-sym gap a b (inl (inl h)) = inl (inr h)
Apart-sym gap a b (inl (inr h)) = inl (inl h)
Apart-sym gap a b (inr (inl h)) = inr (inr h)
Apart-sym gap a b (inr (inr h)) = inr (inl h)

-- A part of a box keeps the box's distances.
pub Apart-Within : (gap : ℕ) (a b c : Box) → Within a b → Apart gap a c → Apart gap b c
Apart-Within gap a b c w (inl (inl h)) = inl (inl (omega arith))
Apart-Within gap a b c w (inl (inr h)) = inl (inr (omega arith))
Apart-Within gap a b c w (inr (inl h)) = inr (inl (omega arith))
Apart-Within gap a b c w (inr (inr h)) = inr (inr (omega arith))

pub Within-trans : (a b c : Box) → Within a b → Within b c → Within a c
Within-trans a b c h k = omega arith

-- A box with `gap` more at its far ends.
abbrev pub grown : ℕ → Box → Box
grown gap b = record { x0 = b.x0; y0 = b.y0; x1 = b.x1 + gap; y1 = b.y1 + gap }

pub Within-grown :
    (gap : ℕ) (a b c : Box) → Within a b → Within (grown gap b) c → Within (grown gap a) c
Within-grown gap a b c h k = omega arith
