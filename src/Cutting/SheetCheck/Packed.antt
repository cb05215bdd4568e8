-- ===== src/Cutting/SheetCheck/Packed.antt =====
-- The packer's sheets pass the sheet check: what it emits is valid by construction.
use opticutter_api.Prelude.{
  ℕ, ◌+◌, ◌≤◌, ◌<◌, ◌≡◌, refl, inl, inr, Bool, true, List, [], ◌∷◌, ◌++◌, map, All, Pairwise,
  All-append_split, arith, max, Bool-cases,
}
use opticutter_api.Prelude.Int.{pos, sub_ℕ, ◌+ℤ◌, ◌≤ℤ◌}
use opticutter_api.Cutting.Models.{
  Piece, PlacedPiece, Material, CuttingParameters, SplitRule, Selection,
}
use opticutter_api.Cutting.Geometry.{Box, rectangle_box, placed_box, Within, Apart}
use opticutter_api.Cutting.Packer.Split.{Settings, State}
use opticutter_api.Cutting.Packer.Place.{init, ready}
use opticutter_api.Cutting.Packer.Invariant.{IsLegal, IsSound}
use opticutter_api.Cutting.Packer.Optimize.{usable_box, init_fresh, Gives, optimize-IsSound}
use opticutter_api.Cutting.SheetCheck.Separation.{ApartBy}
use opticutter_api.Cutting.SheetCheck.Violations.{
  usable_bounds, piece_box, iter_violations, is_cuttable, on_sheet,
}
use opticutter_api.Cutting.SheetCheck.Physical.{
  HasOwnSize, IsAllowed, AreApart, iter_violations_iff,
}

IsLegal-HasOwnSize : (q : PlacedPiece) → IsLegal q → HasOwnSize (on_sheet q)
IsLegal-HasOwnSize q h = elim (Bool-cases q.rotated) [
  | inl e ↦ inl (ground arith)
  | inr e ↦ inr (ground arith)
]

-- Exact room for the blade is room for it less one epsilon.
blade-le : (x w b k : ℕ) → x + w + k ≤ b → pos x +ℤ pos w +ℤ sub_ℕ (max 0 k) 1 ≤ℤ pos b
unfolding ◌+ℤ◌
blade-le x w b k h = ground arith

Apart-ApartBy :
    (k : ℕ) (p q : PlacedPiece)
    → Apart k (placed_box p) (placed_box q)
    → ApartBy (sub_ℕ (max 0 k) 1) (piece_box (on_sheet p)) (piece_box (on_sheet q))
unfolding piece_box
Apart-ApartBy k p q (inl (inl h)) = inl (inl (blade-le p.x p.width q.x k h))
Apart-ApartBy k p q (inl (inr h)) = inl (inr (blade-le q.x q.width p.x k h))
Apart-ApartBy k p q (inr (inl h)) = inr (inl (blade-le p.y p.height q.y k h))
Apart-ApartBy k p q (inr (inr h)) = inr (inr (blade-le q.y q.height p.y k h))

module _ (m : Material) (params : CuttingParameters)
    (wide : params.left_trim + params.right_trim < m.width)
    (high : params.top_trim + params.bottom_trim < m.height) where
  Within-IsAllowed :
      (q : PlacedPiece)
      → Within (usable_box m params) (placed_box q)
      → IsLegal q
      → IsAllowed m.width m.height params (on_sheet q)
  unfolding usable_bounds piece_box ◌+ℤ◌
  Within-IsAllowed q w h = (
    (ground arith, ground arith, ground arith, ground arith),
    (ground arith, ground arith, ground arith, ground arith),
    IsLegal-HasOwnSize q h,
  )

  All-IsAllowed :
      (qs : List PlacedPiece)
      → All (Within (usable_box m params)) (map placed_box qs)
      → All IsLegal qs
      → All (IsAllowed m.width m.height params) (map on_sheet qs)
  All-IsAllowed [] w h = tt
  All-IsAllowed (q ∷ qs) w h = (Within-IsAllowed q w.0 h.0, All-IsAllowed qs w.1 h.1)

  module _ (p : PlacedPiece) where
    Apart-AreApart :
        (qs : List PlacedPiece)
        → All (Apart params.kerf (placed_box p)) (map placed_box qs)
        → All (AreApart m.width m.height params (on_sheet p)) (map on_sheet qs)
    Apart-AreApart [] h = tt
    Apart-AreApart (q ∷ qs) h = (Apart-ApartBy params.kerf p q h.0, Apart-AreApart qs h.1)

  Pairwise-AreApart :
      (qs : List PlacedPiece)
      → Pairwise (Apart params.kerf) (map placed_box qs)
      → Pairwise (AreApart m.width m.height params) (map on_sheet qs)
  Pairwise-AreApart [] h = tt
  Pairwise-AreApart (q ∷ qs) h = (Apart-AreApart q qs h.0, Pairwise-AreApart qs h.1)

Pairwise-append_right :
    (k : ℕ) (xs ys : List Box) → Pairwise (Apart k) (xs ++ ys) → Pairwise (Apart k) ys
Pairwise-append_right k [] ys h = h
Pairwise-append_right k (x ∷ xs) ys h = Pairwise-append_right k xs ys h.1

sound_clean :
    (m : Material) (params : CuttingParameters)
    → params.left_trim + params.right_trim < m.width
    → params.top_trim + params.bottom_trim < m.height
    → (c : Settings) (s : State) → c.kerf ≡ params.kerf
    → IsSound c (usable_box m params) s
    → iter_violations m.width m.height (map on_sheet s.placed_pieces) params [] ≡ []
sound_clean m params wide high c s kerf sound =
    let qs = s.placed_pieces in
    let free = map rectangle_box s.remainders in
    let inside =
      All-append_split (Within (usable_box m params)) free (map placed_box qs) sound.inside in
    let apart = Pairwise-append_right c.kerf free (map placed_box qs) sound.apart in
    (iter_violations_iff m.width m.height params (map on_sheet qs) []).1 (
      All-IsAllowed m params wide high qs inside.1 sound.legal,
      Pairwise-AreApart m params wide high qs (rw kerf at apart),
      tt,
    )

module _ (m : Material) (params : CuttingParameters) (rule : SplitRule) (min_rect_size : ℕ)
    (sel : Selection) {c : Settings} {s : State}
    (fresh : init m params rule min_rect_size sel ≡ ready c s) (ps : List Piece)
    (presorted : Bool) where
  -- Whatever is packed on a fresh sheet, the sheet check finds nothing wrong with the result.
  pub optimize-is_cuttable :
      Gives m params rule min_rect_size sel fresh ps presorted (λ placed un s'.
        (iter_violations m.width m.height (map on_sheet placed) params [] ≡ [])
        × (is_cuttable m.width m.height (map on_sheet placed) params ≡ true))
  unfolding is_cuttable
  optimize-is_cuttable =
      let (placed, un, s', e, (same, kerf, sound)) =
        optimize-IsSound m params rule min_rect_size sel fresh ps presorted in
      let (_, wide, high, _) = init_fresh m params rule min_rect_size sel fresh in
      let clean = sound_clean m params wide high c s' kerf sound in
      (placed, un, s', e, rw same (clean, rw (clean, is_cuttable) refl))
