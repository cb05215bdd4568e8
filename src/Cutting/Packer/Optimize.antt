-- ===== src/Cutting/Packer/Optimize.antt =====
-- What a call of `optimize` on a fresh `GuillotineOptimizer` gives.
use opticutter_api.Prelude.{
  ℕ, ◌+◌, ◌-◌, ◌≤◌, ◌<◌, ◌≡◌, refl, Bool, true, false, some, List, [], ◌∷◌, ◌++◌, map, All, Permᴰ,
  sort_by-perm, arith, sum_of, if◌then◌else◌,
}
use mathlib.Core.List.Permᴰ
use opticutter_api.Cutting.Models.{
  Rectangle, rectangle_area, Piece, PlacedPiece, placed_area, Material, CuttingParameters,
  SplitRule, Selection,
}
use opticutter_api.Cutting.Geometry.{Box}
use opticutter_api.Cutting.Packer.Expand.{expand_pieces, sort_pieces, placement_lt}
use opticutter_api.Cutting.Packer.Split.{Settings, State}
use opticutter_api.Cutting.Packer.Place.{init, ready, optimize}
use opticutter_api.Cutting.Packer.Placement.{FitsNowhere}
use opticutter_api.Cutting.Packer.Invariant.{IsSound}
use opticutter_api.Cutting.Packer.Run.{
  Run, done, place_all-Run, Run-IsSound, Run-pieces, Run-covered_area, covered_area,
}
use opticutter_api.Cutting.Packer.Leftover.{Run-unplaced}

-- The sheet less its trims.
abbrev pub usable_box : Material → CuttingParameters → Box
usable_box m params = record {
  x0 = params.left_trim;
  y0 = params.bottom_trim;
  x1 = m.width - params.right_trim;
  y1 = m.height - params.top_trim;
}

-- The pieces in the order in which `optimize` tries them.
abbrev pub ordered : List Piece → Bool → List Piece
ordered ps presorted = if presorted then expand_pieces ps else sort_pieces (expand_pieces ps)

pub ordered-perm :
    (ps : List Piece) (presorted : Bool) → Permᴰ (ordered ps presorted) (expand_pieces ps)
unfolding sort_pieces
ordered-perm ps true = Permᴰ.refl _
ordered-perm ps false = sort_by-perm placement_lt (expand_pieces ps)

module _ (m : Material) (params : CuttingParameters) (rule : SplitRule) (min_rect_size : ℕ)
    (sel : Selection) {c : Settings} {s : State}
    (fresh : init m params rule min_rect_size sel ≡ ready c s) where
  -- One free rectangle, the whole usable sheet, with room on both axes.
  abbrev usable_rectangle : Rectangle
  usable_rectangle = record {
    x = params.left_trim;
    y = params.bottom_trim;
    width = m.width - params.left_trim - params.right_trim;
    height = m.height - params.top_trim - params.bottom_trim;
  }

  pub init_fresh :
      (s ≡ record { remainders = usable_rectangle ∷ []; placed_pieces = []; cuts = [] })
      × (params.left_trim + params.right_trim < m.width)
      × (params.top_trim + params.bottom_trim < m.height)
      × (c.kerf ≡ params.kerf)
  unfolding init
  init_fresh = ground arith

  pub init-IsSound : IsSound c (usable_box m params) s
  init-IsSound =
      let (start, wide, high, _) = init_fresh in
      rw start (record { inside = (omega arith, tt); apart = (tt, tt); clear = tt; legal = tt })

  init-covered_area : covered_area s ≡ rectangle_area usable_rectangle
  init-covered_area = rw init_fresh.0 (omega arith)

  pub optimize-Run :
      (ps : List Piece) (presorted : Bool)
      → (un : List Piece) × (s' : State) × (optimize c ps presorted s
          ≡ some (s'.placed_pieces, un, s'))
        × Run c (ordered ps presorted) s un s'
  unfolding optimize expand_pieces sort_pieces
  optimize-Run [] true = ([], s, rw init_fresh.0 refl, done)
  optimize-Run [] false = ([], s, rw init_fresh.0 refl, done)
  optimize-Run (p ∷ ps) presorted =
      let (un, s', e, r) = place_all-Run c (ordered (p ∷ ps) presorted) s in
      (un, s', rw (e, optimize) refl, r)

  module _ (ps : List Piece) (presorted : Bool) where
    -- `optimize` returns the placed pieces, the others and the final state, and `P` holds of them.
    abbrev pub Gives : (List PlacedPiece → List Piece → State → Type 0) → Type 0
    Gives P =
        (placed : List PlacedPiece) × (un : List Piece) × (s' : State) × (optimize c ps presorted s
          ≡ some (placed, un, s'))
        × P placed un s'

    -- Packing a fresh sheet always returns. The pieces it reports are the ones on the sheet, with
    -- their own dimensions, turned only where they may be; they and the free rectangles lie within
    -- the trims, a kerf apart from one another, and no blade pass enters any of them.
    pub optimize-IsSound : Gives (λ placed un s'.
        (placed ≡ s'.placed_pieces) × (c.kerf ≡ params.kerf) × IsSound c (usable_box m params) s')
    optimize-IsSound =
        let (un, s', e, r) = optimize-Run ps presorted in
        (s'.placed_pieces, un, s', e, (refl, init_fresh.3, Run-IsSound c _ r init-IsSound))

    -- The placed and the unplaced pieces together are the expanded pieces, each as often.
    pub optimize-pieces :
        Gives (λ placed un s'. Permᴰ (map (λ q. q.piece) placed ++ un) (expand_pieces ps))
    optimize-pieces =
        let (un, s', e, r) = optimize-Run ps presorted in
        (
          s'.placed_pieces,
          un,
          s',
          e,
          rw init_fresh.0 at (
              Permᴰ.trans (Run-pieces c r) (
                Permᴰ.append_left (map (λ q. q.piece) s.placed_pieces)
                  (ordered-perm ps presorted))),
        )

    -- The placed area and the area of the free rectangles do not exceed the usable area.
    pub optimize-area : Gives (λ placed un s'.
        sum_of placed_area placed + sum_of rectangle_area s'.remainders
        ≤ rectangle_area usable_rectangle)
    optimize-area =
        let (un, s', e, r) = optimize-Run ps presorted in
        (s'.placed_pieces, un, s', e, omega (arith, Run-covered_area c r, init-covered_area))

    -- No piece that is left unplaced would fit any free rectangle that remains, in an orientation
    -- that it may take.
    pub optimize_maximal : Gives (λ placed un s'. All (λ p. FitsNowhere p s') un)
    optimize_maximal =
        let (un, s', e, r) = optimize-Run ps presorted in
        (s'.placed_pieces, un, s', e, Run-unplaced c r)
