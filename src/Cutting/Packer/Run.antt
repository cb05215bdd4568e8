-- ===== src/Cutting/Packer/Run.antt =====
-- The loop of `optimize` as a chain of placements, and what every chain keeps.
use opticutter_api.Prelude.{
  ℕ, ◌+◌, ◌≤◌, ◌≡◌, refl, subst, Bool, true, false, some, List, [], ◌∷◌, ◌++◌, map, Permᴰ,
  sort_by-perm, filter_by, arith, append_assoc, map-append, sum_of, sum_of-perm, sum_of-append,
  sum_of-filter_by-le, All,
}
use mathlib.Core.List.Permᴰ
use opticutter_api.Cutting.Models.{rectangle_area, Piece, placed_area}
use opticutter_api.Cutting.Geometry.{Box, Within, grown, blade_box}
use opticutter_api.Cutting.Packer.Split.{
  Settings, State, leftovers, split_orientation, create_split_rectangles, split_as, is_kept,
  smaller, split_remainder,
}
use opticutter_api.Cutting.Packer.SplitLaws.{parts-area}
use opticutter_api.Cutting.Packer.Place.{put_piece, place_piece, place_all}
use opticutter_api.Cutting.Packer.Placement.{IsPlaced, FitsNowhere, Outcome, place_piece-Outcome}
use opticutter_api.Cutting.Packer.Invariant.{
  IsSound, IsPlaced-IsSound, IsPlaced-blades, put_piece-IsSeated,
}

-- The pieces are taken in order; each is placed or left over.
pub data Run (c : Settings) : List Piece → State → List Piece → State → Type 0 where
  done : {s : State} → Run c [] s [] s
  put :
      {p : Piece} {ps un : List Piece} {s s₁ s' : State}
      → IsPlaced c p s s₁
      → Run c ps s₁ un s'
      → Run c (p ∷ ps) s un s'
  skip :
      {p : Piece} {ps un : List Piece} {s s' : State}
      → FitsNowhere p s
      → Run c ps s un s'
      → Run c (p ∷ ps) s (p ∷ un) s'

abbrev pub pieces_of : State → List Piece
pieces_of s = map (λ q. q.piece) s.placed_pieces

module _ (c : Settings) where
  pieces_of-put :
      (p : Piece) (ps : List Piece) (s s₁ : State)
      → IsPlaced c p s s₁
      → pieces_of s₁ ++ ps ≡ pieces_of s ++ p ∷ ps
  unfolding split_remainder put_piece
  pieces_of-put p ps s s₁ step = rw step.after (simp (map-append, append_assoc))

  -- The loop always ends with a result, and its run is such a chain.
  pub place_all-Run :
      (ps : List Piece) (s : State)
      → (un : List Piece) × (s' : State) × (place_all c ps s ≡ some (un, s')) × Run c ps s un s'
  unfolding place_all
  place_all-Run [] s = ([], s, refl, done)
  place_all-Run (p ∷ ps) s = go (place_piece-Outcome c p s) (place_all-Run ps)
    where
      go :
          ((b : Bool) × (s₁ : State) × (place_piece c p s ≡ some (b, s₁)) × Outcome c p s b s₁)
          → ((s₁ : State)
              → (un : List Piece) × (s' : State) × (place_all c ps s₁ ≡ some (un, s'))
                × Run c ps s₁ un s')
          → (un : List Piece) × (s' : State) × (place_all c (p ∷ ps) s ≡ some (un, s'))
            × Run c (p ∷ ps) s un s'
      go (true, s₁, e, out) rest =
          let (un, s', e', r) = rest s₁ in (un, s', rw (e, place_all) (rw e'), put out r)
      go (false, s₁, e, out) rest =
          let (un, s', e', r) = rest s₁ in
          (
            p ∷ un,
            s',
            rw (e, place_all) (rw e'),
            skip out.1 (subst (λ t. Run c ps t un s') out.0 r),
          )

  pub Run-IsSound :
      (usable : Box) {ps un : List Piece} {s s' : State}
      → Run c ps s un s'
      → IsSound c usable s
      → IsSound c usable s'
  Run-IsSound usable done h = h
  Run-IsSound usable (put step r) h = Run-IsSound usable r (IsPlaced-IsSound c _ _ _ step usable h)
  Run-IsSound usable (skip _ r) h = Run-IsSound usable r h

  pub Run-blades :
      (usable : Box) {ps un : List Piece} {s s' : State}
      → Run c ps s un s'
      → IsSound c usable s
      → All (λ cut. Within (grown c.kerf usable) (blade_box c.kerf cut)) s.cuts
      → All (λ cut. Within (grown c.kerf usable) (blade_box c.kerf cut)) s'.cuts
  Run-blades usable done sound h = h
  Run-blades usable (put step r) sound h =
      Run-blades usable r (IsPlaced-IsSound c _ _ _ step usable sound)
        (IsPlaced-blades c _ _ _ step usable sound h)
  Run-blades usable (skip _ r) sound h = Run-blades usable r sound h

  -- No piece is lost, copied or changed.
  pub Run-pieces :
      {ps un : List Piece} {s s' : State}
      → Run c ps s un s'
      → Permᴰ (pieces_of s' ++ un) (pieces_of s ++ ps)
  Run-pieces done = Permᴰ.refl _
  Run-pieces {s = s} (put {p = p} {ps = ps} {s₁ = s₁} step r) =
      rw (pieces_of-put p ps s s₁ step) at (Run-pieces r)
  Run-pieces {s = s} {s' = s'} (skip {p = p} {ps = ps} {un = un} _ r) =
      Permᴰ.trans (Permᴰ.middle p (pieces_of s') un) (
        Permᴰ.trans (Permᴰ.cons refl (Run-pieces r)) (Permᴰ.symm (Permᴰ.middle p (pieces_of s) ps)))

-- The area of everything on the sheet: placed, and free.
abbrev pub covered_area : State → ℕ
covered_area s = sum_of rectangle_area s.remainders + sum_of placed_area s.placed_pieces

module _ (c : Settings) where
  IsPlaced-covered_area :
      (p : Piece) (s s' : State) → IsPlaced c p s s' → covered_area s' ≤ covered_area s
  unfolding split_remainder create_split_rectangles
  IsPlaced-covered_area p s s' step =
      let open_rect = step.rect in
      let seat = put_piece p step.rotated open_rect in
      let l = leftovers c open_rect seat in
      let fresh = split_as (split_orientation c open_rect l) c open_rect l in
      let kept = filter_by (is_kept c) fresh in
      let rects = step.rest ++ kept in
      rw step.after (
        omega (
          arith,
          sum_of-perm rectangle_area (sort_by-perm smaller rects),
          sum_of-perm rectangle_area step.taken,
          sum_of-append rectangle_area step.rest kept,
          sum_of-filter_by-le rectangle_area (is_kept c) fresh,
          sum_of-append placed_area s.placed_pieces (seat ∷ []),
          parts-area c open_rect seat (put_piece-IsSeated p step.rotated open_rect step.fitting)
              (split_orientation c open_rect l),
        ))

  -- Packing never covers more than it began with.
  pub Run-covered_area :
      {ps un : List Piece} {s s' : State} → Run c ps s un s' → covered_area s' ≤ covered_area s
  Run-covered_area done = omega arith
  Run-covered_area (put step r) =
      omega (arith, Run-covered_area r, IsPlaced-covered_area _ _ _ step)
  Run-covered_area (skip _ r) = Run-covered_area r
