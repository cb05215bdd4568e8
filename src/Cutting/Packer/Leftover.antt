-- ===== src/Cutting/Packer/Leftover.antt =====
-- What stays unplaced fits in no free rectangle that is left: free space only shrinks.
use opticutter_api.Prelude.{
  ◌≡◌, Bool, true, false, List, [], ◌∷◌, ◌++◌, map, All, All-perm, All-append, All-filter_by,
  sort_by-perm, filter_by, arith,
}
use mathlib.Core.List.Permᴰ
use opticutter_api.Cutting.Models.{Rectangle, Piece}
use opticutter_api.Cutting.Geometry.{rectangle_box, Within}
use opticutter_api.Cutting.Packer.Split.{
  Settings, State, leftovers, split_orientation, create_split_rectangles, split_as, is_kept,
  smaller, split_remainder,
}
use opticutter_api.Cutting.Packer.SplitLaws.{parts-Within}
use opticutter_api.Cutting.Packer.Place.{fits, put_piece}
use opticutter_api.Cutting.Packer.Placement.{IsPlaced, FitsNowhere}
use opticutter_api.Cutting.Packer.Invariant.{put_piece-IsSeated}
use opticutter_api.Cutting.Packer.Run.{Run, done, put, skip}

module _ (p : Piece) where
  fits-shrink :
      (turned : Bool) (r r' : Rectangle)
      → Within (rectangle_box r) (rectangle_box r')
      → fits p turned r ≡ false
      → fits p turned r' ≡ false
  unfolding fits
  fits-shrink true r r' w h = ground arith
  fits-shrink false r r' w h = ground arith

  abbrev TooSmall : Rectangle → Type 0
  TooSmall r = (turned : Bool) → fits p turned r ≡ false

  TooSmall-inside :
      (r : Rectangle) (rs : List Rectangle)
      → TooSmall r
      → All (Within (rectangle_box r)) (map rectangle_box rs)
      → All TooSmall rs
  TooSmall-inside r [] h w = tt
  TooSmall-inside r (r' ∷ rs) h w = (λ t. fits-shrink t r r' w.0 (h t), TooSmall-inside r rs h w.1)

  module _ (c : Settings) where
    IsPlaced-FitsNowhere :
        (q : Piece) (s s' : State) → IsPlaced c q s s' → FitsNowhere p s → FitsNowhere p s'
    unfolding split_remainder create_split_rectangles
    IsPlaced-FitsNowhere q s s' step h =
        let r = step.rect in
        let seat = put_piece q step.rotated r in
        let seated = put_piece-IsSeated q step.rotated r step.fitting in
        let fresh =
          split_as (split_orientation c r (leftovers c r seat)) c r (leftovers c r seat) in
        let was = All-perm TooSmall step.taken h in
        let within = parts-Within c r seat seated (split_orientation c r (leftovers c r seat)) in
        rw step.after (
          All-perm TooSmall
            (Permᴰ.symm (sort_by-perm smaller (step.rest ++ filter_by (is_kept c) fresh)))
            (All-append TooSmall step.rest (filter_by (is_kept c) fresh) was.1
              (All-filter_by TooSmall (is_kept c) fresh (TooSmall-inside r fresh was.0 within.1))))

    Run-FitsNowhere :
        {ps un : List Piece} {s s' : State} → Run c ps s un s' → FitsNowhere p s → FitsNowhere p s'
    Run-FitsNowhere done h = h
    Run-FitsNowhere (put step r) h = Run-FitsNowhere r (IsPlaced-FitsNowhere _ _ _ step h)
    Run-FitsNowhere (skip _ r) h = Run-FitsNowhere r h

pub Run-unplaced :
    (c : Settings) {ps un : List Piece} {s s' : State}
    → Run c ps s un s'
    → All (λ p. FitsNowhere p s') un
Run-unplaced c done = tt
Run-unplaced c (put _ r) = Run-unplaced c r
Run-unplaced c (skip {p = p} none_fits r) = (Run-FitsNowhere p c r none_fits, Run-unplaced c r)
