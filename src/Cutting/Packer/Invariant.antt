-- ===== src/Cutting/Packer/Invariant.antt =====
-- The packer's invariant: its free rectangles and placed pieces stay inside the usable sheet, a
-- blade's width apart from one another, and no cut enters any of them.
use opticutter_api.Prelude.{
  ℕ, ◌≡◌, refl, Bool, true, false, List, [], ◌∷◌, ◌++◌, map, All, Pairwise, Permᴰ, All-append,
  All-perm, All-mono, Pairwise-perm, Pairwise-append, All-map-filter_by, Pairwise-map-filter_by,
  sort_by-perm, filter_by, arith, map-append, append_assoc,
}
use mathlib.Core.List.Permᴰ
use opticutter_api.Cutting.Models.{Rectangle, Cut, Piece, PlacedPiece}
use opticutter_api.Cutting.Geometry.{
  Box, rectangle_box, placed_box, blade_box, Within, Apart, Apart-sym, Apart-Within, Within-trans,
  grown, Within-grown,
}
use opticutter_api.Cutting.Packer.Split.{
  Settings, State, leftovers, split_orientation, create_split_rectangles, split_as, cuts_for,
  is_kept, smaller, split_remainder,
}
use opticutter_api.Cutting.Packer.SplitLaws.{
  IsSeated, parts-Within, parts-Apart, cuts_for-Apart, cuts_for-Apart_outside, cuts_for-Within,
}
use opticutter_api.Cutting.Packer.Place.{fits, across, along, put_piece}
use opticutter_api.Cutting.Packer.Placement.{IsPlaced}

abbrev pub boxes : State → List Box
boxes s = map rectangle_box s.remainders ++ map placed_box s.placed_pieces

-- The piece has its own dimensions, turned only if it may be.
abbrev pub IsLegal : PlacedPiece → Type 0
IsLegal placed =
    (placed.width ≡ across placed.piece placed.rotated)
    × (placed.height ≡ along placed.piece placed.rotated)
    × (placed.rotated ≡ true → placed.piece.can_rotate ≡ true)

pub record IsSound (c : Settings) (usable : Box) (s : State) : Type 0 where
  pub inside : All (Within usable) (boxes s)
  pub apart : Pairwise (Apart c.kerf) (boxes s)
  pub clear : All (λ cut. All (Apart 0 (blade_box c.kerf cut)) (boxes s)) s.cuts
  pub legal : All IsLegal s.placed_pieces

pub put_piece-IsSeated :
    (p : Piece) (rotated : Bool) (rect : Rectangle)
    → fits p rotated rect ≡ true
    → IsSeated rect (put_piece p rotated rect)
unfolding fits put_piece
put_piece-IsSeated p true rect h = ground arith
put_piece-IsSeated p false rect h = ground arith

put_piece-IsLegal :
    (p : Piece) (rotated : Bool) (rect : Rectangle)
    → fits p rotated rect ≡ true
    → IsLegal (put_piece p rotated rect)
unfolding fits put_piece
put_piece-IsLegal p true rect h = ground arith
put_piece-IsLegal p false rect h = ground arith

-- Replacing one box by parts of it.
module _ (gap : ℕ) (r : Box) (news others : List Box) (within : All (Within r) news) where
  replaced-Apart : All (Apart gap r) others → All (λ b. All (Apart gap b) others) news
  replaced-Apart h =
      All-mono (λ b w. All-mono (λ o a. Apart-Within gap r b o w a) others h) news within

  replaced-Pairwise :
      Pairwise (Apart gap) news
      → Pairwise (Apart gap) (r ∷ others)
      → Pairwise (Apart gap) (news ++ others)
  replaced-Pairwise new old =
      Pairwise-append (Apart gap) (Apart-sym gap) news others new old.1 (replaced-Apart old.0)

  replaced-Within :
      (usable : Box) → All (Within usable) (r ∷ others) → All (Within usable) (news ++ others)
  replaced-Within usable h =
      All-append (Within usable) news others
        (All-mono (λ b w. Within-trans usable r b h.0 w) news within) h.1

  replaced-clear :
      (blade : Box) → All (Apart gap blade) (r ∷ others) → All (Apart gap blade) (news ++ others)
  replaced-clear blade h =
      All-append (Apart gap blade) news others
        (All-mono
          (λ b w. Apart-sym gap b blade (Apart-Within gap r b blade w (Apart-sym gap blade r h.0)))
          news within)
        h.1

All-tt : (cuts : List Cut) → All (λ _. Unit {0}) cuts
All-tt [] = tt
All-tt (_ ∷ cuts) = (tt, All-tt cuts)

All-both :
    (P Q : Cut → Type 0) (cuts : List Cut) → All P cuts → All Q cuts → All (λ c. P c × Q c) cuts
All-both P Q [] h k = tt
All-both P Q (_ ∷ cuts) h k = ((h.0, k.0), All-both P Q cuts h.1 k.1)

All-append_both :
    (R : Cut → Box → Type 0) (xs ys : List Box) (cuts : List Cut)
    → All (λ c. All (R c) xs) cuts
    → All (λ c. All (R c) ys) cuts
    → All (λ c. All (R c) (xs ++ ys)) cuts
All-append_both R xs ys [] h k = tt
All-append_both R xs ys (c ∷ cuts) h k =
    (All-append (R c) xs ys h.0 k.0, All-append_both R xs ys cuts h.1 k.1)

move_last {ℓ} :
    {A : Type ℓ} (r k p : List A) (q : A) → Permᴰ ((r ++ k) ++ (p ++ q ∷ [])) (q ∷ (k ++ (r ++ p)))
move_last r k p q =
    let e : (k ++ r) ++ (p ++ q ∷ []) ≡ (k ++ (r ++ p)) ++ q ∷ [] = simp append_assoc in
    Permᴰ.trans (Permᴰ.append_right (p ++ q ∷ []) (Permᴰ.append_comm r k))
      (rw e (Permᴰ.append_comm (k ++ (r ++ p)) (q ∷ [])))

module _ (c : Settings) (p : Piece) (s s' : State) (step : IsPlaced c p s s') where
  open step use {rect, rest, rotated, taken, fitting, after}

  unfoldable pub placed : PlacedPiece
  placed = put_piece p rotated rect

  unfoldable pub new_rects : List Rectangle
  unfolding placed
  new_rects = let l = leftovers c rect placed in split_as (split_orientation c rect l) c rect l

  abbrev pub others : List Box
  others = map rectangle_box rest ++ map placed_box s.placed_pieces

  abbrev pub news : List Box
  news = placed_box placed ∷ map rectangle_box (filter_by (is_kept c) new_rects)

  pub old-perm : Permᴰ (boxes s) (rectangle_box rect ∷ others)
  old-perm = Permᴰ.append_right (map placed_box s.placed_pieces) (Permᴰ.map rectangle_box taken)

  pub new-perm : Permᴰ (boxes s') (news ++ others)
  unfolding new_rects split_remainder create_split_rectangles
  new-perm =
      let kept = filter_by (is_kept c) new_rects in
      let moved = Permᴰ.map rectangle_box (sort_by-perm smaller (rest ++ kept)) in
      rw after (
        Permᴰ.trans (Permᴰ.append_right (map placed_box (s.placed_pieces ++ placed ∷ [])) moved) (
          rw (map-append, map-append)
            (move_last (map rectangle_box rest) (map rectangle_box kept)
              (map placed_box s.placed_pieces) (placed_box placed))))

  abbrev new_cuts : List Cut
  new_cuts = let l = leftovers c rect placed in cuts_for rect placed l (split_orientation c rect l)

  seated : IsSeated rect placed
  unfolding placed
  seated = put_piece-IsSeated p rotated rect fitting

  news-Within : All (Within (rectangle_box rect)) news
  unfolding new_rects
  news-Within =
      let h = parts-Within c rect placed seated _ in
      (h.0, All-map-filter_by rectangle_box (is_kept c) _ new_rects h.1)

  news-Pairwise : Pairwise (Apart c.kerf) news
  unfolding new_rects
  news-Pairwise =
      let h = parts-Apart c rect placed seated _ in
      (
        All-map-filter_by rectangle_box (is_kept c) _ new_rects h.0,
        Pairwise-map-filter_by rectangle_box (is_kept c) (Apart c.kerf) new_rects h.1,
      )

  new_cuts-news : All (λ cut. All (Apart 0 (blade_box c.kerf cut)) news) new_cuts
  unfolding new_rects
  new_cuts-news =
      All-mono (λ cut h. (h.0, All-map-filter_by rectangle_box (is_kept c) _ new_rects h.1))
        new_cuts (cuts_for-Apart c rect placed seated _)

  -- `All (λ cut. All (P cut) bs) cuts`, box by box.
  new_cuts-others :
      (bs : List Box)
      → All (Apart c.kerf (rectangle_box rect)) bs
      → All (λ cut. All (Apart 0 (blade_box c.kerf cut)) bs) new_cuts
  new_cuts-others [] h = All-tt new_cuts
  new_cuts-others (b ∷ bs) h =
      All-both _ _ new_cuts (cuts_for-Apart_outside c rect placed seated _ b h.0)
        (new_cuts-others bs h.1)

  cuts_after : s'.cuts ≡ s.cuts ++ new_cuts
  unfolding split_remainder create_split_rectangles placed
  cuts_after = rw after refl

  pieces_after : s'.placed_pieces ≡ s.placed_pieces ++ placed ∷ []
  unfolding split_remainder placed
  pieces_after = rw after refl

  -- A placement's blade passes begin on the usable sheet and end at most a kerf beyond it.
  pub IsPlaced-blades :
      (usable : Box)
      → IsSound c usable s
      → All (λ cut. Within (grown c.kerf usable) (blade_box c.kerf cut)) s.cuts
      → All (λ cut. Within (grown c.kerf usable) (blade_box c.kerf cut)) s'.cuts
  IsPlaced-blades usable sound h =
      let inside = (All-perm (Within usable) old-perm sound.inside).0 in
      rw cuts_after (
        All-append _ s.cuts new_cuts h (
          All-mono (λ cut w. Within-grown c.kerf usable (rectangle_box rect) _ inside w) new_cuts
            (cuts_for-Within c rect placed seated _)))

  -- A placement keeps the invariant.
  pub IsPlaced-IsSound : (usable : Box) → IsSound c usable s → IsSound c usable s'
  unfolding placed
  IsPlaced-IsSound usable sound =
      let old = Permᴰ.symm old-perm in
      let back = Permᴰ.symm new-perm in
      let was_apart = Pairwise-perm (Apart c.kerf) (Apart-sym c.kerf) old-perm sound.apart in
      let kept =
        All-mono
          (λ cut h. All-perm _ back (
            replaced-clear 0 (rectangle_box rect) news others news-Within (blade_box c.kerf cut)
              (All-perm _ old-perm h)))
          s.cuts sound.clear in
      let fresh =
        All-mono (λ cut h. All-perm (Apart 0 (blade_box c.kerf cut)) back h) new_cuts
          (All-append_both (λ cut. Apart 0 (blade_box c.kerf cut)) news others new_cuts
            new_cuts-news (new_cuts-others others was_apart.0)) in
      record {
        inside = All-perm (Within usable) back (
            replaced-Within 0 (rectangle_box rect) news others news-Within usable
              (All-perm (Within usable) old-perm sound.inside));
        apart = Pairwise-perm (Apart c.kerf) (Apart-sym c.kerf) back (
            replaced-Pairwise c.kerf (rectangle_box rect) news others news-Within news-Pairwise
              was_apart);
        clear = rw cuts_after (All-append _ s.cuts new_cuts kept fresh);
        legal = rw pieces_after (
            All-append IsLegal s.placed_pieces (placed ∷ []) sound.legal
              (put_piece-IsLegal p rotated rect fitting, tt));
      }
