-- ===== src/Cutting/SheetCheck/Physical.antt =====
-- What a sheet without violations is: a description by geometry, and its equivalence with
-- `iter_violations`.
use opticutter_api.Prelude.{
  ℕ, ◌≡◌, refl, ◌↔◌, ◌⊎◌, Bool, true, false, not, List, [], ◌∷◌, ◌++◌, arith, All, Pairwise, max,
  if◌then◌else◌,
}
use opticutter_api.Prelude.Int.{ℤ, sub_ℕ, ltb_ℤ}
use opticutter_api.Cutting.Models.{CuttingParameters}
use opticutter_api.Cutting.SheetCheck.Separation.{
  ApartBy, WithinBy, exceeds_iff, iff_trans, separation_iff,
}
use opticutter_api.Cutting.SheetCheck.Violations.{
  SheetPiece, SheetRectangle, SheetBox, Violation, violation, usable_bounds, piece_box, offcut_box,
  separation, exceeds, sheet_box, yield_if, same_size, piece_violations, too_close, pair_violations,
  concat_map, over_pairs, rotation_not_allowed, wrong_dimensions, offcut_violations,
  offcuts_violations, iter_violations,
}

-- Lists of violations that are empty.
append_iff : (xs ys : List Violation) → (xs ++ ys ≡ []) ↔ ((xs ≡ []) × (ys ≡ []))
append_iff [] ys = (λ h. (refl, h), λ h. h.1)
append_iff (x ∷ xs) ys = (λ h. cc, λ h. cc)

yield_if_iff : (b : Bool) (v : Violation) → (yield_if b v ≡ []) ↔ (b ≡ false)
yield_if_iff true v = (λ h. cc, λ h. cc)
yield_if_iff false v = (λ h. refl, λ h. refl)

and_iff {ℓ} : {A B C D : Type ℓ} → A ↔ C → B ↔ D → (A × B) ↔ (C × D)
and_iff f g = (λ h. (f.0 h.0, g.0 h.1), λ h. (f.1 h.0, g.1 h.1))

module _ {ℓ} {A : Type ℓ} where
  concat_map_iff {κ} :
      (f : A → List Violation) (P : A → Type κ)
      → ((x : A) → (f x ≡ []) ↔ P x)
      → (xs : List A) → (concat_map f xs ≡ []) ↔ All P xs
  concat_map_iff f P e [] = (λ h. tt, λ h. refl)
  concat_map_iff f P e (x ∷ xs) =
      let ih = concat_map_iff f P e xs in
      let split = append_iff (f x) (concat_map f xs) in
      (λ h. ((e x).0 (split.0 h).0, ih.0 (split.0 h).1), λ h. split.1 ((e x).1 h.0, ih.1 h.1))

  over_pairs_iff {κ} :
      (f : A → A → List Violation) (R : A → A → Type κ)
      → ((x y : A) → (f x y ≡ []) ↔ R x y)
      → (xs : List A) → (over_pairs f xs ≡ []) ↔ Pairwise R xs
  over_pairs_iff f R e [] = (λ h. tt, λ h. refl)
  over_pairs_iff f R e (x ∷ xs) =
      let ih = over_pairs_iff f R e xs in
      let row = concat_map_iff (f x) (R x) (e x) xs in
      let split = append_iff (concat_map (f x) xs) (over_pairs f xs) in
      (λ h. (row.0 (split.0 h).0, ih.0 (split.0 h).1), λ h. split.1 (row.1 h.0, ih.1 h.1))

-- The dimensions are the piece's own, exchanged when it is turned, which it has to allow.
abbrev pub HasOwnSize : SheetPiece → Type 0
HasOwnSize pp =
    ((pp.rotated ≡ true)
      × (pp.piece.can_rotate ≡ true)
      × (pp.width ≡ pp.piece.height)
      × (pp.height ≡ pp.piece.width))
    ⊎ ((pp.rotated ≡ false) × (pp.width ≡ pp.piece.width) × (pp.height ≡ pp.piece.height))

module _ (width height : ℕ) (params : CuttingParameters) where
  -- The gap that every pair needs: a kerf, less one epsilon.
  abbrev pub blade : ℤ
  blade = sub_ℕ (max 0 params.kerf) 1

  abbrev pub IsAllowed : SheetPiece → Type 0
  IsAllowed pp =
      WithinBy (sheet_box width height) (piece_box pp)
      × WithinBy (usable_bounds width height params) (piece_box pp)
      × HasOwnSize pp

  abbrev pub AreApart : SheetPiece → SheetPiece → Type 0
  AreApart p q = ApartBy blade (piece_box p) (piece_box q)

  size_iff :
      (pp : SheetPiece)
      → ((if pp.rotated
            then yield_if
                (not pp.piece.can_rotate)
                (violation rotation_not_allowed (pp.piece.id ∷ []))
              ++ yield_if
                  (not (same_size pp.width pp.height pp.piece.height pp.piece.width))
                  (violation wrong_dimensions (pp.piece.id ∷ []))
            else yield_if
                (not (same_size pp.width pp.height pp.piece.width pp.piece.height))
                (violation wrong_dimensions (pp.piece.id ∷ [])))
          ≡ [])
        ↔ HasOwnSize pp
  unfolding same_size
  size_iff pp = (λ h. ground arith, λ h. ground arith)

  bounds_iff :
      (outer inner : Bool) (v w : Violation)
      → ((if outer then v ∷ [] else yield_if inner w) ≡ []) ↔ ((outer ≡ false) × (inner ≡ false))
  bounds_iff true inner v w = (λ h. cc, λ h. cc)
  bounds_iff false true v w = (λ h. cc, λ h. cc)
  bounds_iff false false v w = (λ h. (refl, refl), λ h. refl)

  piece_violations_iff :
      (pp : SheetPiece) → (piece_violations width height params pp ≡ []) ↔ IsAllowed pp
  unfolding piece_violations
  piece_violations_iff pp =
      let split = append_iff _ _ in
      let b = piece_box pp in
      let where_it_is =
        bounds_iff (exceeds (sheet_box width height) b)
          (exceeds (usable_bounds width height params) b) _ _ in
      let sheet = exceeds_iff (sheet_box width height) b in
      let usable = exceeds_iff (usable_bounds width height params) b in
      let size = size_iff pp in
      (
        λ h.
            let parts = split.0 h in
            let at = where_it_is.0 parts.0 in (sheet.0 at.0, usable.0 at.1, size.0 parts.1),
        λ h. split.1 (where_it_is.1 (sheet.1 h.0, usable.1 h.1), size.1 h.2),
      )

  close_iff :
      (a b : SheetBox) (v : Violation)
      → (yield_if (too_close (max 0 params.kerf) a b) v ≡ []) ↔ ApartBy blade a b
  unfolding too_close
  close_iff a b v =
      iff_trans (yield_if_iff (ltb_ℤ (separation a b) blade) v) (separation_iff blade a b)

  pair_violations_iff :
      (p q : SheetPiece) → (pair_violations (max 0 params.kerf) p q ≡ []) ↔ AreApart p q
  unfolding pair_violations
  pair_violations_iff p q = close_iff (piece_box p) (piece_box q) _

  module _ (placed : List SheetPiece) where
    -- Whole offcuts lie within the trims, apart from every piece and from one another.
    abbrev pub AreOffcutsFree : List SheetRectangle → Type 0
    AreOffcutsFree [] = Unit
    AreOffcutsFree (r ∷ later) =
        WithinBy (usable_bounds width height params) (offcut_box r)
        × All (λ pp. ApartBy blade (offcut_box r) (piece_box pp)) placed
        × All (λ o. ApartBy blade (offcut_box r) (offcut_box o)) later
        × AreOffcutsFree later

    offcuts_violations_iff :
        (offcuts : List SheetRectangle)
        → (offcuts_violations (max 0 params.kerf) (usable_bounds width height params) placed offcuts
            ≡ [])
          ↔ AreOffcutsFree offcuts
    unfolding offcuts_violations offcut_violations
    offcuts_violations_iff [] = (λ h. tt, λ h. refl)
    offcuts_violations_iff (r ∷ later) =
        let b = offcut_box r in
        let here =
          offcut_violations (max 0 params.kerf) (usable_bounds width height params) placed r
            later in
        let split = append_iff here _ in
        let split' = append_iff (yield_if (exceeds (usable_bounds width height params) b) _) _ in
        let split'' = append_iff _ _ in
        let inside =
          iff_trans (yield_if_iff (exceeds (usable_bounds width height params) b) _)
            (exceeds_iff (usable_bounds width height params) b) in
        let pieces =
          concat_map_iff _ (λ pp. ApartBy blade b (piece_box pp))
            (λ pp. close_iff b (piece_box pp) _) placed in
        let others =
          concat_map_iff _ (λ o. ApartBy blade b (offcut_box o)) (λ o. close_iff b (offcut_box o) _)
            later in
        let ih = offcuts_violations_iff later in
        (
          λ h.
              let (now, rest) = split.0 h in
              let (at, near) = split'.0 now in
              let (p, o) = split''.0 near in (inside.0 at, pieces.0 p, others.0 o, ih.0 rest),
          λ h. split.1 (split'.1 (inside.1 h.0, split''.1 (pieces.1 h.1, others.1 h.2)), ih.1 h.3),
        )

    -- A sheet has no violation exactly when every piece lies on the sheet and within the trims
    -- (to one epsilon) in its own dimensions, turned only if it may be, every two pieces are a
    -- kerf (less one epsilon) apart on some axis, and the whole offcuts are free in the same sense.
    pub iter_violations_iff :
        (offcuts : List SheetRectangle)
        → (iter_violations width height placed params offcuts ≡ [])
          ↔ (All IsAllowed placed × Pairwise AreApart placed × AreOffcutsFree offcuts)
    unfolding iter_violations
    iter_violations_iff offcuts =
        let split = append_iff (concat_map (piece_violations width height params) placed) _ in
        let split' = append_iff (over_pairs (pair_violations (max 0 params.kerf)) placed) _ in
        let pieces =
          concat_map_iff (piece_violations width height params) IsAllowed piece_violations_iff
            placed in
        let pairs =
          over_pairs_iff (pair_violations (max 0 params.kerf)) AreApart pair_violations_iff
            placed in
        let free = offcuts_violations_iff offcuts in
        (
          λ h.
              let (p, rest) = split.0 h in
              let (q, o) = split'.0 rest in (pieces.0 p, pairs.0 q, free.0 o),
          λ h. split.1 (pieces.1 h.0, split'.1 (pairs.1 h.1, free.1 h.2)),
        )
