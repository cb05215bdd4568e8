-- ===== src/Cutting/Consolidate/Candidates.antt =====
-- src/cutting/consolidate.py, `_candidates`: the cuts that the search tries, and the lists it tells
-- regions apart by.
use opticutter_api.Prelude.{
  ℕ, ◌+◌, ◌<◌, ◌≡◌, refl, ◌⊎◌, inl, inr, Bool, true, false, ◌&&◌, ◌||◌, List, [], ◌∷◌, all_by-All,
  All, All-map, All-append, All-mono, All-filter_by_both, ltb, ◌==◌, arith, Bool-cases, &&-eq-true,
}
use opticutter_api.Cutting.Geometry.{Box}
use opticutter_api.Cutting.Consolidate.Search.{
  Consolidator, insert_once, add_inside, positions, ends, is_near, is_far, is_clear, candidates,
  same_box, same_idxs,
}
use opticutter_api.Cutting.Consolidate.Tree.{IsInside, IsCovered}

module _ (lo hi : ℕ) where
  Between : ℕ → Type 0
  Between x = (lo < x) × (x < hi)

  insert_once-Between :
      (x : ℕ) (xs : List ℕ) → Between x → All Between xs → All Between (insert_once x xs)
  unfolding insert_once
  insert_once-Between x [] hx h = (hx, tt)
  insert_once-Between x (y ∷ ys) hx h = elim (Bool-cases (ltb x y)) [
    | inl e ↦ rw e (hx, h)
    | inr e ↦ rw e (elim (Bool-cases (x == y)) [
      | inl d ↦ rw d h
      | inr d ↦ rw d (h.0, insert_once-Between x ys hx h.1)
    ])
  ]

  add_inside-Between : (x : ℕ) (xs : List ℕ) → All Between xs → All Between (add_inside lo hi x xs)
  unfolding add_inside Between
  add_inside-Between x xs h = elim (Bool-cases (ltb (lo + 1) x && ltb (x + 1) hi)) [
    | inl e ↦ rw e (insert_once-Between x xs (ground arith) h)
    | inr e ↦ rw e h
  ]

  positions-Between :
      (kerf : ℕ) (starts ends : ℕ → ℕ) (idxs : List ℕ)
      → All Between (positions kerf lo hi starts ends idxs)
  unfolding positions
  positions-Between kerf starts ends [] = tt
  positions-Between kerf starts ends (i ∷ idxs) =
      add_inside-Between _ _ (add_inside-Between _ _ (positions-Between kerf starts ends idxs))

module _ (c : Consolidator) (r : Box) (idxs : List ℕ) where
  abbrev pub IsCandidate : (Bool × ℕ) → Type 0
  IsCandidate k = IsInside r (k.0) (k.1) × IsCovered c idxs (k.0) (k.1)

  is_clear-IsCovered : (h : Bool) (p : ℕ) → is_clear c idxs h p ≡ true → IsCovered c idxs h p
  unfolding is_clear
  is_clear-IsCovered h p e =
      All-mono
        (λ i (d : (is_far c h p i || is_near c h p i) ≡ true).
          sides (is_far c h p i) (is_near c h p i) d)
        idxs (all_by-All _ idxs e)
    where
      sides : (a b : Bool) → (a || b) ≡ true → (a ≡ true) ⊎ (b ≡ true)
      sides true b d = inl refl
      sides false b d = inr d

  -- Every candidate runs within the region and through no piece.
  pub candidates-IsCandidate : All IsCandidate (candidates c r idxs)
  unfolding candidates Between
  candidates-IsCandidate =
      All-append IsCandidate _ _
        (All-map IsCandidate _ _ (
          All-mono (λ x h. (h.0, is_clear-IsCovered false x h.1)) _
            (All-filter_by_both (Between r.x0 r.x1) (is_clear c idxs false) _
              (positions-Between _ _ _ _ _ idxs))))
        (All-map IsCandidate _ _ (
          All-mono (λ x h. (h.0, is_clear-IsCovered true x h.1)) _
            (All-filter_by_both (Between r.y0 r.y1) (is_clear c idxs true) _
              (positions-Between _ _ _ _ _ idxs))))

pub same_box-eq : (a b : Box) → same_box a b ≡ true → a ≡ b
same_box-eq a b h = ground arith

pub same_idxs-eq : (is js : List ℕ) → same_idxs is js ≡ true → is ≡ js
same_idxs-eq [] [] h = refl
same_idxs-eq [] (j ∷ js) h = absurd (cc)
same_idxs-eq (i ∷ is) [] h = absurd (cc)
same_idxs-eq (i ∷ is) (j ∷ js) h =
    let (e, d) = &&-eq-true (i == j) (same_idxs is js) h in
    let f = same_idxs-eq is js d in ground arith
