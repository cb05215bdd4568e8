-- ===== src/Cutting/Consolidate/Never.antt =====
-- src/cutting/consolidate.py, `derive_tree`, `consolidate_layout` and `consolidate_layouts`: what the
-- search finds can be sawn, and a sheet comes back as it was, or with the same pieces and leftovers that rank strictly better.
use opticutter_api.Prelude.{
  ℕ, suc, ◌≡◌, refl, sym, ap, subst, ◌∙◌, inl, inr, Bool, true, false, List, [], ◌∷◌, ◌++◌, map,
  append_assoc, Option, none, some, length, get_elem?, get_elem?-middle, All, All-mono, All-perm,
  Pairwise, sort_by, insert_by, sort_by-perm, sum_of, if◌then◌else◌, arith, Bool-cases,
}
use opticutter_api.Cutting.Models.{
  Rectangle, Cut, PlacedPiece, CuttingLayout, CuttingParameters, cut_length,
}
use opticutter_api.Cutting.Geometry.{Box, Within, placed_box, rectangle_box, blade_box}
use opticutter_api.Cutting.Consolidate.Score.{score, score_lt}
use opticutter_api.Cutting.Consolidate.Search.{Consolidator, Plan, empty_box, box_at}
use opticutter_api.Cutting.Consolidate.Derive.{
  box_lt, range_from, consolidator, derive_tree, trimmed, prefer, is_too_small, cons_both,
  consolidate_layout, consolidate_layouts,
}
use opticutter_api.Cutting.Consolidate.Tree.{IsProper}
use opticutter_api.Cutting.Consolidate.Total.{Derives, gives_up, derives, derive_tree-Derives}
use opticutter_api.Cutting.Consolidate.Sides.{NearlyApart, grown}
use opticutter_api.Cutting.Consolidate.Sound.{IsSound, Tree-IsSound, RectsApart, BladeMisses}

-- The leftovers and cuts of a sheet with these pieces: all in the bounds but for a blade's overhang,
-- the leftovers a blade's width from the pieces and from one another, the blades out of the pieces
-- and out of the leftovers. Distances to pieces are less the nanometre of `_EPS`.
pub record IsSawable (kerf : ℕ) (bounds : Box) (pieces : List Box) (rects : List Rectangle)
    (cuts : List Cut) : Type 0 where
  pub rects_within : All (λ t. Within bounds (rectangle_box t)) rects
  pub rects_clear : All (λ t. All (NearlyApart kerf (rectangle_box t)) pieces) rects
  pub rects_apart : Pairwise (RectsApart kerf) rects
  pub blades_within : All (λ k. Within (grown kerf bounds) (blade_box kerf k)) cuts
  pub blades_clear : All (λ k. All (NearlyApart 0 (blade_box kerf k)) pieces) cuts
  pub blades_miss : All (λ k. All (BladeMisses kerf k) rects) cuts

box_at-middle :
    (c : Consolidator) (before rest : List Box) (b : Box)
    → c.boxes ≡ before ++ b ∷ rest
    → box_at c (length before) ≡ b
unfolding box_at
box_at-middle c before rest b e =
    ap (λ o. elim o [ none ↦ empty_box | some b' ↦ b' ])
      (ap (λ bs. get_elem? bs (length before)) e ∙ get_elem?-middle before rest b)

-- What holds of the boxes by their indices holds of the boxes.
All-boxes :
    (c : Consolidator) (P : Box → Type 0) (before rest : List Box)
    → c.boxes ≡ before ++ rest
    → All (λ i. P (box_at c i)) (range_from (length before) (length rest))
    → All P rest
All-boxes c P before [] e h = tt
All-boxes c P before (b ∷ rest) e h = (
  subst P found h.0,
  All-boxes c P (before ++ b ∷ []) rest (e ∙ sym (append_assoc before (b ∷ []) rest)) (
      subst (λ n. All (λ i. P (box_at c i)) (range_from n (length rest))) (sym (longer before))
        h.1),
)
  where
    longer : (bs : List Box) → length (bs ++ b ∷ []) ≡ suc (length bs)
    longer [] = refl
    longer (x ∷ bs) = ap suc (longer bs)

    found : box_at c (length before) ≡ b
    found = box_at-middle c before rest b e

length-insert_by : (b : Box) (bs : List Box) → length (insert_by box_lt b bs) ≡ suc (length bs)
length-insert_by b [] = refl
length-insert_by b (x ∷ bs) = elim (Bool-cases (box_lt x b)) [
  | inl e ↦ rw e (ap suc (length-insert_by b bs))
  | inr e ↦ rw e refl
]

length-sort_by : (bs : List Box) → length (sort_by box_lt bs) ≡ length bs
length-sort_by [] = refl
length-sort_by (b ∷ bs) = length-insert_by b (sort_by box_lt bs) ∙ ap suc (length-sort_by bs)

module _ (params : CuttingParameters) (min_rect_size min_usable : ℕ) (boxes : List Box) where
  abbrev pub c : Consolidator
  c = consolidator boxes params min_rect_size min_usable

  of_indices :
      (P : Box → Type 0) → All (λ i. P (box_at c i)) (range_from 0 (length boxes)) → All P boxes
  unfolding consolidator
  of_indices P h = All-perm P (sort_by-perm box_lt boxes) (
      All-boxes c P [] (sort_by box_lt boxes) refl
        (subst (λ n. All (λ i. P (box_at c i)) (range_from 0 n)) (sym (length-sort_by boxes)) h))

  pub IsSound-IsSawable :
      (bounds : Box) (plan : Plan)
      → IsSound c bounds (range_from 0 (length boxes)) plan
      → IsSawable params.kerf bounds boxes plan.rects plan.cuts
  IsSound-IsSawable bounds plan s =
      subst (λ k. IsSawable k bounds boxes plan.rects plan.cuts) kerf_kept
        record {
          rects_within = All-mono (λ t f. f.0) plan.rects s.fits_rects;
          rects_clear =
              All-mono (λ t f. of_indices (NearlyApart c.kerf (rectangle_box t)) f.1) plan.rects
                s.fits_rects;
          rects_apart = s.rects_apart;
          blades_within = All-mono (λ k f. f.0) plan.cuts s.fits_cuts;
          blades_clear =
              All-mono (λ k f. of_indices (NearlyApart 0 (blade_box c.kerf k)) f.1) plan.cuts
                s.fits_cuts;
          blades_miss = s.blades_miss;
        }
    where
      kerf_kept : c.kerf ≡ params.kerf
      kerf_kept = unfold consolidator in ground arith

-- What `derive_tree` answers: no plan, or one that can be sawn, whose travel is the length of its blades.
pub data Saws (params : CuttingParameters) (bounds : Box) (boxes : List Box)
    : Option (Option Plan × Bool) → Type 0 where
  no_plan : (exhausted : Bool) → Saws params bounds boxes (some (none, exhausted))
  sawable :
      (plan : Plan)
      → IsSawable params.kerf bounds boxes plan.rects plan.cuts
      → plan.travel ≡ sum_of (λ k. k.length) plan.cuts
      → Saws params bounds boxes (some (some plan, false))

-- What becomes of a sheet: it stays as it is, or keeps its material, pieces and number and has cuts
-- and leftovers that can be sawn and rank strictly better.
pub data Consolidates (layout : CuttingLayout) (params : CuttingParameters) (min_usable : ℕ)
    : Option CuttingLayout → Type 0 where
  kept : Consolidates layout params min_usable (some layout)
  bettered :
      (rects : List Rectangle) (cuts : List Cut)
      → IsSawable params.kerf
          (trimmed layout.material params)
          (map placed_box layout.placed_pieces)
          rects
          cuts
      → score_lt
          (score rects (sum_of (λ k. k.length) cuts) min_usable)
          (score layout.remainders (cut_length layout) min_usable)
        ≡ true
      → Consolidates layout params min_usable
          (some (record layout { remainders = rects; cuts = cuts }))

module _ (layout : CuttingLayout) (params : CuttingParameters) (min_rect_size min_usable : ℕ) where
  trimmed-IsProper :
      is_too_small layout.material params min_rect_size ≡ false
      → IsProper (trimmed layout.material params)
  unfolding is_too_small
  trimmed-IsProper h = ground arith

  prefer-Consolidates :
      (o : Option (Option Plan × Bool))
      → IsProper (trimmed layout.material params)
      → Derives
          (consolidator (map placed_box layout.placed_pieces) params min_rect_size min_usable)
          (trimmed layout.material params)
          (range_from 0 (length (map placed_box layout.placed_pieces)))
          o
      → Consolidates layout params min_usable (prefer layout min_usable o)
  unfolding prefer
  prefer-Consolidates _ w (gives_up b) = kept
  prefer-Consolidates _ w (derives plan t) =
      let sound = Tree-IsSound _ _ _ plan t w in
      elim (Bool-cases (
        score_lt (score plan.rects plan.travel min_usable)
          (score layout.remainders (cut_length layout) min_usable))) [
            | inl e ↦ rw e (
                bettered plan.rects plan.cuts
                  (IsSound-IsSawable params min_rect_size min_usable
                    (map placed_box layout.placed_pieces) _ plan sound)
                  (subst
                    (λ n.
                      score_lt (score plan.rects n min_usable)
                        (score layout.remainders (cut_length layout) min_usable)
                      ≡ true)
                    sound.travel e))
            | inr e ↦ rw e kept
          ]

-- `consolidate_layout` returns whatever the node budget is: the sheet as it was, or the sheet with the same
-- material, pieces and number whose new leftovers and cuts rank strictly before the old ones. The new
-- leftovers lie in the trimmed sheet, a blade's width from each other and, but for a nanometre,
-- from every piece; the new blades, but for a nanometre, miss every piece, they miss every leftover,
-- and they pass the trimmed sheet by no more than their own width.
pub consolidate_layout-Consolidates :
    (layout : CuttingLayout) (params : CuttingParameters) (min_rect_size min_usable node_budget : ℕ)
    → Consolidates layout params min_usable
        (consolidate_layout layout params min_rect_size min_usable node_budget)
unfolding consolidate_layout
consolidate_layout-Consolidates layout params min_rect_size min_usable node_budget =
    by_pieces layout.placed_pieces refl
  where
    by_pieces :
        (ps : List PlacedPiece)
        → layout.placed_pieces ≡ ps
        → Consolidates layout params min_usable (elim ps [
          | [] ↦ some layout
          | q ∷ qs ↦
              if is_too_small layout.material params min_rect_size
              then some layout
              else prefer layout min_usable (
                  derive_tree
                    (map placed_box (q ∷ qs))
                    (trimmed layout.material params)
                    params
                    min_rect_size
                    min_usable
                    node_budget)
        ])
    by_pieces [] e = kept
    by_pieces (q ∷ qs) e = elim (Bool-cases (is_too_small layout.material params min_rect_size)) [
      | inl d ↦ rw d kept
      | inr d ↦ rw d (
          subst
            (λ ps. Consolidates layout params min_usable (
              prefer layout min_usable (
                derive_tree (map placed_box ps) (trimmed layout.material params) params
                  min_rect_size min_usable node_budget)))
            e
            (prefer-Consolidates layout params min_rect_size min_usable _
              (trimmed-IsProper layout params min_rect_size min_usable d)
              (derive_tree-Derives (map placed_box layout.placed_pieces)
                (trimmed layout.material params) params min_rect_size min_usable node_budget)))
    ]

-- `consolidate_layouts` returns as many sheets as it is given, of the same materials in the same order and with the
-- same pieces in the same places.
pub consolidate_layouts_keeps :
    (layouts : List CuttingLayout) (params : CuttingParameters)
    (min_rect_size min_usable node_budget : ℕ)
    → (out : List CuttingLayout) × (consolidate_layouts layouts params min_rect_size min_usable
          node_budget
        ≡ some out)
      × (map (λ l. l.material) out ≡ map (λ l. l.material) layouts)
      × (map (λ l. l.placed_pieces) out ≡ map (λ l. l.placed_pieces) layouts)
unfolding consolidate_layouts
consolidate_layouts_keeps [] params min_rect_size min_usable node_budget = ([], refl, refl, refl)
consolidate_layouts_keeps (l ∷ ls) params min_rect_size min_usable node_budget =
    let (out, e, m, p) = consolidate_layouts_keeps ls params min_rect_size min_usable node_budget in
    go _ out e m p (consolidate_layout-Consolidates l params min_rect_size min_usable node_budget)
  where
    go :
        (o : Option CuttingLayout) (out : List CuttingLayout)
        → consolidate_layouts ls params min_rect_size min_usable node_budget ≡ some out
        → map (λ k. k.material) out ≡ map (λ k. k.material) ls
        → map (λ k. k.placed_pieces) out ≡ map (λ k. k.placed_pieces) ls
        → Consolidates l params min_usable o
        → (all : List CuttingLayout) × (cons_both o
              (consolidate_layouts ls params min_rect_size min_usable node_budget)
            ≡ some all)
          × (map (λ k. k.material) all ≡ l.material ∷ map (λ k. k.material) ls)
          × (map (λ k. k.placed_pieces) all ≡ l.placed_pieces ∷ map (λ k. k.placed_pieces) ls)
    go _ out e m p kept = (l ∷ out, rw e refl, ap (◌∷◌ l.material) m, ap (◌∷◌ l.placed_pieces) p)
    go _ out e m p (bettered rects cuts w s) = (
      record l { remainders = rects; cuts = cuts } ∷ out,
      rw e refl,
      ap (◌∷◌ l.material) m,
      ap (◌∷◌ l.placed_pieces) p,
    )
