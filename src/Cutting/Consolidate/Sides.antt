-- ===== src/Cutting/Consolidate/Sides.antt =====
-- src/cutting/consolidate.py: what a cut puts between its two sides, for the leftovers and the blade.
use opticutter_api.Prelude.{
  ℕ, ◌+◌, ◌≤◌, ◌≡◌, refl, ◌⊎◌, inl, inr, Bool, true, false, List, [], ◌∷◌, filter_by, All, All-mono,
  if◌then◌else◌, arith, Bool-cases, leb→le,
}
use opticutter_api.Cutting.Models.{Rectangle, Cut}
use opticutter_api.Cutting.Geometry.{Box, Within, rectangle_box, blade_box}
use opticutter_api.Cutting.Consolidate.Search.{
  Consolidator, box_at, is_near, is_far, cut_at, near_bounds, far_bounds, is_open,
}
use opticutter_api.Cutting.Consolidate.Tree.{IsProper, IsInside, IsCovered}

-- Apart by the gap but for the nanometre of `_EPS`.
abbrev pub NearlyApart : ℕ → Box → Box → Type 0
NearlyApart gap a b =
    ((a.x1 + gap ≤ b.x0 + 1) ⊎ (b.x1 + gap ≤ a.x0 + 1))
    ⊎ ((a.y1 + gap ≤ b.y0 + 1) ⊎ (b.y1 + gap ≤ a.y0 + 1))

-- The region and what an overhanging blade may take past its far edges.
abbrev pub grown : ℕ → Box → Box
grown kerf r = record r { x1 = r.x1 + kerf; y1 = r.y1 + kerf }

abbrev pub low : Bool → Box → ℕ
low true b = b.y0
low false b = b.x0

abbrev pub high : Bool → Box → ℕ
high true b = b.y1
high false b = b.x1

-- Each member that passes `g` or `q` has the property, if those that pass `q` have it and so do those of `g`.
All-sides {ℓ} :
    (P : ℕ → Type ℓ) (g q : ℕ → Bool) (idxs : List ℕ)
    → All (λ i. (g i ≡ true) ⊎ (q i ≡ true)) idxs
    → All P (filter_by q idxs)
    → ((i : ℕ) → g i ≡ true → P i)
    → All P idxs
All-sides P g q [] cover h f = tt
All-sides P g q (i ∷ idxs) cover h f = elim (Bool-cases (q i)) [
  | inl e ↦
      let k : P i × All P (filter_by q idxs) = side e h in (k.0, All-sides P g q idxs cover.1 k.1 f)
  | inr e ↦ (
    elim cover.0 [ inl d ↦ f i d | inr d ↦ absurd (ground arith) ],
    All-sides P g q idxs cover.1 (other e h) f,
  )
]
  where
    side :
        q i ≡ true
        → All P (if q i then i ∷ filter_by q idxs else filter_by q idxs)
        → P i × All P (filter_by q idxs)
    side e h' = rw e at h'

    other :
        q i ≡ false
        → All P (if q i then i ∷ filter_by q idxs else filter_by q idxs)
        → All P (filter_by q idxs)
    other e h' = rw e at h'

module _ (c : Consolidator) where
  -- A leftover lies in the region, a blade's width from every piece of the region.
  abbrev pub FitsRect : Box → List ℕ → Rectangle → Type 0
  FitsRect r idxs t =
      Within r (rectangle_box t) × All (λ i. NearlyApart c.kerf (rectangle_box t) (box_at c i)) idxs

  -- The blade stays in the region but for its overhang, and out of every piece of the region.
  abbrev pub FitsCut : Box → List ℕ → Cut → Type 0
  FitsCut r idxs k =
      Within (grown c.kerf r) (blade_box c.kerf k)
      × All (λ i. NearlyApart 0 (blade_box c.kerf k) (box_at c i)) idxs

  module _ (r : Box) (idxs : List ℕ) where
    near_apart :
        (h : Bool) (p gap : ℕ) (b : Box) (i : ℕ)
        → high h b + gap ≤ p + c.kerf
        → is_far c h p i ≡ true
        → NearlyApart gap b (box_at c i)
    unfolding is_far
    near_apart true p gap b i l e = inr (inl (omega (arith, leb→le _ _ e)))
    near_apart false p gap b i l e = inl (inl (omega (arith, leb→le _ _ e)))

    far_apart :
        (h : Bool) (p gap : ℕ) (b : Box) (i : ℕ)
        → p + gap ≤ low h b
        → is_near c h p i ≡ true
        → NearlyApart gap b (box_at c i)
    unfolding is_near
    far_apart true p gap b i l e = inr (inr (omega (arith, leb→le _ _ e)))
    far_apart false p gap b i l e = inl (inr (omega (arith, leb→le _ _ e)))

    near_region :
        (h : Bool) (p : ℕ) (b : Box)
        → IsInside r h p
        → Within (near_bounds r h p) b
        → Within r b × (high h b ≤ p)
    unfolding near_bounds
    near_region true p b i w = omega arith
    near_region false p b i w = omega arith

    near_grown :
        (h : Bool) (p : ℕ) (b : Box)
        → IsInside r h p
        → Within (grown c.kerf (near_bounds r h p)) b
        → Within (grown c.kerf r) b × (high h b ≤ p + c.kerf)
    unfolding near_bounds
    near_grown true p b i w = omega arith
    near_grown false p b i w = omega arith

    far_region :
        (h : Bool) (p : ℕ) (b : Box)
        → IsInside r h p
        → is_open (far_bounds c.kerf r h p) ≡ true
        → Within (far_bounds c.kerf r h p) b
        → Within r b × (p + c.kerf ≤ low h b)
    unfolding far_bounds
    far_region true p b i o w = ground arith
    far_region false p b i o w = ground arith

    far_grown :
        (h : Bool) (p : ℕ) (b : Box)
        → IsInside r h p
        → is_open (far_bounds c.kerf r h p) ≡ true
        → Within (grown c.kerf (far_bounds c.kerf r h p)) b
        → Within (grown c.kerf r) b × (p + c.kerf ≤ low h b)
    unfolding far_bounds
    far_grown true p b i o w = ground arith
    far_grown false p b i o w = ground arith

    pub blade_region :
        (h : Bool) (p : ℕ)
        → IsProper r
        → IsInside r h p
        → Within (grown c.kerf r) (blade_box c.kerf (cut_at r h p))
          × (low h (blade_box c.kerf (cut_at r h p)) ≡ p)
          × (high h (blade_box c.kerf (cut_at r h p)) ≡ p + c.kerf)
    unfolding cut_at
    blade_region true p w i = (omega arith, refl, refl)
    blade_region false p w i = (omega arith, refl, refl)

    -- What fits the near side fits the region; likewise the far side, and the cut's own blade.
    module _ (h : Bool) (p : ℕ) (inside : IsInside r h p) (clear : IsCovered c idxs h p) where
      pub near-FitsRect :
          (t : Rectangle)
          → FitsRect (near_bounds r h p) (filter_by (is_near c h p) idxs) t
          → FitsRect r idxs t × (high h (rectangle_box t) ≤ p)
      near-FitsRect t f =
          let (w, l) = near_region h p (rectangle_box t) inside f.0 in
          (
            (
              w,
              All-sides _ (is_far c h p) (is_near c h p) idxs clear f.1
                  (λ i e. near_apart h p c.kerf (rectangle_box t) i (omega arith) e),
            ),
            l,
          )

      pub near-FitsCut :
          (k : Cut)
          → FitsCut (near_bounds r h p) (filter_by (is_near c h p) idxs) k
          → FitsCut r idxs k × (high h (blade_box c.kerf k) ≤ p + c.kerf)
      near-FitsCut k f =
          let (w, l) = near_grown h p (blade_box c.kerf k) inside f.0 in
          (
            (
              w,
              All-sides _ (is_far c h p) (is_near c h p) idxs clear f.1
                  (λ i e. near_apart h p 0 (blade_box c.kerf k) i (omega arith) e),
            ),
            l,
          )

      flipped : All (λ i. (is_near c h p i ≡ true) ⊎ (is_far c h p i ≡ true)) idxs
      flipped = All-mono (λ i. elim [ inl e ↦ inr e | inr e ↦ inl e ]) idxs clear

      module _ (opens : is_open (far_bounds c.kerf r h p) ≡ true) where
        pub far-FitsRect :
            (t : Rectangle)
            → FitsRect (far_bounds c.kerf r h p) (filter_by (is_far c h p) idxs) t
            → FitsRect r idxs t × (p + c.kerf ≤ low h (rectangle_box t))
        far-FitsRect t f =
            let (w, l) = far_region h p (rectangle_box t) inside opens f.0 in
            (
              (
                w,
                All-sides _ (is_near c h p) (is_far c h p) idxs flipped f.1
                    (λ i e. far_apart h p c.kerf (rectangle_box t) i l e),
              ),
              l,
            )

        pub far-FitsCut :
            (k : Cut)
            → FitsCut (far_bounds c.kerf r h p) (filter_by (is_far c h p) idxs) k
            → FitsCut r idxs k × (p + c.kerf ≤ low h (blade_box c.kerf k))
        far-FitsCut k f =
            let (w, l) = far_grown h p (blade_box c.kerf k) inside opens f.0 in
            (
              (
                w,
                All-sides _ (is_near c h p) (is_far c h p) idxs flipped f.1
                    (λ i e. far_apart h p 0 (blade_box c.kerf k) i (omega arith) e),
              ),
              l,
            )

      pub own-FitsCut : IsProper r → FitsCut r idxs (cut_at r h p)
      own-FitsCut w =
          let (b, l, u) = blade_region h p w inside in
          (
            b,
            All-mono
                (λ i. elim [
                  | inl e ↦ near_apart h p 0 (blade_box c.kerf (cut_at r h p)) i (omega arith) e
                  | inr e ↦ far_apart h p 0 (blade_box c.kerf (cut_at r h p)) i (omega arith) e
                ])
                idxs clear,
          )
