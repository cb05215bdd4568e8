-- ===== src/Cutting/Consolidate/Sound.antt =====
-- src/cutting/consolidate.py: a guillotine tree of a region can be sawn and racked: its leftovers and
-- its blades keep clear of the pieces and of one another.
use opticutter_api.Prelude.{
  ℕ, ◌+◌, ◌-◌, ◌≤◌, ◌≡◌, refl, inl, inr, Bool, true, false, ◌&&◌, List, [], ◌∷◌, ◌++◌, All,
  All-mono, All-append, Pairwise, Pairwise-append, sum_of, sum_of-append, leb, arith, Bool-cases,
}
use opticutter_api.Cutting.Models.{Rectangle, Cut}
use opticutter_api.Cutting.Geometry.{Box, Apart, Apart-sym, rectangle_box, blade_box}
use opticutter_api.Cutting.Consolidate.Search.{
  Consolidator, Plan, nothing, leftover, join, cut_at, near_bounds, far_bounds, is_open,
}
use opticutter_api.Cutting.Consolidate.Tree.{
  IsProper, IsInside, Tree, offcut, freed, cut_in_two, cut_off,
}
use opticutter_api.Cutting.Consolidate.Sides.{
  FitsRect, FitsCut, low, high, near-FitsRect, near-FitsCut, far-FitsRect, far-FitsCut, own-FitsCut,
  blade_region,
}

-- Every member of one list stands in a relation to every member of the other.
All-cross {ℓ κ μ ν θ} :
    {A : Type ℓ} {B : Type κ} (P : A → Type μ) (Q : B → Type ν) (R : A → B → Type θ)
    → ((a : A) (b : B) → P a → Q b → R a b)
    → (xs : List A) (ys : List B) → All P xs
    → All Q ys
    → All (λ x. All (R x) ys) xs
All-cross P Q R f [] ys h k = tt
All-cross P Q R f (x ∷ xs) ys h k = (All-mono (λ b. f x b h.0) ys k, All-cross P Q R f xs ys h.1 k)

All-unpair {ℓ κ μ} :
    {A : Type ℓ} (P : A → Type κ) (Q : A → Type μ) (xs : List A)
    → All (λ x. P x × Q x) xs
    → All P xs × All Q xs
All-unpair P Q [] h = (tt, tt)
All-unpair P Q (x ∷ xs) h = let (p, q) = All-unpair P Q xs h.1 in ((h.0.0, p), (h.0.1, q))

module _ (kerf : ℕ) where
  abbrev pub RectsApart : Rectangle → Rectangle → Type 0
  RectsApart a b = Apart kerf (rectangle_box a) (rectangle_box b)

  abbrev pub BladeMisses : Cut → Rectangle → Type 0
  BladeMisses k t = Apart 0 (blade_box kerf k) (rectangle_box t)

-- What makes a plan of a region sound.
pub record IsSound (c : Consolidator) (r : Box) (idxs : List ℕ) (plan : Plan) : Type 0 where
  pub fits_rects : All (FitsRect c r idxs) plan.rects
  pub fits_cuts : All (FitsCut c r idxs) plan.cuts
  pub rects_apart : Pairwise (RectsApart c.kerf) plan.rects
  pub blades_miss : All (λ k. All (BladeMisses c.kerf k) plan.rects) plan.cuts
  pub travel : plan.travel ≡ sum_of (λ k. k.length) plan.cuts

module _ (c : Consolidator) where
  nothing-IsSound : (r : Box) (idxs : List ℕ) → IsSound c r idxs nothing
  nothing-IsSound r idxs = record {
    fits_rects = tt;
    fits_cuts = tt;
    rects_apart = tt;
    blades_miss = tt;
    travel = refl;
  }

  leftover-IsSound : (r : Box) → IsProper r → IsSound c r [] (leftover c r)
  unfolding leftover
  leftover-IsSound r w =
      elim (Bool-cases (leb c.min_rect_size (r.x1 - r.x0) && leb c.min_rect_size (r.y1 - r.y0))) [
        | inl e ↦ rw e record {
          fits_rects = ((omega arith, tt), tt);
          fits_cuts = tt;
          rects_apart = (tt, tt);
          blades_miss = tt;
          travel = refl;
        }
        | inr e ↦ rw e (nothing-IsSound r [])
      ]

  module _ (r : Box) (idxs : List ℕ) (h : Bool) (p : ℕ) where
    abbrev NearRect : Rectangle → Type 0
    NearRect t = FitsRect c r idxs t × (high h (rectangle_box t) ≤ p)

    abbrev FarRect : Rectangle → Type 0
    FarRect t = FitsRect c r idxs t × (p + c.kerf ≤ low h (rectangle_box t))

    abbrev NearCut : Cut → Type 0
    NearCut k = FitsCut c r idxs k × (high h (blade_box c.kerf k) ≤ p + c.kerf)

    abbrev FarCut : Cut → Type 0
    FarCut k = FitsCut c r idxs k × (p + c.kerf ≤ low h (blade_box c.kerf k))

    split-Apart : (gap : ℕ) (a b : Box) → high h a + gap ≤ low h b → Apart gap a b
    split-Apart =
        elim h as (λ b'. (gap : ℕ) (a b : Box) → high b' a + gap ≤ low b' b → Apart gap a b) [
          | true ↦ λ gap a b l. inr (inl l)
          | false ↦ λ gap a b l. inl (inl l)
        ]

    -- A cut and the plans of its sides, each sound and on its side.
    join-IsSound :
        (own : Cut) (near far : Plan)
        → FitsCut c r idxs own
        → (low h (blade_box c.kerf own) ≡ p) × (high h (blade_box c.kerf own) ≡ p + c.kerf)
        → All NearRect near.rects
        → All NearCut near.cuts
        → All FarRect far.rects
        → All FarCut far.cuts
        → Pairwise (RectsApart c.kerf) near.rects
        → Pairwise (RectsApart c.kerf) far.rects
        → All (λ k. All (BladeMisses c.kerf k) near.rects) near.cuts
        → All (λ k. All (BladeMisses c.kerf k) far.rects) far.cuts
        → near.travel ≡ sum_of (λ k. k.length) near.cuts
        → far.travel ≡ sum_of (λ k. k.length) far.cuts
        → IsSound c r idxs (join own near far)
    unfolding join
    join-IsSound own near far ok at_p nr nc fr fc an af bn bf tn tf =
        let (nr₀, nr₁) = All-unpair _ _ near.rects nr in
        let (fr₀, fr₁) = All-unpair _ _ far.rects fr in
        let (nc₀, nc₁) = All-unpair _ _ near.cuts nc in
        let (fc₀, fc₁) = All-unpair _ _ far.cuts fc in
        record {
          fits_rects = All-append (FitsRect c r idxs) near.rects far.rects nr₀ fr₀;
          fits_cuts = (ok, All-append (FitsCut c r idxs) near.cuts far.cuts nc₀ fc₀);
          rects_apart =
              Pairwise-append (RectsApart c.kerf) (λ a b. Apart-sym c.kerf _ _) near.rects far.rects
                an af
                (All-cross (λ a. high h (rectangle_box a) ≤ p)
                  (λ b. p + c.kerf ≤ low h (rectangle_box b)) (RectsApart c.kerf)
                  (λ a b u v. split-Apart c.kerf _ _ (omega arith)) near.rects far.rects nr₁ fr₁);
          blades_miss = (
            All-append (BladeMisses c.kerf own) near.rects far.rects
                (All-mono (λ t l. Apart-sym 0 _ _ (split-Apart 0 _ _ (omega arith))) near.rects nr₁)
                (All-mono (λ t l. split-Apart 0 _ _ (omega arith)) far.rects fr₁),
            All-append (λ k. All (BladeMisses c.kerf k) (near.rects ++ far.rects)) near.cuts
                far.cuts
                (both near.cuts near.rects far.rects bn (
                  All-cross (λ k. high h (blade_box c.kerf k) ≤ p + c.kerf)
                    (λ b. p + c.kerf ≤ low h (rectangle_box b)) (BladeMisses c.kerf)
                    (λ k t u v. split-Apart 0 _ _ (omega arith)) near.cuts far.rects nc₁ fr₁))
                (both far.cuts near.rects far.rects
                  (All-cross (λ k. p + c.kerf ≤ low h (blade_box c.kerf k))
                    (λ a. high h (rectangle_box a) ≤ p) (BladeMisses c.kerf)
                    (λ k t u v. Apart-sym 0 _ _ (split-Apart 0 _ _ (omega arith))) far.cuts
                    near.rects fc₁ nr₁)
                  bf),
          );
          travel = omega (arith, tn, tf, sum_of-append (λ (k : Cut). k.length) near.cuts far.cuts);
        }
      where
        both :
            (ks : List Cut) (ts us : List Rectangle)
            → All (λ k. All (BladeMisses c.kerf k) ts) ks
            → All (λ k. All (BladeMisses c.kerf k) us) ks
            → All (λ k. All (BladeMisses c.kerf k) (ts ++ us)) ks
        both [] ts us x y = tt
        both (k ∷ ks) ts us x y =
            (All-append (BladeMisses c.kerf k) ts us x.0 y.0, both ks ts us x.1 y.1)

  near_bounds-IsProper :
      (r : Box) (h : Bool) (p : ℕ) → IsProper r → IsInside r h p → IsProper (near_bounds r h p)
  unfolding near_bounds
  near_bounds-IsProper r true p w i = omega arith
  near_bounds-IsProper r false p w i = omega arith

  far_bounds-IsProper :
      (r : Box) (h : Bool) (p : ℕ)
      → is_open (far_bounds c.kerf r h p) ≡ true
      → IsProper (far_bounds c.kerf r h p)
  far_bounds-IsProper r h p o = ground arith

  -- Every guillotine tree of a region whose bounds are in order is sound.
  pub Tree-IsSound :
      (r : Box) (idxs : List ℕ) (plan : Plan)
      → Tree c r idxs plan
      → IsProper r
      → IsSound c r idxs plan
  Tree-IsSound _ _ _ (offcut r) w = leftover-IsSound r w
  Tree-IsSound _ _ _ (freed r idxs e) w = nothing-IsSound r idxs
  Tree-IsSound _ _ _ (cut_in_two r idxs h p near far i k o t u) w =
      let n = Tree-IsSound _ _ near t (near_bounds-IsProper r h p w i) in
      let f = Tree-IsSound _ _ far u (far_bounds-IsProper r h p o) in
      join-IsSound r idxs h p (cut_at r h p) near far (own-FitsCut c r idxs h p i k w)
        ((blade_region c r idxs h p w i).1, (blade_region c r idxs h p w i).2)
        (All-mono (near-FitsRect c r idxs h p i k) near.rects n.fits_rects)
        (All-mono (near-FitsCut c r idxs h p i k) near.cuts n.fits_cuts)
        (All-mono (far-FitsRect c r idxs h p i k o) far.rects f.fits_rects)
        (All-mono (far-FitsCut c r idxs h p i k o) far.cuts f.fits_cuts) n.rects_apart f.rects_apart
        n.blades_miss f.blades_miss n.travel f.travel
  Tree-IsSound _ _ _ (cut_off r idxs h p near i k e t) w =
      let n = Tree-IsSound _ _ near t (near_bounds-IsProper r h p w i) in
      join-IsSound r idxs h p (cut_at r h p) near nothing (own-FitsCut c r idxs h p i k w)
        ((blade_region c r idxs h p w i).1, (blade_region c r idxs h p w i).2)
        (All-mono (near-FitsRect c r idxs h p i k) near.rects n.fits_rects)
        (All-mono (near-FitsCut c r idxs h p i k) near.cuts n.fits_cuts) tt tt n.rects_apart tt
        n.blades_miss tt n.travel refl
