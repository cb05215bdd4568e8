-- ===== src/Cutting/Consolidate/Apply.antt =====
-- src/cutting/consolidate.py, `_apply`: a cut and the two plans of its sides make a tree.
use opticutter_api.Prelude.{
  ℕ, ◌+◌, ◌≤◌, ◌<◌, ◌≡◌, refl, inl, inr, Bool, true, List, [], ◌∷◌, Option, none, some, length,
  filter_by, ◌==◌, if◌then◌else◌, arith, Bool-cases,
}
use opticutter_api.Cutting.Geometry.{Box}
use opticutter_api.Cutting.Consolidate.Score.{score, ranked_lt}
use opticutter_api.Cutting.Consolidate.Search.{
  Consolidator, Plan, Search, Answer, Solver, nothing, is_near, is_far, cut_at, near_bounds,
  far_bounds, join, is_open,
}
use opticutter_api.Cutting.Consolidate.Derive.{
  is_nil, Contender, after_far, after_near, apply, contend,
}
use opticutter_api.Cutting.Consolidate.Tree.{IsInside, IsCovered, Tree, cut_in_two, cut_off}
use opticutter_api.Cutting.Consolidate.Answers.{
  measure, Remembers, Answers, answers, IsContender, Solves,
}

module _ (c : Consolidator) where
  module _ (rec : Solver) (fuel : ℕ) (ih : Solves c fuel rec) (r : Box) (idxs : List ℕ) where
    module _ (h : Bool) (p : ℕ) (inside : IsInside r h p) (clear : IsCovered c idxs h p) where
      after_far-Answers :
          (s s₁ : Search) (near : Plan) (a : Answer)
          → measure s₁ ≤ measure s
          → is_open (far_bounds c.kerf r h p) ≡ true
          → Tree c (near_bounds r h p) (filter_by (is_near c h p) idxs) near
          → Answers c (far_bounds c.kerf r h p) (filter_by (is_far c h p) idxs) s₁ a
          → Answers c r idxs s (after_far c rec r idxs h p near a)
      unfolding after_far
      after_far-Answers s s₁ near _ l o t (answers none s' u k m) =
          answers none s' tt (omega arith) m
      after_far-Answers s s₁ near _ l o t (answers (some far) s' u k m) =
          answers _ s' (cut_in_two r idxs h p near far inside clear o t u) (omega arith) m

      after_near-Answers :
          (s : Search) (a : Answer)
          → measure s < fuel
          → Answers c (near_bounds r h p) (filter_by (is_near c h p) idxs) s a
          → Answers c r idxs s (after_near c rec r idxs h p a)
      unfolding after_near
      after_near-Answers s _ f (answers none s' u k m) = answers none s' tt k m
      after_near-Answers s _ f (answers (some near) s' u k m) =
          elim (Bool-cases (is_open (far_bounds c.kerf r h p))) [
            | inl e ↦ rw e (after_far-Answers s s' near _ k e u (ih _ _ s' (omega arith) m))
            | inr e ↦ rw e (rest _ refl)
          ]
        where
          rest :
              (far : List ℕ)
              → filter_by (is_far c h p) idxs ≡ far
              → Answers c r idxs s (
                  if is_nil far
                  then some (some (join (cut_at r h p) near nothing), s')
                  else some (none, s'))
          rest [] e = answers _ s' (cut_off r idxs h p near inside clear e u) k m
          rest (i ∷ is) e = answers none s' tt k m

      pub apply-Answers :
          (s : Search)
          → measure s < fuel
          → Remembers c s
          → Answers c r idxs s (apply c rec r idxs h p s)
      unfolding apply
      apply-Answers s f m =
          elim (Bool-cases (
            length (filter_by (is_near c h p) idxs) + length (filter_by (is_far c h p) idxs)
            == length idxs)) [
              | inl e ↦ rw e (after_near-Answers s _ f (ih _ _ s f m))
              | inr e ↦ rw e (answers none s tt (omega arith) m)
            ]

    pub contend-IsContender :
        (h : Bool) (p : ℕ) (plan : Plan) (best : Option Contender)
        → Tree c r idxs plan
        → IsContender c r idxs best
        → IsContender c r idxs (contend c rec r idxs h p plan best)
    unfolding contend
    contend-IsContender h p plan none t b = t
    contend-IsContender h p plan (some best) t b =
        elim (Bool-cases (
          ranked_lt
            (record {
              score = score plan.rects plan.travel c.min_usable;
              position = p;
              horizontal = h;
            })
            best.ranked)) [ inl e ↦ rw e t | inr e ↦ rw e b ]
