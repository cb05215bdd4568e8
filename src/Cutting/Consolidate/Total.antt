-- ===== src/Cutting/Consolidate/Total.antt =====
-- src/cutting/consolidate.py, `solve` and `derive_tree`: the search returns, and
-- what it returns is a guillotine tree of the region.
use opticutter_api.Prelude.{
  ℕ, zero, suc, ◌≤◌, ◌<◌, ◌≡◌, refl, sym, ap, subst, inl, inr, Bool, false, List, [], ◌∷◌, Option,
  none, some, length, All, if◌then◌else◌, arith, Bool-cases, Option-cases,
}
use opticutter_api.Cutting.Models.{CuttingParameters}
use opticutter_api.Cutting.Geometry.{Box}
use opticutter_api.Cutting.Consolidate.Search.{
  Consolidator, Plan, Search, Answer, Solver, cached, is_exhausted, spend, remember, nothing,
  leftover, is_freed, candidates,
}
use opticutter_api.Cutting.Consolidate.Derive.{
  consolidator, range_from, derive_tree, is_nil, Contender, Verdict, stopped, decided,
  after_candidate, choose, settle, visit, solve,
}
use opticutter_api.Cutting.Consolidate.Candidates.{IsCandidate, candidates-IsCandidate}
use opticutter_api.Cutting.Consolidate.Tree.{offcut, freed}
use opticutter_api.Cutting.Consolidate.Answers.{
  measure, IsTree, Remembers, Answers, answers, IsContender, Chooses, chooses, Solves,
  cached-IsTree, remember-Answers, Answers-spend, measure-spend, measure-spend-lt,
}
use opticutter_api.Cutting.Consolidate.Apply.{apply-Answers, contend-IsContender}

module _ (c : Consolidator) where
  module _ (rec : Solver) (fuel : ℕ) (ih : Solves c fuel rec) (r : Box) (idxs : List ℕ) where
    Chooses-spend :
        (s s₁ : Search) (o : Option (Verdict × Search))
        → measure s₁ ≤ measure s
        → Chooses c r idxs s₁ o
        → Chooses c r idxs s o
    Chooses-spend s s₁ _ l (chooses v s' w k m) = chooses v s' w (omega arith) m

    -- `next` is the rest of the loop.
    after_candidate-Chooses :
        (next : Option Contender → Search → Option (Verdict × Search))
        → ((best : Option Contender) (s : Search)
            → IsContender c r idxs best
            → measure s < fuel
            → Remembers c s
            → Chooses c r idxs s (next best s))
        → (h : Bool) (p : ℕ) (best : Option Contender) (s : Search) (a : Answer)
        → IsContender c r idxs best
        → measure s < fuel
        → Answers c r idxs s a
        → Chooses c r idxs s (after_candidate c rec r idxs next h p best a)
    unfolding after_candidate
    after_candidate-Chooses next later h p best s _ b f (answers none s' t l m) =
        elim (Bool-cases (is_exhausted s')) [
          | inl e ↦ rw e (chooses stopped s' tt l m)
          | inr e ↦ rw e (Chooses-spend s s' _ l (later best s' b (omega arith) m))
        ]
    after_candidate-Chooses next later h p best s _ b f (answers (some plan) s' t l m) =
        Chooses-spend s s' _ l
          (later _ s' (contend-IsContender c rec fuel ih r idxs h p plan best t b) (omega arith) m)

    choose-Chooses :
        (ks : List (Bool × ℕ)) (best : Option Contender) (s : Search)
        → All (IsCandidate c r idxs) ks
        → IsContender c r idxs best
        → measure s < fuel
        → Remembers c s
        → Chooses c r idxs s (choose c rec r idxs ks best s)
    unfolding choose
    choose-Chooses [] best s k b f m = chooses (decided best) s b (omega arith) m
    choose-Chooses ((h, p) ∷ ks) best s k b f m =
        after_candidate-Chooses (choose c rec r idxs ks)
          (λ best' s' b' f' m'. choose-Chooses ks best' s' k.1 b' f' m') h p best s _ b f
          (apply-Answers c rec fuel ih r idxs h p (k.0.0) (k.0.1) s f m)

    settle-Answers :
        (s : Search) (o : Option (Verdict × Search))
        → Chooses c r idxs s o
        → Answers c r idxs s (settle c rec r idxs o)
    unfolding settle
    settle-Answers s _ (chooses stopped s' v l m) = answers none s' tt l m
    settle-Answers s _ (chooses (decided none) s' v l m) =
        remember-Answers c r idxs none s s' tt l m
    settle-Answers s _ (chooses (decided (some b)) s' v l m) =
        remember-Answers c r idxs (some b.plan) s s' v l m

    visit-Answers :
        (s : Search)
        → (is_exhausted s ≡ false → measure s < fuel)
        → Remembers c s
        → Answers c r idxs s (visit c rec r idxs s)
    unfolding visit
    visit-Answers s f m = elim (Bool-cases (is_exhausted s)) [
      | inl e ↦ rw e (answers none s tt (omega arith) m)
      | inr e ↦ rw e (allowed idxs refl (f e))
    ]
      where
        allowed :
            (js : List ℕ)
            → idxs ≡ js
            → measure s < fuel
            → Answers c r idxs s (
                if is_nil idxs
                then remember r idxs (some (leftover c r)) s
                else if is_freed c r idxs
                then remember r idxs (some nothing) s
                else settle c rec r idxs (choose c rec r idxs (candidates c r idxs) none s))
        allowed [] e k =
            subst
              (λ js. Answers c r js s (
                if is_nil js
                then remember r js (some (leftover c r)) s
                else if is_freed c r js
                then remember r js (some nothing) s
                else settle c rec r idxs (choose c rec r idxs (candidates c r idxs) none s)))
              (sym e) (remember-Answers c r [] _ s s (offcut r) (omega arith) m)
        allowed (i ∷ is) e k = elim (Bool-cases (is_freed c r idxs)) [
          | inl d ↦
              rw (ap is_nil e)
                (rw d (remember-Answers c r idxs _ s s (freed r idxs d) (omega arith) m))
          | inr d ↦ rw (ap is_nil e) (
              rw d (
                settle-Answers s _
                  (choose-Chooses _ none s (candidates-IsCandidate c r idxs) tt k m)))
        ]

  module _ (fuel : ℕ) (r : Box) (idxs : List ℕ) (s : Search) where
    solve_hit :
        (plan : Option Plan)
        → cached r idxs s.memo ≡ some plan
        → solve c (suc fuel) r idxs s ≡ some (plan, s)
    unfolding solve
    solve_hit plan e = rw (e, solve) refl

    solve_miss :
        cached r idxs s.memo ≡ none
        → solve c (suc fuel) r idxs s ≡ visit c (solve c fuel) r idxs (spend s)
    unfolding solve
    solve_miss e = rw (e, solve) refl

    spend-Remembers : Remembers c s → Remembers c (spend s)
    unfolding spend
    spend-Remembers m = m

  -- By induction on the fuel: a visit spends one of the budget before it goes deeper.
  pub solve-Solves : (fuel : ℕ) → Solves c fuel (solve c fuel)
  solve-Solves zero r idxs s f m = absurd (omega arith)
  solve-Solves (suc fuel) r idxs s f m = elim (Option-cases (cached r idxs s.memo)) [
    | inl e ↦ rw (solve_miss fuel r idxs s e) (
        Answers-spend c r idxs s (spend s) _ (measure-spend s) (
          visit-Answers (solve c fuel) fuel (solve-Solves fuel) r idxs (spend s)
            (λ d. omega (arith, measure-spend-lt s d)) (spend-Remembers fuel r idxs s m)))
    | inr (plan, e) ↦
        rw (solve_hit fuel r idxs s plan e)
          (answers plan s (cached-IsTree c r idxs s.memo plan m e) (omega arith) m)
  ]

-- What `derive_tree` answers: always something, and a tree of the region when it is a plan.
pub data Derives (c : Consolidator) (r : Box) (idxs : List ℕ)
    : Option (Option Plan × Bool) → Type 0 where
  gives_up : (exhausted : Bool) → Derives c r idxs (some (none, exhausted))
  derives : (plan : Plan) → IsTree c r idxs (some plan) → Derives c r idxs (some (some plan, false))

-- The fuel of `derive_tree` is enough whatever the node budget: the call returns, and the plan that it
-- returns, if any, is a tree of the bounds over all of the boxes in the sense of IsTree.
pub derive_tree-Derives :
    (boxes : List Box) (bounds : Box) (params : CuttingParameters)
    (min_rect_size min_usable node_budget : ℕ)
    → Derives
        (consolidator boxes params min_rect_size min_usable)
        bounds
        (range_from 0 (length boxes))
        (derive_tree boxes bounds params min_rect_size min_usable node_budget)
unfolding derive_tree
derive_tree-Derives boxes bounds params min_rect_size min_usable node_budget = report _ (
    solve-Solves (consolidator boxes params min_rect_size min_usable) (suc (suc node_budget)) bounds
      _ (record { budget = some node_budget; memo = [] }) (omega arith) tt)
  where
    report :
        (a : Answer)
        → Answers
            (consolidator boxes params min_rect_size min_usable)
            bounds
            (range_from 0 (length boxes))
            (record { budget = some node_budget; memo = [] })
            a
        → Derives
            (consolidator boxes params min_rect_size min_usable)
            bounds
            (range_from 0 (length boxes))
            (elim a [
              | none ↦ none
              | some (none, s) ↦ some (none, is_exhausted s)
              | some (some plan, s) ↦ some (some plan, false)
            ])
    report _ (answers none s t l m) = gives_up _
    report _ (answers (some plan) s t l m) = derives plan t
