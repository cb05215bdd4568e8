-- ===== src/Cutting/Consolidate/Answers.antt =====
-- src/cutting/consolidate.py: what the search promises of its answer, and that its memo and its
-- budget keep the promise.
use opticutter_api.Prelude.{
  ℕ, zero, suc, ◌≤◌, ◌<◌, ◌≡◌, subst, inl, inr, false, ◌&&◌, List, [], ◌∷◌, Option, none, some, All,
  arith, Bool-cases, &&-eq-true,
}
use opticutter_api.Cutting.Geometry.{Box}
use opticutter_api.Cutting.Consolidate.Search.{
  Consolidator, Plan, Entry, Search, Answer, Solver, same_box, same_idxs, cached, is_exhausted,
  spend, remember,
}
use opticutter_api.Cutting.Consolidate.Derive.{Contender, Verdict, stopped, decided}
use opticutter_api.Cutting.Consolidate.Candidates.{same_box-eq, same_idxs-eq}
use opticutter_api.Cutting.Consolidate.Tree.{Tree}

-- How many more regions may be visited, and one for the visit that finds the budget spent.
abbrev pub measure : Search → ℕ
measure s = elim s.budget [ none ↦ 0 | some n ↦ suc n ]

module _ (c : Consolidator) where
  abbrev pub IsTree : Box → List ℕ → Option Plan → Type 0
  IsTree r idxs none = Unit
  IsTree r idxs (some plan) = Tree c r idxs plan

  abbrev pub Remembers : Search → Type 0
  Remembers s = All (λ e. IsTree e.bounds e.idxs e.plan) s.memo

  -- The search has returned, spent no more than it had, and kept a sound memo.
  pub data Answers (r : Box) (idxs : List ℕ) (s : Search) : Answer → Type 0 where
    answers :
        (plan : Option Plan) (s' : Search)
        → IsTree r idxs plan
        → measure s' ≤ measure s
        → Remembers s'
        → Answers r idxs s (some (plan, s'))

  abbrev pub IsContender : Box → List ℕ → Option Contender → Type 0
  IsContender r idxs none = Unit
  IsContender r idxs (some b) = Tree c r idxs b.plan

  abbrev pub IsVerdict : Box → List ℕ → Verdict → Type 0
  IsVerdict r idxs stopped = Unit
  IsVerdict r idxs (decided best) = IsContender r idxs best

  pub data Chooses (r : Box) (idxs : List ℕ) (s : Search) : Option (Verdict × Search) → Type 0 where
    chooses :
        (v : Verdict) (s' : Search)
        → IsVerdict r idxs v
        → measure s' ≤ measure s
        → Remembers s'
        → Chooses r idxs s (some (v, s'))

  -- A solver that returns from every state with less than `fuel` to spend.
  abbrev pub Solves : ℕ → Solver → Type 0
  Solves fuel rec =
      (r : Box) (idxs : List ℕ) (s : Search)
      → measure s < fuel
      → Remembers s
      → Answers r idxs s (rec r idxs s)

module _ (c : Consolidator) where
  pub cached-IsTree :
      (r : Box) (idxs : List ℕ) (es : List Entry) (plan : Option Plan)
      → All (λ e. IsTree c e.bounds e.idxs e.plan) es
      → cached r idxs es ≡ some plan
      → IsTree c r idxs plan
  unfolding cached
  cached-IsTree r idxs [] plan m h = absurd (cc)
  cached-IsTree r idxs (e ∷ es) plan m h =
      elim (Bool-cases (same_box e.bounds r && same_idxs e.idxs idxs)) [
        | inl d ↦
            let (db, di) = &&-eq-true (same_box e.bounds r) (same_idxs e.idxs idxs) d in
            let found : e.plan ≡ plan = ground arith in
            subst (IsTree c r idxs) found (
              subst (λ js. IsTree c r js e.plan) (same_idxs-eq _ _ di)
                (subst (λ b. IsTree c b e.idxs e.plan) (same_box-eq _ _ db) m.0))
        | inr d ↦ cached-IsTree r idxs es plan m.1 (ground arith)
      ]

  pub remember-Answers :
      (r : Box) (idxs : List ℕ) (plan : Option Plan) (s s' : Search)
      → IsTree c r idxs plan
      → measure s' ≤ measure s
      → Remembers c s'
      → Answers c r idxs s (remember r idxs plan s')
  unfolding remember
  remember-Answers r idxs plan s s' t l m = answers plan _ t l (t, m)

  pub Answers-spend :
      (r : Box) (idxs : List ℕ) (s s₀ : Search) (a : Answer)
      → measure s₀ ≤ measure s
      → Answers c r idxs s₀ a
      → Answers c r idxs s a
  Answers-spend r idxs s s₀ _ l (answers plan s' t k m) = answers plan s' t (omega arith) m

pub measure-spend : (s : Search) → measure (spend s) ≤ measure s
unfolding spend
measure-spend s =
    elim s.budget
      as (λ b. measure (spend (record s { budget = b })) ≤ measure (record s { budget = b })) [
        | none ↦ omega arith
        | some zero ↦ omega arith
        | some (suc n) ↦ omega arith
      ]

-- A visit that the budget allows has less to spend than there was.
pub measure-spend-lt : (s : Search) → is_exhausted (spend s) ≡ false → measure (spend s) < measure s
unfolding spend
measure-spend-lt s =
    elim s.budget
      as (λ b.
        is_exhausted (spend (record s { budget = b })) ≡ false
        → measure (spend (record s { budget = b })) < measure (record s { budget = b })) [
          | none ↦ λ h. absurd (cc)
          | some zero ↦ λ h. absurd (cc)
          | some (suc n) ↦ λ h. omega arith
        ]
