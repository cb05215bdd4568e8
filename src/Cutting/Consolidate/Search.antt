-- ===== src/Cutting/Consolidate/Search.antt =====
-- src/cutting/consolidate.py, `_Consolidator`: the search over the guillotine trees of a region.
use opticutter_api.Prelude.{
  ℕ, zero, suc, ◌+◌, ◌-◌, min, Bool, true, false, ◌&&◌, ◌||◌, List, [], ◌∷◌, ◌++◌, map, Option,
  none, some, get_elem?, filter_by, all_by, leb, ltb, ◌==◌, if◌then◌else◌,
}
use opticutter_api.Cutting.Models.{Cut, Rectangle}
use opticutter_api.Cutting.Geometry.{Box}

-- What `__init__` fixes; the budget and the memo are the state.
pub record Consolidator : Type 0 where
  pub boxes : List Box
  pub kerf : ℕ
  pub min_rect_size : ℕ
  pub min_usable : ℕ

-- `(cuts, leftovers, total cut length)`
pub record Plan : Type 0 where
  pub cuts : List Cut
  pub rects : List Rectangle
  pub travel : ℕ

pub record Entry : Type 0 where
  pub bounds : Box
  pub idxs : List ℕ
  pub plan : Option Plan

-- `budget` is `none` once it is negative: how far is never read.
pub record Search : Type 0 where
  pub budget : Option ℕ
  pub memo : List Entry

abbrev pub Answer : Type 0
Answer = Option (Option Plan × Search)

abbrev pub Solver : Type 0
Solver = Box → List ℕ → Search → Answer

abbrev pub empty_box : Box
empty_box = record { x0 = 0; y0 = 0; x1 = 0; y1 = 0 }

-- `self.boxes[i]`; the indices are those of `boxes`.
unfoldable pub box_at : Consolidator → ℕ → Box
box_at c i = elim (get_elem? c.boxes i) [ none ↦ empty_box | some b ↦ b ]

abbrev pub same_box : Box → Box → Bool
same_box a b = a.x0 == b.x0 && a.y0 == b.y0 && a.x1 == b.x1 && a.y1 == b.y1

abbrev pub same_idxs : List ℕ → List ℕ → Bool
same_idxs [] [] = true
same_idxs (i ∷ is) (j ∷ js) = i == j && same_idxs is js
same_idxs [] (j ∷ js) = false
same_idxs (i ∷ is) [] = false

-- `self.memo.get(key, False)`
unfoldable pub cached : Box → List ℕ → List Entry → Option (Option Plan)
cached r idxs [] = none
cached r idxs (e ∷ es) =
    if same_box e.bounds r && same_idxs e.idxs idxs then some e.plan else cached r idxs es

abbrev pub is_exhausted : Search → Bool
is_exhausted s = elim s.budget [ none ↦ true | some n ↦ false ]

-- `self.budget -= 1`
unfoldable pub spend : Search → Search
spend s = record s {
  budget = elim s.budget [ none ↦ none | some zero ↦ none | some (suc n) ↦ some n ];
}

unfoldable pub remember : Box → List ℕ → Option Plan → Search → Answer
remember r idxs plan s =
    let entry : Entry = record { bounds = r; idxs = idxs; plan = plan } in
    some (plan, record s { memo = entry ∷ s.memo })

abbrev pub nothing : Plan
nothing = record { cuts = []; rects = []; travel = 0 }

-- The region with no piece: it is the offcut.
unfoldable pub leftover : Consolidator → Box → Plan
leftover c r =
    let width = r.x1 - r.x0 in
    let height = r.y1 - r.y0 in
    let rect : Rectangle = record { x = r.x0; y = r.y0; width = width; height = height } in
    record {
      cuts = [];
      rects = if leb c.min_rect_size width && leb c.min_rect_size height then rect ∷ [] else [];
      travel = 0;
    }

-- `abs(a - b) < _EPS`
abbrev pub near_eq : ℕ → ℕ → Bool
near_eq a b = ltb (a - b + (b - a)) 1

-- One piece, which is the region.
unfoldable pub is_freed : Consolidator → Box → List ℕ → Bool
is_freed c r (i ∷ []) =
    let b = box_at c i in
    near_eq b.x0 r.x0 && near_eq b.y0 r.y0 && near_eq b.x1 r.x1 && near_eq b.y1 r.y1
is_freed c r [] = false
is_freed c r (i ∷ j ∷ is) = false

-- A `set`, `sorted`.
unfoldable pub insert_once : ℕ → List ℕ → List ℕ
insert_once x [] = x ∷ []
insert_once x (y ∷ ys) =
    if ltb x y then x ∷ y ∷ ys else if x == y then y ∷ ys else y ∷ insert_once x ys

-- `if lo + _EPS < x < hi - _EPS: xs.add(x)`
unfoldable pub add_inside : ℕ → ℕ → ℕ → List ℕ → List ℕ
add_inside lo hi x xs = if ltb (lo + 1) x && ltb (x + 1) hi then insert_once x xs else xs

-- The far edges and the near edges less the blade, which stops at 0 here as no bound is below it.
unfoldable pub positions : ℕ → ℕ → ℕ → (ℕ → ℕ) → (ℕ → ℕ) → List ℕ → List ℕ
positions kerf lo hi starts ends [] = []
positions kerf lo hi starts ends (i ∷ idxs) =
    add_inside lo hi (ends i)
      (add_inside lo hi (starts i - kerf) (positions kerf lo hi starts ends idxs))

-- The two sides of a cut: a piece that begins past the blade, and one that ends before it.
abbrev pub begins : Consolidator → Bool → ℕ → ℕ
begins c true i = (box_at c i).y0
begins c false i = (box_at c i).x0

abbrev pub ends : Consolidator → Bool → ℕ → ℕ
ends c true i = (box_at c i).y1
ends c false i = (box_at c i).x1

unfoldable pub is_near : Consolidator → Bool → ℕ → ℕ → Bool
is_near c horizontal position i = leb (ends c horizontal i) (position + 1)

unfoldable pub is_far : Consolidator → Bool → ℕ → ℕ → Bool
is_far c horizontal position i = leb (position + c.kerf) (begins c horizontal i + 1)

unfoldable pub is_clear : Consolidator → List ℕ → Bool → ℕ → Bool
is_clear c idxs horizontal position =
    all_by (λ i. is_far c horizontal position i || is_near c horizontal position i) idxs

unfoldable pub candidates : Consolidator → Box → List ℕ → List (Bool × ℕ)
candidates c r idxs =
    let xs = positions c.kerf r.x0 r.x1 (begins c false) (ends c false) idxs in
    let ys = positions c.kerf r.y0 r.y1 (begins c true) (ends c true) idxs in
    map (λ x. (false, x)) (filter_by (is_clear c idxs false) xs)
    ++ map (λ y. (true, y)) (filter_by (is_clear c idxs true) ys)

unfoldable pub cut_at : Box → Bool → ℕ → Cut
cut_at r true position = record {
  x = r.x0;
  y = position;
  length = r.x1 - r.x0;
  is_horizontal = true;
}
cut_at r false position = record {
  x = position;
  y = r.y0;
  length = r.y1 - r.y0;
  is_horizontal = false;
}

unfoldable pub near_bounds : Box → Bool → ℕ → Box
near_bounds r true position = record r { y1 = position }
near_bounds r false position = record r { x1 = position }

unfoldable pub far_bounds : ℕ → Box → Bool → ℕ → Box
far_bounds kerf r true position = record r { y0 = min (position + kerf) r.y1 }
far_bounds kerf r false position = record r { x0 = min (position + kerf) r.x1 }

unfoldable pub join : Cut → Plan → Plan → Plan
join cut near far = record {
  cuts = cut ∷ near.cuts ++ far.cuts;
  rects = near.rects ++ far.rects;
  travel = cut.length + near.travel + far.travel;
}

-- The blade has left something of the far side.
abbrev pub is_open : Box → Bool
is_open b = ltb (b.x0 + 1) b.x1 && ltb (b.y0 + 1) b.y1
