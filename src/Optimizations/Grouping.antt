-- ===== src/Optimizations/Grouping.antt =====
-- `group_layouts`: the loop keeps the groups of the sheets that it has read.
use opticutter_api.Prelude.{
  ℕ, zero, suc, ◌+◌, ◌≡◌, refl, sym, ap, subst, ◌∙◌, ◌⊎◌, Bool, true, false, Bool-cases, inl, inr,
  Option, none, some, List, [], ◌∷◌, ◌++◌, map, length, All, filter_by, any_by, arith,
}
use opticutter_api.Optimizations.Groups.{
  Sheet, layout_signature, same_layout, Group, Index, find_index, one_more, add_to_group,
}
use opticutter_api.Optimizations.GroupLaws.{alike, same_layout-eq, same_layout_refl}

-- The index of the representatives, from number `k`.
unfoldable pub index_of : ℕ → List Sheet → Index
index_of k [] = []
index_of k (s ∷ sheets) = (layout_signature s, k) ∷ index_of (suc k) sheets

abbrev pub representatives : List Group → List Sheet
representatives gs = map (λ g. g.layout) gs

pub index_of-append :
    (k : ℕ) (sheets : List Sheet) (s : Sheet)
    → index_of k (sheets ++ s ∷ [])
      ≡ index_of k sheets ++ (layout_signature s, k + length sheets) ∷ []
unfolding index_of
index_of-append k [] s = let e : k ≡ k + 0 = omega arith in λ i. (layout_signature s, e i) ∷ []
index_of-append k (t ∷ sheets) s =
    let e : suc k + length sheets ≡ k + suc (length sheets) = omega arith in
    rw (index_of-append (suc k) sheets s, e) refl

module _ (l : Sheet) where
  abbrev pub Differs : List Sheet → Type 0
  Differs sheets = All (λ s. alike l s ≡ false) sheets

  -- Either no group has the sheet's pattern, or the index says which one has.
  abbrev pub Looked : ℕ → List Group → Type 0
  Looked k gs =
      ((find_index (layout_signature l) (index_of k (representatives gs)) ≡ none)
        × Differs (representatives gs))
      ⊎ ((before : List Group) × (g : Group) × (after : List Group) × (gs ≡ before ++ g ∷ after)
          × (find_index (layout_signature l) (index_of k (representatives gs))
              ≡ some (k + length before))
          × (alike l g.layout ≡ true)
          × Differs (representatives before))

  pub look : (k : ℕ) (gs : List Group) → Looked k gs
  unfolding find_index index_of
  look k [] = inl (refl, tt)
  look k (g ∷ gs) = elim (Bool-cases (alike l g.layout)) [
    | inl e ↦ inr ([], g, gs, refl, rw e (ap some (omega arith)), e, tt)
    | inr e ↦ elim (look (suc k) gs) [
      | inl (unknown, differs) ↦ inl (rw e unknown, (e, differs))
      | inr (before, h, after, split, found, same, differs) ↦ inr (
        g ∷ before,
        h,
        after,
        ap (λ xs. g ∷ xs) split,
        rw e (found ∙ ap some (omega arith)),
        same,
        (e, differs),
      )
    ]
  ]

pub add_to_group-middle :
    (before after : List Group) (g : Group) (n : Option ℕ)
    → add_to_group (length before) n (before ++ g ∷ after) ≡ some (before ++ one_more n g ∷ after)
unfolding add_to_group
add_to_group-middle [] after g n = refl
add_to_group-middle (b ∷ before) after g n = rw (add_to_group-middle before after g n) refl

pub alike-sym : (a b : Sheet) → alike a b ≡ false → alike b a ≡ false
alike-sym a b d = elim (Bool-cases (alike b a)) [
  | inl e ↦
      let same = same_layout-eq (layout_signature b) (layout_signature a) e in
      let own : alike a b ≡ true =
        subst (λ t. same_layout (layout_signature a) t ≡ true) (sym same)
          (same_layout_refl (layout_signature a)) in
      absurd (ground arith)
  | inr e ↦ e
]

-- Sheets that are alike are alike to the same sheets.
pub alike-eq : (a b s : Sheet) → alike a b ≡ true → alike a s ≡ alike b s
alike-eq a b s e =
    ap (λ t. same_layout t (layout_signature s))
      (same_layout-eq (layout_signature a) (layout_signature b) e)

pub any_by-append {ℓ} :
    {A : Type ℓ} (p : A → Bool) (xs ys : List A) → any_by p xs ≡ true → any_by p (xs ++ ys) ≡ true
any_by-append p [] ys h = absurd (ground arith)
any_by-append p (x ∷ xs) ys h = elim (Bool-cases (p x)) [
  | inl e ↦ rw e refl
  | inr e ↦ rw e (any_by-append p xs ys (rw e at h))
]

pub any_by-middle {ℓ} :
    {A : Type ℓ} (p : A → Bool) (xs ys : List A) (x : A)
    → p x ≡ true
    → any_by p (xs ++ x ∷ ys) ≡ true
any_by-middle p [] ys x h = rw h refl
any_by-middle p (y ∷ xs) ys x h = elim (Bool-cases (p y)) [
  | inl e ↦ rw e refl
  | inr e ↦ rw e (any_by-middle p xs ys x h)
]

any_by-none :
    (a l : Sheet) (sheets : List Sheet)
    → alike a l ≡ true
    → All (λ s. alike l s ≡ false) sheets
    → any_by (alike a) sheets ≡ false
any_by-none a l [] e d = refl
any_by-none a l (s ∷ sheets) e d = rw (alike-eq a l s e, d.0) (any_by-none a l sheets e d.1)

pub no_members :
    (done : List Sheet) (sheets : List Sheet) (l : Sheet)
    → All (λ x. any_by (alike x) sheets ≡ true) done
    → All (λ s. alike l s ≡ false) sheets
    → filter_by (λ x. alike x l) done ≡ []
no_members [] sheets l h d = refl
no_members (x ∷ done) sheets l h d = elim (Bool-cases (alike x l)) [
  | inl e ↦ let found = h.0 in let lost = any_by-none x l sheets e d in absurd (ground arith)
  | inr e ↦ rw e (no_members done sheets l h.1 d)
]

unfoldable pub numbers : ℕ → ℕ → List ℕ
numbers k zero = []
numbers k (suc n) = k ∷ numbers (suc k) n

pub numbers-suc : (k n : ℕ) → numbers k (suc n) ≡ numbers k n ++ (k + n) ∷ []
unfolding numbers
numbers-suc k zero = let e : k ≡ k + 0 = omega arith in λ i. e i ∷ []
numbers-suc k (suc n) =
    let e : suc k + n ≡ k + suc n = omega arith in rw (numbers-suc (suc k) n, e) refl
