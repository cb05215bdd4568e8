-- ===== src/Optimizations/Halves.antt =====
-- `order_sheets`: a stable sort by a Boolean puts one half after the other.
use opticutter_api.Prelude.{
  ◌≡◌, refl, ap, ◌∙◌, Bool, true, false, not, ◌&&◌, Bool-cases, inl, inr, List, [], ◌∷◌, ◌++◌, All,
  filter_by, sort_by, insert_by,
}
use opticutter_api.Optimizations.Groups.{Sheet, order_sheets}

module _ {ℓ} {A : Type ℓ} (late : A → Bool) where
  abbrev before : A → A → Bool
  before a b = not (late a) && late b

  insert_early : (s : A) (xs : List A) → late s ≡ false → insert_by before s xs ≡ s ∷ xs
  insert_early s [] e = refl
  insert_early s (x ∷ xs) e = elim (Bool-cases (late x)) [
    | inl h ↦ rw (e, h) refl
    | inr h ↦ rw (e, h) refl
  ]

  insert_late :
      (s : A) (early lates : List A)
      → late s ≡ true
      → All (λ w. late w ≡ false) early
      → All (λ w. late w ≡ true) lates
      → insert_by before s (early ++ lates) ≡ early ++ s ∷ lates
  insert_late s [] [] e w h = refl
  insert_late s [] (x ∷ lates) e w h = rw (e, h.0) refl
  insert_late s (x ∷ early) lates e w h =
      rw (e, w.0) (ap (λ xs. x ∷ xs) (insert_late s early lates e w.1 h))

  early-All : (xs : List A) → All (λ x. late x ≡ false) (filter_by (λ x. not (late x)) xs)
  early-All [] = tt
  early-All (x ∷ xs) = elim (Bool-cases (late x)) [
    | inl e ↦ rw e (early-All xs)
    | inr e ↦ rw e (e, early-All xs)
  ]

  late-All : (xs : List A) → All (λ x. late x ≡ true) (filter_by late xs)
  late-All [] = tt
  late-All (x ∷ xs) = elim (Bool-cases (late x)) [
    | inl e ↦ rw e (e, late-All xs)
    | inr e ↦ rw e (late-All xs)
  ]

  sort_by-halves :
      (xs : List A) → sort_by before xs ≡ filter_by (λ x. not (late x)) xs ++ filter_by late xs
  sort_by-halves [] = refl
  sort_by-halves (x ∷ xs) =
      let rest = ap (insert_by before x) (sort_by-halves xs) in
      elim (Bool-cases (late x)) [
        | inl e ↦ rw e (rest ∙ insert_late x _ _ e (early-All xs) (late-All xs))
        | inr e ↦ rw e (rest ∙ insert_early x _ e)
      ]

-- The whole boards come first and the half boards after them, each in the order that they had.
pub order_sheets-halves :
    (layouts : List Sheet)
    → order_sheets layouts
      ≡ filter_by (λ s. not s.half_board) layouts ++ filter_by (λ s. s.half_board) layouts
unfolding order_sheets
order_sheets-halves layouts = sort_by-halves (λ s. s.half_board) layouts
