-- ===== src/Optimizations/CounterLaws.antt =====
-- `Counter`: what adding to a name does to it and to the others, and what the totals are.
use opticutter_api.Prelude.{
  ℕ, ◌+◌, ◌≡◌, refl, subst, false, Bool-cases, inl, inr, List, [], ◌∷◌, arith, if◌then◌else◌,
}
use opticutter_api.Cutting.Models.{Text}
use opticutter_api.Cutting.Constructors.Order.{same_id}
use opticutter_api.Cutting.Constructors.Pieces.{same_id-eq, same_id_refl}
use opticutter_api.Optimizations.Patterns.{Counter, counter_get, counter_add, count_totals}

pub counter_get-add :
    (name : Text) (n : ℕ) (c : Counter)
    → counter_get name (counter_add name n c) ≡ counter_get name c + n
unfolding counter_get counter_add
counter_get-add name n [] = rw (same_id_refl name) (omega arith)
counter_get-add name n ((other, m) ∷ rest) = elim (Bool-cases (same_id name other)) [
  | inl e ↦ rw (e, e) refl
  | inr e ↦ rw (e, e) (counter_get-add name n rest)
]

pub counter_get-add_other :
    (a name : Text) (n : ℕ) (c : Counter)
    → same_id a name ≡ false
    → counter_get a (counter_add name n c) ≡ counter_get a c
unfolding counter_get counter_add
counter_get-add_other a name n [] d = rw d refl
counter_get-add_other a name n ((other, m) ∷ rest) d = elim (Bool-cases (same_id name other)) [
  | inl e ↦
      let differ : same_id a other ≡ false =
        subst (λ t. same_id a t ≡ false) (same_id-eq name other e) d in
      rw (e, differ) refl
  | inr e ↦ elim (Bool-cases (same_id a other)) [
    | inl f ↦ rw (e, f) refl
    | inr f ↦ rw (e, f) (counter_get-add_other a name n rest d)
  ]
]

-- How many instances of a name the entries ask for.
unfoldable pub asked : Text → List (Text × ℕ) → ℕ
asked name [] = 0
asked name ((base, quantity) ∷ bases) =
    (if same_id name base then quantity else 0) + asked name bases

pub count_totals-get :
    (name : Text) (bases : List (Text × ℕ)) (c : Counter)
    → counter_get name (count_totals bases c) ≡ counter_get name c + asked name bases
unfolding count_totals asked
count_totals-get name [] c = omega arith
count_totals-get name ((base, quantity) ∷ bases) c = elim (Bool-cases (same_id name base)) [
  | inl e ↦
      let same = same_id-eq name base e in
      let own : counter_get name (counter_add base quantity c) ≡ counter_get name c + quantity =
        subst (λ t. counter_get name (counter_add t quantity c) ≡ counter_get name c + quantity)
          same (counter_get-add name quantity c) in
      rw e (omega (arith, count_totals-get name bases (counter_add base quantity c), own))
  | inr e ↦ rw e (
      omega (
        arith,
        count_totals-get name bases (counter_add base quantity c),
        counter_get-add_other name base quantity c e,
      ))
]
