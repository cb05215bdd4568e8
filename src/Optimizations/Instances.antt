-- ===== src/Optimizations/Instances.antt =====
-- `piece_instance_ids`: every instance is named once, and its name says its row's label.
use opticutter_api.Prelude.{
  ℕ, zero, suc, ◌+◌, ◌≡◌, ◌≢◌, refl, none, some, List, [], ◌∷◌, ◌++◌, map, map-append, All,
  All-mono, Pairwise, arith,
}
use opticutter_api.Cutting.Models.{Text}
use opticutter_api.Cutting.Packer.Expand.{digits_from, decimal}
use opticutter_api.Optimizations.Patterns.{
  base_label, CutListEntry, unnamed, base_of, bases_from, Counter, count_totals, name_instances,
  name_entries, piece_instance_ids,
}
use opticutter_api.Optimizations.Decimal.{
  HasNoMark, digits_from-AreDigits, base_label-instance_name,
}
use opticutter_api.Optimizations.CounterLaws.{count_totals-get}
use opticutter_api.Optimizations.Counting.{name_entries-differ}

unfoldable pub copies {ℓ} : {A : Type ℓ} → ℕ → A → List A
copies zero x = []
copies (suc n) x = x ∷ copies n x

-- A row for each physical piece: its requirement's index and base, in the order of the list.
unfoldable pub rows : ℕ → List (Text × ℕ) → List (ℕ × Text)
rows i [] = []
rows i ((base, quantity) ∷ bases) = copies quantity (i, base) ++ rows (suc i) bases

abbrev row_of : ℕ × Text → ℕ × Text
row_of p = (p.0, base_label p.1)

module _ (totals : Counter) where
  name_instances-rows :
      (n : ℕ) (seen : Counter) (i : ℕ) (base : Text)
      → HasNoMark base
      → map row_of (name_instances totals seen i base n).0 ≡ copies n (i, base)
  unfolding name_instances copies
  name_instances-rows zero seen i base plain = refl
  name_instances-rows (suc n) seen i base plain =
      rw (base_label-instance_name base _ _ plain, name_instances-rows n _ i base plain) refl

  name_entries-rows :
      (bases : List (Text × ℕ)) (seen : Counter) (i : ℕ)
      → All (λ e. HasNoMark e.0) bases
      → map row_of (name_entries totals seen i bases) ≡ rows i bases
  unfolding name_entries rows
  name_entries-rows [] seen i plain = refl
  name_entries-rows ((base, quantity) ∷ bases) seen i plain =
      rw
        (
          map-append,
          name_instances-rows quantity seen i base plain.0,
          name_entries-rows bases _ (suc i) plain.1,
        )
        refl

-- No label that is given holds a `#`.
abbrev pub IsPlain : CutListEntry → Type 0
IsPlain (none, _) = Unit
IsPlain (some label, _) = HasNoMark label

unnamed-HasNoMark : (i : ℕ) → HasNoMark (unnamed i)
unfolding unnamed decimal
unnamed-HasNoMark i = (
  omega arith,
  (omega arith, (omega arith, (omega arith, (omega arith, (omega arith, digits (i + 1)))))),
)
  where
    digits : (n : ℕ) → HasNoMark (digits_from (suc n) n)
    digits n =
        All-mono (λ c d. λ e. absurd (ground arith)) (digits_from (suc n) n)
          (digits_from-AreDigits (suc n) n)

bases_from-HasNoMark :
    (i : ℕ) (entries : List CutListEntry)
    → All IsPlain entries
    → All (λ e. HasNoMark e.0) (bases_from i entries)
unfolding bases_from base_of
bases_from-HasNoMark i [] h = tt
bases_from-HasNoMark i ((none, n) ∷ entries) h =
    (unnamed-HasNoMark i, bases_from-HasNoMark (suc i) entries h.1)
bases_from-HasNoMark i ((some [], n) ∷ entries) h =
    (unnamed-HasNoMark i, bases_from-HasNoMark (suc i) entries h.1)
bases_from-HasNoMark i ((some (c ∷ s), n) ∷ entries) h =
    (h.0, bases_from-HasNoMark (suc i) entries h.1)

-- Where no label holds a `#`, no two instances of a cut list get the same name, and the instances,
-- with their names' base labels, are the requirements in order, each as often as its quantity says,
-- by its index and by its label (or by the label made from its index).
pub piece_instance_ids-rows :
    (entries : List CutListEntry)
    → All IsPlain entries
    → Pairwise (λ p q. p.1 ≢ q.1) (piece_instance_ids entries)
      × (map (λ p. (p.0, base_label p.1)) (piece_instance_ids entries)
          ≡ rows 0 (bases_from 0 entries))
unfolding piece_instance_ids
piece_instance_ids-rows entries plain =
    let bases = bases_from 0 entries in
    let totals = count_totals bases [] in
    let marks = bases_from-HasNoMark 0 entries plain in
    let (last, naming) =
      name_entries-differ totals bases [] 0 marks
        (λ b. omega (arith, count_totals-get b bases [])) in
    (naming.differ, name_entries-rows totals bases [] 0 marks)
