-- ===== src/Orders/Production/DayLaws.antt =====
-- src/modules/orders/production.py, `_split_by_day`: a span by business days.
use opticutter_api.Prelude.{
  ℕ, zero, suc, ◌+◌, ◌-◌, ◌*◌, ◌/◌, ◌⊎◌, ◌≤◌, ◌<◌, ◌≡◌, refl, sym, ap, ◌∙◌, min, List, [], ◌∷◌,
  Option, some, leb, ltb, arith, Bool-cases, inl, inr,
}
use opticutter_api.Shared.Windows.{day_span, Zone, IsFixed, Interval, local_date, local_midnight}
use opticutter_api.Orders.Production.Days.{cons_piece, split_by_day, split_fuel}

-- One after the other from the start to the end, each within one business day.
abbrev pub AreDays : Zone → ℕ → ℕ → List Interval → Type 0
AreDays z start end [] = start ≡ end
AreDays z start end ((a, b) ∷ rest) =
    (a ≡ start) × (a < b) × (b ≤ local_midnight z (local_date z a + 1)) × AreDays z b end rest

module _ (z : Zone) (fixed : IsFixed z) where
  pub midnight_lem : (d : ℕ) → local_midnight z d ≡ z.of_wall 0 + d * day_span
  unfolding local_midnight
  midnight_lem d = fixed.of_wall_lem (d * day_span)

  instant_lem : (t : ℕ) → z.of_wall 0 ≤ t → z.of_wall 0 + z.to_wall t ≡ t
  instant_lem t l = sym (fixed.of_wall_lem (z.to_wall t)) ∙ fixed.of_wall-to_wall t l

  -- A business day runs from its midnight to the next.
  pub local_date_bounds :
      (t : ℕ)
      → z.of_wall 0 ≤ t
      → (local_midnight z (local_date z t) ≤ t) × (t < local_midnight z (local_date z t + 1))
  unfolding local_date
  local_date_bounds t l = (
    omega (arith, midnight_lem (z.to_wall t / day_span), instant_lem t l),
    omega (arith, midnight_lem (z.to_wall t / day_span + 1), instant_lem t l),
  )

  local_date_unique :
      (t d : ℕ)
      → z.of_wall 0 ≤ t
      → local_midnight z d ≤ t
      → t < local_midnight z (d + 1)
      → local_date z t ≡ d
  unfolding local_date
  local_date_unique t d l a b = omega (arith, midnight_lem d, midnight_lem (d + 1), instant_lem t l)

  local_date_mono : (t u : ℕ) → z.of_wall 0 ≤ t → t ≤ u → local_date z t ≤ local_date z u
  unfolding local_date
  local_date_mono t u l m = omega (arith, instant_lem t l, instant_lem u (omega arith))

  abbrev Splits : ℕ → ℕ → Option (List Interval) → Type 0
  Splits start end o = (pieces : List Interval) × (o ≡ some pieces) × AreDays z start end pieces

  cons_piece-Splits :
      (start cut end : ℕ) (o : Option (List Interval))
      → start < cut
      → cut ≤ local_midnight z (local_date z start + 1)
      → Splits cut end o
      → Splits start end (cons_piece (start, cut) o)
  cons_piece-Splits start cut end o l u h =
      ((start, cut) ∷ h.0, ap (cons_piece (start, cut)) h.1, (refl, l, u, h.2))

  -- After a round the span is at its end, or its first day is over.
  next_round :
      (fuel start end : ℕ)
      → z.of_wall 0 ≤ start
      → start < end
      → ((start ≡ end) × (0 < suc fuel)) ⊎ (local_date z end - local_date z start + 1 < suc fuel)
      → ((min end (local_midnight z (local_date z start + 1)) ≡ end) × (0 < fuel))
        ⊎ (local_date z end - local_date z (min end (local_midnight z (local_date z start + 1))) + 1
            < fuel)
  next_round fuel start end o l (inl f) = absurd (omega arith)
  next_round fuel start end o l (inr f) =
      let midnight = local_midnight z (local_date z start + 1) in
      let today = local_date_bounds start o in
      elim (Bool-cases (leb end midnight)) [
        | inl e ↦ inl (ground arith, omega arith)
        | inr e ↦
            let there : min end midnight ≡ midnight = ground arith in
            let tomorrow : local_date z midnight ≡ local_date z start + 1 =
              local_date_unique midnight (local_date z start + 1) (omega arith) (omega arith) (
                omega (
                  arith,
                  midnight_lem (local_date z start + 1),
                  midnight_lem (local_date z start + 1 + 1),
                )) in
            let later : local_date z midnight ≤ local_date z end =
              local_date_mono midnight end (omega arith) (ground arith) in
            inr (rw there (rw tomorrow (omega arith)))
      ]

  split_by_day-Splits :
      (fuel start end : ℕ)
      → z.of_wall 0 ≤ start
      → start ≤ end
      → ((start ≡ end) × (0 < fuel)) ⊎ (local_date z end - local_date z start + 1 < fuel)
      → Splits start end (split_by_day z fuel start end)
  unfolding split_by_day
  split_by_day-Splits zero start end o l (inl f) = absurd (omega arith)
  split_by_day-Splits zero start end o l (inr f) = absurd (omega arith)
  split_by_day-Splits (suc fuel) start end o l f = elim (Bool-cases (ltb start end)) [
    | inr e ↦ rw e ([], refl, ground arith)
    | inl e ↦
        let midnight = local_midnight z (local_date z start + 1) in
        let today = local_date_bounds start o in
        let fits : start < min end midnight = ground arith in
        let before : min end midnight ≤ midnight = ground arith in
        rw e (
          cons_piece-Splits start (min end midnight) end _ fits before (
            split_by_day-Splits fuel (min end midnight) end (omega arith) (ground arith)
              (next_round fuel start end o (ground arith) f)))
  ]

  -- `split_by_day` stops: with a round for each day of the span and two more it gives the span in pieces one after
  -- the other, from its start to its end, none empty and each within one business day. The zone's offset
  -- never changes.
  pub split_by_day-AreDays :
      (start end : ℕ)
      → z.of_wall 0 ≤ start
      → start ≤ end
      → (pieces : List Interval) × (split_by_day z (split_fuel z start end) start end ≡ some pieces)
        × AreDays z start end pieces
  split_by_day-AreDays start end o l =
      split_by_day-Splits (split_fuel z start end) start end o l (inr (omega arith))
