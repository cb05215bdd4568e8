-- ===== src/Cutting/SheetCheck/Separation.antt =====
-- The numeric tests of the sheet check as geometry: boxes within a limit, and boxes apart.
use opticutter_api.Prelude.{◌≡◌, ◌↔◌, ◌⊎◌, inl, inr, Bool, false, ◌||◌, arith}
use opticutter_api.Prelude.Int.{ℤ, pos, ◌+ℤ◌, ◌-ℤ◌, ◌≤ℤ◌, ltb_ℤ, max_ℤ, int_laws}
use opticutter_api.Cutting.SheetCheck.Violations.{SheetBox, separation, exceeds}

-- On some axis one box ends at least `gap` before the other begins.
abbrev pub ApartBy : ℤ → SheetBox → SheetBox → Type 0
ApartBy gap a b =
    ((a.x1 +ℤ gap ≤ℤ b.x0) ⊎ (b.x1 +ℤ gap ≤ℤ a.x0))
    ⊎ ((a.y1 +ℤ gap ≤ℤ b.y0) ⊎ (b.y1 +ℤ gap ≤ℤ a.y0))

-- The box leaves the limit by one epsilon at most.
abbrev pub WithinBy : SheetBox → SheetBox → Type 0
WithinBy limit b =
    (limit.x0 ≤ℤ b.x0 +ℤ pos 1)
    × (limit.y0 ≤ℤ b.y0 +ℤ pos 1)
    × (b.x1 ≤ℤ limit.x1 +ℤ pos 1)
    × (b.y1 ≤ℤ limit.y1 +ℤ pos 1)

max_ℤ_iff : (u v g : ℤ) → (ltb_ℤ (max_ℤ u v) g ≡ false) ↔ ((g ≤ℤ u) ⊎ (g ≤ℤ v))
max_ℤ_iff u v g = (λ h. ground arith, λ h. ground arith)

ltb_ℤ_iff : (a b : ℤ) → (ltb_ℤ a b ≡ false) ↔ (b ≤ℤ a)
ltb_ℤ_iff a b = (λ h. ground arith, λ h. ground arith)

four_tests :
    (s t u v : Bool)
    → ((s || t || u || v) ≡ false) ↔ ((s ≡ false) × (t ≡ false) × (u ≡ false) × (v ≡ false))
four_tests s t u v = (λ h. ground arith, λ h. ground arith)

below_iff : (x limit : ℤ) → (ltb_ℤ x (limit -ℤ pos 1) ≡ false) ↔ (limit ≤ℤ x +ℤ pos 1)
below_iff x limit =
    let test = ltb_ℤ_iff x (limit -ℤ pos 1) in
    (λ h. let k = test.0 h in omega int_laws, λ h. test.1 (omega int_laws))

pub exceeds_iff : (limit b : SheetBox) → (exceeds limit b ≡ false) ↔ WithinBy limit b
unfolding exceeds
exceeds_iff limit b =
    let tests =
      four_tests (ltb_ℤ b.x0 (limit.x0 -ℤ pos 1)) (ltb_ℤ b.y0 (limit.y0 -ℤ pos 1))
        (ltb_ℤ (limit.x1 +ℤ pos 1) b.x1) (ltb_ℤ (limit.y1 +ℤ pos 1) b.y1) in
    let x0 = below_iff b.x0 limit.x0 in
    let y0 = below_iff b.y0 limit.y0 in
    let x1 = ltb_ℤ_iff (limit.x1 +ℤ pos 1) b.x1 in
    let y1 = ltb_ℤ_iff (limit.y1 +ℤ pos 1) b.y1 in
    (
      λ h. let k = tests.0 h in (x0.0 k.0, y0.0 k.1, x1.0 k.2, y1.0 k.3),
      λ h. tests.1 (x0.1 h.0, y0.1 h.1, x1.1 h.2, y1.1 h.3),
    )

gap_iff : (gap u v : ℤ) → (gap ≤ℤ v -ℤ u) ↔ (u +ℤ gap ≤ℤ v)
gap_iff gap u v = (λ h. omega int_laws, λ h. omega int_laws)

sum_iff {ℓ} : {A B C D : Type ℓ} → A ↔ C → B ↔ D → (A ⊎ B) ↔ (C ⊎ D)
sum_iff f g = (
  λ h. elim h [ inl a ↦ inl (f.0 a) | inr b ↦ inr (g.0 b) ],
  λ h. elim h [ inl c ↦ inl (f.1 c) | inr d ↦ inr (g.1 d) ],
)

pub iff_trans {ℓ} : {A B C : Type ℓ} → A ↔ B → B ↔ C → A ↔ C
iff_trans f g = (λ a. g.0 (f.0 a), λ c. f.1 (g.1 c))

max_ℤ_le_iff : (u v g : ℤ) → (g ≤ℤ max_ℤ u v) ↔ ((g ≤ℤ u) ⊎ (g ≤ℤ v))
max_ℤ_le_iff u v g =
    let test = ltb_ℤ_iff (max_ℤ u v) g in iff_trans (test.1, test.0) (max_ℤ_iff u v g)

-- The test on the best separation is the geometry: the boxes are `gap` apart on some axis.
pub separation_iff :
    (gap : ℤ) (a b : SheetBox) → (ltb_ℤ (separation a b) gap ≡ false) ↔ ApartBy gap a b
unfolding separation
separation_iff gap a b =
    let axis = λ (u v u' v' : ℤ).
      iff_trans (max_ℤ_le_iff (v -ℤ u) (v' -ℤ u') gap)
        (sum_iff (gap_iff gap u v) (gap_iff gap u' v')) in
    iff_trans (max_ℤ_iff _ _ gap) (sum_iff (axis a.x1 b.x0 b.x1 a.x0) (axis a.y1 b.y0 b.y1 a.y0))
