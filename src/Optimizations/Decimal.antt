-- ===== src/Optimizations/Decimal.antt =====
-- The digits of a number name it, and `base_label` takes them off again.
use opticutter_api.Prelude.{
  ℕ, zero, suc, ◌+◌, ◌-◌, ◌*◌, ◌/◌, ◌%◌, ◌≤◌, ◌<◌, ◌≡◌, ◌≢◌, refl, sym, ap, ◌∙◌, true, false,
  Bool-cases, inl, inr, [], ◌∷◌, ◌++◌, All, All-append, ltb, ◌==◌, arith, if◌then◌else◌,
}
use opticutter_api.Cutting.Models.{Text}
use opticutter_api.Cutting.Packer.Expand.{digits_from, decimal}
use opticutter_api.Optimizations.Patterns.{
  is_decimal, is_number, after_number, base_label, instance_name,
}

-- The number that digits say, after `acc`.
value : ℕ → Text → ℕ
value acc [] = acc
value acc (c ∷ s) = value (acc * 10 + (c - b'0')) s

value-append :
    (acc : ℕ) (s : Text) (c : ℕ) → value acc (s ++ c ∷ []) ≡ value acc s * 10 + (c - b'0')
unfolding value
value-append acc [] c = refl
value-append acc (d ∷ s) c = value-append (acc * 10 + (d - b'0')) s c

value-digits_from : (f n : ℕ) → n < f → value 0 (digits_from f n) ≡ n
unfolding value digits_from
value-digits_from zero n l = absurd (omega arith)
value-digits_from (suc f) n l = elim (Bool-cases (ltb n 10)) [
  | inl e ↦ rw e (omega arith)
  | inr e ↦
      let big : 10 ≤ n = ground arith in
      rw
        (
          e,
          value-append 0 (digits_from f (n / 10)) (b'0' + n % 10),
          value-digits_from f (n / 10) (omega arith),
        )
        (omega arith)
]

pub decimal_injective : (m n : ℕ) → decimal m ≡ decimal n → m ≡ n
unfolding decimal
decimal_injective m n e =
    sym (value-digits_from (suc m) m (omega arith))
    ∙ ap (value 0) e
    ∙ value-digits_from (suc n) n (omega arith)

abbrev pub AreDigits : Text → Type 0
AreDigits s = All (λ c. is_decimal c ≡ true) s

pub digits_from-AreDigits : (f n : ℕ) → AreDigits (digits_from f n)
unfolding digits_from
digits_from-AreDigits zero n = tt
digits_from-AreDigits (suc f) n = elim (Bool-cases (ltb n 10)) [
  | inl e ↦ rw e (ground arith, tt)
  | inr e ↦ rw e (
      All-append _ (digits_from f (n / 10)) _ (digits_from-AreDigits f (n / 10)) (ground arith, tt))
]

-- Digits, at least one of them, are a match with nothing after it.
AreDigits-is_number :
    (c : ℕ) (s : Text)
    → AreDigits (c ∷ s)
    → (is_number (c ∷ s) ≡ true) × (after_number (c ∷ s) ≡ [])
unfolding is_number after_number
AreDigits-is_number c [] h = (h.0, ground arith)
AreDigits-is_number c (d ∷ []) h = (ground arith, ground arith)
AreDigits-is_number c (d ∷ e ∷ s) h =
    let (more, none_after) = AreDigits-is_number d (e ∷ s) h.1 in (rw (h.0, more) refl, none_after)

digits_from-cons : (f n : ℕ) → (c : ℕ) × (s : Text) × (digits_from (suc f) n ≡ c ∷ s)
unfolding digits_from
digits_from-cons f n = elim (Bool-cases (ltb n 10)) [
  | inl e ↦ (b'0' + n, [], rw e refl)
  | inr e ↦ go (digits_from f (n / 10)) e
]
  where
    go :
        (front : Text)
        → ltb n 10 ≡ false
        → (c : ℕ) × (s : Text) × ((if ltb n 10
              then (b'0' + n) ∷ []
              else front ++ (b'0' + n % 10) ∷ [])
            ≡ c ∷ s)
    go [] e = (b'0' + n % 10, [], rw e refl)
    go (c ∷ front) e = (c, front ++ (b'0' + n % 10) ∷ [], rw e refl)

-- No character of the text is the mark of a suffix.
abbrev pub HasNoMark : Text → Type 0
HasNoMark s = All (λ c. c ≢ b'#') s

base_label-marked :
    (c : ℕ) (digits : Text)
    → AreDigits (c ∷ digits)
    → (s : Text) → HasNoMark s
    → base_label (s ++ b'#' ∷ c ∷ digits) ≡ s
unfolding base_label
base_label-marked c digits d [] h =
    let (match, nothing_after) = AreDigits-is_number c digits d in rw match nothing_after
base_label-marked c digits d (a ∷ s) h =
    let e : (a == b'#') ≡ false = ground (arith, h.0) in
    rw (e, base_label-marked c digits d s h.1) refl

base_label-plain : (s : Text) → HasNoMark s → base_label s ≡ s
unfolding base_label
base_label-plain [] h = refl
base_label-plain (a ∷ s) h =
    let e : (a == b'#') ≡ false = ground (arith, h.0) in rw (e, base_label-plain s h.1) refl

-- `base_label` gives back the base of an instance's name.
pub base_label-instance_name :
    (base : Text) (total k : ℕ) → HasNoMark base → base_label (instance_name base total k) ≡ base
unfolding instance_name decimal
base_label-instance_name base total k h = elim (Bool-cases (ltb 1 total)) [
  | inl e ↦
      let (c, s, made) = digits_from-cons k k in
      let digits = rw made at (digits_from-AreDigits (suc k) k) in
      rw (e, made) (base_label-marked c s digits base h)
  | inr e ↦ rw e (base_label-plain base h)
]

cancel_prefix : (s t u : Text) → s ++ t ≡ s ++ u → t ≡ u
cancel_prefix [] t u e = e
cancel_prefix (c ∷ s) t u e = cancel_prefix s t u (cc)

-- Instances of one base with different numbers have different names.
pub instance_name_injective :
    (base : Text) (total j k : ℕ)
    → 1 < total
    → instance_name base total j ≡ instance_name base total k
    → j ≡ k
unfolding instance_name
instance_name_injective base total j k l e =
    let big : ltb 1 total ≡ true = ground arith in
    let same : base ++ b'#' ∷ decimal j ≡ base ++ b'#' ∷ decimal k = rw big at e in
    let tail : b'#' ∷ decimal j ≡ b'#' ∷ decimal k = cancel_prefix base _ _ same in
    decimal_injective j k (cancel_prefix (b'#' ∷ []) _ _ tail)
