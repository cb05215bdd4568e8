-- ===== src/Clients/TaxIdLaws.antt =====
-- src/modules/clients/tax_id.py: the check digit of a cédula finds every mistake in one digit.
use opticutter_api.Prelude.{
  ℕ, suc, ◌+◌, ◌-◌, ◌*◌, ◌%◌, ◌<◌, ◌≡◌, ◌⊎◌, refl, sym, ap, ◌∙◌, true, false, List, [], ◌∷◌, ◌++◌,
  none, length, length-append, all_by-All, All, All-append_split, ltb, ◌==◌, if◌then◌else◌, arith,
  inl, inr,
}
use opticutter_api.Cutting.Models.{Text}
use opticutter_api.Clients.TaxId.{
  is_digit_char, is_digits, digit_at, natural_coefficients, term, total, expected, checked,
  check_digit, tax_id_error,
}

-- A cédula's digits and its check digit, which counts once.
abbrev cedula_coefficients : List ℕ
cedula_coefficients = 2 ∷ 1 ∷ 2 ∷ 1 ∷ 2 ∷ 1 ∷ 2 ∷ 1 ∷ 2 ∷ 1 ∷ []

digit_at-suc : (c : ℕ) (cs : Text) (i : ℕ) → digit_at (c ∷ cs) (suc i) ≡ digit_at cs i
digit_at-suc c cs i = refl

total-last :
    (ks : List ℕ) (cs : Text)
    → length cs ≡ suc (length ks)
    → digit_at cs (length ks) < 10
    → total true (ks ++ 1 ∷ []) cs ≡ total true ks cs + digit_at cs (length ks)
unfolding total term
total-last [] [] l d = absurd (omega arith)
total-last [] (c ∷ cs) l d = ground arith
total-last (k ∷ ks) [] l d = absurd (omega arith)
total-last (k ∷ ks) (c ∷ cs) l d = omega (arith, total-last ks cs (omega arith) d)

term_once : (a : ℕ) → a < 10 → term true 1 a ≡ a
unfolding term
term_once a l = ground arith

-- A doubled digit, its own digits added up.
abbrev twice : ℕ → ℕ
twice a = if ltb a 5 then 2 * a else 2 * a - 9

term-twice : (a : ℕ) → a < 10 → term true 2 a ≡ twice a
unfolding term
term-twice a l = ground arith

doubled : (a b r : ℕ) → a < 10 → b < 10 → (twice a + r) % 10 ≡ (twice b + r) % 10 → a ≡ b
doubled a b r l m h = ground arith

term-injective :
    (k a b r : ℕ)
    → (k ≡ 1) ⊎ (k ≡ 2)
    → a < 10
    → b < 10
    → (term true k a + r) % 10 ≡ (term true k b + r) % 10
    → a ≡ b
term-injective k a b r (inl e) l m h =
    omega
      (arith, h, ap (λ n. term true n a) e, ap (λ n. term true n b) e, term_once a l, term_once b m)
term-injective k a b r (inr e) l m h = doubled a b r l m (
    ap (λ n. (n + r) % 10) (sym (ap (λ n. term true n a) e ∙ term-twice a l))
    ∙ h
    ∙ ap (λ n. (n + r) % 10) (ap (λ n. term true n b) e ∙ term-twice b m))

total-injective :
    (ks : List ℕ) (pre post : Text) (a b : ℕ)
    → All (λ k. (k ≡ 1) ⊎ (k ≡ 2)) ks
    → length pre < length ks
    → is_digit_char a ≡ true
    → is_digit_char b ≡ true
    → total true ks (pre ++ a ∷ post) % 10 ≡ total true ks (pre ++ b ∷ post) % 10
    → a ≡ b
unfolding total
total-injective [] pre post a b k l da db h = absurd (omega arith)
total-injective (k ∷ ks) [] post a b s l da db h =
    let same =
      term-injective k (a - 48) (b - 48) (total true ks post) s.0 (ground arith) (ground arith) h in
    ground arith
total-injective (k ∷ ks) (c ∷ pre) post a b s l da db h =
    total-injective ks pre post a b s.1 (omega arith) da db (omega arith)

expected-sum : (sum d : ℕ) → expected 10 sum ≡ d → ((sum + d) % 10 ≡ 0) × (d < 10)
unfolding expected
expected-sum sum d h = (ground arith, ground arith)

-- What is left of a cédula that passes.
check_digit-cedula :
    (v : Text) → length v ≡ 10 → check_digit v ≡ checked true 10 natural_coefficients v
unfolding check_digit
check_digit-cedula v l = let short : (length v == 13) ≡ false = ground arith in rw short refl

tax_id_error-none :
    (v : Text)
    → length v ≡ 10
    → tax_id_error v ≡ none
    → (is_digits v ≡ true) × (check_digit v ≡ none)
unfolding tax_id_error
tax_id_error-none v l h = ground arith

checked-none :
    (v : Text)
    → checked true 10 natural_coefficients v ≡ none
    → expected 10 (total true natural_coefficients v) ≡ digit_at v 9
unfolding checked
checked-none v h = ground arith

cedula_sum :
    (v : Text) → length v ≡ 10 → tax_id_error v ≡ none → total true cedula_coefficients v % 10 ≡ 0
cedula_sum v l h =
    let ok = tax_id_error-none v l h in
    let sum = expected-sum _ _ (checked-none v (sym (check_digit-cedula v l) ∙ ok.1)) in
    let whole = total-last natural_coefficients v (omega arith) sum.1 in
    ap (λ n. n % 10) whole ∙ sum.0

is_digits-All : (v : Text) → is_digits v ≡ true → All (λ c. is_digit_char c ≡ true) v
is_digits-All [] h = tt
is_digits-All (c ∷ cs) h = all_by-All is_digit_char (c ∷ cs) h

digit_in : (pre post : Text) (a : ℕ) → is_digits (pre ++ a ∷ post) ≡ true → is_digit_char a ≡ true
digit_in pre post a h =
    (All-append_split (λ c. is_digit_char c ≡ true) pre (a ∷ post)
      (is_digits-All (pre ++ a ∷ post) h)).1.0

-- Two numbers of ten characters that differ in one place at most and both pass as tax ids are the same: a mistake in any
-- one digit of a cédula, the check digit included, is found.
pub single_digit_mistake :
    (pre post : Text) (a b : ℕ)
    → length pre + length post ≡ 9
    → tax_id_error (pre ++ a ∷ post) ≡ none
    → tax_id_error (pre ++ b ∷ post) ≡ none
    → a ≡ b
single_digit_mistake pre post a b l ha hb =
    let ten = λ (c : ℕ). ten_long pre post c l in
    total-injective cedula_coefficients pre post a b
      (
        inr refl,
        (
          inl refl,
          (
            inr refl,
            (inl refl, (inr refl, (inl refl, (inr refl, (inl refl, (inr refl, (inl refl, tt))))))),
          ),
        ),
      )
      (omega arith) (digit_in pre post a (tax_id_error-none _ (ten a) ha).0)
      (digit_in pre post b (tax_id_error-none _ (ten b) hb).0)
      (cedula_sum _ (ten a) ha ∙ sym (cedula_sum _ (ten b) hb))
  where
    ten_long : (us vs : Text) (c : ℕ) → length us + length vs ≡ 9 → length (us ++ c ∷ vs) ≡ 10
    ten_long us vs c k = omega (arith, length-append us (c ∷ vs))
