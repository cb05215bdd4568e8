-- ===== src/Clients/TaxId.antt =====
-- src/modules/clients/tax_id.py: the check of an Ecuadorian cédula or RUC. Of what `isdigit` takes, digits
-- beyond ASCII are left out.
use opticutter_api.Prelude.{
  ℕ, ◌+◌, ◌-◌, ◌*◌, ◌/◌, ◌%◌, Bool, true, false, not, ◌&&◌, ◌||◌, List, [], ◌∷◌, Option, none, some,
  length, get_elem?, all_by, leb, ltb, ◌==◌, if◌then◌else◌,
}
use opticutter_api.Cutting.Models.{Text}

-- Which of the two messages.
pub data TaxIdError : Type 0 where
  bad_length bad_check : TaxIdError

abbrev pub is_digit_char : ℕ → Bool
is_digit_char c = leb 48 c && leb c 57

-- `value.isdigit()`
abbrev pub is_digits : Text → Bool
is_digits [] = false
is_digits (c ∷ cs) = all_by is_digit_char (c ∷ cs)

-- `int(value[i])`
abbrev pub digit_at : Text → ℕ → ℕ
digit_at value i = elim (get_elem? value i) [ none ↦ 0 | some c ↦ c - 48 ]

abbrev pub is_province : ℕ → Bool
is_province n = (leb 1 n && leb n 24) || (n == 30)

abbrev pub is_public : Text → Bool
is_public value = length value == 13 && digit_at value 2 == 6

abbrev pub is_private : Text → Bool
is_private value = length value == 13 && digit_at value 2 == 9

unfoldable pub is_company_ruc : Text → Bool
is_company_ruc value = is_digits value && (is_public value || is_private value)

abbrev pub natural_coefficients : List ℕ
natural_coefficients = 2 ∷ 1 ∷ 2 ∷ 1 ∷ 2 ∷ 1 ∷ 2 ∷ 1 ∷ 2 ∷ []

abbrev pub public_coefficients : List ℕ
public_coefficients = 3 ∷ 2 ∷ 7 ∷ 6 ∷ 5 ∷ 4 ∷ 3 ∷ 2 ∷ []

abbrev pub private_coefficients : List ℕ
private_coefficients = 4 ∷ 3 ∷ 2 ∷ 7 ∷ 6 ∷ 5 ∷ 4 ∷ 3 ∷ 2 ∷ []

-- What a digit adds to the total.
unfoldable pub term : Bool → ℕ → ℕ → ℕ
term is_natural coefficient digit =
    let product = digit * coefficient in
    if is_natural
    then (if ltb product 10 then product else product / 10 + product % 10)
    else product

-- The total over the coefficients, the text holding at least as many digits.
unfoldable pub total : Bool → List ℕ → Text → ℕ
total is_natural [] cs = 0
total is_natural (k ∷ ks) [] = 0
total is_natural (k ∷ ks) (c ∷ cs) = term is_natural k (c - 48) + total is_natural ks cs

unfoldable pub expected : ℕ → ℕ → ℕ
expected base sum = if sum % base == 0 then 0 else base - sum % base

unfoldable pub checked : Bool → ℕ → List ℕ → Text → Option TaxIdError
checked is_natural base coefficients value =
    if expected base (total is_natural coefficients value) == digit_at value (length coefficients)
    then none
    else some bad_check

unfoldable pub check_digit : Text → Option TaxIdError
check_digit value =
    if is_public value
    then checked false 11 public_coefficients value
    else if is_private value
    then checked false 11 private_coefficients value
    else checked true 10 natural_coefficients value

unfoldable pub tax_id_error : Text → Option TaxIdError
tax_id_error value =
    if not (is_digits value)
    then some bad_length
    else if not (length value == 10 || length value == 13)
    then some bad_length
    else if not (is_province (10 * digit_at value 0 + digit_at value 1))
    then some bad_check
    else check_digit value

-- The rule of the form: what is empty or no number passes.
unfoldable pub identifier_error : Text → Option TaxIdError
identifier_error value = if is_digits value then tax_id_error value else none
