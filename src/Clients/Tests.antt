-- ===== src/Clients/Tests.antt =====
-- A cédula that passes, one that does not, and the theorem at it.
use opticutter_api.Prelude.{ℕ, ◌≡◌, refl, [], ◌∷◌, ◌++◌, none, some, arith}
use opticutter_api.Cutting.Models.{Text}
use opticutter_api.Clients.TaxId.{
  bad_check, term, total, expected, checked, check_digit, tax_id_error,
}
use opticutter_api.Clients.TaxIdLaws.{single_digit_mistake}

-- 1710034065, and the same with its last digit wrong.
abbrev first_nine : Text
first_nine = 49 ∷ 55 ∷ 49 ∷ 48 ∷ 48 ∷ 51 ∷ 52 ∷ 48 ∷ 54 ∷ []

cedula_passes : tax_id_error (first_nine ++ 53 ∷ []) ≡ none
unfolding tax_id_error check_digit checked expected total term
cedula_passes = refl

mistake_found : tax_id_error (first_nine ++ 54 ∷ []) ≡ some bad_check
unfolding tax_id_error check_digit checked expected total term
mistake_found = refl

single_digit_mistake_example : ◌≡◌ {A = ℕ} 53 53
single_digit_mistake_example =
    single_digit_mistake first_nine [] 53 53 (omega arith) cedula_passes cedula_passes
