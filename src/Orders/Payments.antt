-- ===== src/Orders/Payments.antt =====
-- src/modules/orders/payments.py and the credit properties of `OrderModel`: what an order owes.
-- What is offered in cash and by transfer are doubles, in the unit of Doubles; what is kept of them, the
-- credit and the sums are whole cents, and BALANCE_TOLERANCE is one cent. Two amounts that differ by
-- another number of cents than one compare as their cents do, and those a cent apart as doubles.
use opticutter_api.Prelude.{
  ℕ, suc, ◌+◌, ◌-◌, Bool, true, false, ◌||◌, ◌&&◌, ◌==◌, List, [], ◌∷◌, ◌++◌, length, Option, none,
  some, ltb, if◌then◌else◌, sum_of,
}
use opticutter_api.Orders.Doubles.{round_cents, cent_is_above, cent_is_too_much}
use opticutter_api.Orders.Status.{PaymentMethod, cash, transfer, cancelled, is_status}
use opticutter_api.Orders.Text.{Text, stripped, is_blank}
use opticutter_api.Orders.Model.{
  Actor, Amounts, Payment, Order, exceeds_balance, Outcome, ok, refused,
}

-- `OrderPaymentInput`; `OrderPaymentCreate` has no credit. Cash and transfer are doubles, the credit cents.
pub record PaymentInput : Type 0 where
  pub cash_amount : Option ℕ
  pub transfer_amount : Option ℕ
  pub credit_amount : Option ℕ

-- `amount or 0`
abbrev pub or_zero : Option ℕ → ℕ
or_zero none = 0
or_zero (some n) = n

unfoldable pub has_payment : Option PaymentInput → Bool
has_payment none = false
has_payment (some p) =
    ltb 0 (or_zero p.cash_amount)
    || ltb 0 (or_zero p.transfer_amount)
    || ltb 0 (or_zero p.credit_amount)

-- `(method, amount)` when it is worth a row.
unfoldable pub amount_of : PaymentMethod → Option ℕ → Amounts
amount_of method amount =
    if ltb 0 (or_zero amount) then (method, round_cents (or_zero amount)) ∷ [] else []

unfoldable pub payment_amounts : Option PaymentInput → Amounts
payment_amounts none = []
payment_amounts (some p) = amount_of cash p.cash_amount ++ amount_of transfer p.transfer_amount

abbrev pub total_of : Amounts → ℕ
total_of = sum_of (λ a. a.1)

-- A voided payment no longer counts.
abbrev pub standing : Payment → ℕ
standing p = elim p.voided_at [ none ↦ p.amount | some t ↦ 0 ]

unfoldable pub credit_collected : Order → ℕ
credit_collected o = sum_of standing o.payments

-- `round(owed, 2) if owed > BALANCE_TOLERANCE else 0.0`: the test comes before the rounding.
unfoldable pub owes : ℕ → ℕ → ℕ
owes sold collected =
    if ltb (collected + 1) sold
    then sold - collected
    else if sold == collected + 1 && cent_is_above sold collected
    then 1
    else 0

unfoldable pub credit_balance : Order → ℕ
credit_balance o =
    if is_status o.status cancelled
    then 0
    else owes (or_zero o.payment_credit_amount) (credit_collected o)

-- `paying > balance + BALANCE_TOLERANCE`
unfoldable pub exceeds : ℕ → ℕ → Bool
exceeds balance paying =
    if ltb (balance + 1) paying
    then true
    else paying == balance + 1 && cent_is_too_much balance paying

-- `remaining if remaining > BALANCE_TOLERANCE else 0.0`, of what is rounded before: a cent is not above it.
abbrev pub above_tolerance : ℕ → ℕ → ℕ
above_tolerance balance paying = if ltb (paying + 1) balance then balance - paying else 0

unfoldable pub check_against_balance : Order → Amounts → Outcome ℕ
check_against_balance o amounts =
    let balance = credit_balance o in
    let paying = total_of amounts in
    if exceeds balance paying
    then refused (exceeds_balance paying balance)
    else ok (above_tolerance balance paying)

-- `text or None` on a stripped text.
abbrev pub blank_to_none : Text → Option Text
blank_to_none s = if is_blank s then none else some s

unfoldable pub payment_row : Actor → ℕ → Option Text → ℕ → PaymentMethod × ℕ → Payment
payment_row actor now note id a = record {
  id = id;
  method = a.0;
  amount = a.1;
  paid_at = now;
  note = blank_to_none (stripped note);
  received_by = actor.user_id;
  received_by_label = actor.label;
  voided_at = none;
  voided_by = none;
  voided_by_label = none;
  void_reason = none;
}

unfoldable pub payment_rows : Actor → ℕ → Option Text → ℕ → Amounts → List Payment
payment_rows actor now text id [] = []
payment_rows actor now text id (a ∷ rest) =
    payment_row actor now text id a ∷ payment_rows actor now text (suc id) rest

unfoldable pub register_payments : Order → Amounts → Actor → ℕ → Option Text → Order
register_payments o amounts actor now note = record o {
  payments = o.payments ++ payment_rows actor now note o.next_payment_id amounts;
  next_payment_id = o.next_payment_id + length amounts;
}
