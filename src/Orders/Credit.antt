-- ===== src/Orders/Credit.antt =====
-- What an order owes, after a payment and after its annulment.
use opticutter_api.Prelude.{
  ℕ, zero, suc, ◌⊎◌, false, ◌+◌, ◌≤◌, ◌<◌, ◌≡◌, refl, sym, ◌∙◌, ap, subst, inl, inr, true, false,
  List, [], ◌∷◌, Option, some, arith, sum_of, sum_of-append, Bool-cases, Option-cases, ◌==◌,
}
use opticutter_api.Orders.Doubles.{half_even, round_cents}
use opticutter_api.Orders.Status.{cancelled, is_status}
use opticutter_api.Orders.Text.{Text, stripped}
use opticutter_api.Orders.Model.{Actor, Amounts, Note, Payment, Order, ok}
use opticutter_api.Orders.Payments.{
  PaymentInput, or_zero, amount_of, payment_amounts, total_of, standing, credit_collected, owes,
  exceeds, above_tolerance, credit_balance, check_against_balance, payment_row, payment_rows,
  register_payments,
}
use opticutter_api.Orders.Pauses.{audit_row}
use opticutter_api.Orders.Machine.{is_empty}
use opticutter_api.Orders.Activities.{is_some}
use opticutter_api.Orders.Registers.{
  add_payment, find_payment, update_payment, set_void, void_payment,
}
use opticutter_api.Orders.Gates.{raise_if-ok, then_do-ok, ok_injective}

standing-payment_rows :
    (actor : Actor) (now : ℕ) (text : Option Text) (id : ℕ) (amounts : Amounts)
    → sum_of standing (payment_rows actor now text id amounts) ≡ total_of amounts
unfolding payment_rows payment_row
standing-payment_rows actor now text id [] = refl
standing-payment_rows actor now text id (a ∷ rest) =
    ap (λ n. a.1 + n) (standing-payment_rows actor now text (suc id) rest)

pub credit_collected-register_payments :
    (o : Order) (amounts : Amounts) (actor : Actor) (now : ℕ) (text : Option Text)
    → credit_collected (register_payments o amounts actor now text)
      ≡ credit_collected o + total_of amounts
unfolding credit_collected register_payments
credit_collected-register_payments o amounts actor now text =
    sum_of-append standing o.payments _
    ∙ ap (λ n. sum_of standing o.payments + n)
        (standing-payment_rows actor now text o.next_payment_id amounts)

-- Paying takes the balance down by as much, or to nothing from no more than a cent above what is paid.
owes_settled :
    (sold collected paying : ℕ)
    → (owes sold (collected + paying) + paying ≡ owes sold collected)
      ⊎ ((owes sold (collected + paying) ≡ 0) × (owes sold collected ≤ paying + 1))
unfolding owes
owes_settled sold collected zero = inl (unpaid _ ∙ ap (owes sold) (unpaid collected))
  where
    unpaid : (n : ℕ) → n + 0 ≡ n
    unpaid n = omega arith
owes_settled sold collected (suc paying) = ground arith

exceeds-bounded : (balance paying : ℕ) → exceeds balance paying ≡ false → paying ≤ balance + 1
unfolding exceeds
exceeds-bounded balance paying h = ground arith

-- What an input comes to, each way of paying rounded to a cent.
abbrev pub offered : PaymentInput → ℕ
offered input =
    round_cents (or_zero input.cash_amount) + round_cents (or_zero input.transfer_amount)

total_of-payment_amounts :
    (input : PaymentInput) → total_of (payment_amounts (some input)) ≡ offered input
unfolding payment_amounts amount_of round_cents half_even
total_of-payment_amounts input = ground arith

pub credit_balance-live :
    (o : Order)
    → is_status o.status cancelled ≡ false
    → credit_balance o ≡ owes (or_zero o.payment_credit_amount) (credit_collected o)
unfolding credit_balance
credit_balance-live o live = rw live refl

-- What a payment does to the money of an order: the balance falls by what is paid, or to nothing from
-- no more than a cent above it.
pub record Settles (paying : ℕ) (o o' : Order) : Type 0 where
  pub collected : credit_collected o' ≡ credit_collected o + paying
  pub balance :
      (credit_balance o' + paying ≡ credit_balance o)
      ⊎ ((credit_balance o' ≡ 0) × (credit_balance o ≤ paying + 1))
  pub bounded : paying ≤ credit_balance o + 1
  pub sold : o'.payment_credit_amount ≡ o.payment_credit_amount

checked_balance :
    (o : Order) (amounts : Amounts) (remaining : ℕ)
    → check_against_balance o amounts ≡ ok remaining
    → (exceeds (credit_balance o) (total_of amounts) ≡ false)
      × (remaining ≡ above_tolerance (credit_balance o) (total_of amounts))
unfolding check_against_balance
checked_balance o amounts remaining h = ground arith

-- A gate that let `amounts` pass, and an order that counts them: it owes at most a cent more than the
-- gate said.
pub Settles-of :
    (o o' : Order) (amounts : Amounts) (remaining : ℕ)
    → is_status o.status cancelled ≡ false
    → is_status o'.status cancelled ≡ false
    → check_against_balance o amounts ≡ ok remaining
    → o'.payment_credit_amount ≡ o.payment_credit_amount
    → credit_collected o' ≡ credit_collected o + total_of amounts
    → Settles (total_of amounts) o o' × (credit_balance o' ≤ remaining + 1)
Settles-of o o' amounts remaining live live' gate sold more =
    let credit = or_zero o.payment_credit_amount in
    let paying = total_of amounts in
    let (fits, left) = checked_balance o amounts remaining gate in
    let now_owed =
      credit_balance-live o' live'
      ∙ ap (λ c. owes (or_zero c) (credit_collected o')) sold
      ∙ ap (owes credit) more in
    let settled =
      subst (λ b. (b + paying ≡ credit_balance o) ⊎ ((b ≡ 0) × (credit_balance o ≤ paying + 1)))
        (sym now_owed)
        (subst
          (λ b.
            (owes credit (credit_collected o + paying) + paying ≡ b)
            ⊎ ((owes credit (credit_collected o + paying) ≡ 0) × (b ≤ paying + 1)))
          (sym (credit_balance-live o live)) (owes_settled credit (credit_collected o) paying)) in
    (
      record {
        collected = more;
        balance = settled;
        bounded = exceeds-bounded _ _ fits;
        sold = sold;
      },
      ground arith,
    )

register_payments-Settles :
    (o : Order) (amounts : Amounts) (actor : Actor) (now : ℕ) (text : Option Text) (remaining : ℕ)
    → is_status o.status cancelled ≡ false
    → check_against_balance o amounts ≡ ok remaining
    → Settles (total_of amounts) o (register_payments o amounts actor now text)
unfolding register_payments
register_payments-Settles o amounts actor now text remaining live gate =
    (Settles-of o (register_payments o amounts actor now text) amounts remaining live live gate refl
      (credit_collected-register_payments o amounts actor now text)).0

Settles-audit_row :
    (paying : ℕ) (o paid_in : Order) (actor : Actor) (note : Note) (now : ℕ)
    → Settles paying o paid_in
    → Settles paying o (audit_row paid_in actor note now)
unfolding audit_row credit_balance credit_collected
Settles-audit_row paying o paid_in actor note now h = record {
  collected = h.collected;
  balance = h.balance;
  bounded = h.bounded;
  sold = h.sold;
}

payment_amounts-positive :
    (input : PaymentInput)
    → is_empty (payment_amounts (some input)) ≡ false
    → 0 < or_zero input.cash_amount + or_zero input.transfer_amount
unfolding payment_amounts amount_of
payment_amounts-positive input h = ground arith

-- A payment after the sale, when it is taken, offers something; what came in grows by exactly its cash and its
-- transfer, each rounded to a cent, which is at most what is owed and the cent of tolerance; and the
-- balance falls by as much, or to nothing where at most a cent would be left. The credit sold, of whole
-- cents, is as it was.
pub add_payment-Settles :
    (o : Order) (input : PaymentInput) (text : Option Text) (actor : Actor) (now : ℕ) (o' : Order)
    → add_payment o input text actor now ≡ ok o'
    → (0 < or_zero input.cash_amount + or_zero input.transfer_amount) × Settles (offered input) o o'
unfolding add_payment
add_payment-Settles o input text actor now o' h =
    let (live, h1) = raise_if-ok _ _ _ o' h in
    let (queued, h2) = raise_if-ok _ _ _ o' h1 in
    let (some_amount, h3) = raise_if-ok _ _ _ o' h2 in
    let (remaining, gate, h4) = then_do-ok _ _ o' h3 in
    let amounts = payment_amounts (some input) in
    let settled = register_payments-Settles o amounts actor now text remaining live gate in
    (
      payment_amounts-positive input some_amount,
      subst (Settles _ o) (ok_injective _ _ h4)
          (Settles-audit_row _ o _ actor _ now (rw (total_of-payment_amounts input) at settled)),
    )

some_injective : (p q : Payment) → Option.some p ≡ some q → p ≡ q
some_injective p q h = cc

standing-update_payment :
    (id : ℕ) (actor : Actor) (now : ℕ) (reason : Text) (ps : List Payment) (p : Payment)
    → find_payment id ps ≡ some p
    → sum_of standing (update_payment id (set_void actor now reason) ps) + standing p
      ≡ sum_of standing ps
unfolding find_payment update_payment set_void
standing-update_payment id actor now reason [] p h = ground arith
standing-update_payment id actor now reason (q ∷ qs) p h = elim (Bool-cases (q.id == id)) [
  | inl e ↦ rw e (omega (arith, ap standing (some_injective q p (rw e at h))))
  | inr e ↦ rw e (omega (arith, standing-update_payment id actor now reason qs p (rw e at h)))
]

standing-voided : (p : Payment) → is_some p.voided_at ≡ true → standing p ≡ 0
standing-voided p h = ground arith

-- What voiding `p` does to the money of an order.
pub record Restores (p : Payment) (o o' : Order) : Type 0 where
  pub counted : credit_collected o' + standing p ≡ credit_collected o
  pub sold : o'.payment_credit_amount ≡ o.payment_credit_amount
  pub idempotent : is_some p.voided_at ≡ true → o' ≡ o

-- Voiding a payment, when it is taken, finds it by its id; a payment that stands no longer counts
-- afterwards, so that what came in falls by exactly its amount and the credit sold is as it was,
-- and voiding a voided one changes nothing.
pub void_payment-Restores :
    (o : Order) (id : ℕ) (reason : Option Text) (actor : Actor) (now : ℕ) (o' : Order)
    → void_payment o id reason actor now ≡ ok o'
    → (p : Payment) × (find_payment id o.payments ≡ some p) × Restores p o o'
unfolding void_payment credit_collected audit_row
void_payment-Restores o id reason actor now o' h =
    elim (Option-cases (find_payment id o.payments)) [
      | inl e ↦ let none_found = rw (e, void_payment) at h in ground arith
      | inr (p, e) ↦
          let (given, h1) = raise_if-ok _ _ _ o' (rw (e, void_payment) at h) in
          elim (Bool-cases (is_some p.voided_at)) [
            | inl v ↦
                let uncounted = standing-voided p v in
                let same : Restores p o o = record {
                  counted = omega arith;
                  sold = refl;
                  idempotent = λ _. refl;
                } in
                (p, e, subst (Restores p o) (ok_injective _ _ (rw v at h1)) same)
            | inr v ↦
                let total = standing-update_payment id actor now (stripped reason) o.payments p e in
                (
                  p,
                  e,
                  subst (Restores p o) (ok_injective _ _ (rw v at h1))
                      (record { counted = total; sold = refl; idempotent = λ w. ground arith }),
                )
          ]
    ]
