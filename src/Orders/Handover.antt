-- ===== src/Orders/Handover.antt =====
-- What a dispatch that succeeds guarantees: the money of the order is told.
use opticutter_api.Prelude.{
  ℕ, ◌+◌, ◌≡◌, ◌≤◌, refl, sym, ◌∙◌, ap, subst, ◌⊎◌, inl, inr, true, false, [], ◌∷◌, some, arith,
  sum_of,
}
use opticutter_api.Orders.Status.{
  OrderStatus, dispatched, cancelled, is_status, may_move, transitions,
}
use opticutter_api.Orders.Text.{stripped, is_blank}
use opticutter_api.Orders.Model.{Actor, Amounts, Order, ok}
use opticutter_api.Orders.Payments.{
  payment_amounts, total_of, credit_balance, credit_collected, standing, check_against_balance,
  register_payments,
}
use opticutter_api.Orders.Pauses.{audit_row}
use opticutter_api.Orders.Machine.{
  Request, finish_gate, handover_gate, dispatch_gate, assignment, dispatch, capture_payment,
  transition, credit_of,
}
use opticutter_api.Orders.Gates.{raise_if-ok, then_do-ok, ok_injective, transition-Passed, written}
use opticutter_api.Orders.Credit.{Settles, Settles-of, credit_collected-register_payments}
use opticutter_api.Orders.Moves.{applied-status, written-status}

handover_gate-ok :
    (o : Order) (r : Request) (amounts : Amounts)
    → handover_gate o r ≡ ok amounts
    → (remaining : ℕ) × (check_against_balance o amounts ≡ ok remaining)
      × (amounts ≡ payment_amounts r.payment)
      × (credit_of r.payment ≡ 0)
      × ((remaining ≡ 0) ⊎ (is_blank (stripped r.note) ≡ false))
unfolding handover_gate
handover_gate-ok o r amounts h =
    let (no_credit, h1) = raise_if-ok _ _ _ amounts h in
    let (remaining, gate, h2) = then_do-ok _ _ amounts h1 in
    let (reasoned, h3) = raise_if-ok _ _ _ amounts h2 in
    let same = ok_injective _ _ h3 in
    (remaining, rw same at gate, sym same, ground arith, ground arith)

captured-dispatched :
    (o : Order) (current : OrderStatus) (r : Request) (now : ℕ)
    → capture_payment o current dispatched r now ≡ o
unfolding capture_payment
captured-dispatched o current r now = ground arith

-- What the effects of a dispatch do to the money.
written-collected :
    (o : Order) (actor : Actor) (r : Request) (now : ℕ) (amounts : Amounts) (moved : Order)
    → let w = written o dispatched actor r now amounts moved in
      (credit_collected w ≡ credit_collected moved + total_of amounts)
      × (w.payment_credit_amount ≡ moved.payment_credit_amount)
      × (w.dispatched_at ≡ some now)
unfolding assignment dispatch capture_payment credit_collected audit_row register_payments
written-collected o actor r now [] moved = ground arith
written-collected o actor r now (a ∷ rest) moved =
    let handed : Order = record moved {
      dispatched_at = some now;
      dispatched_by = actor.user_id;
      dispatched_by_label = actor.label;
    } in
    let more = credit_collected-register_payments handed (a ∷ rest) actor now r.note in
    subst
      (λ w.
        (credit_collected w ≡ credit_collected moved + total_of (a ∷ rest))
        × (w.payment_credit_amount ≡ moved.payment_credit_amount)
        × (w.dispatched_at ≡ some now))
      (sym (
        captured-dispatched (dispatch moved dispatched (a ∷ rest) actor r.note now) o.status r now))
      (more, refl, refl)

dispatched-live : (s : OrderStatus) → may_move s dispatched ≡ true → is_status s cancelled ≡ false
unfolding transitions
dispatched-live s h = ground arith

-- An order is handed over with its money told: when a move to `dispatched` succeeds, what is paid at it
-- is cash and transfer, each rounded to a cent, within what is owed and the cent of tolerance; what came in
-- grows by exactly that; the balance falls by as much, or to nothing where at most a cent would be left; and
-- if the client still owes more than a cent then the move has a note. The credit sold is of whole cents.
pub transition-dispatched :
    (o : Order) (actor : Actor) (r : Request) (now : ℕ) (o' : Order)
    → transition o dispatched actor r now ≡ ok o'
    → (credit_of r.payment ≡ 0)
      × Settles (total_of (payment_amounts r.payment)) o o'
      × ((credit_balance o' ≤ 1) ⊎ (is_blank (stripped r.note) ≡ false))
      × (o'.dispatched_at ≡ some now)
unfolding finish_gate dispatch_gate credit_collected
transition-dispatched o actor r now o' h =
    let p = transition-Passed o dispatched actor r now o' h in
    let same = ok_injective _ _ p.worked_out in
    let g = handover_gate-ok p.ready r p.amounts p.handed_over in
    let (collected, sold, at) = written-collected o actor r now p.amounts p.moved in
    let a = applied-status p.ready dispatched actor r.note now p.moved p.applied in
    let came_in = ap (sum_of standing) a.4 in
    let w = written o dispatched actor r now p.amounts p.moved in
    let live =
      ap (λ x. is_status x.status cancelled) (sym same) ∙ dispatched-live o.status p.in_table in
    let moved_on = (written-status o dispatched actor r now p.amounts p.moved).0 ∙ a.0 in
    let settled =
      Settles-of p.ready w p.amounts g.0 live (ap (λ x. is_status x cancelled) moved_on) g.1
        (sold ∙ a.5) (collected ∙ ap (λ n. n + total_of p.amounts) came_in) in
    (
      g.3,
      subst (λ n. Settles n o o') (ap total_of g.2)
          (subst (λ x. Settles (total_of p.amounts) x o') (sym same)
            (subst (Settles (total_of p.amounts) p.ready) p.result settled.0)),
      elim g.4 [
        | inl none_left ↦
            inl (subst (λ x. credit_balance x ≤ 1) p.result (omega (arith, settled.1, none_left)))
        | inr noted ↦ inr noted
      ],
      ap (λ x. x.dispatched_at) (sym p.result) ∙ at,
    )
