-- ===== src/Orders/Moves.antt =====
-- What a change of status that succeeds guarantees, for every move and for each target.
use opticutter_api.Prelude.{
  ℕ, ◌+◌, ◌<◌, ◌≡◌, refl, sym, ◌∙◌, ap, subst, ◌⊎◌, inl, inr, true, false, not, List, [], ◌∷◌,
  Option, some, arith, filter_by, all_by, Bool-cases,
}
use opticutter_api.Orders.Status.{
  OrderStatus, confirmed, queued, finished, shares_role, may_move, transitions, transition_roles,
}
use opticutter_api.Orders.Text.{Text, stripped, is_blank}
use opticutter_api.Orders.Model.{Actor, Amounts, Activity, Order, ok}
use opticutter_api.Orders.Payments.{PaymentInput, or_zero, has_payment, register_payments}
use opticutter_api.Orders.Pauses.{audit_row}
use opticutter_api.Orders.Machine.{
  Request, is_empty, is_done, build_activities, is_forbidden, lacks_invoice, ensure_activities,
  work_gate, finish_gate, queue_gate, apply_transition, assignment, dispatch, capture_payment,
  transition,
}
use opticutter_api.Orders.Gates.{raise_if-ok, ok_injective, transition-Passed, written}

-- No move of the table lacks its row of roles.
pub transition_roles_complete :
    (s t : OrderStatus) → may_move s t ≡ true → is_empty (transition_roles s t) ≡ false
unfolding transitions transition_roles
transition_roles_complete s t h = ground arith

pub applied-status :
    (o : Order) (to : OrderStatus) (actor : Actor) (text : Option Text) (now : ℕ) (moved : Order)
    → apply_transition o to actor text now ≡ ok moved
    → (moved.status ≡ to)
      × (moved.status_changed_at ≡ now)
      × (moved.activities ≡ o.activities)
      × (moved.pieces ≡ o.pieces)
      × (moved.payments ≡ o.payments)
      × (moved.payment_credit_amount ≡ o.payment_credit_amount)
      × (moved.external_invoice_id ≡ o.external_invoice_id)
unfolding apply_transition
applied-status o to actor text now moved h =
    let (_, e) = raise_if-ok _ _ _ moved h in
    subst
      (λ m.
        (m.status ≡ to)
        × (m.status_changed_at ≡ now)
        × (m.activities ≡ o.activities)
        × (m.pieces ≡ o.pieces)
        × (m.payments ≡ o.payments)
        × (m.payment_credit_amount ≡ o.payment_credit_amount)
        × (m.external_invoice_id ≡ o.external_invoice_id))
      (ok_injective _ _ e) (refl, refl, refl, refl, refl, refl, refl)

pub written-status :
    (o : Order) (to : OrderStatus) (actor : Actor) (r : Request) (now : ℕ) (amounts : Amounts)
    (moved : Order)
    → let w = written o to actor r now amounts moved in
      (w.status ≡ moved.status) × (w.status_changed_at ≡ moved.status_changed_at)
unfolding assignment dispatch capture_payment register_payments audit_row
written-status o to actor r now amounts moved = ground arith

-- A change of status that succeeds is a move of the table, asked for by an actor without roles (the
-- client, the system) or by one who holds a role of the move's row; it leaves
-- the order in the target, with its clock at the instant of the call.
pub transition-Granted :
    (o : Order) (to : OrderStatus) (actor : Actor) (r : Request) (now : ℕ) (o' : Order)
    → transition o to actor r now ≡ ok o'
    → (may_move o.status to ≡ true)
      × ((is_empty actor.roles ≡ true)
          ⊎ (shares_role actor.roles (transition_roles o.status to) ≡ true))
      × (o'.status ≡ to)
      × (o'.status_changed_at ≡ now)
unfolding is_forbidden
transition-Granted o to actor r now o' h =
    let p = transition-Passed o to actor r now o' h in
    let allowed = p.permitted in
    let row = transition_roles_complete o.status to p.in_table in
    let a = applied-status p.ready to actor r.note now p.moved p.applied in
    let w = written-status o to actor r now p.amounts p.moved in
    (
      p.in_table,
      ground arith,
      ap (λ x. x.status) (sym p.result) ∙ w.0 ∙ a.0,
      ap (λ x. x.status_changed_at) (sym p.result) ∙ w.1 ∙ a.1,
    )

nothing_left :
    (rows : List Activity)
    → is_empty (filter_by (λ a. not (is_done a)) rows) ≡ true
    → all_by is_done rows ≡ true
nothing_left [] h = refl
nothing_left (a ∷ rows) h = elim (Bool-cases (is_done a)) [
  | inl e ↦ rw e (nothing_left rows (rw e at h))
  | inr e ↦ let more = rw e at h in ground arith
]

work_gate-done :
    (o o' : Order) → work_gate o ≡ ok o' → (all_by is_done o'.activities ≡ true) × (o ≡ o')
unfolding work_gate
work_gate-done o o' h =
    let (none_left, e) = raise_if-ok _ _ _ o' h in
    let same = ok_injective _ _ e in
    (
      subst (λ x. all_by is_done x.activities ≡ true) same
          (nothing_left o.activities (ground arith)),
      same,
    )

ensure_activities-carries : (o : Order) → is_empty (ensure_activities o).activities ≡ false
unfolding ensure_activities build_activities
ensure_activities-carries o = ground arith

written-activities :
    (o : Order) (actor : Actor) (r : Request) (now : ℕ) (amounts : Amounts) (moved : Order)
    → (written o finished actor r now amounts moved).activities ≡ moved.activities
unfolding assignment dispatch capture_payment
written-activities o actor r now amounts moved = ground arith

-- An order is only finished with its work done: when a move to `finished` succeeds the order carries
-- activities, and every one of them is done.
pub transition-finished :
    (o : Order) (actor : Actor) (r : Request) (now : ℕ) (o' : Order)
    → transition o finished actor r now ≡ ok o'
    → (is_empty o'.activities ≡ false) × (all_by is_done o'.activities ≡ true)
unfolding finish_gate
transition-finished o actor r now o' h =
    let p = transition-Passed o finished actor r now o' h in
    let (all_done, same) = work_gate-done (ensure_activities o) p.ready p.worked_out in
    let carried = ensure_activities-carries o in
    let a = applied-status p.ready finished actor r.note now p.moved p.applied in
    let kept =
      ap (λ x. x.activities) (sym p.result)
      ∙ written-activities o actor r now p.amounts p.moved
      ∙ a.2 in
    (
      ap is_empty kept ∙ subst (λ x. is_empty x.activities ≡ false) same carried,
      ap (all_by is_done) kept ∙ all_done,
    )

-- How the client pays: the amounts and the invoice that the queue asks for.
abbrev pub IsPaid : Order → Type 0
IsPaid o =
    (0
      < or_zero o.payment_cash_amount
        + or_zero o.payment_transfer_amount
        + or_zero o.payment_credit_amount)
    × (lacks_invoice o ≡ false)

has_payment-positive :
    (p : PaymentInput)
    → has_payment (some p) ≡ true
    → 0 < or_zero p.cash_amount + or_zero p.transfer_amount + or_zero p.credit_amount
unfolding has_payment
has_payment-positive p h = ground arith

queue_gate-paid :
    (o : Order) (r : Request)
    → o.status ≡ confirmed
    → queue_gate o queued r ≡ ok o
    → (has_payment r.payment ≡ true)
      × ((is_blank (stripped r.external_invoice_id) ≡ false) ⊎ (lacks_invoice o ≡ false))
unfolding queue_gate
queue_gate-paid o r s h =
    let (given, h1) = raise_if-ok _ _ _ o h in
    let (billed, _) = raise_if-ok _ _ _ o h1 in
    let given' = rw s at given in let billed' = rw s at billed in (ground arith, ground arith)

written-IsPaid :
    (o : Order) (actor : Actor) (r : Request) (now : ℕ) (amounts : Amounts) (moved : Order)
    → o.status ≡ confirmed
    → has_payment r.payment ≡ true
    → (is_blank (stripped r.external_invoice_id) ≡ false) ⊎ (lacks_invoice moved ≡ false)
    → let w = written o queued actor r now amounts moved in IsPaid w × (w.queued_at ≡ some now)
unfolding assignment dispatch capture_payment has_payment
written-IsPaid o actor r now amounts moved s given billed = ground arith

-- An order only enters the queue paid for: when a move to `queued` of a confirmed order succeeds, the
-- order has a positive amount in cash, by transfer or on credit, the instant of the call as that of
-- its arrival, and an invoice number that is set and is not the empty text. A number of blanks alone
-- that the order had before the call counts, as it does in the code.
pub transition-IsPaid :
    (o : Order) (actor : Actor) (r : Request) (now : ℕ) (o' : Order)
    → o.status ≡ confirmed
    → transition o queued actor r now ≡ ok o'
    → IsPaid o' × (o'.queued_at ≡ some now)
unfolding finish_gate
transition-IsPaid o actor r now o' s h =
    let p = transition-Passed o queued actor r now o' h in
    let same = ok_injective _ _ p.worked_out in
    let (given, billed) =
      queue_gate-paid p.ready r (ap (λ x. x.status) (sym same) ∙ s) p.collected in
    let kept = (applied-status p.ready queued actor r.note now p.moved p.applied).6 in
    subst (λ w. IsPaid w × (w.queued_at ≡ some now)) p.result
      (written-IsPaid o actor r now p.amounts p.moved s given (ground arith))
