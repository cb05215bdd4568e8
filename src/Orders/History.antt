-- ===== src/Orders/History.antt =====
-- The history of an order is a path of the state machine.
use opticutter_api.Prelude.{
  ℕ, ◌≡◌, refl, sym, ◌∙◌, ap, subst, ◌⊎◌, inl, inr, true, List, [], ◌∷◌, ◌++◌, append_assoc, Option,
  some, arith, Bool-cases,
}
use opticutter_api.Orders.Status.{
  OrderStatus, finished, dispatched, is_status, ActivityType, may_move,
}
use opticutter_api.Orders.Text.{Text}
use opticutter_api.Orders.Model.{Actor, Amounts, Note, HistoryRow, Order, OrderPiece, ok}
use opticutter_api.Orders.Payments.{register_payments}
use opticutter_api.Orders.Pauses.{audit_row, audit_arrivals, lift_waiting}
use opticutter_api.Orders.Machine.{
  Request, is_empty, ensure_activities, work_gate, finish_gate, apply_transition, assignment,
  dispatch, capture_payment, transition,
}
use opticutter_api.Orders.Gates.{transition-Passed, raise_if-ok, ok_injective, written}
use opticutter_api.Orders.Operations.{Holds}

-- Each row starts where the one before ended, and either stays there or makes a move of the table.
abbrev pub Linked : OrderStatus → List HistoryRow → OrderStatus → Type 0
Linked s [] t = s ≡ t
Linked s (row ∷ rows) t =
    (row.from_status ≡ some s)
    × ((row.to_status ≡ s) ⊎ (may_move s row.to_status ≡ true))
    × Linked row.to_status rows t

pub Linked-append :
    (s t u : OrderStatus) (rows later : List HistoryRow)
    → Linked s rows t
    → Linked t later u
    → Linked s (rows ++ later) u
Linked-append s t u [] later h k = rw h k
Linked-append s t u (row ∷ rows) later h k =
    (h.0, h.1, Linked-append row.to_status t u rows later h.2 k)

-- The history only grows, by rows that lead from the old status to the new one.
pub record Extends (o o' : Order) : Type 0 where
  pub rows : List HistoryRow
  pub grown : o'.history ≡ o.history ++ rows
  pub linked : Linked o.status rows o'.status

append_nil {ℓ} : {A : Type ℓ} (xs : List A) → xs ++ [] ≡ xs
append_nil [] = refl
append_nil (x ∷ xs) = ap (λ ys. x ∷ ys) (append_nil xs)

pub Extends-same : {o o' : Order} → o'.history ≡ o.history → o'.status ≡ o.status → Extends o o'
Extends-same {o = o} h s = record {
  rows = [];
  grown = h ∙ sym (append_nil o.history);
  linked = sym s;
}

pub Extends-trans : {a b c : Order} → Extends a b → Extends b c → Extends a c
Extends-trans {a} {b} {c} f g = record {
  rows = f.rows ++ g.rows;
  grown = g.grown ∙ ap (λ xs. xs ++ g.rows) f.grown ∙ append_assoc a.history f.rows g.rows;
  linked = Linked-append a.status b.status c.status f.rows g.rows f.linked g.linked;
}

pub audit_row-Extends :
    (o : Order) (actor : Actor) (note : Note) (now : ℕ) → Extends o (audit_row o actor note now)
unfolding audit_row
audit_row-Extends o actor note now = record {
  rows = _;
  grown = refl;
  linked = (refl, inl refl, refl);
}

audit_arrivals-Extends :
    (actor : Actor) (now : ℕ) (ts : List ActivityType) (o : Order)
    → Extends o (audit_arrivals actor now ts o)
unfolding audit_arrivals
audit_arrivals-Extends actor now [] o = Extends-same refl refl
audit_arrivals-Extends actor now (t ∷ ts) o =
    Extends-trans (audit_row-Extends o actor _ now) (audit_arrivals-Extends actor now ts _)

pub lift_waiting-Extends :
    (o : Order) (actor : Actor) (now : ℕ) (piece : Option OrderPiece)
    → Extends o (lift_waiting o actor now piece)
unfolding lift_waiting
lift_waiting-Extends o actor now piece =
    Extends-trans (Extends-same refl refl) (audit_arrivals-Extends actor now _ _)

pub ensure_activities-Extends : (o : Order) → Extends o (ensure_activities o)
unfolding ensure_activities
ensure_activities-Extends o = Extends-same (ground arith) (ground arith)

apply_transition-Extends :
    (o : Order) (to : OrderStatus) (actor : Actor) (text : Option Text) (now : ℕ) (o' : Order)
    → apply_transition o to actor text now ≡ ok o'
    → Extends o o'
unfolding apply_transition
apply_transition-Extends o to actor text now o' h =
    let (table, rest) = raise_if-ok _ _ _ o' h in
    subst (Extends o) (ok_injective _ _ rest)
      record { rows = _; grown = refl; linked = (refl, inr (ground arith), refl) }

dispatch-Extends :
    (o : Order) (to : OrderStatus) (amounts : Amounts) (actor : Actor) (text : Option Text)
    (now : ℕ)
    → Extends o (dispatch o to amounts actor text now)
unfolding dispatch register_payments audit_row
dispatch-Extends o to amounts actor text now = elim (Bool-cases (is_status to dispatched)) [
  | inl e ↦ elim (Bool-cases (is_empty amounts)) [
    | inl n ↦ rw (e, n) (Extends-same refl refl)
    | inr n ↦ rw (e, n) record { rows = _; grown = refl; linked = (refl, inl refl, refl) }
  ]
  | inr e ↦ rw e (Extends-same refl refl)
]

assignment-Extends :
    (o : Order) (current to : OrderStatus) (actor : Actor) (now : ℕ)
    → Extends o (assignment o current to actor now)
unfolding assignment
assignment-Extends o current to actor now = Extends-same (ground arith) (ground arith)

capture_payment-Extends :
    (o : Order) (current to : OrderStatus) (r : Request) (now : ℕ)
    → Extends o (capture_payment o current to r now)
unfolding capture_payment
capture_payment-Extends o current to r now = Extends-same (ground arith) (ground arith)

written-Extends :
    (o : Order) (to : OrderStatus) (actor : Actor) (r : Request) (now : ℕ) (amounts : Amounts)
    (moved : Order)
    → Extends moved (written o to actor r now amounts moved)
written-Extends o to actor r now amounts moved =
    let assigned = assignment moved o.status to actor now in
    let sent = dispatch assigned to amounts actor r.note now in
    Extends-trans (assignment-Extends moved o.status to actor now) (
      Extends-trans (dispatch-Extends assigned to amounts actor r.note now)
        (capture_payment-Extends sent o.status to r now))

finish_gate-Extends :
    (o : Order) (to : OrderStatus) (o' : Order) → finish_gate o to ≡ ok o' → Extends o o'
unfolding finish_gate work_gate
finish_gate-Extends o to o' h = elim (Bool-cases (is_status to finished)) [
  | inl e ↦
      let (_, rest) = raise_if-ok _ _ _ o' (rw e at h) in
      subst (Extends o) (ok_injective _ _ rest) (ensure_activities-Extends o)
  | inr e ↦ subst (Extends o) (ok_injective _ _ (rw e at h)) (Extends-same refl refl)
]

pub transition-Extends :
    (o : Order) (to : OrderStatus) (actor : Actor) (r : Request) (now : ℕ)
    → Holds (Extends o) (transition o to actor r now)
transition-Extends o to actor r now = record {
  in_case = λ o' h.
      let p = transition-Passed o to actor r now o' h in
      Extends-trans (finish_gate-Extends o to p.ready p.worked_out) (
        Extends-trans (apply_transition-Extends p.ready to actor r.note now p.moved p.applied)
          (subst (Extends p.moved) p.result (written-Extends o to actor r now p.amounts p.moved)));
}
