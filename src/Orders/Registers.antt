-- ===== src/Orders/Registers.antt =====
-- src/modules/orders/service.py: the marks on the pieces, and the payments after the sale.
use opticutter_api.Prelude.{
  ℕ, Bool, not, ◌&&◌, ◌||◌, List, [], ◌∷◌, map, Option, none, some, ◌==◌, if◌then◌else◌,
}
use opticutter_api.Orders.Status.{
  cutting, in_progress, cancelled, is_status, is_activity_status, is_mutable, activity_pieces,
  start_needs_a_cut_piece,
}
use opticutter_api.Orders.Text.{Text, stripped, is_blank}
use opticutter_api.Orders.Model.{
  Actor, paid, payment_voided, Activity, Payment, OrderPiece, Order, paused_activity,
  cancelled_takes_no_payment, not_queued_yet, amount_missing, payment_not_found, void_needs_reason,
  cut_not_under_way, piece_not_found, Outcome, ok, refused, then_do, raise_if,
}
use opticutter_api.Orders.Payments.{
  PaymentInput, payment_amounts, check_against_balance, register_payments,
}
use opticutter_api.Orders.Pauses.{in_set, audit_row, lift_waiting}
use opticutter_api.Orders.Machine.{is_empty, ensure_activities, find_activity}
use opticutter_api.Orders.Activities.{is_some, is_cut}

unfoldable pub find_piece : ℕ → List OrderPiece → Option OrderPiece
find_piece id [] = none
find_piece id (p ∷ rest) = let found = find_piece id rest in if p.id == id then some p else found

-- An assignment to the piece of that id, the first as the id is a key.
unfoldable pub update_piece : ℕ → (OrderPiece → OrderPiece) → List OrderPiece → List OrderPiece
update_piece id f [] = []
update_piece id f (p ∷ rest) =
    let later = update_piece id f rest in if p.id == id then f p ∷ rest else p ∷ later

-- The body of the loop of `_seal_activity_ready`, for a piece cut at `now`.
unfoldable pub seal_activity_ready : ℕ → OrderPiece → Activity → Activity
seal_activity_ready now p a =
    if is_some a.ready_at
      || not (start_needs_a_cut_piece a.kind)
      || not (in_set (activity_pieces a.kind) p)
    then a
    else record a { ready_at = some now }

unfoldable pub set_cut : Actor → ℕ → OrderPiece → OrderPiece
set_cut actor now p = record p {
  cut_at = some now;
  cut_by = actor.user_id;
  cut_by_label = actor.label;
}

unfoldable pub set_uncut : OrderPiece → OrderPiece
set_uncut p = record p { cut_at = none; cut_by = none; cut_by_label = none }

-- The two branches that change something.
unfoldable pub mark : Order → OrderPiece → Bool → Actor → ℕ → Order
mark o p cut actor now =
    if cut && not (is_cut p)
    then (let o' = record o {
      pieces = update_piece p.id (set_cut actor now) o.pieces;
      activities = map (seal_activity_ready now p) o.activities;
    } in
        lift_waiting o' actor now (some (set_cut actor now p)))
    else if cut
    then o
    else record o { pieces = update_piece p.id set_uncut o.pieces }

-- `mark_piece_cut`
unfoldable pub mark_piece_cut : Order → ℕ → Bool → Actor → ℕ → Outcome Order
mark_piece_cut o0 id cut actor now =
    let o = ensure_activities o0 in
    elim (find_activity cutting o.activities) [
      | none ↦ refused cut_not_under_way
      | some a ↦
          raise_if (not (is_mutable o.status) || not (is_activity_status a.status in_progress))
            cut_not_under_way
            (raise_if (is_some a.paused_at) paused_activity (elim (find_piece id o.pieces) [
              | none ↦ refused (piece_not_found id)
              | some p ↦ ok (mark o p cut actor now)
            ]))
    ]

unfoldable pub add_payment : Order → PaymentInput → Option Text → Actor → ℕ → Outcome Order
add_payment o input text actor now =
    let amounts = payment_amounts (some input) in
    raise_if (is_status o.status cancelled) cancelled_takes_no_payment (
      raise_if (not (is_some o.queued_at)) not_queued_yet (
        raise_if (is_empty amounts) amount_missing (
          then_do (check_against_balance o amounts) (λ remaining. ok (
            audit_row (register_payments o amounts actor now text) actor (paid amounts remaining)
              now)))))

unfoldable pub find_payment : ℕ → List Payment → Option Payment
find_payment id [] = none
find_payment id (p ∷ rest) =
    let found = find_payment id rest in if p.id == id then some p else found

unfoldable pub update_payment : ℕ → (Payment → Payment) → List Payment → List Payment
update_payment id f [] = []
update_payment id f (p ∷ rest) =
    let later = update_payment id f rest in if p.id == id then f p ∷ rest else p ∷ later

unfoldable pub set_void : Actor → ℕ → Text → Payment → Payment
set_void actor now reason p = record p {
  voided_at = some now;
  voided_by = actor.user_id;
  voided_by_label = actor.label;
  void_reason = some reason;
}

unfoldable pub void_payment : Order → ℕ → Option Text → Actor → ℕ → Outcome Order
void_payment o id reason actor now = elim (find_payment id o.payments) [
  | none ↦ refused (payment_not_found id)
  | some p ↦ raise_if (is_blank (stripped reason)) void_needs_reason (
      if is_some p.voided_at
      then ok o
      else (let o' = record o {
        payments = update_payment id (set_void actor now (stripped reason)) o.payments;
      } in
          ok (audit_row o' actor (payment_voided p.method p.amount (stripped reason)) now)))
]
