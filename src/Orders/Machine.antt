-- ===== src/Orders/Machine.antt =====
-- src/modules/orders/service.py, `transition`: every gate and every effect of a change of status.
use opticutter_api.Prelude.{
  ℕ, Bool, true, false, not, ◌&&◌, List, [], ◌∷◌, ◌++◌, map, Option, none, some, ltb, if◌then◌else◌,
  filter_by,
}
use opticutter_api.Orders.Status.{
  OrderStatus, confirmed, queued, in_process, finished, dispatched, cancelled, ActivityType,
  cutting, banding, additional, pending, done, is_status, is_type, is_activity_status, shares_role,
  may_move, transition_roles,
}
use opticutter_api.Orders.Text.{Text, stripped, is_blank, same_text}
use opticutter_api.Orders.Model.{
  Actor, Amounts, said, paid_at_dispatch, HistoryRow, Activity, Snapshot, Order, invalid_transition,
  role_not_allowed, still_open, payment_missing, invoice_missing, invoice_taken, credit_at_dispatch,
  balance_needs_note, cancel_needs_note, Outcome, ok, then_do, raise_if,
}
use opticutter_api.Orders.Payments.{
  PaymentInput, or_zero, has_payment, payment_amounts, check_against_balance, register_payments,
}
use opticutter_api.Orders.Pauses.{audit_row, close_pause}

abbrev pub is_empty {ℓ} : {A : Type ℓ} → List A → Bool
is_empty [] = true
is_empty (x ∷ xs) = false

unfoldable pub new_activity : ActivityType → Activity
new_activity t = record {
  kind = t;
  status = pending;
  ready_at = none;
  started_at = none;
  started_by = none;
  started_by_label = none;
  finished_at = none;
  finished_by = none;
  finished_by_label = none;
  paused_at = none;
  pause_reason = none;
  pauses = [];
}

unfoldable pub build_activities : Snapshot → List Activity
build_activities s = map new_activity (
    cutting ∷ (if s.has_edge_bandings then banding ∷ [] else [])
    ++ (if s.has_workshop_codes then additional ∷ [] else []))

unfoldable pub ensure_activities : Order → Order
ensure_activities o =
    if is_empty o.activities
    then record o { activities = build_activities o.optimization_snapshot }
    else o

-- `_activity`: the first row of the type.
unfoldable pub find_activity : ActivityType → List Activity → Option Activity
find_activity t [] = none
find_activity t (a ∷ rest) =
    let found = find_activity t rest in if is_type a.kind t then some a else found

-- An assignment to the fields of that row.
unfoldable pub update_activity :
    ActivityType → (Activity → Activity) → List Activity → List Activity
update_activity t f [] = []
update_activity t f (a ∷ rest) =
    let later = update_activity t f rest in if is_type a.kind t then f a ∷ rest else a ∷ later

abbrev pub is_done : Activity → Bool
is_done a = is_activity_status a.status done

unfoldable pub apply_transition : Order → OrderStatus → Actor → Option Text → ℕ → Outcome Order
apply_transition o to actor note now =
    let row : HistoryRow = record {
      from_status = some o.status;
      to_status = to;
      actor = actor.kind;
      actor_user_id = actor.user_id;
      actor_label = actor.label;
      note = said note;
      created_at = now;
    } in
    raise_if (not (may_move o.status to)) (invalid_transition o.status to)
      (ok (record o { history = o.history ++ row ∷ []; status = to; status_changed_at = now }))

-- `if actor.roles: … if allowed and not set(actor.roles) & …`
unfoldable pub is_forbidden : Actor → OrderStatus → OrderStatus → Bool
is_forbidden actor current to =
    let roles = transition_roles current to in
    not (is_empty actor.roles) && not (is_empty roles) && not (shares_role actor.roles roles)

-- `external_invoice_id is not None and external_invoice_id != value`
unfoldable pub is_claimed : Order → Text → Bool
is_claimed o value = elim o.external_invoice_id [
  | none ↦ false
  | some taken ↦ not (same_text taken value)
]

-- `not order.external_invoice_id`
abbrev pub lacks_invoice : Order → Bool
lacks_invoice o = elim o.external_invoice_id [ none ↦ true | some s ↦ is_blank s ]

unfoldable pub ensure_invoice_unclaimed {ℓ} : {A : Type ℓ} → Order → Text → Outcome A → Outcome A
ensure_invoice_unclaimed o value rest =
    raise_if (is_claimed o value)
      (invoice_taken (elim o.external_invoice_id [ none ↦ [] | some s ↦ s ])) rest

unfoldable pub set_external_invoice_id : Order → Text → Outcome Order
set_external_invoice_id o value =
    ensure_invoice_unclaimed o value (ok (record o { external_invoice_id = some value }))

-- A request for a move: `note`, `payment` and `external_invoice_id` of the call.
pub record Request : Type 0 where
  pub note : Option Text
  pub payment : Option PaymentInput
  pub external_invoice_id : Option Text

abbrev pub is_payment_capture : OrderStatus → OrderStatus → Bool
is_payment_capture current to = is_status to queued && is_status current confirmed

-- The gate of `finished`: no activity is open.
unfoldable pub work_gate : Order → Outcome Order
work_gate o =
    let left = filter_by (λ a. not (is_done a)) o.activities in
    raise_if (not (is_empty left)) (still_open (map (λ a. a.kind) left)) (ok o)

unfoldable pub finish_gate : Order → OrderStatus → Outcome Order
finish_gate o to = if is_status to finished then work_gate (ensure_activities o) else ok o

-- The gates of the queue: how the client pays, and the invoice.
unfoldable pub queue_gate : Order → OrderStatus → Request → Outcome Order
queue_gate o to r =
    let capture = is_payment_capture o.status to in
    let invoice = stripped r.external_invoice_id in
    raise_if (capture && not (has_payment r.payment)) payment_missing (
      raise_if (capture && is_blank invoice && lacks_invoice o) invoice_missing (
        if capture && not (is_blank invoice)
        then ensure_invoice_unclaimed o invoice (ok o)
        else ok o))

abbrev pub credit_of : Option PaymentInput → ℕ
credit_of none = 0
credit_of (some p) = or_zero p.credit_amount

-- The gate of the dispatch, which gives what the client pays at it.
unfoldable pub handover_gate : Order → Request → Outcome Amounts
handover_gate o r =
    let credit = credit_of r.payment in
    let amounts = payment_amounts r.payment in
    raise_if (ltb 0 credit) credit_at_dispatch (
      then_do (check_against_balance o amounts) (λ remaining.
        raise_if (ltb 0 remaining && is_blank (stripped r.note)) (balance_needs_note remaining)
          (ok amounts)))

unfoldable pub dispatch_gate : Order → OrderStatus → Request → Outcome Amounts
dispatch_gate o to r = if is_status to dispatched then handover_gate o r else ok []

-- What going back to the queue does to the cut.
unfoldable pub reset_cut : Actor → ℕ → Activity → Activity
reset_cut actor now a =
    let closed = close_pause actor now a in
    record closed {
      status = pending;
      started_at = none;
      started_by = none;
      started_by_label = none;
    }

unfoldable pub assignment : Order → OrderStatus → OrderStatus → Actor → ℕ → Order
assignment o current to actor now =
    if is_status to in_process && is_status current queued
    then record o {
      assigned_to_id = actor.user_id;
      assigned_at = some now;
      assigned_to_label = actor.label;
    }
    else if is_status to queued && is_status current in_process
    then record o {
      assigned_to_id = none;
      assigned_at = none;
      assigned_to_label = none;
      activities = update_activity cutting (reset_cut actor now) o.activities;
    }
    else o

unfoldable pub dispatch : Order → OrderStatus → Amounts → Actor → Option Text → ℕ → Order
dispatch o to amounts actor note now =
    let handed : Order = record o {
      dispatched_at = some now;
      dispatched_by = actor.user_id;
      dispatched_by_label = actor.label;
    } in
    if is_status to dispatched
    then (if is_empty amounts
        then handed
        else audit_row (register_payments handed amounts actor now note) actor
            (paid_at_dispatch amounts) now)
    else o

-- `if cut.ready_at is None: cut.ready_at = …`
unfoldable pub seal_ready : ℕ → Activity → Activity
seal_ready now a = elim a.ready_at [ none ↦ record a { ready_at = some now } | some t ↦ a ]

unfoldable pub capture_payment : Order → OrderStatus → OrderStatus → Request → ℕ → Order
capture_payment o current to r now =
    let invoice = stripped r.external_invoice_id in
    elim r.payment [
      | none ↦ o
      | some p ↦
          if is_payment_capture current to
          then record o {
            payment_cash_amount = p.cash_amount;
            payment_transfer_amount = p.transfer_amount;
            payment_credit_amount = p.credit_amount;
            external_invoice_id = if is_blank invoice then o.external_invoice_id else some invoice;
            queued_at = some now;
            activities = update_activity cutting (seal_ready now) o.activities;
          }
          else o
    ]

-- `_transition_unlocked`. A refusal leaves the order as it was: nothing is committed.
unfoldable pub transition : Order → OrderStatus → Actor → Request → ℕ → Outcome Order
transition o to actor r now =
    let current = o.status in
    raise_if (not (may_move current to)) (invalid_transition current to) (
      raise_if (is_forbidden actor current to) role_not_allowed (
        then_do (finish_gate o to) (λ o1. then_do (queue_gate o1 to r) (λ o2.
          then_do (dispatch_gate o2 to r) (λ amounts.
            raise_if (is_status to cancelled && is_blank (stripped r.note)) cancel_needs_note (
              then_do (apply_transition o2 to actor r.note now) (λ o3.
                let o4 = assignment o3 current to actor now in
                let o5 = dispatch o4 to amounts actor r.note now in
                ok (capture_payment o5 current to r now))))))))
