-- ===== src/Orders/Activities.antt =====
-- src/modules/orders/service.py: the activities of an order in process, the marks on its pieces
-- and the payments after the sale.
use opticutter_api.Prelude.{
  ℕ, ◌-◌, Bool, true, false, not, ◌&&◌, ◌||◌, [], ◌∷◌, ◌++◌, length, Option, none, some, ◌==◌, ltb,
  if◌then◌else◌, filter_by, all_by,
}
use opticutter_api.Orders.Status.{
  queued, in_process, finished, ActivityType, cutting, banding, ActivityStatus, pending,
  in_progress, done, PauseReason, waiting_for_pieces, PieceSet, is_status, is_type,
  is_activity_status, is_reason, shares_role, may_activity_move, activity_roles, activity_pieces,
  start_needs_a_cut_piece, finish_needs_every_piece, is_mutable,
}
use opticutter_api.Orders.Text.{Text, stripped}
use opticutter_api.Orders.Model.{
  Actor, CuttingProgress, activity_paused, activity_resumed, Pause, Activity, OrderPiece, Order,
  role_not_allowed, activity_not_carried, invalid_activity_move, paused_activity,
  order_not_in_process, no_piece_cut, pieces_missing, not_under_way, reason_not_for_activity,
  no_pieces_owed, Outcome, ok, refused, then_do, raise_if,
}
use opticutter_api.Orders.Payments.{blank_to_none}
use opticutter_api.Orders.Pauses.{
  banding_is_open, owes_pieces, takes_reason, in_set, audit_row, close_pause, lift_waiting,
}
use opticutter_api.Orders.Machine.{
  Request, is_empty, ensure_activities, find_activity, update_activity, is_done, transition,
}

abbrev pub is_some {ℓ} : {A : Type ℓ} → Option A → Bool
is_some none = false
is_some (some a) = true

abbrev pub is_cut : OrderPiece → Bool
is_cut p = is_some p.cut_at

-- `_set_progress(order.id)[piece_set]`
unfoldable pub set_progress : Order → PieceSet → CuttingProgress
set_progress o s =
    let members = filter_by (in_set s) o.pieces in
    record { cut_pieces = length (filter_by is_cut members); total_pieces = length members }

unfoldable pub pieces_left : Order → PieceSet → ℕ
pieces_left o s = let progress = set_progress o s in progress.total_pieces - progress.cut_pieces

-- `_check_activity_floor`, going on with `rest`.
unfoldable pub check_activity_floor :
    Order → ActivityType → ActivityStatus → Outcome Order → Outcome Order
check_activity_floor o t pending rest = rest
check_activity_floor o t in_progress rest =
    raise_if (start_needs_a_cut_piece t && (set_progress o (activity_pieces t)).cut_pieces == 0)
      (no_piece_cut (activity_pieces t)) rest
check_activity_floor o t done rest =
    raise_if (finish_needs_every_piece t && ltb 0 (pieces_left o (activity_pieces t)))
      (pieces_missing (pieces_left o (activity_pieces t)) (activity_pieces t)) rest

-- `_registrable_activity`: the role, then the row.
unfoldable pub registrable_activity : Order → ActivityType → Actor → Outcome Activity
registrable_activity o t actor =
    raise_if (not (is_empty actor.roles) && not (shares_role actor.roles (activity_roles t)))
      role_not_allowed
      (elim (find_activity t o.activities) [
        | none ↦ refused (activity_not_carried t)
        | some a ↦ ok a
      ])

-- The stamps of a move, and its status.
unfoldable pub stamp : ActivityStatus → Actor → ℕ → Activity → Activity
stamp pending actor now a = record a { status = pending }
stamp in_progress actor now a = record a {
  status = in_progress;
  started_at = some now;
  started_by = actor.user_id;
  started_by_label = actor.label;
}
stamp done actor now a = record a {
  status = done;
  finished_at = some now;
  finished_by = actor.user_id;
  finished_by_label = actor.label;
}

abbrev pub starts_the_cut : ActivityType → ActivityStatus → Bool
starts_the_cut t to = is_type t cutting && is_activity_status to in_progress

-- The request of a derived move: the note, and nothing else.
abbrev pub derived : Option Text → Request
derived text = record { note = text; payment = none; external_invoice_id = none }

-- The write, what it lifts, and the move of the order that follows from it.
unfoldable pub move_activity :
    Order → ActivityType → ActivityStatus → Actor → Option Text → ℕ → Outcome Order
move_activity o t to actor text now =
    let written = record o { activities = update_activity t (stamp to actor now) o.activities } in
    let o' =
      if is_type t banding && is_activity_status to done
      then lift_waiting written actor now none
      else written in
    if starts_the_cut t to && is_status o.status queued
    then transition o' in_process actor (derived text) now
    else if is_activity_status to done && all_by is_done o'.activities
    then transition o' finished actor (derived text) now
    else ok o'

-- `transition_activity`
unfoldable pub transition_activity :
    Order → ActivityType → ActivityStatus → Actor → Option Text → ℕ → Outcome Order
transition_activity o0 t to actor text now =
    let o = ensure_activities o0 in
    then_do (registrable_activity o t actor) (λ a.
      if is_activity_status to a.status
      then ok o
      else raise_if (not (may_activity_move a.status to)) (invalid_activity_move a.status to) (
          raise_if (is_some a.paused_at) paused_activity (
            raise_if
              (not (is_mutable o.status) && not (starts_the_cut t to && is_status o.status queued))
              order_not_in_process
              (check_activity_floor o t to (move_activity o t to actor text now)))))

-- `_check_pause_reason`, going on with `rest`.
unfoldable pub check_pause_reason :
    Order → ActivityType → PauseReason → Outcome Order → Outcome Order
check_pause_reason o t reason rest =
    raise_if (not (takes_reason t reason)) (reason_not_for_activity reason) (
      raise_if
        (is_reason reason waiting_for_pieces
          && not (owes_pieces t (pieces_left o (activity_pieces t)) (banding_is_open o.activities)))
        (no_pieces_owed (activity_pieces t)) rest)

unfoldable pub start_pause : PauseReason → Option Text → Actor → ℕ → Activity → Activity
start_pause reason text actor now a =
    let row : Pause = record {
      reason = reason;
      note = text;
      started_at = now;
      started_by = actor.user_id;
      started_by_label = actor.label;
      ended_at = none;
      ended_by = none;
      ended_by_label = none;
    } in
    record a { pauses = a.pauses ++ row ∷ []; paused_at = some now; pause_reason = some reason }

unfoldable pub pause_activity :
    Order → ActivityType → PauseReason → Option Text → Actor → ℕ → Outcome Order
pause_activity o0 t reason text actor now =
    let o = ensure_activities o0 in
    then_do (registrable_activity o t actor) (λ a.
      if is_some a.paused_at
      then ok o
      else raise_if (not (is_mutable o.status) || not (is_activity_status a.status in_progress))
          not_under_way
          (check_pause_reason o t reason (
            let said = blank_to_none (stripped text) in
            let quoted =
              if is_reason reason waiting_for_pieces
              then some (set_progress o (activity_pieces t))
              else none in
            let o' = record o {
              activities = update_activity t (start_pause reason said actor now) o.activities;
            } in
            ok (audit_row o' actor (activity_paused t reason quoted said) now))))

unfoldable pub resume_activity : Order → ActivityType → Actor → ℕ → Outcome Order
resume_activity o0 t actor now =
    let o = ensure_activities o0 in
    then_do (registrable_activity o t actor) (λ a.
      if is_some a.paused_at
      then (let o' = record o {
        activities = update_activity t (close_pause actor now) o.activities;
      } in
          ok (audit_row o' actor (activity_resumed t) now))
      else ok o)
