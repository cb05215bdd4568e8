-- ===== src/Orders/Pauses.antt =====
-- src/modules/orders/pauses.py, and of the service what closes and lifts a pause.
use opticutter_api.Prelude.{
  ℕ, Bool, true, false, not, ◌&&◌, ◌||◌, List, [], ◌∷◌, ◌++◌, map, Option, none, some, ltb,
  if◌then◌else◌, any_by, filter_by,
}
use opticutter_api.Orders.Status.{
  ActivityType, banding, additional, done, PauseReason, waiting_for_pieces, PieceSet, all, banded,
  worked, is_type, is_activity_status, is_reason, activity_pieces, pause_reasons_by_activity,
}
use opticutter_api.Orders.Model.{
  Actor, Note, pieces_arrived, HistoryRow, Pause, Activity, OrderPiece, Order,
}

-- `activity_type in WAITS_ON_BANDING`
unfoldable pub waits_on_banding : ActivityType → Bool
waits_on_banding t = is_type t additional

unfoldable pub banding_is_open : List Activity → Bool
banding_is_open activities =
    any_by (λ a. is_type a.kind banding && not (is_activity_status a.status done)) activities

abbrev pub takes_reason : ActivityType → PauseReason → Bool
takes_reason t reason = any_by (is_reason reason) (pause_reasons_by_activity t)

unfoldable pub owes_pieces : ActivityType → ℕ → Bool → Bool
owes_pieces t pending banding_open =
    if not (takes_reason t waiting_for_pieces)
    then false
    else if ltb 0 pending
    then true
    else banding_open && waits_on_banding t

unfoldable pub pause_reasons : ActivityType → ℕ → Bool → List PauseReason
pause_reasons t pending banding_open =
    let owed = owes_pieces t pending banding_open in
    filter_by (λ reason. not (is_reason reason waiting_for_pieces) || owed)
      (pause_reasons_by_activity t)

unfoldable pub piece_arrives : ActivityType → Bool → Bool → Bool → Bool
piece_arrives t in_set is_banded banding_open =
    if not in_set then false else not (is_banded && banding_open && waits_on_banding t)

-- `_PIECE_IN_SET`
unfoldable pub in_set : PieceSet → OrderPiece → Bool
in_set all p = true
in_set banded p = p.is_banded
in_set worked p = p.is_worked

unfoldable pub audit_row : Order → Actor → Note → ℕ → Order
audit_row o actor note now =
    let row : HistoryRow = record {
      from_status = some o.status;
      to_status = o.status;
      actor = actor.kind;
      actor_user_id = actor.user_id;
      actor_label = actor.label;
      note = note;
      created_at = now;
    } in
    record o { history = o.history ++ row ∷ [] }

-- `if pause.ended_at is None: …`
unfoldable pub end_pause : Actor → ℕ → Pause → Pause
end_pause actor now p = elim p.ended_at [
  | none ↦ record p { ended_at = some now; ended_by = actor.user_id; ended_by_label = actor.label }
  | some t ↦ p
]

unfoldable pub close_pause : Actor → ℕ → Activity → Activity
close_pause actor now a = record a {
  pauses = map (end_pause actor now) a.pauses;
  paused_at = none;
  pause_reason = none;
}

-- `activity.pause_reason == PauseReason.waiting_for_pieces.value`
abbrev pub is_waiting_for : Option PauseReason → Bool
is_waiting_for none = false
is_waiting_for (some r) = is_reason r waiting_for_pieces

abbrev pub is_waiting : Activity → Bool
is_waiting a = is_waiting_for a.pause_reason

-- What the loop of `_lift_waiting` asks of an activity: `piece` was cut, or the banding closed.
unfoldable pub arrived : Option OrderPiece → Bool → ActivityType → Bool
arrived none banding_open t = waits_on_banding t
arrived (some p) banding_open t =
    piece_arrives t (in_set (activity_pieces t) p) p.is_banded banding_open

abbrev pub lifts : Option OrderPiece → Bool → Activity → Bool
lifts piece banding_open a = is_waiting a && arrived piece banding_open a.kind

-- The types of the activities whose wait ends, in the order of the rows.
abbrev pub lifted : Option OrderPiece → Bool → List Activity → List ActivityType
lifted piece banding_open activities =
    map (λ a. a.kind) (filter_by (lifts piece banding_open) activities)

unfoldable pub audit_arrivals : Actor → ℕ → List ActivityType → Order → Order
audit_arrivals actor now [] o = o
audit_arrivals actor now (t ∷ ts) o =
    audit_arrivals actor now ts (audit_row o actor (pieces_arrived t) now)

unfoldable pub lift_activity : Actor → ℕ → Option OrderPiece → Bool → Activity → Activity
lift_activity actor now piece banding_open a =
    if lifts piece banding_open a then close_pause actor now a else a

-- The pauses that end, then their history rows: the order of the two is not observable, since
-- the rows read only the order's status.
unfoldable pub lift_waiting : Order → Actor → ℕ → Option OrderPiece → Order
lift_waiting o actor now piece =
    let banding_open = banding_is_open o.activities in
    let rows = lifted piece banding_open o.activities in
    audit_arrivals actor now rows
      (record o { activities = map (lift_activity actor now piece banding_open) o.activities })
