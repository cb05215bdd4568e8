-- ===== src/Orders/Model.antt =====
-- src/modules/orders/model.py: the rows of an order as one record, and src/shared/audit.py's
-- `Actor`. Instants are numbers, money is whole cents, an order's child rows are its lists.
use opticutter_api.Prelude.{ℕ, Bool, true, false, List, Option}
use opticutter_api.Orders.Status.{
  OrderStatus, ActivityType, ActivityStatus, PauseReason, PaymentMethod, UserRole, PieceSet,
}
use opticutter_api.Orders.Text.{Text}

-- `type` is only copied to the history.
pub record Actor : Type 0 where
  pub kind : Text
  pub user_id : Option ℕ
  pub label : Option Text
  pub roles : List UserRole

abbrev pub Amounts : Type 0
Amounts = List (PaymentMethod × ℕ)

pub record CuttingProgress : Type 0 where
  pub cut_pieces : ℕ
  pub total_pieces : ℕ

-- What a history row says; the sentences that the service writes itself are kept as their data.
pub data Note : Type 0 where
  said : Option Text → Note
  paid_at_dispatch : Amounts → Note
  paid : Amounts → ℕ → Note
  payment_voided : PaymentMethod → ℕ → Text → Note
  activity_paused : ActivityType → PauseReason → Option CuttingProgress → Option Text → Note
  activity_resumed : ActivityType → Note
  pieces_arrived : ActivityType → Note

pub record HistoryRow : Type 0 where
  pub from_status : Option OrderStatus
  pub to_status : OrderStatus
  pub actor : Text
  pub actor_user_id : Option ℕ
  pub actor_label : Option Text
  pub note : Note
  pub created_at : ℕ

pub record Pause : Type 0 where
  pub reason : PauseReason
  pub note : Option Text
  pub started_at : ℕ
  pub started_by : Option ℕ
  pub started_by_label : Option Text
  pub ended_at : Option ℕ
  pub ended_by : Option ℕ
  pub ended_by_label : Option Text

pub record Activity : Type 0 where
  pub kind : ActivityType
  pub status : ActivityStatus
  pub ready_at : Option ℕ
  pub started_at : Option ℕ
  pub started_by : Option ℕ
  pub started_by_label : Option Text
  pub finished_at : Option ℕ
  pub finished_by : Option ℕ
  pub finished_by_label : Option Text
  pub paused_at : Option ℕ
  pub pause_reason : Option PauseReason
  pub pauses : List Pause

pub record Payment : Type 0 where
  pub id : ℕ
  pub method : PaymentMethod
  pub amount : ℕ
  pub paid_at : ℕ
  pub note : Option Text
  pub received_by : Option ℕ
  pub received_by_label : Option Text
  pub voided_at : Option ℕ
  pub voided_by : Option ℕ
  pub voided_by_label : Option Text
  pub void_reason : Option Text

-- A placed piece of the cutting plan; `is_banded` and `is_worked` are what `_piece_is_banded`
-- and `_piece_is_worked` read off its edges and its workshop codes.
pub record OrderPiece : Type 0 where
  pub id : ℕ
  pub is_banded : Bool
  pub is_worked : Bool
  pub cut_at : Option ℕ
  pub cut_by : Option ℕ
  pub cut_by_label : Option Text

-- What `_build_activities` reads off the frozen snapshot.
pub record Snapshot : Type 0 where
  pub has_edge_bandings : Bool
  pub has_workshop_codes : Bool

-- `next_payment_id` is the database's sequence for the ids of payments. The amounts of the sale in cash and
-- by transfer are doubles, as they came; its credit is whole cents.
pub record Order : Type 0 where
  pub status : OrderStatus
  pub status_changed_at : ℕ
  pub optimization_snapshot : Snapshot
  pub history : List HistoryRow
  pub activities : List Activity
  pub pieces : List OrderPiece
  pub payments : List Payment
  pub next_payment_id : ℕ
  pub payment_cash_amount : Option ℕ
  pub payment_transfer_amount : Option ℕ
  pub payment_credit_amount : Option ℕ
  pub external_invoice_id : Option Text
  pub queued_at : Option ℕ
  pub assigned_to_id : Option ℕ
  pub assigned_at : Option ℕ
  pub assigned_to_label : Option Text
  pub dispatched_at : Option ℕ
  pub dispatched_by : Option ℕ
  pub dispatched_by_label : Option Text

-- The errors that the service raises, each with what its message quotes.
pub data Refusal : Type 0 where
  invalid_transition : OrderStatus → OrderStatus → Refusal
  role_not_allowed : Refusal
  still_open : List ActivityType → Refusal
  payment_missing : Refusal
  invoice_missing : Refusal
  invoice_taken : Text → Refusal
  credit_at_dispatch : Refusal
  exceeds_balance : ℕ → ℕ → Refusal
  balance_needs_note : ℕ → Refusal
  cancel_needs_note : Refusal
  activity_not_carried : ActivityType → Refusal
  invalid_activity_move : ActivityStatus → ActivityStatus → Refusal
  paused_activity : Refusal
  order_not_in_process : Refusal
  no_piece_cut : PieceSet → Refusal
  pieces_missing : ℕ → PieceSet → Refusal
  not_under_way : Refusal
  reason_not_for_activity : PauseReason → Refusal
  no_pieces_owed : PieceSet → Refusal
  cancelled_takes_no_payment : Refusal
  not_queued_yet : Refusal
  amount_missing : Refusal
  payment_not_found : ℕ → Refusal
  void_needs_reason : Refusal
  cut_not_under_way : Refusal
  piece_not_found : ℕ → Refusal

pub data Outcome {ℓ} (A : Type ℓ) : Type ℓ where
  ok : A → Outcome A
  refused : Refusal → Outcome A

-- `raise` on a refusal, and go on without one.
unfoldable pub then_do {ℓ κ} : {A : Type ℓ} {B : Type κ} → Outcome A → (A → Outcome B) → Outcome B
then_do (ok a) f = f a
then_do (refused e) f = refused e

-- `if test: raise error`
unfoldable pub raise_if {ℓ} : {A : Type ℓ} → Bool → Refusal → Outcome A → Outcome A
raise_if true e rest = refused e
raise_if false e rest = rest
