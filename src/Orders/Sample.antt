-- ===== src/Orders/Sample.antt =====
-- An order at the points of its life from its birth to its delivery, for the tests.
use opticutter_api.Prelude.{ℕ, true, false, List, [], ◌∷◌, Option, none, some}
use opticutter_api.Orders.Status.{
  OrderStatus, queued, in_process, finished, dispatched, cash, ActivityType, cutting, banding,
  in_progress, done, waiting_for_pieces, admin,
}
use opticutter_api.Orders.Model.{Actor, Activity, Payment, OrderPiece, Order, Outcome, ok, refused}
use opticutter_api.Orders.Doubles.{cents}
use opticutter_api.Orders.Payments.{PaymentInput}
use opticutter_api.Orders.Machine.{Request, transition}
use opticutter_api.Orders.Registers.{add_payment, void_payment}
use opticutter_api.Orders.Operations.{Operation, move, work, pause, cut_piece, run, born}

abbrev pub boss : Actor
boss = record { kind = []; user_id = some 1; label = none; roles = admin ∷ [] }

abbrev pub piece : ℕ → OrderPiece
piece id = record {
  id = id;
  is_banded = true;
  is_worked = false;
  cut_at = none;
  cut_by = none;
  cut_by_label = none;
}

abbrev pub confirmed_order : Order
confirmed_order =
    born (record { has_edge_bandings = true; has_workshop_codes = false }) (piece 1 ∷ piece 2 ∷ [])
      boss none 10

abbrev pub sale : Request
sale = record {
  note = none;
  payment =
      some (record {
        cash_amount = some (cents 300);
        transfer_amount = none;
        credit_amount = some 500;
      });
  external_invoice_id = some (32 ∷ 55 ∷ []);
}

abbrev pub with_note : Option PaymentInput → Request
with_note p = record { note = some (111 ∷ 107 ∷ []); payment = p; external_invoice_id = none }

abbrev pub cash_of : ℕ → PaymentInput
cash_of n = record { cash_amount = some (cents n); transfer_amount = none; credit_amount = none }

-- The order that a call leaves.
abbrev pub then_order : Outcome Order → Order → Order
then_order (ok o) before = o
then_order (refused e) before = before

abbrev pub call : Operation → Order → Order
call op o = then_order (run o op boss 20) o

abbrev pub queued_order : Order
queued_order = call (move queued sale) confirmed_order

abbrev pub begun : Order
begun = call (work cutting in_progress none) queued_order

abbrev pub waiting_order : Order
waiting_order =
    call (pause banding waiting_for_pieces none)
      (call (work banding in_progress none) (call (cut_piece 1 true) begun))

abbrev pub done_row : ActivityType → Activity
done_row t = record {
  kind = t;
  status = done;
  ready_at = none;
  started_at = some 12;
  started_by = none;
  started_by_label = none;
  finished_at = some 14;
  finished_by = none;
  finished_by_label = none;
  paused_at = none;
  pause_reason = none;
  pauses = [];
}

-- An order sold on a credit of 500, in a status and with some of it paid.
abbrev pub sold_order : OrderStatus → List Payment → Order
sold_order status payments = record {
  status = status;
  status_changed_at = 15;
  optimization_snapshot = record { has_edge_bandings = true; has_workshop_codes = false };
  history = [];
  activities = done_row cutting ∷ done_row banding ∷ [];
  pieces = [];
  payments = payments;
  next_payment_id = 2;
  payment_cash_amount = none;
  payment_transfer_amount = none;
  payment_credit_amount = some 500;
  external_invoice_id = some (55 ∷ []);
  queued_at = some 11;
  assigned_to_id = none;
  assigned_at = none;
  assigned_to_label = none;
  dispatched_at = none;
  dispatched_by = none;
  dispatched_by_label = none;
}

abbrev pub deposit : Payment
deposit = record {
  id = 1;
  method = cash;
  amount = 120;
  paid_at = 16;
  note = none;
  received_by = none;
  received_by_label = none;
  voided_at = none;
  voided_by = none;
  voided_by_label = none;
  void_reason = none;
}

-- All its work is done, and it was not closed.
abbrev pub open_order : Order
open_order = sold_order in_process []

abbrev pub finished_order : Order
finished_order = sold_order finished []

abbrev pub delivered : Order
delivered = sold_order dispatched (deposit ∷ [])

abbrev pub closed_order : Order
closed_order = then_order (transition open_order finished boss (with_note none) 20) open_order

abbrev pub handed_over : Order
handed_over =
    then_order (transition finished_order dispatched boss (with_note (some (cash_of 120))) 20)
      finished_order

abbrev pub settled : Order
settled = then_order (add_payment delivered (cash_of 80) none boss 20) delivered

abbrev pub unsettled : Order
unsettled = then_order (void_payment delivered 1 (some (120 ∷ [])) boss 20) delivered
