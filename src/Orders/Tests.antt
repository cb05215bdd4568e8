-- ===== src/Orders/Tests.antt =====
-- The theorems applied to the orders of Sample.
use opticutter_api.Prelude.{
  ◌+◌, ◌*◌, ◌<◌, ◌≤◌, ◌≡◌, ◌↔◌, refl, ◌⊎◌, true, false, [], ◌∷◌, none, some, any_by, all_by, All,
  arith,
}
use opticutter_api.Orders.Status.{
  confirmed, queued, cutting, banding, in_progress, waiting_for_pieces, admin, is_reason, may_move,
  shares_role, transition_roles, transitions, transition_roles, activity_transitions,
  activity_roles, activity_pieces, start_needs_a_cut_piece, finish_needs_every_piece, is_mutable,
  pause_reasons_by_activity,
}
use opticutter_api.Orders.Text.{is_space, lstrip, rstrip, strip, stripped, is_blank}
use opticutter_api.Orders.Model.{Payment, ok, then_do, raise_if}
use opticutter_api.Orders.Doubles.{
  units_per_dollar, half_even, spacing, to_double, cents, round_cents, double_sub, double_add,
  cent_is_above, cent_is_too_much,
}
use opticutter_api.Orders.Payments.{
  owes, exceeds, or_zero, has_payment, amount_of, payment_amounts, total_of, credit_collected,
  credit_balance, check_against_balance, payment_row, payment_rows, register_payments,
}
use opticutter_api.Orders.Pauses.{
  waits_on_banding, banding_is_open, owes_pieces, pause_reasons, piece_arrives, in_set, audit_row,
  end_pause, close_pause, arrived, audit_arrivals, lift_activity, lift_waiting,
}
use opticutter_api.Orders.Machine.{
  is_empty, is_done, new_activity, build_activities, ensure_activities, find_activity,
  update_activity, apply_transition, is_forbidden, is_claimed, ensure_invoice_unclaimed, work_gate,
  finish_gate, queue_gate, credit_of, handover_gate, dispatch_gate, reset_cut, assignment, dispatch,
  seal_ready, capture_payment, transition,
}
use opticutter_api.Orders.Activities.{
  set_progress, pieces_left, check_activity_floor, registrable_activity, stamp, move_activity,
  transition_activity, check_pause_reason, start_pause, pause_activity,
}
use opticutter_api.Orders.Registers.{
  find_piece, update_piece, seal_activity_ready, set_cut, mark, mark_piece_cut, add_payment,
  find_payment, update_payment, set_void, void_payment,
}
use opticutter_api.Orders.Operations.{move, work, run, born, Reachable, start, after}
use opticutter_api.Orders.Reachability.{IsPathTo, Reachable-IsPathTo}
use opticutter_api.Orders.Credit.{
  offered, Settles, add_payment-Settles, Restores, void_payment-Restores,
}
use opticutter_api.Orders.Moves.{transition-Granted, transition-finished, IsPaid, transition-IsPaid}
use opticutter_api.Orders.Handover.{transition-dispatched}
use opticutter_api.Orders.Derived.{IsDerived, transition_activity-IsDerived}
use opticutter_api.Orders.Owed.{IsOwed}
use opticutter_api.Orders.Waiting.{mark-IsOwed, pause_reasons-accepted}
use opticutter_api.Orders.Sample.{
  boss, piece, confirmed_order, sale, with_note, cash_of, queued_order, begun, waiting_order,
  open_order, finished_order, delivered, closed_order, handed_over, settled, unsettled,
}

doubles : Unit {0}
unfolding half_even spacing to_double cents round_cents double_sub double_add cent_is_above
    cent_is_too_much
doubles = tt

-- As Python has it: 100.01 - 100.00 is above 0.01 and 0.01 - 0.00 is not, 0.07 is above 0.06 + 0.01, and 10.006
-- is taken as 10.01.
compared :
    (owes 10_001 10_000 ≡ 1)
    × (owes 1 0 ≡ 0)
    × (exceeds 6 7 ≡ true)
    × (exceeds 0 1 ≡ false)
    × (round_cents (to_double (10_006 * units_per_dollar) 1000) ≡ 1001)
unfolding doubles owes exceeds
compared = (refl, refl, refl, refl, refl)

queued_reachable : Reachable begun
unfolding run transition raise_if then_do transitions transition_roles is_forbidden finish_gate
    work_gate queue_gate is_space lstrip rstrip strip stripped ensure_invoice_unclaimed is_claimed
    has_payment doubles dispatch_gate handover_gate apply_transition assignment dispatch
    register_payments audit_row update_activity end_pause seal_ready capture_payment born
    new_activity build_activities ensure_activities find_activity transition_activity
    registrable_activity activity_roles activity_transitions is_mutable check_activity_floor
    start_needs_a_cut_piece move_activity stamp lift_waiting banding_is_open audit_arrivals
queued_reachable =
    after (work cutting in_progress none) boss 20
      (after (move queued sale) boss 20 (start _ _ boss none 10) refl) refl

Reachable-IsPathTo_example : IsPathTo begun.status begun.history
Reachable-IsPathTo_example = Reachable-IsPathTo begun queued_reachable

transition-Granted_example :
    (may_move confirmed queued ≡ true)
    × ((is_empty (admin ∷ []) ≡ true)
        ⊎ (shares_role (admin ∷ []) (transition_roles confirmed queued) ≡ true))
    × (queued_order.status ≡ queued)
    × (queued_order.status_changed_at ≡ 20)
unfolding run transition raise_if then_do transitions transition_roles is_forbidden finish_gate
    work_gate queue_gate is_space lstrip rstrip strip stripped ensure_invoice_unclaimed is_claimed
    has_payment doubles dispatch_gate handover_gate apply_transition assignment born new_activity
transition-Granted_example =
    transition-Granted confirmed_order queued boss sale 20 queued_order refl

transition-IsPaid_example : IsPaid queued_order × (queued_order.queued_at ≡ some 20)
unfolding run transition raise_if then_do transitions transition_roles is_forbidden finish_gate
    work_gate queue_gate is_space lstrip rstrip strip stripped ensure_invoice_unclaimed is_claimed
    has_payment doubles dispatch_gate handover_gate apply_transition assignment born new_activity
transition-IsPaid_example = transition-IsPaid confirmed_order boss sale 20 queued_order refl refl

transition-finished_example :
    (is_empty closed_order.activities ≡ false) × (all_by is_done closed_order.activities ≡ true)
unfolding transition raise_if then_do transitions transition_roles is_forbidden finish_gate
    work_gate queue_gate has_payment doubles dispatch_gate handover_gate apply_transition
    build_activities ensure_activities
transition-finished_example =
    transition-finished open_order boss (with_note none) 20 closed_order refl

transition-dispatched_example :
    (credit_of (some (cash_of 120)) ≡ 0)
    × Settles (total_of (payment_amounts (some (cash_of 120)))) finished_order handed_over
    × ((credit_balance handed_over ≤ 1) ⊎ (is_blank (stripped (some (111 ∷ 107 ∷ []))) ≡ false))
    × (handed_over.dispatched_at ≡ some 20)
unfolding run transition raise_if then_do transitions transition_roles is_forbidden finish_gate
    work_gate queue_gate is_space lstrip rstrip strip stripped ensure_invoice_unclaimed
    dispatch_gate handover_gate payment_amounts amount_of check_against_balance exceeds owes doubles
    credit_balance credit_collected apply_transition register_payments payment_rows
transition-dispatched_example =
    transition-dispatched finished_order boss (with_note (some (cash_of 120))) 20 handed_over refl

add_payment-Settles_example :
    (0 < or_zero (some (cents 80)) + or_zero none)
    × Settles (offered (cash_of 80)) delivered settled
unfolding raise_if then_do payment_amounts amount_of check_against_balance exceeds owes doubles
    credit_balance credit_collected add_payment
add_payment-Settles_example = add_payment-Settles delivered (cash_of 80) none boss 20 settled refl

balances :
    (credit_balance handed_over ≡ 380)
    × (credit_balance settled ≡ 300)
    × (credit_balance unsettled ≡ 500)
unfolding run transition raise_if then_do transitions transition_roles is_forbidden finish_gate
    work_gate queue_gate is_space lstrip rstrip strip stripped ensure_invoice_unclaimed is_claimed
    has_payment dispatch_gate handover_gate payment_amounts amount_of check_against_balance exceeds
    owes doubles credit_balance credit_collected apply_transition assignment dispatch
    register_payments payment_rows payment_row audit_row update_activity reset_cut close_pause
    end_pause seal_ready capture_payment born new_activity pause_activity check_pause_reason
    owes_pieces pause_reasons_by_activity start_pause pause_reasons add_payment void_payment
    find_payment update_payment set_void
balances = (refl, refl, refl)

void_payment-Restores_example :
    (p : Payment) × (find_payment 1 delivered.payments ≡ some p) × Restores p delivered unsettled
unfolding raise_if is_space lstrip rstrip strip stripped void_payment find_payment
void_payment-Restores_example =
    void_payment-Restores delivered 1 (some (120 ∷ [])) boss 20 unsettled refl

mark-IsOwed_example :
    All
      (IsOwed (mark waiting_order (piece 2) true boss 30))
      (mark waiting_order (piece 2) true boss 30).activities
unfolding run transition raise_if then_do transitions transition_roles is_forbidden finish_gate
    work_gate queue_gate is_space lstrip rstrip strip stripped ensure_invoice_unclaimed is_claimed
    has_payment dispatch_gate handover_gate payment_amounts amount_of check_against_balance exceeds
    owes doubles credit_balance credit_collected apply_transition assignment dispatch
    register_payments payment_rows payment_row audit_row update_activity reset_cut close_pause
    end_pause seal_ready capture_payment born new_activity build_activities ensure_activities
    find_activity transition_activity registrable_activity activity_roles activity_transitions
    is_mutable check_activity_floor start_needs_a_cut_piece finish_needs_every_piece activity_pieces
    set_progress pieces_left in_set move_activity stamp lift_waiting banding_is_open audit_arrivals
    lift_activity arrived piece_arrives waits_on_banding mark_piece_cut mark find_piece update_piece
    set_cut seal_activity_ready pause_activity check_pause_reason owes_pieces
    pause_reasons_by_activity start_pause pause_reasons add_payment void_payment find_payment
    update_payment
mark-IsOwed_example =
    mark-IsOwed waiting_order (piece 2) true boss 30 refl (λ w. ground arith, (λ w. refl, tt))

pause_reasons-accepted_example :
    (any_by (is_reason waiting_for_pieces) (
        pause_reasons banding
          (pieces_left begun (activity_pieces banding))
          (banding_is_open begun.activities))
      ≡ true)
    ↔ (check_pause_reason begun banding waiting_for_pieces (ok begun) ≡ ok begun)
pause_reasons-accepted_example = pause_reasons-accepted begun banding waiting_for_pieces

transition_activity-IsDerived_example : IsDerived queued_order cutting in_progress begun
unfolding run transition raise_if then_do transitions transition_roles is_forbidden finish_gate
    work_gate queue_gate is_space lstrip rstrip strip stripped ensure_invoice_unclaimed is_claimed
    has_payment dispatch_gate handover_gate payment_amounts amount_of check_against_balance exceeds
    owes doubles credit_balance credit_collected apply_transition assignment dispatch
    register_payments payment_rows payment_row audit_row update_activity reset_cut close_pause
    end_pause seal_ready capture_payment born new_activity build_activities ensure_activities
    find_activity transition_activity registrable_activity activity_roles activity_transitions
    is_mutable check_activity_floor start_needs_a_cut_piece finish_needs_every_piece activity_pieces
    set_progress pieces_left in_set move_activity stamp lift_waiting banding_is_open audit_arrivals
transition_activity-IsDerived_example =
    transition_activity-IsDerived queued_order cutting in_progress boss none 20 begun refl
