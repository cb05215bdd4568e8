-- ===== src/Orders/Reachability.antt =====
-- The history of every order that calls lead to is a path of the state machine.
use opticutter_api.Prelude.{
  ℕ, ◌≡◌, refl, sym, subst, inl, inr, Bool, List, [], ◌∷◌, ◌++◌, Option, none, arith, Bool-cases,
  Option-cases, if◌then◌else◌, ◌&&◌, not, all_by,
}
use opticutter_api.Orders.Status.{
  OrderStatus, confirmed, queued, in_process, finished, is_status, is_type, is_activity_status,
  done, pending, in_progress, banding, ActivityType, ActivityStatus, cutting, PauseReason,
}
use opticutter_api.Orders.Text.{Text}
use opticutter_api.Orders.Model.{Actor, HistoryRow, Order, OrderPiece, Outcome}
use opticutter_api.Orders.Payments.{register_payments, PaymentInput}
use opticutter_api.Orders.Pauses.{lift_waiting}
use opticutter_api.Orders.Machine.{
  ensure_activities, update_activity, find_activity, is_done, ensure_invoice_unclaimed,
  set_external_invoice_id,
}
use opticutter_api.Orders.Activities.{
  is_some, is_cut, stamp, starts_the_cut, derived, move_activity, transition_activity,
  check_activity_floor, check_pause_reason, pause_activity, resume_activity,
}
use opticutter_api.Orders.Registers.{
  find_piece, find_payment, mark, mark_piece_cut, add_payment, void_payment,
}
use opticutter_api.Orders.Operations.{
  Operation, move, work, pause, resume, cut_piece, pay, void, bill, run, Reachable, start, after,
  born, Holds, Holds-ok, Holds-mono, Holds-refused, Holds-raise_if, Holds-then_do,
}
use opticutter_api.Orders.History.{
  Linked, Linked-append, Extends, Extends-same, Extends-trans, audit_row-Extends,
  lift_waiting-Extends, ensure_activities-Extends, transition-Extends,
}

move_activity-Extends :
    (o : Order) (t : ActivityType) (to : ActivityStatus) (actor : Actor) (text : Option Text)
    (now : ℕ)
    → Holds (Extends o) (move_activity o t to actor text now)
unfolding move_activity
move_activity-Extends o t to actor text now =
    let written = record o { activities = update_activity t (stamp to actor now) o.activities } in
    let lifting = is_type t banding && is_activity_status to done in
    let o' = if lifting then lift_waiting written actor now none else written in
    let so_far : Extends o o' = elim (Bool-cases lifting) [
      | inl e ↦
          rw e
            (Extends-trans (Extends-same refl refl) (lift_waiting-Extends written actor now none))
      | inr e ↦ rw e (Extends-same refl refl)
    ] in
    elim (Bool-cases (starts_the_cut t to && is_status o.status queued)) [
      | inl e ↦ rw e (
          Holds-mono (λ o''. Extends-trans so_far)
            (transition-Extends o' in_process actor (derived text) now))
      | inr e ↦ elim (Bool-cases (is_activity_status to done && all_by is_done o'.activities)) [
        | inl d ↦
            rw (e, d)
              (Holds-mono (λ o''. Extends-trans so_far)
                (transition-Extends o' finished actor (derived text) now))
        | inr d ↦ rw (e, d) (Holds-ok so_far)
      ]
    ]

check_activity_floor-Extends :
    (o base : Order) (t : ActivityType) (to : ActivityStatus) (rest : Outcome Order)
    → Holds (Extends base) rest
    → Holds (Extends base) (check_activity_floor o t to rest)
unfolding check_activity_floor
check_activity_floor-Extends o base t pending rest h = h
check_activity_floor-Extends o base t in_progress rest h = Holds-raise_if _ (λ _. h)
check_activity_floor-Extends o base t done rest h = Holds-raise_if _ (λ _. h)

transition_activity-Extends :
    (o : Order) (t : ActivityType) (to : ActivityStatus) (actor : Actor) (text : Option Text)
    (now : ℕ)
    → Holds (Extends o) (transition_activity o t to actor text now)
unfolding transition_activity
transition_activity-Extends o t to actor text now =
    let ready = ensure_activities-Extends o in
    let o1 = ensure_activities o in
    Holds-then_do (λ a found. elim (Bool-cases (is_activity_status to a.status)) [
      | inl e ↦ rw e (Holds-ok ready)
      | inr e ↦ rw e (
          Holds-raise_if _ (λ _. Holds-raise_if _ (λ _. Holds-raise_if _ (λ _.
            check_activity_floor-Extends o1 o t to _ (
              Holds-mono (λ o'. Extends-trans ready)
                (move_activity-Extends o1 t to actor text now))))))
    ])

pause_activity-Extends :
    (o : Order) (t : ActivityType) (reason : PauseReason) (text : Option Text) (actor : Actor)
    (now : ℕ)
    → Holds (Extends o) (pause_activity o t reason text actor now)
unfolding pause_activity check_pause_reason
pause_activity-Extends o t reason text actor now =
    let ready = ensure_activities-Extends o in
    Holds-then_do (λ a found. elim (Bool-cases (is_some a.paused_at)) [
      | inl e ↦ rw e (Holds-ok ready)
      | inr e ↦ rw e (
          Holds-raise_if _ (λ _. Holds-raise_if _ (λ _. Holds-raise_if _ (λ _. Holds-ok (
            Extends-trans ready
              (Extends-trans (Extends-same refl refl) (audit_row-Extends _ actor _ now)))))))
    ])

resume_activity-Extends :
    (o : Order) (t : ActivityType) (actor : Actor) (now : ℕ)
    → Holds (Extends o) (resume_activity o t actor now)
unfolding resume_activity
resume_activity-Extends o t actor now =
    let ready = ensure_activities-Extends o in
    Holds-then_do (λ a found. elim (Bool-cases (is_some a.paused_at)) [
      | inl e ↦ rw e (
          Holds-ok (
            Extends-trans ready
              (Extends-trans (Extends-same refl refl) (audit_row-Extends _ actor _ now))))
      | inr e ↦ rw e (Holds-ok ready)
    ])

mark-Extends :
    (o : Order) (p : OrderPiece) (cut : Bool) (actor : Actor) (now : ℕ)
    → Extends o (mark o p cut actor now)
unfolding mark
mark-Extends o p cut actor now = elim (Bool-cases (cut && not (is_cut p))) [
  | inl e ↦ rw e (Extends-trans (Extends-same refl refl) (lift_waiting-Extends _ actor now _))
  | inr e ↦ rw e (elim (Bool-cases cut) [
    | inl c ↦ rw c (Extends-same refl refl)
    | inr c ↦ rw c (Extends-same refl refl)
  ])
]

mark_piece_cut-Extends :
    (o : Order) (id : ℕ) (cut : Bool) (actor : Actor) (now : ℕ)
    → Holds (Extends o) (mark_piece_cut o id cut actor now)
unfolding mark_piece_cut
mark_piece_cut-Extends o id cut actor now =
    let o1 = ensure_activities o in
    elim (Option-cases (find_activity cutting o1.activities)) [
      | inl e ↦ rw (e, mark_piece_cut) Holds-refused
      | inr (a, e) ↦
          rw (e, mark_piece_cut)
            (Holds-raise_if _ (λ _. Holds-raise_if _ (λ _.
              elim (Option-cases (find_piece id o1.pieces)) [
                | inl f ↦ rw f Holds-refused
                | inr (p, f) ↦ rw f (
                    Holds-ok (
                      Extends-trans (ensure_activities-Extends o)
                        (mark-Extends o1 p cut actor now)))
              ])))
    ]

add_payment-Extends :
    (o : Order) (input : PaymentInput) (text : Option Text) (actor : Actor) (now : ℕ)
    → Holds (Extends o) (add_payment o input text actor now)
unfolding add_payment register_payments
add_payment-Extends o input text actor now = Holds-raise_if _ (λ _. Holds-raise_if _ (λ _.
    Holds-raise_if _ (λ _. Holds-then_do (λ remaining _.
      Holds-ok (Extends-trans (Extends-same refl refl) (audit_row-Extends _ actor _ now))))))

void_payment-Extends :
    (o : Order) (id : ℕ) (reason : Option Text) (actor : Actor) (now : ℕ)
    → Holds (Extends o) (void_payment o id reason actor now)
unfolding void_payment
void_payment-Extends o id reason actor now = elim (Option-cases (find_payment id o.payments)) [
  | inl e ↦ rw (e, void_payment) Holds-refused
  | inr (p, e) ↦
      rw (e, void_payment)
        (Holds-raise_if _ (λ _. elim (Bool-cases (is_some p.voided_at)) [
          | inl v ↦ rw v (Holds-ok (Extends-same refl refl))
          | inr v ↦
              rw v (
                Holds-ok (Extends-trans (Extends-same refl refl) (audit_row-Extends _ actor _ now)))
        ]))
]

set_external_invoice_id-Extends :
    (o : Order) (value : Text) → Holds (Extends o) (set_external_invoice_id o value)
unfolding set_external_invoice_id ensure_invoice_unclaimed
set_external_invoice_id-Extends o value = Holds-raise_if _ (λ _. Holds-ok (Extends-same refl refl))

-- Whatever call succeeds, the history grows by rows that lead from the old status to the new one,
-- each of them a move of the table or an entry that stays where it is.
pub run-Extends :
    (o : Order) (op : Operation) (actor : Actor) (now : ℕ) → Holds (Extends o) (run o op actor now)
unfolding run
run-Extends o (move to r) actor now = transition-Extends o to actor r now
run-Extends o (work t to text) actor now = transition_activity-Extends o t to actor text now
run-Extends o (pause t reason text) actor now = pause_activity-Extends o t reason text actor now
run-Extends o (resume t) actor now = resume_activity-Extends o t actor now
run-Extends o (cut_piece id cut) actor now = mark_piece_cut-Extends o id cut actor now
run-Extends o (pay input text) actor now = add_payment-Extends o input text actor now
run-Extends o (void id reason) actor now = void_payment-Extends o id reason actor now
run-Extends o (bill value) actor now = set_external_invoice_id-Extends o value

-- A history that begins with the birth as confirmed and is a path to `t`.
abbrev pub IsPathTo : OrderStatus → List HistoryRow → Type 0
IsPathTo t [] = ⊥
IsPathTo t (row ∷ rows) =
    (row.from_status ≡ none) × (row.to_status ≡ confirmed) × Linked confirmed rows t

IsPathTo-append :
    (s t : OrderStatus) (rows later : List HistoryRow)
    → IsPathTo s rows
    → Linked s later t
    → IsPathTo t (rows ++ later)
IsPathTo-append s t [] later h k = ground arith
IsPathTo-append s t (row ∷ rows) later h k =
    (h.0, h.1, Linked-append confirmed s t rows later h.2 k)

IsPathTo-Extends :
    (o o' : Order) → IsPathTo o.status o.history → Extends o o' → IsPathTo o'.status o'.history
IsPathTo-Extends o o' h e =
    subst (IsPathTo o'.status) (sym e.grown)
      (IsPathTo-append o.status o'.status o.history e.rows h e.linked)

-- The history of an order that calls lead to begins with its birth as confirmed, each row starts
-- where the one before ended and either stays there or makes a move of the table, and the last
-- ends in the status of the order.
pub Reachable-IsPathTo : (o : Order) → Reachable o → IsPathTo o.status o.history
unfolding born
Reachable-IsPathTo _ (start snapshot pieces actor text now) = (refl, refl, refl)
Reachable-IsPathTo o' (after {o = o} op actor now reach e) =
    IsPathTo-Extends o o' (Reachable-IsPathTo o reach) ((run-Extends o op actor now).in_case o' e)
