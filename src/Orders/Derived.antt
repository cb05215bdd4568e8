-- ===== src/Orders/Derived.antt =====
-- What an activity does to the status of its order.
use opticutter_api.Prelude.{
  ℕ, ◌≡◌, refl, sym, ◌∙◌, subst, ◌⊎◌, inl, inr, true, ◌&&◌, List, [], ◌∷◌, Option, none, arith,
  Bool-cases, all_by, if◌then◌else◌,
}
use opticutter_api.Orders.Status.{
  OrderStatus, queued, in_process, finished, ActivityType, banding, ActivityStatus, pending,
  in_progress, done, is_status, is_type, is_activity_status, may_move, transitions,
}
use opticutter_api.Orders.Text.{Text}
use opticutter_api.Orders.Model.{Actor, OrderPiece, Order, Outcome, ok}
use opticutter_api.Orders.Pauses.{audit_row, audit_arrivals, lift_waiting}
use opticutter_api.Orders.Machine.{is_done, ensure_activities, update_activity}
use opticutter_api.Orders.Activities.{
  starts_the_cut, derived, stamp, check_activity_floor, move_activity, transition_activity,
}
use opticutter_api.Orders.Moves.{transition-Granted, transition-finished}
use opticutter_api.Orders.Operations.{Holds, Holds-ok, Holds-raise_if, Holds-then_do}

-- The status stays; or the order leaves the queue, as its cut starts; or it goes from in process to
-- finished, as an activity closes and all of them are done.
abbrev pub IsDerived : Order → ActivityType → ActivityStatus → Order → Type 0
IsDerived o t to o' =
    (o'.status ≡ o.status)
    ⊎ ((o.status ≡ queued) × (starts_the_cut t to ≡ true) × (o'.status ≡ in_process))
    ⊎ ((o.status ≡ in_process)
        × (is_activity_status to done ≡ true)
        × (o'.status ≡ finished)
        × (all_by is_done o'.activities ≡ true))

audit_arrivals-status :
    (actor : Actor) (now : ℕ) (ts : List ActivityType) (o : Order)
    → (audit_arrivals actor now ts o).status ≡ o.status
unfolding audit_arrivals audit_row
audit_arrivals-status actor now [] o = refl
audit_arrivals-status actor now (t ∷ ts) o = audit_arrivals-status actor now ts _

lift_waiting-status :
    (o : Order) (actor : Actor) (now : ℕ) (piece : Option OrderPiece)
    → (lift_waiting o actor now piece).status ≡ o.status
unfolding lift_waiting
lift_waiting-status o actor now piece = audit_arrivals-status actor now _ _

ensure_activities-status : (o : Order) → (ensure_activities o).status ≡ o.status
unfolding ensure_activities
ensure_activities-status o = ground arith

is_queued : (s : OrderStatus) → is_status s queued ≡ true → s ≡ queued
is_queued s h = ground arith

before_finished : (s : OrderStatus) → may_move s finished ≡ true → s ≡ in_process
unfolding transitions
before_finished s h = ground arith

move_activity-IsDerived :
    (o : Order) (t : ActivityType) (to : ActivityStatus) (actor : Actor) (text : Option Text)
    (now : ℕ)
    → Holds (IsDerived o t to) (move_activity o t to actor text now)
unfolding move_activity
move_activity-IsDerived o t to actor text now =
    let written : Order = record o {
      activities = update_activity t (stamp to actor now) o.activities;
    } in
    let lifting = is_type t banding && is_activity_status to done in
    let o' = if lifting then lift_waiting written actor now none else written in
    let kept : o'.status ≡ o.status = elim (Bool-cases lifting) [
      | inl e ↦ rw e (lift_waiting-status written actor now none)
      | inr e ↦ rw e refl
    ] in
    let starts = starts_the_cut t to in
    elim (Bool-cases (starts && is_status o.status queued)) [
      | inl e ↦ rw e (record {
        in_case = λ o'' h.
            let g = transition-Granted o' in_process actor (derived text) now o'' h in
            inr (inl (is_queued o.status (ground arith), ground arith, g.2));
      })
      | inr e ↦ elim (Bool-cases (is_activity_status to done && all_by is_done o'.activities)) [
        | inl d ↦
            rw (e, d)
              (record {
                in_case = λ o'' h.
                    let g = transition-Granted o' finished actor (derived text) now o'' h in
                    let f = transition-finished o' actor (derived text) now o'' h in
                    inr (inr (sym kept ∙ before_finished o'.status g.0, ground arith, g.2, f.1));
              })
        | inr d ↦ rw (e, d) (Holds-ok (inl kept))
      ]
    ]

check_activity_floor-IsDerived :
    (o : Order) (base : Order) (t : ActivityType) (to : ActivityStatus) (rest : Outcome Order)
    → Holds (IsDerived base t to) rest
    → Holds (IsDerived base t to) (check_activity_floor o t to rest)
unfolding check_activity_floor
check_activity_floor-IsDerived o base t pending rest h = h
check_activity_floor-IsDerived o base t in_progress rest h = Holds-raise_if _ (λ _. h)
check_activity_floor-IsDerived o base t done rest h = Holds-raise_if _ (λ _. h)

ready-IsDerived :
    (o : Order) (t : ActivityType) (to : ActivityStatus) (actor : Actor) (text : Option Text)
    (now : ℕ)
    → Holds (IsDerived (ensure_activities o) t to) (transition_activity o t to actor text now)
unfolding transition_activity
ready-IsDerived o t to actor text now =
    let o1 = ensure_activities o in
    Holds-then_do (λ a _. elim (Bool-cases (is_activity_status to a.status)) [
      | inl e ↦ rw e (Holds-ok (inl refl))
      | inr e ↦ rw e (
          Holds-raise_if _ (λ _. Holds-raise_if _ (λ _. Holds-raise_if _ (λ _.
            check_activity_floor-IsDerived o1 o1 t to _
              (move_activity-IsDerived o1 t to actor text now)))))
    ])

-- An activity that is registered moves its order only in two ways: out of the queue into process when
-- the cut starts, and from process to finished when an activity closes with every activity done;
-- otherwise the order stays in its status.
pub transition_activity-IsDerived :
    (o : Order) (t : ActivityType) (to : ActivityStatus) (actor : Actor) (text : Option Text)
    (now : ℕ) (o' : Order)
    → transition_activity o t to actor text now ≡ ok o'
    → IsDerived o t to o'
transition_activity-IsDerived o t to actor text now o' h =
    subst
      (λ s.
        (o'.status ≡ s)
        ⊎ ((s ≡ queued) × (starts_the_cut t to ≡ true) × (o'.status ≡ in_process))
        ⊎ ((s ≡ in_process)
            × (is_activity_status to done ≡ true)
            × (o'.status ≡ finished)
            × (all_by is_done o'.activities ≡ true)))
      (ensure_activities-status o) ((ready-IsDerived o t to actor text now).in_case o' h)
