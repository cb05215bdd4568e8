-- ===== src/Orders/Waiting.antt =====
-- A wait for pieces does not outlive what it waits for: the marks on the pieces, and the reasons that
-- a pause may have.
use opticutter_api.Prelude.{
  ℕ, ◌-◌, ◌≤◌, ◌≡◌, ◌↔◌, refl, sym, ◌∙◌, ap, subst, inl, inr, Bool, true, false, not, ◌&&◌, List,
  [], ◌∷◌, map, length, Option, some, arith, any_by, filter_by, All, All-mono, Bool-cases,
}
use opticutter_api.Orders.Status.{
  ActivityType, PauseReason, PieceSet, activity_pieces, is_reason, pause_reasons_by_activity,
}
use opticutter_api.Orders.Model.{Actor, Activity, OrderPiece, Order, ok, raise_if}
use opticutter_api.Orders.Pauses.{
  pause_reasons, banding_is_open, owes_pieces, piece_arrives, in_set, audit_row, close_pause,
  is_waiting, is_waiting_for, arrived, lifts, audit_arrivals, lift_activity, lift_waiting,
}
use opticutter_api.Orders.Activities.{is_cut, set_progress, pieces_left, check_pause_reason}
use opticutter_api.Orders.Registers.{
  find_piece, update_piece, seal_activity_ready, set_cut, set_uncut, mark,
}
use opticutter_api.Orders.Owed.{
  IsOwed, members_update, cut_elsewhere, fewer_cut, owes_pieces_mono, owes_pieces-unreached,
}

set_cut-in_set :
    (s : PieceSet) (actor : Actor) (now : ℕ) (p : OrderPiece)
    → in_set s (set_cut actor now p) ≡ in_set s p
unfolding in_set set_cut
set_cut-in_set s actor now p = ground arith

set_uncut-in_set : (s : PieceSet) (p : OrderPiece) → in_set s (set_uncut p) ≡ in_set s p
unfolding in_set set_uncut
set_uncut-in_set s p = ground arith

-- The piece counts as left in no set that it is not in.
pieces_left-cut :
    (o o' : Order) (s : PieceSet) (p : OrderPiece) (actor : Actor) (now : ℕ)
    → find_piece p.id o.pieces ≡ some p
    → o'.pieces ≡ update_piece p.id (set_cut actor now) o.pieces
    → in_set s p ≡ false
    → pieces_left o s ≡ pieces_left o' s
unfolding pieces_left set_progress
pieces_left-cut o o' s p actor now found marked out =
    ap (λ ms. length ms - length (filter_by is_cut ms))
      (sym (
        ap (filter_by (in_set s)) marked
        ∙ cut_elsewhere p.id (set_cut actor now) s (set_cut-in_set s actor now) o.pieces p found
            out))

pieces_left-uncut :
    (o : Order) (s : PieceSet) (id : ℕ)
    → pieces_left o s ≤ pieces_left (record o { pieces = update_piece id set_uncut o.pieces }) s
unfolding pieces_left set_progress set_uncut
pieces_left-uncut o s id =
    let same = members_update id set_uncut s (set_uncut-in_set s) o.pieces in
    let fewer = fewer_cut id set_uncut s (set_uncut-in_set s) (λ p. refl) o.pieces in omega arith

audit_arrivals-keeps :
    (actor : Actor) (now : ℕ) (ts : List ActivityType) (o : Order)
    → ((audit_arrivals actor now ts o).activities ≡ o.activities)
      × ((audit_arrivals actor now ts o).pieces ≡ o.pieces)
unfolding audit_arrivals audit_row
audit_arrivals-keeps actor now [] o = (refl, refl)
audit_arrivals-keeps actor now (t ∷ ts) o = audit_arrivals-keeps actor now ts _

lift_waiting-keeps :
    (o : Order) (actor : Actor) (now : ℕ) (piece : Option OrderPiece)
    → let o' = lift_waiting o actor now piece in
      (o'.activities
        ≡ map (lift_activity actor now piece (banding_is_open o.activities)) o.activities)
      × (o'.pieces ≡ o.pieces)
unfolding lift_waiting
lift_waiting-keeps o actor now piece = audit_arrivals-keeps actor now _ _

-- Sealing and lifting change neither the types of the rows nor their statuses.
module _ (f : Activity → Activity)
    (keeps : (a : Activity) → ((f a).kind ≡ a.kind) × ((f a).status ≡ a.status)) where
  banding_is_open-map : (rows : List Activity) → banding_is_open (map f rows) ≡ banding_is_open rows
  unfolding banding_is_open
  banding_is_open-map [] = refl
  banding_is_open-map (a ∷ rows) =
      let (kind, status) = keeps a in rw (kind, status, banding_is_open-map rows) refl

seal_activity_ready-keeps :
    (now : ℕ) (p : OrderPiece) (a : Activity)
    → ((seal_activity_ready now p a).kind ≡ a.kind)
      × ((seal_activity_ready now p a).status ≡ a.status)
      × ((seal_activity_ready now p a).pause_reason ≡ a.pause_reason)
unfolding seal_activity_ready
seal_activity_ready-keeps now p a = ground arith

lift_activity-keeps :
    (actor : Actor) (now : ℕ) (piece : Option OrderPiece) (opened : Bool) (a : Activity)
    → ((lift_activity actor now piece opened a).kind ≡ a.kind)
      × ((lift_activity actor now piece opened a).status ≡ a.status)
      × (is_waiting (lift_activity actor now piece opened a) ≡ true
          → (is_waiting a ≡ true) × (arrived piece opened a.kind ≡ false))
unfolding lift_activity close_pause
lift_activity-keeps actor now piece opened a = elim (Bool-cases (lifts piece opened a)) [
  | inl e ↦ rw e (refl, refl, λ w. ground arith)
  | inr e ↦ rw e (refl, refl, λ w. ground arith)
]

module _ (o o' : Order) (p : OrderPiece) (actor : Actor) (now : ℕ) (opened : Bool)
    (found : find_piece p.id o.pieces ≡ some p)
    (marked : o'.pieces ≡ update_piece p.id (set_cut actor now) o.pieces)
    (before : opened ≡ banding_is_open o.activities)
    (later : banding_is_open o'.activities ≡ opened) where
  abbrev reached : Activity → Activity
  reached a =
      lift_activity actor now (some (set_cut actor now p)) opened (seal_activity_ready now p a)

  IsOwed-reached : (a : Activity) → IsOwed o a → IsOwed o' (reached a)
  unfolding arrived set_cut
  IsOwed-reached a owed waiting =
      let sealed = seal_activity_ready now p a in
      let (kind, _, reason) = seal_activity_ready-keeps now p a in
      let (kind', _, waited) =
        lift_activity-keeps actor now (some (set_cut actor now p)) opened sealed in
      let (still, away) = waited waiting in
      let was = owed (ap is_waiting_for (sym reason) ∙ still) in
      let t = a.kind in
      let s = activity_pieces t in
      let member = set_cut-in_set s actor now p in
      let arrives = subst (λ k. arrived (some (set_cut actor now p)) opened k ≡ false) kind away in
      let not_reached = subst (λ m. piece_arrives t m p.is_banded opened ≡ false) member arrives in
      let was' = subst (λ b. owes_pieces t (pieces_left o s) b ≡ true) (sym before) was in
      let still_owed =
        owes_pieces-unreached t (pieces_left o s) (pieces_left o' s) (in_set s p) p.is_banded opened
          not_reached (pieces_left-cut o o' s p actor now found marked) was' in
      subst
        (λ k.
          owes_pieces k (pieces_left o' (activity_pieces k)) (banding_is_open o'.activities) ≡ true)
        (sym (kind' ∙ kind))
        (subst (λ b. owes_pieces t (pieces_left o' s) b ≡ true) (sym later) still_owed)

  map-reached :
      (rows : List Activity)
      → map
          (lift_activity actor now (some (set_cut actor now p)) opened)
          (map (seal_activity_ready now p) rows)
        ≡ map reached rows
  map-reached [] = refl
  map-reached (a ∷ rows) = ap (λ later. reached a ∷ later) (map-reached rows)

  All-IsOwed-reached :
      (rows : List Activity) → All (IsOwed o) rows → All (IsOwed o') (map reached rows)
  All-IsOwed-reached [] h = tt
  All-IsOwed-reached (a ∷ rows) h = (IsOwed-reached a h.0, All-IsOwed-reached rows h.1)

module _ (o : Order) (p : OrderPiece) (actor : Actor) (now : ℕ)
    (found : find_piece p.id o.pieces ≡ some p) (owed : All (IsOwed o) o.activities) where
  cut-IsOwed :
      let o1 = record o {
        pieces = update_piece p.id (set_cut actor now) o.pieces;
        activities = map (seal_activity_ready now p) o.activities;
      } in
      let o' = lift_waiting o1 actor now (some (set_cut actor now p)) in
      All (IsOwed o') o'.activities
  cut-IsOwed =
      let sealed = map (seal_activity_ready now p) o.activities in
      let opened = banding_is_open sealed in
      let lift = lift_activity actor now (some (set_cut actor now p)) opened in
      let before =
        banding_is_open-map (seal_activity_ready now p)
          (λ a. let k = seal_activity_ready-keeps now p a in (k.0, k.1)) o.activities in
      let after =
        banding_is_open-map lift
          (λ a.
            let k = lift_activity-keeps actor now (some (set_cut actor now p)) opened a in
            (k.0, k.1))
          sealed in
      let o1 : Order = record o {
        pieces = update_piece p.id (set_cut actor now) o.pieces;
        activities = sealed;
      } in
      let o' = lift_waiting o1 actor now (some (set_cut actor now p)) in
      let (rows, pieces) = lift_waiting-keeps o1 actor now (some (set_cut actor now p)) in
      let opened' = ap banding_is_open rows ∙ after in
      let mapped =
        rows ∙ map-reached o o' p actor now opened found pieces before opened' o.activities in
      subst (All (IsOwed o')) (sym mapped)
        (All-IsOwed-reached o o' p actor now opened found pieces before opened' o.activities owed)

  uncut-IsOwed :
      let o' = record o { pieces = update_piece p.id set_uncut o.pieces } in
      All (IsOwed o') o'.activities
  uncut-IsOwed =
      All-mono
        (λ a h w.
          owes_pieces_mono a.kind _ _ _ (pieces_left-uncut o (activity_pieces a.kind) p.id) (h w))
        o.activities owed

-- If every activity of an order that waits for pieces is owed some (pieces of its own set are not
-- cut, or it works after a banding that is open), then that is so after any piece of the order is
-- marked or unmarked as cut.
pub mark-IsOwed :
    (o : Order) (p : OrderPiece) (cut : Bool) (actor : Actor) (now : ℕ)
    → find_piece p.id o.pieces ≡ some p
    → All (IsOwed o) o.activities
    → All (IsOwed (mark o p cut actor now)) (mark o p cut actor now).activities
unfolding mark
mark-IsOwed o p cut actor now found owed = elim (Bool-cases (cut && not (is_cut p))) [
  | inl e ↦ rw (e, mark) (cut-IsOwed o p actor now found owed)
  | inr e ↦ elim (Bool-cases cut) [
    | inl c ↦ rw (e, mark, c) owed
    | inr c ↦ rw (e, mark, c) (uncut-IsOwed o p actor now found owed)
  ]
]

-- The dialog offers exactly what the pause accepts: a reason is among those that the activity's answer
-- lists for the order as it is if and only if the check of the reason passes.
pub pause_reasons-accepted :
    (o : Order) (t : ActivityType) (reason : PauseReason)
    → (any_by
          (is_reason reason)
          (pause_reasons t (pieces_left o (activity_pieces t)) (banding_is_open o.activities))
        ≡ true)
      ↔ (check_pause_reason o t reason (ok o) ≡ ok o)
unfolding pause_reasons check_pause_reason owes_pieces pause_reasons_by_activity raise_if
pause_reasons-accepted o t reason = (λ h. ground arith, λ h. ground arith)
