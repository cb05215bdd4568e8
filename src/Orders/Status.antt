-- ===== src/Orders/Status.antt =====
-- src/modules/orders/model.py: the statuses of an order and of its activities, and the tables of
-- what may follow what and who may do it.
use opticutter_api.Prelude.{ℕ, Bool, true, false, List, [], ◌∷◌, ◌==◌, any_by}

pub data OrderStatus : Type 0 where
  confirmed queued in_process finished dispatched cancelled legacy_cutting legacy_cut : OrderStatus

pub data ActivityType : Type 0 where
  cutting banding additional : ActivityType

pub data ActivityStatus : Type 0 where
  pending in_progress done : ActivityStatus

pub data PauseReason : Type 0 where
  no_boards no_edge_banding machine_failure waiting_for_pieces : PauseReason

pub data PaymentMethod : Type 0 where
  cash transfer : PaymentMethod

pub data UserRole : Type 0 where
  admin seller operator bander designer : UserRole

-- Members of an enumeration are compared by their position in it.
abbrev pub status_code : OrderStatus → ℕ
status_code confirmed = 0
status_code queued = 1
status_code in_process = 2
status_code finished = 3
status_code dispatched = 4
status_code cancelled = 5
status_code legacy_cutting = 6
status_code legacy_cut = 7

abbrev pub type_code : ActivityType → ℕ
type_code cutting = 0
type_code banding = 1
type_code additional = 2

abbrev pub activity_status_code : ActivityStatus → ℕ
activity_status_code pending = 0
activity_status_code in_progress = 1
activity_status_code done = 2

abbrev pub reason_code : PauseReason → ℕ
reason_code no_boards = 0
reason_code no_edge_banding = 1
reason_code machine_failure = 2
reason_code waiting_for_pieces = 3

abbrev pub role_code : UserRole → ℕ
role_code admin = 0
role_code seller = 1
role_code operator = 2
role_code bander = 3
role_code designer = 4

abbrev pub is_status : OrderStatus → OrderStatus → Bool
is_status s t = status_code s == status_code t

abbrev pub is_type : ActivityType → ActivityType → Bool
is_type s t = type_code s == type_code t

abbrev pub is_activity_status : ActivityStatus → ActivityStatus → Bool
is_activity_status s t = activity_status_code s == activity_status_code t

abbrev pub is_reason : PauseReason → PauseReason → Bool
is_reason s t = reason_code s == reason_code t

abbrev pub has_role : List UserRole → UserRole → Bool
has_role roles r = any_by (λ s. role_code s == role_code r) roles

-- `set(roles) & {…}` is not empty
abbrev pub shares_role : List UserRole → List UserRole → Bool
shares_role roles allowed = any_by (has_role roles) allowed

-- `TRANSITIONS`; a legacy status has no row.
unfoldable pub transitions : OrderStatus → List OrderStatus
transitions confirmed = queued ∷ cancelled ∷ []
transitions queued = in_process ∷ cancelled ∷ []
transitions in_process = finished ∷ queued ∷ []
transitions finished = dispatched ∷ []
transitions dispatched = []
transitions cancelled = []
transitions legacy_cutting = []
transitions legacy_cut = []

unfoldable pub transition_roles : OrderStatus → OrderStatus → List UserRole
transition_roles confirmed queued = admin ∷ seller ∷ []
transition_roles confirmed cancelled = admin ∷ seller ∷ []
transition_roles queued cancelled = admin ∷ []
transition_roles queued in_process = admin ∷ operator ∷ []
transition_roles in_process queued = admin ∷ []
transition_roles in_process finished = admin ∷ seller ∷ operator ∷ bander ∷ []
transition_roles finished dispatched = admin ∷ seller ∷ []
transition_roles _ _ = []

unfoldable pub activity_transitions : ActivityStatus → List ActivityStatus
activity_transitions pending = in_progress ∷ []
activity_transitions in_progress = done ∷ []
activity_transitions done = []

unfoldable pub activity_roles : ActivityType → List UserRole
activity_roles cutting = admin ∷ operator ∷ []
activity_roles banding = admin ∷ bander ∷ []
activity_roles additional = admin ∷ bander ∷ []

unfoldable pub pause_reasons_by_activity : ActivityType → List PauseReason
pause_reasons_by_activity cutting = no_boards ∷ machine_failure ∷ []
pause_reasons_by_activity banding = waiting_for_pieces ∷ no_edge_banding ∷ machine_failure ∷ []
pause_reasons_by_activity additional = waiting_for_pieces ∷ machine_failure ∷ []

-- The values of `ACTIVITY_PIECES`.
pub data PieceSet : Type 0 where
  all banded worked : PieceSet

unfoldable pub activity_pieces : ActivityType → PieceSet
activity_pieces cutting = all
activity_pieces banding = banded
activity_pieces additional = worked

unfoldable pub start_needs_a_cut_piece : ActivityType → Bool
start_needs_a_cut_piece cutting = false
start_needs_a_cut_piece banding = true
start_needs_a_cut_piece additional = true

unfoldable pub finish_needs_every_piece : ActivityType → Bool
finish_needs_every_piece cutting = true
finish_needs_every_piece banding = true
finish_needs_every_piece additional = true

-- `to_status in TRANSITIONS.get(current, set())`
abbrev pub may_move : OrderStatus → OrderStatus → Bool
may_move s t = any_by (is_status t) (transitions s)

abbrev pub may_activity_move : ActivityStatus → ActivityStatus → Bool
may_activity_move s t = any_by (is_activity_status t) (activity_transitions s)

-- `order_status in ACTIVITY_MUTABLE_ORDER_STATUSES`
unfoldable pub is_mutable : OrderStatus → Bool
is_mutable s = is_status s in_process
