-- ===== src/Orders/Operations.antt =====
-- The calls on an order as one type, so that a property can speak of all of them and of every
-- order that a sequence of them leads to.
use opticutter_api.Prelude.{ℕ, ◌≡◌, Bool, false, List, [], ◌∷◌, Option, none, arith, subst}
use opticutter_api.Orders.Status.{OrderStatus, confirmed, ActivityType, ActivityStatus, PauseReason}
use opticutter_api.Orders.Text.{Text}
use opticutter_api.Orders.Model.{
  Actor, HistoryRow, said, Snapshot, OrderPiece, Order, Refusal, Outcome, ok, refused, then_do,
  raise_if,
}
use opticutter_api.Orders.Payments.{PaymentInput}
use opticutter_api.Orders.Gates.{ok_injective, raise_if-ok, then_do-ok}
use opticutter_api.Orders.Machine.{Request, transition, build_activities, set_external_invoice_id}
use opticutter_api.Orders.Activities.{transition_activity, pause_activity, resume_activity}
use opticutter_api.Orders.Registers.{mark_piece_cut, add_payment, void_payment}

pub data Operation : Type 0 where
  move : OrderStatus → Request → Operation
  work : ActivityType → ActivityStatus → Option Text → Operation
  pause : ActivityType → PauseReason → Option Text → Operation
  resume : ActivityType → Operation
  cut_piece : ℕ → Bool → Operation
  pay : PaymentInput → Option Text → Operation
  void : ℕ → Option Text → Operation
  bill : Text → Operation

-- A call by an actor at an instant.
unfoldable pub run : Order → Operation → Actor → ℕ → Outcome Order
run o (move to r) actor now = transition o to actor r now
run o (work t to text) actor now = transition_activity o t to actor text now
run o (pause t reason text) actor now = pause_activity o t reason text actor now
run o (resume t) actor now = resume_activity o t actor now
run o (cut_piece id cut) actor now = mark_piece_cut o id cut actor now
run o (pay input text) actor now = add_payment o input text actor now
run o (void id reason) actor now = void_payment o id reason actor now
run o (bill value) actor now = set_external_invoice_id o value

-- The parts of `create` that these operations read: the order is born confirmed.
unfoldable pub born : Snapshot → List OrderPiece → Actor → Option Text → ℕ → Order
born snapshot pieces actor text now =
    let row : HistoryRow = record {
      from_status = none;
      to_status = confirmed;
      actor = actor.kind;
      actor_user_id = actor.user_id;
      actor_label = actor.label;
      note = said text;
      created_at = now;
    } in
    record {
      status = confirmed;
      status_changed_at = now;
      optimization_snapshot = snapshot;
      history = row ∷ [];
      activities = build_activities snapshot;
      pieces = pieces;
      payments = [];
      next_payment_id = 1;
      payment_cash_amount = none;
      payment_transfer_amount = none;
      payment_credit_amount = none;
      external_invoice_id = none;
      queued_at = none;
      assigned_to_id = none;
      assigned_at = none;
      assigned_to_label = none;
      dispatched_at = none;
      dispatched_by = none;
      dispatched_by_label = none;
    }

-- The orders that calls lead to.
pub data Reachable : Order → Type 0 where
  start :
      (snapshot : Snapshot) (pieces : List OrderPiece) (actor : Actor) (text : Option Text)
      (now : ℕ)
      → Reachable (born snapshot pieces actor text now)
  after :
      {o o' : Order} (op : Operation) (actor : Actor) (now : ℕ)
      → Reachable o
      → run o op actor now ≡ ok o'
      → Reachable o'

-- What holds of a result, if there is one.
pub record Holds {ℓ κ} {A : Type ℓ} (P : A → Type κ) (x : Outcome A) : Type (ℓ ⊔ κ) where
  pub in_case : (a : A) → x ≡ ok a → P a

module _ {ℓ κ} {A : Type ℓ} {P : A → Type κ} where
  pub Holds-ok : {a : A} → P a → Holds P (ok a)
  Holds-ok h = record { in_case = λ b e. subst P (ok_injective _ b e) h }

  pub Holds-refused : {e : Refusal} → Holds P (refused e)
  Holds-refused = record { in_case = λ b e. ground arith }

  pub Holds-raise_if :
      {t : Bool} {x : Outcome A} (e : Refusal) → (t ≡ false → Holds P x) → Holds P (raise_if t e x)
  Holds-raise_if e h = record {
    in_case = λ b k. let (passed, rest) = raise_if-ok _ e _ b k in (h passed).in_case b rest;
  }

  pub Holds-then_do {μ} :
      {B : Type μ} {x : Outcome B} {f : B → Outcome A}
      → ((b : B) → x ≡ ok b → Holds P (f b))
      → Holds P (then_do x f)
  Holds-then_do h = record {
    in_case = λ b e. let (a, first, rest) = then_do-ok _ _ b e in (h a first).in_case b rest;
  }

pub Holds-mono {ℓ κ μ} :
    {A : Type ℓ} {P : A → Type κ} {Q : A → Type μ} {x : Outcome A}
    → ((a : A) → P a → Q a)
    → Holds P x
    → Holds Q x
Holds-mono f h = record { in_case = λ a e. f a (h.in_case a e) }
