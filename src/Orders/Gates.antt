-- ===== src/Orders/Gates.antt =====
-- What a call that succeeds has passed: the gates of `transition`, taken apart.
use opticutter_api.Prelude.{ℕ, ◌≡◌, refl, sym, ◌∙◌, ap, Bool, true, false, ◌&&◌, arith}
use opticutter_api.Orders.Status.{OrderStatus, cancelled, is_status, may_move}
use opticutter_api.Orders.Text.{stripped, is_blank}
use opticutter_api.Orders.Model.{
  Actor, Amounts, Order, Refusal, Outcome, ok, refused, then_do, raise_if,
}
use opticutter_api.Orders.Machine.{
  Request, is_forbidden, finish_gate, queue_gate, dispatch_gate, assignment, dispatch,
  capture_payment, apply_transition, transition, ensure_invoice_unclaimed,
}

module _ {ℓ κ} {A : Type ℓ} {B : Type κ} where
  pub then_do-ok :
      (x : Outcome A) (f : A → Outcome B) (b : B)
      → then_do x f ≡ ok b
      → (a : A) × (x ≡ ok a) × (f a ≡ ok b)
  unfolding then_do
  then_do-ok (ok a) f b h = (a, refl, h)
  then_do-ok (refused e) f b h = ground arith

module _ {ℓ} {A : Type ℓ} where
  pub raise_if-ok :
      (t : Bool) (e : Refusal) (x : Outcome A) (a : A)
      → raise_if t e x ≡ ok a
      → (t ≡ false) × (x ≡ ok a)
  unfolding raise_if
  raise_if-ok true e x a h = ground arith
  raise_if-ok false e x a h = (refl, h)

  pub ok_injective : (a b : A) → Outcome.ok a ≡ ok b → a ≡ b
  ok_injective a b h = cc

-- The order after the gates: what `transition` writes.
abbrev pub written : Order → OrderStatus → Actor → Request → ℕ → Amounts → Order → Order
written o to actor r now amounts moved =
    capture_payment (dispatch (assignment moved o.status to actor now) to amounts actor r.note now)
      o.status to r now

pub queue_gate-same :
    (o : Order) (to : OrderStatus) (r : Request) (o' : Order) → queue_gate o to r ≡ ok o' → o ≡ o'
unfolding queue_gate ensure_invoice_unclaimed raise_if
queue_gate-same o to r o' h = ground arith

-- The gates that a successful move has passed, and the order that it leaves.
pub record Passed (o : Order) (to : OrderStatus) (actor : Actor) (r : Request) (now : ℕ)
    (o' : Order) : Type 0 where
  pub ready : Order
  pub amounts : Amounts
  pub moved : Order
  pub in_table : may_move o.status to ≡ true
  pub permitted : is_forbidden actor o.status to ≡ false
  pub worked_out : finish_gate o to ≡ ok ready
  pub collected : queue_gate ready to r ≡ ok ready
  pub handed_over : dispatch_gate ready to r ≡ ok amounts
  pub reasoned : (is_status to cancelled && is_blank (stripped r.note)) ≡ false
  pub applied : apply_transition ready to actor r.note now ≡ ok moved
  pub result : written o to actor r now amounts moved ≡ o'

pub transition-Passed :
    (o : Order) (to : OrderStatus) (actor : Actor) (r : Request) (now : ℕ) (o' : Order)
    → transition o to actor r now ≡ ok o'
    → Passed o to actor r now o'
unfolding transition
transition-Passed o to actor r now o' h =
    let (table, h1) = raise_if-ok _ _ _ o' h in
    let (role, h2) = raise_if-ok _ _ _ o' h1 in
    let (o1, work, h3) = then_do-ok _ _ o' h2 in
    let (o2, queue, h4) = then_do-ok _ _ o' h3 in
    let (amounts, hand, h5) = then_do-ok _ _ o' h4 in
    let (reason, h6) = raise_if-ok _ _ _ o' h5 in
    let (o3, move, h7) = then_do-ok _ _ o' h6 in
    let same = queue_gate-same o1 to r o2 queue in
    record {
      ready = o1;
      amounts = amounts;
      moved = o3;
      in_table = ground arith;
      permitted = role;
      worked_out = work;
      collected = queue ∙ ap ok (sym same);
      handed_over = rw same hand;
      reasoned = reason;
      applied = rw same move;
      result = ok_injective _ _ h7;
    }
