-- ===== src/Preorders/Kept.antt =====
-- Every call on a quote keeps what holds of it.
use opticutter_api.Prelude.{
  ℕ, ◌≤◌, ◌≡◌, refl, sym, ap, subst, ◌∙◌, true, false, Bool-cases, inl, inr, Option, none, some,
  List, ltb, arith, if◌then◌else◌,
}
use opticutter_api.Cutting.Models.{Text}
use opticutter_api.Preorders.Quote.{
  is_confirmed, PreOrderStatus, draft, sent, changes_requested, confirmed, rejected, expired,
  cancelled, is_open_status, QuoteActor, QuoteNote, ReviewLink, PreOrder, record_transition,
  create_quote, is_stale, fetch,
}
use opticutter_api.Preorders.Calls.{
  Minted, minted, unplaced, mismatch, raised, answered, mark_sent, close_sale, mint, confirm_at,
  withdraw, reject_at, ask, request_at,
}
use opticutter_api.Preorders.Closed.{row_after}
use opticutter_api.Preorders.Moves.{
  may_follow, begun, moved, AreUnused, is_draft, has_value, active_links, Fits, Fits-open,
  Fits-closed,
}

-- A stale quote is open, and expires.
open_facts :
    (st : PreOrderStatus)
    → is_open_status st ≡ true
    → (may_follow st expired ≡ true) × (is_confirmed st ≡ false)
unfolding is_open_status may_follow is_confirmed
open_facts draft h = (refl, refl)
open_facts sent h = (refl, refl)
open_facts changes_requested h = (refl, refl)
open_facts confirmed h = absurd (ground arith)
open_facts rejected h = absurd (ground arith)
open_facts expired h = absurd (ground arith)
open_facts cancelled h = absurd (ground arith)

module _ {ℓ} {Inputs : Type ℓ} where
  abbrev pub IsQuote : PreOrder Inputs → Type 0
  IsQuote q = Fits q.status q.history q.review_links q.order_id

  pub create_quote-IsQuote :
      (now validity : ℕ) (actor : QuoteActor) (said : QuoteNote) (inputs : Inputs)
      → IsQuote (create_quote now validity actor said inputs)
  unfolding create_quote has_value is_confirmed is_draft active_links
  create_quote-IsQuote now validity actor said inputs = record {
    trail = begun _ refl refl;
    ordered = refl;
    unsent = λ _. refl;
    single = omega arith;
    unused = λ _. tt;
  }

  pub is_stale-open :
      (now : ℕ) (q : PreOrder Inputs) → is_stale now q ≡ true → is_open_status q.status ≡ true
  unfolding is_stale
  is_stale-open now q = go q.expires_at
    where
      go :
          (o : Option ℕ)
          → (elim o [
            | none ↦ false
            | some end ↦ if is_open_status q.status then ltb end now else false
          ])
            ≡ true
          → is_open_status q.status ≡ true
      go none h = absurd (ground arith)
      go (some end) h = ground arith

  pub fetch-IsQuote : (now : ℕ) (q : PreOrder Inputs) → IsQuote q → IsQuote (fetch now q)
  unfolding fetch record_transition is_confirmed is_draft
  fetch-IsQuote now q h = elim (Bool-cases (is_stale now q)) [
    | inl e ↦
        let was_open = is_stale-open now q e in
        let (may, unsold) = open_facts q.status was_open in
        rw e (Fits-open h _ refl expired refl may (sym unsold) refl was_open)
    | inr e ↦ rw e h
  ]

  pub fetch-links : (now : ℕ) (q : PreOrder Inputs) → (fetch now q).review_links ≡ q.review_links
  unfolding fetch record_transition
  fetch-links now q = elim (Bool-cases (is_stale now q)) [ inl e ↦ rw e refl | inr e ↦ rw e refl ]

  pub answered-IsQuote :
      (st : PreOrderStatus) (actor : QuoteActor) (q : PreOrder Inputs)
      → q.status ≡ st
      → IsQuote q
      → IsQuote (answered st actor q)
  unfolding answered record_transition may_follow is_confirmed is_draft is_open_status
  answered-IsQuote changes_requested actor q e h =
      Fits-open (subst (λ s. Fits s q.history q.review_links q.order_id) e h) _ (ap some e) sent
        refl refl refl refl refl
  answered-IsQuote draft actor q e h = h
  answered-IsQuote sent actor q e h = h
  answered-IsQuote confirmed actor q e h = h
  answered-IsQuote rejected actor q e h = h
  answered-IsQuote expired actor q e h = h
  answered-IsQuote cancelled actor q e h = h

  pub mark_sent-IsQuote :
      (st : PreOrderStatus) (actor : QuoteActor) (q : PreOrder Inputs)
      → q.status ≡ st
      → is_open_status st ≡ true
      → IsQuote q
      → (links : List ReviewLink) → active_links links ≤ 1
      → AreUnused links
      → Fits
          (mark_sent st actor q).status
          (mark_sent st actor q).history
          links
          (mark_sent st actor q).order_id
  unfolding mark_sent record_transition may_follow is_confirmed is_draft is_open_status
  mark_sent-IsQuote sent actor q e o h links one free =
      let k = subst (λ s. Fits s q.history q.review_links q.order_id) e h in
      subst (λ s. Fits s q.history links q.order_id) (sym e)
        (record {
          trail = k.trail;
          ordered = k.ordered;
          unsent = λ d. absurd (ground arith);
          single = one;
          unused = λ _. free;
        })
  mark_sent-IsQuote draft actor q e o h links one free =
      let k = subst (λ s. Fits s q.history q.review_links q.order_id) e h in
      record {
        trail = moved _ k.trail (ap some e) refl refl;
        ordered = k.ordered;
        unsent = λ d. absurd (ground arith);
        single = one;
        unused = λ _. free;
      }
  mark_sent-IsQuote changes_requested actor q e o h links one free =
      let k = subst (λ s. Fits s q.history q.review_links q.order_id) e h in
      record {
        trail = moved _ k.trail (ap some e) refl refl;
        ordered = k.ordered;
        unsent = λ d. absurd (ground arith);
        single = one;
        unused = λ _. free;
      }
  mark_sent-IsQuote confirmed actor q e o h links one free = absurd (ground arith)
  mark_sent-IsQuote rejected actor q e o h links one free = absurd (ground arith)
  mark_sent-IsQuote expired actor q e o h links one free = absurd (ground arith)
  mark_sent-IsQuote cancelled actor q e o h links one free = absurd (ground arith)

  pub mint-IsQuote :
      (st : PreOrderStatus) (now : ℕ) (hash : Text) (said : Option Text) (outcome : Minted)
      (q : PreOrder Inputs)
      → q.status ≡ st
      → may_follow st confirmed ≡ true
      → IsQuote q
      → IsQuote (row_after (mint now hash said outcome q))
  unfolding mint row_after close_sale record_transition has_value is_confirmed is_draft
      is_open_status
  mint-IsQuote st now hash said (minted order) q e may h =
      Fits-closed (subst (λ s. Fits s q.history q.review_links q.order_id) e h) _ (ap some e)
        confirmed (some order) hash _ now said refl may refl refl refl
  mint-IsQuote st now hash said unplaced q e may h = h
  mint-IsQuote st now hash said mismatch q e may h = h
  mint-IsQuote st now hash said (raised why) q e may h = h

  pub confirm_at-IsQuote :
      (st : PreOrderStatus) (now : ℕ) (hash : Text) (said : Option Text) (outcome : Minted)
      (q : PreOrder Inputs)
      → q.status ≡ st
      → is_draft st ≡ false
      → IsQuote q
      → IsQuote (row_after (confirm_at st now hash said outcome q))
  unfolding confirm_at row_after is_draft may_follow
  confirm_at-IsQuote draft now hash said outcome q e d h = absurd (ground arith)
  confirm_at-IsQuote sent now hash said outcome q e d h =
      mint-IsQuote sent now hash said outcome q e refl h
  confirm_at-IsQuote changes_requested now hash said outcome q e d h =
      mint-IsQuote changes_requested now hash said outcome q e refl h
  confirm_at-IsQuote confirmed now hash said outcome q e d h = h
  confirm_at-IsQuote rejected now hash said outcome q e d h = h
  confirm_at-IsQuote expired now hash said outcome q e d h = h
  confirm_at-IsQuote cancelled now hash said outcome q e d h = h

  pub withdraw-IsQuote :
      (st : PreOrderStatus) (now : ℕ) (hash : Text) (said : Option Text) (q : PreOrder Inputs)
      → q.status ≡ st
      → may_follow st rejected ≡ true
      → is_confirmed st ≡ false
      → IsQuote q
      → IsQuote (withdraw now hash said q)
  unfolding withdraw record_transition is_confirmed is_draft is_open_status
  withdraw-IsQuote st now hash said q e may unsold h =
      let k = subst (λ s. Fits s q.history q.review_links q.order_id) e h in
      Fits-closed k _ (ap some e) rejected q.order_id hash _ now said refl may (k.ordered ∙ unsold)
        refl refl

  pub reject_at-IsQuote :
      (st : PreOrderStatus) (now : ℕ) (hash : Text) (said : Option Text) (q : PreOrder Inputs)
      → q.status ≡ st
      → is_draft st ≡ false
      → IsQuote q
      → IsQuote (row_after (reject_at st now hash said q))
  unfolding reject_at row_after is_draft may_follow is_confirmed
  reject_at-IsQuote draft now hash said q e d h = absurd (ground arith)
  reject_at-IsQuote sent now hash said q e d h = withdraw-IsQuote sent now hash said q e refl refl h
  reject_at-IsQuote changes_requested now hash said q e d h =
      withdraw-IsQuote changes_requested now hash said q e refl refl h
  reject_at-IsQuote confirmed now hash said q e d h = h
  reject_at-IsQuote rejected now hash said q e d h = h
  reject_at-IsQuote expired now hash said q e d h = h
  reject_at-IsQuote cancelled now hash said q e d h = h

  pub request_at-IsQuote :
      (st : PreOrderStatus) (said : Option Text) (q : PreOrder Inputs)
      → q.status ≡ st
      → is_draft st ≡ false
      → IsQuote q
      → IsQuote (row_after (request_at st said q))
  unfolding request_at row_after ask record_transition is_draft may_follow is_confirmed
      is_open_status
  request_at-IsQuote draft said q e d h = absurd (ground arith)
  request_at-IsQuote sent said q e d h =
      Fits-open (subst (λ s. Fits s q.history q.review_links q.order_id) e h) _ (ap some e)
        changes_requested refl refl refl refl refl
  request_at-IsQuote changes_requested said q e d h = h
  request_at-IsQuote confirmed said q e d h = h
  request_at-IsQuote rejected said q e d h = h
  request_at-IsQuote expired said q e d h = h
  request_at-IsQuote cancelled said q e d h = h
