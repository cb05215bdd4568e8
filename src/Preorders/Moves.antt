-- ===== src/Preorders/Moves.antt =====
-- What holds of a quote's status, history, links and order together, and how a move keeps it.
use opticutter_api.Prelude.{
  ℕ, ◌+◌, ◌≤◌, ◌≡◌, refl, sym, ◌∙◌, Bool, true, false, Bool-cases, inl, inr, Option, none, some,
  List, [], ◌∷◌, ◌++◌, map, All, All-append, arith,
}
use opticutter_api.Cutting.Models.{Text}
use opticutter_api.Cutting.Constructors.Order.{same_id}
use opticutter_api.Preorders.Quote.{
  is_confirmed, PreOrderStatus, draft, sent, changes_requested, confirmed, rejected, expired,
  is_open_status, ReviewLinkStatus, active, used, revoked, QuoteHistory, ClientAction, ReviewLink,
}
use opticutter_api.Preorders.Calls.{find_link, mark_used, revoked_status, revoke_active}

-- The moves of a quote.
unfoldable pub may_follow : PreOrderStatus → PreOrderStatus → Bool
may_follow draft sent = true
may_follow draft expired = true
may_follow sent changes_requested = true
may_follow sent confirmed = true
may_follow sent rejected = true
may_follow sent expired = true
may_follow changes_requested sent = true
may_follow changes_requested confirmed = true
may_follow changes_requested rejected = true
may_follow changes_requested expired = true
may_follow _ _ = false

-- The history, entry by entry: it begins with the draft, each entry starts where the one before
-- ended and is one of the moves, and the last ends at the status.
pub data IsTrail : List QuoteHistory → PreOrderStatus → Type 0 where
  begun :
      (row : QuoteHistory)
      → row.from_status ≡ none
      → row.to_status ≡ draft
      → IsTrail (row ∷ []) draft
  moved :
      {rows : List QuoteHistory} (row : QuoteHistory) {a b : PreOrderStatus}
      → IsTrail rows a
      → row.from_status ≡ some a
      → row.to_status ≡ b
      → may_follow a b ≡ true
      → IsTrail (rows ++ row ∷ []) b

unfoldable pub is_draft : PreOrderStatus → Bool
is_draft draft = true
is_draft _ = false

unfoldable pub has_value {ℓ} : {A : Type ℓ} → Option A → Bool
has_value none = false
has_value (some _) = true

unfoldable pub active_count : ReviewLinkStatus → ℕ
active_count active = 1
active_count used = 0
active_count revoked = 0

unfoldable pub is_used : ReviewLinkStatus → Bool
is_used active = false
is_used used = true
is_used revoked = false

unfoldable pub active_links : List ReviewLink → ℕ
active_links [] = 0
active_links (link ∷ links) = active_count link.status + active_links links

abbrev pub AreUnused : List ReviewLink → Type 0
AreUnused links = All (λ link. is_used link.status ≡ false) links

-- The history is a trail to the status; there is an order exactly when the quote is confirmed; a
-- draft has no link; at most one link is active; and no link of an open quote is used.
pub record Fits (st : PreOrderStatus) (rows : List QuoteHistory) (links : List ReviewLink)
    (order : Option ℕ) : Type 0 where
  pub trail : IsTrail rows st
  pub ordered : has_value order ≡ is_confirmed st
  pub unsent : is_draft st ≡ true → links ≡ []
  pub single : active_links links ≤ 1
  pub unused : is_open_status st ≡ true → AreUnused links

active_count-revoked_status : (st : ReviewLinkStatus) → active_count (revoked_status st) ≡ 0
unfolding active_count revoked_status
active_count-revoked_status active = refl
active_count-revoked_status used = refl
active_count-revoked_status revoked = refl

-- Revoking leaves no active link, and uses none.
active_links-revoke_active : (links : List ReviewLink) → active_links (map revoke_active links) ≡ 0
unfolding active_links revoke_active
active_links-revoke_active [] = refl
active_links-revoke_active (link ∷ links) =
    omega (arith, active_count-revoked_status link.status, active_links-revoke_active links)

is_used-revoked_status :
    (st : ReviewLinkStatus) → is_used st ≡ false → is_used (revoked_status st) ≡ false
unfolding is_used revoked_status
is_used-revoked_status active h = refl
is_used-revoked_status used h = h
is_used-revoked_status revoked h = refl

AreUnused-revoke_active :
    (links : List ReviewLink) → AreUnused links → AreUnused (map revoke_active links)
unfolding revoke_active
AreUnused-revoke_active [] h = tt
AreUnused-revoke_active (link ∷ links) h =
    (is_used-revoked_status link.status h.0, AreUnused-revoke_active links h.1)

active_links-append :
    (links more : List ReviewLink)
    → active_links (links ++ more) ≡ active_links links + active_links more
unfolding active_links
active_links-append [] more = omega arith
active_links-append (link ∷ links) more = omega (arith, active_links-append links more)

-- Using a link makes no other one active.
active_links-mark_used :
    (hash : Text) (action : ClientAction) (now : ℕ) (said : Option Text) (links : List ReviewLink)
    → active_links (mark_used hash action now said links) ≤ active_links links
unfolding active_links mark_used active_count
active_links-mark_used hash action now said [] = omega arith
active_links-mark_used hash action now said (link ∷ links) =
    elim (Bool-cases (same_id hash link.token_hash)) [
      | inl e ↦ rw e (omega arith)
      | inr e ↦ rw e (omega (arith, active_links-mark_used hash action now said links))
    ]

-- A new link after the old ones are revoked is the one that is active.
pub renewed-single :
    (links : List ReviewLink) (link : ReviewLink)
    → link.status ≡ active
    → active_links (map revoke_active links ++ link ∷ []) ≤ 1
unfolding active_links active_count
renewed-single links link e =
    let one : active_count link.status ≡ 1 = rw e refl in
    omega (
      arith,
      active_links-append (map revoke_active links) (link ∷ []),
      active_links-revoke_active links,
      one,
    )

pub renewed-AreUnused :
    (links : List ReviewLink) (link : ReviewLink)
    → link.status ≡ active
    → AreUnused links
    → AreUnused (map revoke_active links ++ link ∷ [])
unfolding is_used
renewed-AreUnused links link e h =
    All-append _ (map revoke_active links) (link ∷ []) (AreUnused-revoke_active links h)
      (rw e refl, tt)

-- A quote that is not a draft, or has a link that is found, is out.
pub found-sent :
    {st : PreOrderStatus} {rows : List QuoteHistory} {links : List ReviewLink} {order : Option ℕ}
    (hash : Text) (link : ReviewLink)
    → find_link hash links ≡ some link
    → Fits st rows links order
    → is_draft st ≡ false
unfolding find_link
found-sent {st = st} hash link e h = elim (Bool-cases (is_draft st)) [
  | inl d ↦ let none_yet = rw (h.unsent d) at e in absurd (ground arith)
  | inr d ↦ d
]

module _ {a : PreOrderStatus} {rows : List QuoteHistory} {links : List ReviewLink}
    {order : Option ℕ} (h : Fits a rows links order) (row : QuoteHistory)
    (from : row.from_status ≡ some a) where
  -- A move to another open status, or to the expired one.
  pub Fits-open :
      (b : PreOrderStatus)
      → row.to_status ≡ b
      → may_follow a b ≡ true
      → is_confirmed b ≡ is_confirmed a
      → is_draft b ≡ false
      → is_open_status a ≡ true
      → Fits b (rows ++ row ∷ []) links order
  Fits-open b to may same out old = record {
    trail = moved row h.trail from to may;
    ordered = h.ordered ∙ sym same;
    unsent = λ d. absurd (ground arith);
    single = h.single;
    unused = λ _. h.unused old;
  }

  -- The client closes the quote, with an order or without.
  pub Fits-closed :
      (b : PreOrderStatus) (made : Option ℕ) (hash : Text) (action : ClientAction) (now : ℕ)
      (said : Option Text)
      → row.to_status ≡ b
      → may_follow a b ≡ true
      → has_value made ≡ is_confirmed b
      → is_draft b ≡ false
      → is_open_status b ≡ false
      → Fits b (rows ++ row ∷ []) (mark_used hash action now said links) made
  Fits-closed b made hash action now said to may right out closed = record {
    trail = moved row h.trail from to may;
    ordered = right;
    unsent = λ d. absurd (ground arith);
    single = omega (arith, h.single, active_links-mark_used hash action now said links);
    unused = λ o. absurd (ground arith);
  }
