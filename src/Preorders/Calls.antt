-- ===== src/Preorders/Calls.antt =====
-- src/modules/preorders/service.py, `update`, and review_service.py: the calls on a quote. What the
-- engine, the client's row and `OrderService.create` say is an argument of the call.
use opticutter_api.Prelude.{
  ℕ, ◌+◌, Bool, Option, none, some, List, [], ◌∷◌, ◌++◌, map, if◌then◌else◌,
}
use opticutter_api.Cutting.Models.{Text}
use opticutter_api.Cutting.Constructors.Order.{same_id}
use opticutter_api.Preorders.Quote.{
  PreOrderStatus, draft, sent, changes_requested, confirmed, rejected, expired, cancelled,
  is_open_status, ReviewLinkStatus, active, used, revoked, QuoteActor, client_actor, link_sent,
  changes_addressed, words, ClientAction, confirmed_it, rejected_it, ReviewLink, PreOrder,
  record_transition, fetch,
}

pub data QuoteRefusal : Type 0 where
  link_not_found not_editable not_reviewable no_phone : QuoteRefusal
  quote_expired nothing_to_reject quote_withdrawn quote_confirmed : QuoteRefusal
  unplaced_pieces assembly_mismatch : QuoteRefusal
  -- what a check of the inputs, or of the order to create, raised
  confirmed_stays : QuoteRefusal
  inputs_refused order_refused : ℕ → QuoteRefusal

-- What `OrderService.create` gave: the order's id, or what it raised.
pub data Minted : Type 0 where
  minted : ℕ → Minted
  unplaced mismatch : Minted
  raised : ℕ → Minted

-- The quote as the call leaves it; a refusal keeps what `fetch` committed. `removed` has the row as it
-- was when it was deleted, with its links and history.
pub data Reply {ℓ} (Inputs : Type ℓ) : Type ℓ where
  done : PreOrder Inputs → Reply Inputs
  refused : QuoteRefusal → PreOrder Inputs → Reply Inputs
  removed : PreOrder Inputs → Reply Inputs

-- `_get_by_token_or_404`: the link of the hash, unless it is revoked. The hash is unique.
unfoldable pub find_link : Text → List ReviewLink → Option ReviewLink
find_link token_hash [] = none
find_link token_hash (link ∷ links) =
    if same_id token_hash link.token_hash
    then elim link.status [ revoked ↦ none | active ↦ some link | used ↦ some link ]
    else find_link token_hash links

-- `_mark_used`, on the link of the hash.
unfoldable pub mark_used : Text → ClientAction → ℕ → Option Text → List ReviewLink → List ReviewLink
mark_used token_hash action now said [] = []
mark_used token_hash action now said (link ∷ links) =
    if same_id token_hash link.token_hash
    then record link { status = used; used_at = some now; used_meta = some (action, said) } ∷ links
    else link ∷ mark_used token_hash action now said links

-- `if previous.status == active: previous.status = revoked`
unfoldable pub revoked_status : ReviewLinkStatus → ReviewLinkStatus
revoked_status active = revoked
revoked_status used = used
revoked_status revoked = revoked

unfoldable pub revoke_active : ReviewLink → ReviewLink
revoke_active link = record link { status = revoked_status link.status }

module _ {ℓ} {Inputs : Type ℓ} where
  -- The end of `update`: an answered request goes back to the client.
  unfoldable pub answered : PreOrderStatus → QuoteActor → PreOrder Inputs → PreOrder Inputs
  answered changes_requested actor q = record (record_transition q sent actor changes_addressed) {
    client_note = none;
  }
  answered draft actor q = q
  answered sent actor q = q
  answered confirmed actor q = q
  answered rejected actor q = q
  answered expired actor q = q
  answered cancelled actor q = q

  -- `update`; `problem` is what the checks of the new inputs raise.
  unfoldable pub update : ℕ → QuoteActor → Option ℕ → Inputs → PreOrder Inputs → Reply Inputs
  update now actor problem inputs row =
      let q = fetch now row in
      if is_open_status q.status
      then elim problem [
        | some why ↦ refused (inputs_refused why) q
        | none ↦ done (record (answered q.status actor (record q { inputs = inputs })) {
          updated_by = actor.user_id;
        })
      ]
      else refused not_editable q

  -- `if preorder.status != sent: …`
  unfoldable pub mark_sent : PreOrderStatus → QuoteActor → PreOrder Inputs → PreOrder Inputs
  mark_sent sent actor q = q
  mark_sent draft actor q = record_transition q sent actor link_sent
  mark_sent changes_requested actor q = record_transition q sent actor link_sent
  mark_sent confirmed actor q = record_transition q sent actor link_sent
  mark_sent rejected actor q = record_transition q sent actor link_sent
  mark_sent expired actor q = record_transition q sent actor link_sent
  mark_sent cancelled actor q = record_transition q sent actor link_sent

  -- `PreOrderReviewService.generate`, of the hash of a fresh token.
  unfoldable pub generate :
      ℕ → QuoteActor → Bool → Option ℕ → ℕ → Text → PreOrder Inputs → Reply Inputs
  generate now actor has_phone problem validity token_hash row =
      let q = fetch now row in
      if is_open_status q.status
      then (if has_phone
          then elim problem [
            | some why ↦ refused (inputs_refused why) q
            | none ↦ done (record (mark_sent q.status actor q) {
              sent_at = some now;
              expires_at = some (now + validity);
              review_links =
                  map revoke_active q.review_links
                  ++ record {
                    token_hash = token_hash;
                    status = active;
                    expires_at = some (now + validity);
                    used_at = none;
                    used_meta = none;
                  }
                    ∷ [];
            })
          ]
          else refused no_phone q)
      else refused not_reviewable q

  -- `confirm` of an open quote, once the order is there.
  unfoldable pub close_sale : ℕ → Text → Option Text → ℕ → PreOrder Inputs → PreOrder Inputs
  close_sale now token_hash said order q =
      record (record_transition q confirmed client_actor (words said)) {
        confirmed_at = some now;
        order_id = some order;
        review_links = mark_used token_hash confirmed_it now said q.review_links;
      }

  unfoldable pub mint : ℕ → Text → Option Text → Minted → PreOrder Inputs → Reply Inputs
  mint now token_hash said (minted order) q = done (close_sale now token_hash said order q)
  mint now token_hash said unplaced q = refused unplaced_pieces q
  mint now token_hash said mismatch q = refused assembly_mismatch q
  mint now token_hash said (raised why) q = refused (order_refused why) q

  -- `confirm`, by the status of the quote.
  unfoldable pub confirm_at :
      PreOrderStatus → ℕ → Text → Option Text → Minted → PreOrder Inputs → Reply Inputs
  confirm_at expired now token_hash said outcome q = refused quote_expired q
  confirm_at rejected now token_hash said outcome q = refused quote_withdrawn q
  confirm_at cancelled now token_hash said outcome q = refused quote_withdrawn q
  confirm_at confirmed now token_hash said outcome q = done q
  confirm_at draft now token_hash said outcome q = mint now token_hash said outcome q
  confirm_at sent now token_hash said outcome q = mint now token_hash said outcome q
  confirm_at changes_requested now token_hash said outcome q = mint now token_hash said outcome q

  unfoldable pub confirm : ℕ → Text → Option Text → Minted → PreOrder Inputs → Reply Inputs
  confirm now token_hash said outcome row = elim (find_link token_hash row.review_links) [
    | none ↦ refused link_not_found row
    | some _ ↦ let q = fetch now row in confirm_at q.status now token_hash said outcome q
  ]

  unfoldable pub withdraw : ℕ → Text → Option Text → PreOrder Inputs → PreOrder Inputs
  withdraw now token_hash said q = record (record_transition q rejected client_actor (words said)) {
    review_links = mark_used token_hash rejected_it now said q.review_links;
  }

  unfoldable pub reject_at :
      PreOrderStatus → ℕ → Text → Option Text → PreOrder Inputs → Reply Inputs
  reject_at rejected now token_hash said q = done q
  reject_at cancelled now token_hash said q = done q
  reject_at expired now token_hash said q = refused nothing_to_reject q
  reject_at confirmed now token_hash said q = refused quote_confirmed q
  reject_at draft now token_hash said q = done (withdraw now token_hash said q)
  reject_at sent now token_hash said q = done (withdraw now token_hash said q)
  reject_at changes_requested now token_hash said q = done (withdraw now token_hash said q)

  unfoldable pub reject : ℕ → Text → Option Text → PreOrder Inputs → Reply Inputs
  reject now token_hash said row = elim (find_link token_hash row.review_links) [
    | none ↦ refused link_not_found row
    | some _ ↦ let q = fetch now row in reject_at q.status now token_hash said q
  ]

  unfoldable pub ask : Option Text → PreOrder Inputs → PreOrder Inputs
  ask said q = record (record_transition q changes_requested client_actor (words said)) {
    client_note = said;
  }

  unfoldable pub request_at : PreOrderStatus → Option Text → PreOrder Inputs → Reply Inputs
  request_at expired said q = refused quote_expired q
  request_at rejected said q = refused quote_withdrawn q
  request_at cancelled said q = refused quote_withdrawn q
  request_at confirmed said q = refused quote_confirmed q
  request_at draft said q = done (ask said q)
  request_at sent said q = done (ask said q)
  request_at changes_requested said q = done (record q { client_note = said })

  unfoldable pub request_changes : ℕ → Text → Option Text → PreOrder Inputs → Reply Inputs
  request_changes now token_hash said row = elim (find_link token_hash row.review_links) [
    | none ↦ refused link_not_found row
    | some _ ↦ let q = fetch now row in request_at q.status said q
  ]

  -- A read of the quote by the staff or through its link.
  unfoldable pub read_quote : ℕ → PreOrder Inputs → Reply Inputs
  read_quote now row = done (fetch now row)

  unfoldable pub delete_at : PreOrderStatus → PreOrder Inputs → Reply Inputs
  delete_at confirmed q = refused confirmed_stays q
  delete_at draft q = removed q
  delete_at sent q = removed q
  delete_at changes_requested q = removed q
  delete_at rejected q = removed q
  delete_at expired q = removed q
  delete_at cancelled q = removed q

  unfoldable pub delete : ℕ → PreOrder Inputs → Reply Inputs
  delete now row = let q = fetch now row in delete_at q.status q
