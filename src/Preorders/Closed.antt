-- ===== src/Preorders/Closed.antt =====
-- Runs of a quote: the calls that may come, and what they do to a closed quote.
use opticutter_api.Prelude.{
  ℕ, ◌≡◌, refl, Bool, true, false, not, ◌&&◌, Option, none, some, ltb, arith, if◌then◌else◌,
}
use opticutter_api.Cutting.Models.{Text}
use opticutter_api.Preorders.Quote.{
  is_confirmed, PreOrderStatus, draft, sent, changes_requested, confirmed, rejected, expired,
  cancelled, is_open_status, QuoteActor, system_actor, validity_over, ReviewLink, PreOrder,
  record_transition, is_stale, fetch,
}
use opticutter_api.Preorders.Calls.{
  Minted, Reply, done, refused, link_not_found, find_link, update, generate, confirm, confirm_at,
  reject, reject_at, request_changes, request_at, read_quote, removed, delete_at, delete,
}

-- The calls on a quote, with what they are given.
pub data QuoteCall {ℓ} (Inputs : Type ℓ) : Type ℓ where
  read_it : ℕ → QuoteCall Inputs
  edit_it : ℕ → QuoteActor → Option ℕ → Inputs → QuoteCall Inputs
  send_it : ℕ → QuoteActor → Bool → Option ℕ → ℕ → Text → QuoteCall Inputs
  confirm_it : ℕ → Text → Option Text → Minted → QuoteCall Inputs
  reject_it : ℕ → Text → Option Text → QuoteCall Inputs
  ask_changes : ℕ → Text → Option Text → QuoteCall Inputs
  delete_it : ℕ → QuoteCall Inputs

abbrev pub is_delete {ℓ} : {Inputs : Type ℓ} → QuoteCall Inputs → Bool
is_delete (delete_it now) = true
is_delete (read_it now) = false
is_delete (edit_it now actor problem inputs) = false
is_delete (send_it now actor phone problem validity hash) = false
is_delete (confirm_it now hash said outcome) = false
is_delete (reject_it now hash said) = false
is_delete (ask_changes now hash said) = false

module _ {ℓ} {Inputs : Type ℓ} where
  unfoldable pub answer : QuoteCall Inputs → PreOrder Inputs → Reply Inputs
  answer (read_it now) q = read_quote now q
  answer (edit_it now actor problem inputs) q = update now actor problem inputs q
  answer (send_it now actor phone problem validity hash) q =
      generate now actor phone problem validity hash q
  answer (confirm_it now hash said outcome) q = confirm now hash said outcome q
  answer (reject_it now hash said) q = reject now hash said q
  answer (ask_changes now hash said) q = request_changes now hash said q
  answer (delete_it now) q = delete now q

  -- The row after the call, or as it was when the call deleted it.
  unfoldable pub row_after : Reply Inputs → PreOrder Inputs
  row_after (done q) = q
  row_after (refused _ q) = q
  row_after (removed q) = q

  unfoldable pub is_removed : Reply Inputs → Bool
  is_removed (done q) = false
  is_removed (refused _ q) = false
  is_removed (removed q) = true

  -- What a call does to a closed quote: the row stays as it is, unless the call deletes it.
  abbrev pub Keeps : Bool → PreOrder Inputs → Reply Inputs → Type ℓ
  Keeps deletes q reply = (row_after reply ≡ q) × (is_removed reply ≡ deletes)

  fetch-closed : (now : ℕ) (q : PreOrder Inputs) → is_open_status q.status ≡ false → fetch now q ≡ q
  unfolding fetch is_stale
  fetch-closed now q h = go q.expires_at
    where
      go :
          (o : Option ℕ)
          → (if elim o [
            | none ↦ false
            | some end ↦ if is_open_status q.status then ltb end now else false
          ]
              then record_transition q expired system_actor validity_over
              else q)
            ≡ q
      go none = refl
      go (some end) = rw h refl

  confirm_at-closed :
      (st : PreOrderStatus) (now : ℕ) (hash : Text) (said : Option Text) (outcome : Minted)
      (q : PreOrder Inputs)
      → is_open_status st ≡ false
      → Keeps false q (confirm_at st now hash said outcome q)
  unfolding confirm_at row_after is_removed is_open_status
  confirm_at-closed draft now hash said outcome q h = absurd (ground arith)
  confirm_at-closed sent now hash said outcome q h = absurd (ground arith)
  confirm_at-closed changes_requested now hash said outcome q h = absurd (ground arith)
  confirm_at-closed confirmed now hash said outcome q h = (refl, refl)
  confirm_at-closed rejected now hash said outcome q h = (refl, refl)
  confirm_at-closed expired now hash said outcome q h = (refl, refl)
  confirm_at-closed cancelled now hash said outcome q h = (refl, refl)

  reject_at-closed :
      (st : PreOrderStatus) (now : ℕ) (hash : Text) (said : Option Text) (q : PreOrder Inputs)
      → is_open_status st ≡ false
      → Keeps false q (reject_at st now hash said q)
  unfolding reject_at row_after is_removed is_open_status
  reject_at-closed draft now hash said q h = absurd (ground arith)
  reject_at-closed sent now hash said q h = absurd (ground arith)
  reject_at-closed changes_requested now hash said q h = absurd (ground arith)
  reject_at-closed confirmed now hash said q h = (refl, refl)
  reject_at-closed rejected now hash said q h = (refl, refl)
  reject_at-closed expired now hash said q h = (refl, refl)
  reject_at-closed cancelled now hash said q h = (refl, refl)

  request_at-closed :
      (st : PreOrderStatus) (said : Option Text) (q : PreOrder Inputs)
      → is_open_status st ≡ false
      → Keeps false q (request_at st said q)
  unfolding request_at row_after is_removed is_open_status
  request_at-closed draft said q h = absurd (ground arith)
  request_at-closed sent said q h = absurd (ground arith)
  request_at-closed changes_requested said q h = absurd (ground arith)
  request_at-closed confirmed said q h = (refl, refl)
  request_at-closed rejected said q h = (refl, refl)
  request_at-closed expired said q h = (refl, refl)
  request_at-closed cancelled said q h = (refl, refl)

  -- What a call by the client does where its link is known, or is not.
  through_link :
      (o : Option ReviewLink) (q : PreOrder Inputs) (reply : Reply Inputs)
      → Keeps false q reply
      → Keeps false q (elim o [ none ↦ refused link_not_found q | some _ ↦ reply ])
  unfolding row_after is_removed
  through_link none q reply h = (refl, refl)
  through_link (some link) q reply h = h

  delete_at-closed :
      (st : PreOrderStatus) (q : PreOrder Inputs)
      → is_open_status st ≡ false
      → Keeps (not (is_confirmed st)) q (delete_at st q)
  unfolding delete_at row_after is_removed is_confirmed is_open_status
  delete_at-closed draft q h = absurd (ground arith)
  delete_at-closed sent q h = absurd (ground arith)
  delete_at-closed changes_requested q h = absurd (ground arith)
  delete_at-closed confirmed q h = (refl, refl)
  delete_at-closed rejected q h = (refl, refl)
  delete_at-closed expired q h = (refl, refl)
  delete_at-closed cancelled q h = (refl, refl)

  -- Of a quote that is confirmed, rejected, expired or cancelled: a read, an edit, a sending, a
  -- confirmation, a rejection, a request for changes and a deletion all leave the row as it is, but that
  -- the deletion removes it when it is not confirmed.
  pub answer-closed :
      (c : QuoteCall Inputs) (q : PreOrder Inputs)
      → is_open_status q.status ≡ false
      → Keeps (is_delete c && not (is_confirmed q.status)) q (answer c q)
  unfolding answer row_after is_removed read_quote update generate confirm reject request_changes
      delete
  answer-closed (read_it now) q h = (fetch-closed now q h, refl)
  answer-closed (edit_it now actor problem inputs) q h = rw (fetch-closed now q h, h) (refl, refl)
  answer-closed (send_it now actor phone problem validity hash) q h =
      rw (fetch-closed now q h, h) (refl, refl)
  answer-closed (confirm_it now hash said outcome) q h =
      through_link (find_link hash q.review_links) q _
        (rw (fetch-closed now q h) (confirm_at-closed q.status now hash said outcome q h))
  answer-closed (reject_it now hash said) q h =
      through_link (find_link hash q.review_links) q _
        (rw (fetch-closed now q h) (reject_at-closed q.status now hash said q h))
  answer-closed (ask_changes now hash said) q h =
      through_link (find_link hash q.review_links) q _
        (rw (fetch-closed now q h) (request_at-closed q.status said q h))
  answer-closed (delete_it now) q h = rw (fetch-closed now q h) (delete_at-closed q.status q h)
