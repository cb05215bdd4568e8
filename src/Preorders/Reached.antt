-- ===== src/Preorders/Reached.antt =====
-- The quotes to which calls lead, and what holds of each of them.
use opticutter_api.Prelude.{
  ℕ, ◌≡◌, refl, ap, ◌∙◌, Bool, true, false, Bool-cases, inl, inr, Option, none, some,
}
use opticutter_api.Cutting.Models.{Text}
use opticutter_api.Preorders.Quote.{
  PreOrderStatus, draft, sent, changes_requested, confirmed, rejected, expired, cancelled,
  is_open_status, QuoteActor, QuoteNote, ReviewLink, PreOrder, create_quote, fetch,
}
use opticutter_api.Preorders.Calls.{
  delete_at, delete, Reply, done, refused, link_not_found, inputs_refused, find_link, answered,
  update, generate, confirm, reject, request_changes, read_quote,
}
use opticutter_api.Preorders.Closed.{
  QuoteCall, read_it, edit_it, send_it, confirm_it, reject_it, ask_changes, answer, row_after,
  delete_it, is_removed,
}
use opticutter_api.Preorders.Moves.{is_draft, found-sent, renewed-single, renewed-AreUnused}
use opticutter_api.Preorders.Kept.{
  IsQuote, create_quote-IsQuote, fetch-IsQuote, fetch-links, answered-IsQuote, mark_sent-IsQuote,
  confirm_at-IsQuote, reject_at-IsQuote, request_at-IsQuote,
}

module _ {ℓ} {Inputs : Type ℓ} where
  -- What holds where the client's link is known, given what holds of the call behind it.
  by_link :
      (q : PreOrder Inputs) (o : Option ReviewLink) (reply : Reply Inputs)
      → IsQuote q
      → ((link : ReviewLink) → o ≡ some link → IsQuote (row_after reply))
      → IsQuote (row_after (elim o [ none ↦ refused link_not_found q | some _ ↦ reply ]))
  unfolding row_after
  by_link q none reply h k = h
  by_link q (some link) reply h k = k link refl

  -- With a known link, the quote as it is fetched is no draft.
  fetched_sent :
      (now : ℕ) (hash : Text) (q : PreOrder Inputs) (link : ReviewLink)
      → find_link hash q.review_links ≡ some link
      → IsQuote q
      → is_draft (fetch now q).status ≡ false
  fetched_sent now hash q link e h =
      found-sent hash link (ap (find_link hash) (fetch-links now q) ∙ e) (fetch-IsQuote now q h)

  update-IsQuote :
      (now : ℕ) (actor : QuoteActor) (problem : Option ℕ) (inputs : Inputs) (q : PreOrder Inputs)
      → IsQuote q
      → IsQuote (row_after (update now actor problem inputs q))
  unfolding update row_after
  update-IsQuote now actor problem inputs q h =
      elim (Bool-cases (is_open_status (fetch now q).status)) [
        | inl e ↦ rw e (go problem)
        | inr e ↦ rw e (fetch-IsQuote now q h)
      ]
    where
      go :
          (o : Option ℕ)
          → IsQuote (
              row_after (elim o [
                | some why ↦ refused (inputs_refused why) (fetch now q)
                | none ↦
                    done
                      (record (answered
                        (fetch now q).status
                        actor
                        (record (fetch now q) { inputs = inputs })) { updated_by = actor.user_id })
              ]))
      go (some why) = fetch-IsQuote now q h
      go none =
          answered-IsQuote (fetch now q).status actor (record (fetch now q) { inputs = inputs })
            refl (fetch-IsQuote now q h)

  generate-IsQuote :
      (now : ℕ) (actor : QuoteActor) (phone : Bool) (problem : Option ℕ) (validity : ℕ)
      (hash : Text) (q : PreOrder Inputs)
      → IsQuote q
      → IsQuote (row_after (generate now actor phone problem validity hash q))
  unfolding generate row_after
  generate-IsQuote now actor false problem validity hash q h =
      elim (Bool-cases (is_open_status (fetch now q).status)) [
        | inl e ↦ rw e (fetch-IsQuote now q h)
        | inr e ↦ rw e (fetch-IsQuote now q h)
      ]
  generate-IsQuote now actor true (some why) validity hash q h =
      elim (Bool-cases (is_open_status (fetch now q).status)) [
        | inl e ↦ rw e (fetch-IsQuote now q h)
        | inr e ↦ rw e (fetch-IsQuote now q h)
      ]
  generate-IsQuote now actor true none validity hash q h =
      let row = fetch now q in
      let fetched = fetch-IsQuote now q h in
      elim (Bool-cases (is_open_status (fetch now q).status)) [
        | inl e ↦ rw e (
            mark_sent-IsQuote row.status actor row refl e fetched _
              (renewed-single row.review_links _ refl)
              (renewed-AreUnused row.review_links _ refl (fetched.unused e)))
        | inr e ↦ rw e fetched
      ]

  delete_at-IsQuote :
      (st : PreOrderStatus) (q : PreOrder Inputs) → IsQuote q → IsQuote (row_after (delete_at st q))
  unfolding delete_at row_after
  delete_at-IsQuote draft q h = h
  delete_at-IsQuote sent q h = h
  delete_at-IsQuote changes_requested q h = h
  delete_at-IsQuote confirmed q h = h
  delete_at-IsQuote rejected q h = h
  delete_at-IsQuote expired q h = h
  delete_at-IsQuote cancelled q h = h

  answer-IsQuote :
      (c : QuoteCall Inputs) (q : PreOrder Inputs) → IsQuote q → IsQuote (row_after (answer c q))
  unfolding answer row_after read_quote confirm reject request_changes delete
  answer-IsQuote (read_it now) q h = fetch-IsQuote now q h
  answer-IsQuote (edit_it now actor problem inputs) q h =
      update-IsQuote now actor problem inputs q h
  answer-IsQuote (send_it now actor phone problem validity hash) q h =
      generate-IsQuote now actor phone problem validity hash q h
  answer-IsQuote (delete_it now) q h =
      delete_at-IsQuote (fetch now q).status (fetch now q) (fetch-IsQuote now q h)
  answer-IsQuote (confirm_it now hash said outcome) q h =
      by_link q (find_link hash q.review_links) _ h (λ link e.
        confirm_at-IsQuote _ now hash said outcome (fetch now q) refl
          (fetched_sent now hash q link e h) (fetch-IsQuote now q h))
  answer-IsQuote (reject_it now hash said) q h =
      by_link q (find_link hash q.review_links) _ h (λ link e.
        reject_at-IsQuote _ now hash said (fetch now q) refl (fetched_sent now hash q link e h)
          (fetch-IsQuote now q h))
  answer-IsQuote (ask_changes now hash said) q h =
      by_link q (find_link hash q.review_links) _ h (λ link e.
        request_at-IsQuote _ said (fetch now q) refl (fetched_sent now hash q link e h)
          (fetch-IsQuote now q h))

-- The quotes to which calls lead, from their creation. A call that deletes the quote leads to none.
pub data IsReached {ℓ} {Inputs : Type ℓ} : PreOrder Inputs → Type ℓ where
  created :
      (now validity : ℕ) (actor : QuoteActor) (said : QuoteNote) (inputs : Inputs)
      → IsReached (create_quote now validity actor said inputs)
  called :
      (c : QuoteCall Inputs) (q : PreOrder Inputs)
      → IsReached q
      → is_removed (answer c q) ≡ false
      → IsReached (row_after (answer c q))

-- Of every quote to which calls lead: its history goes by the moves of a quote from the draft to its
-- status; it has an order exactly when it is confirmed; a draft has no link; at most one link is
-- active; and while the quote is open no link is used.
pub IsReached-IsQuote {ℓ} : {Inputs : Type ℓ} (q : PreOrder Inputs) → IsReached q → IsQuote q
IsReached-IsQuote _ (created now validity actor said inputs) =
    create_quote-IsQuote now validity actor said inputs
IsReached-IsQuote _ (called c q h stays) = answer-IsQuote c q (IsReached-IsQuote q h)
