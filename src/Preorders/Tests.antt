-- ===== src/Preorders/Tests.antt =====
-- A quote that is sent, asked to change, sent again and confirmed, and the theorems on it.
use opticutter_api.Prelude.{not, ℕ, ◌≡◌, refl, true, false, none, [], ◌∷◌, map}
use opticutter_api.Preorders.Quote.{
  is_confirmed, sent, confirmed, is_open_status, used, revoked, system_actor, born, PreOrder,
  record_transition, create_quote, is_stale, fetch,
}
use opticutter_api.Cutting.Models.{Text}
use opticutter_api.Preorders.Calls.{
  delete_at, delete, minted, find_link, mark_used, revoked_status, revoke_active, answered, update,
  mark_sent, generate, close_sale, mint, confirm_at, confirm, withdraw, reject_at, reject, ask,
  request_at, request_changes, read_quote,
}
use opticutter_api.Preorders.Closed.{
  send_it, confirm_it, delete_it, is_removed, ask_changes, answer, row_after, answer-closed,
}
use opticutter_api.Preorders.Kept.{IsQuote}
use opticutter_api.Preorders.Reached.{IsReached, created, called, IsReached-IsQuote}

program : Unit {0}
unfolding answer row_after is_removed delete_at delete is_confirmed create_quote record_transition
    is_stale fetch find_link mark_used revoked_status revoke_active answered update mark_sent
    generate close_sale mint confirm_at confirm withdraw reject_at reject ask request_at
    request_changes read_quote is_open_status
program = tt

-- The inputs are a number here.
abbrev Quote : Type 0
Quote = PreOrder ℕ

abbrev born_quote : Quote
born_quote = create_quote 100 15 system_actor born 7

abbrev token : ℕ → Text
token k = k ∷ []

abbrev sent_quote : Quote
sent_quote = row_after (answer (send_it 101 system_actor true none 15 (token 1)) born_quote)

abbrev asked_quote : Quote
asked_quote = row_after (answer (ask_changes 102 (token 1) none) sent_quote)

abbrev resent_quote : Quote
resent_quote = row_after (answer (send_it 103 system_actor true none 15 (token 2)) asked_quote)

abbrev sold_quote : Quote
sold_quote = row_after (answer (confirm_it 104 (token 2) none (minted 55)) resent_quote)

sold_status : sold_quote.status ≡ confirmed
unfolding program
sold_status = refl

sold_links : map (λ l. l.status) sold_quote.review_links ≡ revoked ∷ used ∷ []
unfolding program
sold_links = refl

-- The link that was replaced confirms nothing.
old_link :
    (row_after (answer (confirm_it 104 (token 1) none (minted 55)) resent_quote)).status ≡ sent
unfolding program
old_link = refl

-- Past its validity the quote expires, whoever asks.
late_order :
    (row_after (answer (confirm_it 200 (token 2) none (minted 55)) resent_quote)).order_id ≡ none
unfolding program
late_order = refl

sold_quote-IsReached : IsReached sold_quote
unfolding program
sold_quote-IsReached =
    called (confirm_it 104 (token 2) none (minted 55)) resent_quote
      (called (send_it 103 system_actor true none 15 (token 2)) asked_quote
        (called (ask_changes 102 (token 1) none) sent_quote
          (called (send_it 101 system_actor true none 15 (token 1)) born_quote
            (created 100 15 system_actor born 7) refl)
          refl)
        refl)
      refl

IsReached-IsQuote_example : IsQuote sold_quote
IsReached-IsQuote_example = IsReached-IsQuote sold_quote sold_quote-IsReached

sold_closed : is_open_status sold_quote.status ≡ false
unfolding program
sold_closed = refl

-- A confirmed quote is not deleted, one that is sent is.
deleted :
    (is_removed (answer (delete_it 105) sold_quote) ≡ false)
    × (is_removed (answer (delete_it 103) sent_quote) ≡ true)
unfolding program
deleted = (refl, refl)

answer-closed_example :
    (row_after (answer (delete_it 105) sold_quote) ≡ sold_quote)
    × (is_removed (answer (delete_it 105) sold_quote) ≡ not (is_confirmed sold_quote.status))
answer-closed_example = answer-closed (delete_it 105) sold_quote sold_closed
