-- ===== src/Preorders/Quote.antt =====
-- src/modules/preorders/model.py and service.py: a quote, one row with its review links and its
-- history as lists, and what every call does first. Instants are numbers; `now` is the clock.
use opticutter_api.Prelude.{
  ℕ, ◌+◌, Bool, true, false, Option, none, some, List, [], ◌∷◌, ◌++◌, ltb, if◌then◌else◌,
}
use opticutter_api.Cutting.Models.{Text}

pub data PreOrderStatus : Type 0 where
  draft sent changes_requested confirmed rejected expired cancelled : PreOrderStatus

unfoldable pub is_confirmed : PreOrderStatus → Bool
is_confirmed confirmed = true
is_confirmed _ = false

-- `OPEN_STATUSES`
unfoldable pub is_open_status : PreOrderStatus → Bool
is_open_status draft = true
is_open_status sent = true
is_open_status changes_requested = true
is_open_status confirmed = false
is_open_status rejected = false
is_open_status expired = false
is_open_status cancelled = false

pub data ReviewLinkStatus : Type 0 where
  active used revoked : ReviewLinkStatus

-- Who acts: the staff user with an id and a label, the client of the link, or the system.
pub data ActorKind : Type 0 where
  staff client system : ActorKind

pub record QuoteActor : Type 0 where
  pub kind : ActorKind
  pub user_id : Option ℕ
  pub label : Option Text

abbrev pub system_actor : QuoteActor
system_actor = record { kind = ActorKind.system; user_id = none; label = none }

abbrev pub client_actor : QuoteActor
client_actor = record {
  kind = ActorKind.client;
  user_id = none;
  label = some (b'C' ∷ b'l' ∷ b'i' ∷ b'e' ∷ b'n' ∷ b't' ∷ b'e' ∷ []);
}

-- What an entry's note says: one of the service's own texts, or the client's words.
pub data QuoteNote : Type 0 where
  born validity_over link_sent changes_addressed : QuoteNote
  words : Option Text → QuoteNote

pub record QuoteHistory : Type 0 where
  pub from_status : Option PreOrderStatus
  pub to_status : PreOrderStatus
  pub actor : QuoteActor
  pub note : QuoteNote

pub data ClientAction : Type 0 where
  confirmed_it rejected_it : ClientAction

pub record ReviewLink : Type 0 where
  pub token_hash : Text
  pub status : ReviewLinkStatus
  pub expires_at : Option ℕ
  pub used_at : Option ℕ
  pub used_meta : Option (ClientAction × Option Text)

-- `inputs` is what `update` may edit: the cut list and all that goes with it.
pub record PreOrder {ℓ} (Inputs : Type ℓ) : Type ℓ where
  pub status : PreOrderStatus
  pub inputs : Inputs
  pub client_note : Option Text
  pub order_id : Option ℕ
  pub sent_at : Option ℕ
  pub confirmed_at : Option ℕ
  pub expires_at : Option ℕ
  pub updated_by : Option ℕ
  pub review_links : List ReviewLink
  pub history : List QuoteHistory

module _ {ℓ} {Inputs : Type ℓ} where
  -- `_record_transition`, and the new status that every caller assigns after it.
  unfoldable pub record_transition :
      PreOrder Inputs → PreOrderStatus → QuoteActor → QuoteNote → PreOrder Inputs
  record_transition q to_status actor note = record q {
    status = to_status;
    history =
        q.history
        ++ record { from_status = some q.status; to_status = to_status; actor = actor; note = note }
          ∷ [];
  }

  -- `create`, once its checks have passed and its row has its id.
  unfoldable pub create_quote : ℕ → ℕ → QuoteActor → QuoteNote → Inputs → PreOrder Inputs
  create_quote now validity actor note inputs = record {
    status = draft;
    inputs = inputs;
    client_note = none;
    order_id = none;
    sent_at = none;
    confirmed_at = none;
    expires_at = some (now + validity);
    updated_by = none;
    review_links = [];
    history = record { from_status = none; to_status = draft; actor = actor; note = note } ∷ [];
  }

  unfoldable pub is_stale : ℕ → PreOrder Inputs → Bool
  is_stale now q = elim q.expires_at [
    | none ↦ false
    | some end ↦ if is_open_status q.status then ltb end now else false
  ]

  -- `get_or_404`: `_expire_if_stale`, which is committed whatever the call does next.
  unfoldable pub fetch : ℕ → PreOrder Inputs → PreOrder Inputs
  fetch now q = if is_stale now q then record_transition q expired system_actor validity_over else q
