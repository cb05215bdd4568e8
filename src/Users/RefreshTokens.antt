-- ===== src/Users/RefreshTokens.antt =====
-- src/modules/users/refresh_token_service.py: issuing, rotating and revoking refresh tokens. The rows are
-- lists in the order of their ids; `hash_token`, the tokens that are generated and the clock are
-- arguments.
use opticutter_api.Prelude.{
  ℕ, ◌+◌, Bool, true, false, ◌&&◌, List, [], ◌∷◌, ◌++◌, Option, none, some, map, leb, ◌==◌,
  if◌then◌else◌,
}
use opticutter_api.Cutting.Models.{Text}

pub record RefreshToken : Type 0 where
  pub user_id : ℕ
  pub token_hash : ℕ
  pub expires_at : ℕ
  pub revoked_at : Option ℕ

pub record User : Type 0 where
  pub id : ℕ
  pub is_active : Bool

pub record Sessions : Type 0 where
  pub users : List User
  pub tokens : List RefreshToken

pub data Rotation : Type 0 where
  invalid_session inactive_user : Rotation
  rotated : User → Text → Rotation

-- `.filter(token_hash == …).first()`
unfoldable pub find_token : ℕ → List RefreshToken → Option RefreshToken
find_token hash [] = none
find_token hash (t ∷ ts) = if t.token_hash == hash then some t else find_token hash ts

-- `self.db.get(UserModel, user_id)`
unfoldable pub find_user : ℕ → List User → Option User
find_user id [] = none
find_user id (u ∷ us) = if u.id == id then some u else find_user id us

abbrev pub is_live : RefreshToken → Bool
is_live t = elim t.revoked_at [ none ↦ true | some at ↦ false ]

-- `record.revoked_at = now` of the row that `find_token` finds.
unfoldable pub revoke_found : ℕ → ℕ → List RefreshToken → List RefreshToken
revoke_found hash now [] = []
revoke_found hash now (t ∷ ts) =
    if t.token_hash == hash
    then record t { revoked_at = some now } ∷ ts
    else t ∷ revoke_found hash now ts

abbrev pub revoke_if : ℕ → ℕ → RefreshToken → RefreshToken
revoke_if user_id now t =
    if t.user_id == user_id && is_live t then record t { revoked_at = some now } else t

unfoldable pub revoke_all_for_user : ℕ → ℕ → Sessions → Sessions
revoke_all_for_user user_id now s = record s { tokens = map (revoke_if user_id now) s.tokens }

-- How long a token lasts, and the hash of one.
module _ (lifetime : ℕ) (hash_token : Text → ℕ) where
  unfoldable pub new_token : ℕ → Text → ℕ → RefreshToken
  new_token user_id raw now = record {
    user_id = user_id;
    token_hash = hash_token raw;
    expires_at = now + lifetime;
    revoked_at = none;
  }

  unfoldable pub issue : ℕ → Text → ℕ → Sessions → Sessions
  issue user_id raw now s = record s { tokens = s.tokens ++ new_token user_id raw now ∷ [] }

  -- `rotate` from the user on.
  unfoldable pub renew : Option User → Text → Text → ℕ → Sessions → Rotation × Sessions
  renew none raw raw_new now s = (inactive_user, s)
  renew (some u) raw raw_new now s =
      if u.is_active
      then (
        rotated u raw_new,
        record s {
          tokens = revoke_found (hash_token raw) now s.tokens ++ new_token u.id raw_new now ∷ [];
        },
      )
      else (inactive_user, s)

  unfoldable pub rotate_found :
      Option RefreshToken → Text → Text → ℕ → Sessions → Rotation × Sessions
  rotate_found none raw raw_new now s = (invalid_session, s)
  rotate_found (some t) raw raw_new now s =
      if leb t.expires_at now
      then (invalid_session, s)
      else if is_live t
      then renew (find_user t.user_id s.users) raw raw_new now s
      else (invalid_session, revoke_all_for_user t.user_id now s)

  unfoldable pub rotate : Text → Text → ℕ → Sessions → Rotation × Sessions
  rotate raw raw_new now s = rotate_found (find_token (hash_token raw) s.tokens) raw raw_new now s

  unfoldable pub revoke_live : Option RefreshToken → Text → ℕ → Sessions → Sessions
  revoke_live none raw now s = s
  revoke_live (some t) raw now s =
      if is_live t then record s { tokens = revoke_found (hash_token raw) now s.tokens } else s

  unfoldable pub revoke : Text → ℕ → Sessions → Sessions
  revoke raw now s = revoke_live (find_token (hash_token raw) s.tokens) raw now s
