-- ===== src/Users/Tests.antt =====
-- A session that is renewed twice, and one whose token comes back.
use opticutter_api.Prelude.{ℕ, ◌<◌, ◌≡◌, refl, true, [], ◌∷◌, none, some, arith}
use opticutter_api.Cutting.Models.{Text}
use opticutter_api.Users.RefreshTokens.{
  RefreshToken, User, Sessions, invalid_session, rotated, find_token, find_user, revoke_found,
  new_token, renew, rotate_found, rotate,
}
use opticutter_api.Users.RefreshLaws.{IsLoggedOut, rotate_once, rotate_next}

-- A hash that tells the texts here apart.
abbrev first_code : Text → ℕ
first_code [] = 0
first_code (c ∷ cs) = c

abbrev ana : User
ana = record { id = 4; is_active = true }

abbrev token : ℕ → RefreshToken
token code = record { user_id = 4; token_hash = code; expires_at = 100; revoked_at = none }

abbrev before : Sessions
before = record { users = ana ∷ []; tokens = token 1 ∷ token 2 ∷ [] }

abbrev after : Sessions
after = record {
  users = ana ∷ [];
  tokens =
      record (token 1) { revoked_at = some 10 }
      ∷ token 2
      ∷ record { user_id = 4; token_hash = 3; expires_at = 110; revoked_at = none }
      ∷ [];
}

renewed_session : rotate 100 first_code (1 ∷ []) (3 ∷ []) 10 before ≡ (rotated ana (3 ∷ []), after)
unfolding rotate rotate_found renew find_token find_user revoke_found new_token
renewed_session = refl

rotate_once_example :
    ((rotate 100 first_code (1 ∷ []) (5 ∷ []) 20 after).0 ≡ invalid_session)
    × (◌<◌ 20 100 → IsLoggedOut 4 (rotate 100 first_code (1 ∷ []) (5 ∷ []) 20 after).1)
rotate_once_example =
    rotate_once 100 first_code (1 ∷ []) (3 ∷ []) (5 ∷ []) 10 20 before ana after renewed_session
      (token 1) found
  where
    found : find_token 1 before.tokens ≡ some (token 1)
    found = unfold find_token in refl

rotate_next_example : (rotate 100 first_code (3 ∷ []) (5 ∷ []) 20 after).0 ≡ rotated ana (5 ∷ [])
rotate_next_example =
    rotate_next 100 first_code (1 ∷ []) (3 ∷ []) (5 ∷ []) 10 20 before ana after renewed_session
      fresh (omega arith)
  where
    fresh : find_token 3 before.tokens ≡ none
    fresh = unfold find_token in refl
