-- ===== src/Users/RefreshLaws.antt =====
-- src/modules/users/refresh_token_service.py: a refresh token works once, and its reuse ends the sessions of
-- its user.
use opticutter_api.Prelude.{
  ℕ, ◌+◌, ◌<◌, ◌≡◌, refl, sym, ap, subst, ◌∙◌, true, false, List, [], ◌∷◌, ◌++◌, Option, none, some,
  map, All, leb, ◌==◌, if◌then◌else◌, arith, Bool-cases, inl, inr,
}
use opticutter_api.Cutting.Models.{Text}
use opticutter_api.Users.RefreshTokens.{
  RefreshToken, User, Sessions, Rotation, invalid_session, inactive_user, rotated, find_token,
  find_user, is_live, revoke_found, revoke_if, revoke_all_for_user, new_token, renew, rotate_found,
  rotate,
}

-- No live token of the user is left.
abbrev pub IsLoggedOut : ℕ → Sessions → Type 0
IsLoggedOut user s = All (λ t. (t.user_id ≡ user) → is_live t ≡ false) s.tokens

abbrev revoked : ℕ → RefreshToken → Option RefreshToken
revoked now t = some (record t { revoked_at = some now })

-- The row that a hash finds, after it is revoked and rows are added behind.
find_token-revoke_found :
    (hash now : ℕ) (ts rest : List RefreshToken) (t : RefreshToken)
    → find_token hash ts ≡ some t
    → find_token hash (revoke_found hash now ts ++ rest) ≡ some (record t { revoked_at = some now })
unfolding find_token revoke_found
find_token-revoke_found hash now [] rest t h = absurd (cc)
find_token-revoke_found hash now (u ∷ ts) rest t h = elim (Bool-cases (u.token_hash == hash)) [
  | inl e ↦ rw e (rw e (ap (revoked now) (let same : u ≡ t = ground arith in same)))
  | inr e ↦ rw e (rw e (find_token-revoke_found hash now ts rest t (rw e at h)))
]

find_token-append :
    (hash : ℕ) (ts : List RefreshToken) (t : RefreshToken)
    → find_token hash ts ≡ none
    → t.token_hash ≡ hash
    → find_token hash (ts ++ t ∷ []) ≡ some t
unfolding find_token
find_token-append hash [] t h e = ground arith
find_token-append hash (u ∷ ts) t h e = elim (Bool-cases (u.token_hash == hash)) [
  | inl d ↦ absurd (ground arith)
  | inr d ↦ rw d (find_token-append hash ts t (rw d at h) e)
]

-- Revoking a row does not change which hashes are found.
revoke_found-none :
    (hash other now : ℕ) (ts : List RefreshToken)
    → find_token other ts ≡ none
    → find_token other (revoke_found hash now ts) ≡ none
unfolding find_token revoke_found
revoke_found-none hash other now [] h = refl
revoke_found-none hash other now (u ∷ ts) h = elim (Bool-cases (u.token_hash == other)) [
  | inl d ↦ absurd (ground arith)
  | inr d ↦ elim (Bool-cases (u.token_hash == hash)) [
    | inl e ↦ rw e (rw d (rw d at h))
    | inr e ↦ rw e (rw d (revoke_found-none hash other now ts (rw d at h)))
  ]
]

revoke_all-IsLoggedOut :
    (user now : ℕ) (s : Sessions) → IsLoggedOut user (revoke_all_for_user user now s)
unfolding revoke_all_for_user
revoke_all-IsLoggedOut user now s = each s.tokens
  where
    one :
        (t : RefreshToken)
        → (revoke_if user now t).user_id ≡ user
        → is_live (revoke_if user now t) ≡ false
    one t h = ground arith

    each :
        (ts : List RefreshToken)
        → All (λ t. (t.user_id ≡ user) → is_live t ≡ false) (map (revoke_if user now) ts)
    each [] = tt
    each (t ∷ ts) = (one t, each ts)

module _ (lifetime : ℕ) (hash_token : Text → ℕ) where
  -- What a rotation that succeeds has found and left.
  record IsRotation (raw raw_new : Text) (now : ℕ) (s : Sessions) (u : User) (t : RefreshToken)
      (s' : Sessions) : Type 0 where
    pub found : find_token (hash_token raw) s.tokens ≡ some t
    pub current : now < t.expires_at
    pub live : is_live t ≡ true
    pub active : u.is_active ≡ true
    pub owner : find_user t.user_id s.users ≡ some u
    pub left : s' ≡ record s {
      tokens =
          revoke_found (hash_token raw) now s.tokens
          ++ new_token lifetime hash_token u.id raw_new now ∷ [];
    }

  find_user-id : (id : ℕ) (us : List User) (u : User) → find_user id us ≡ some u → u.id ≡ id
  unfolding find_user
  find_user-id id [] u h = absurd (cc)
  find_user-id id (v ∷ us) u h = elim (Bool-cases (v.id == id)) [
    | inl e ↦ ground arith
    | inr e ↦ find_user-id id us u (rw e at h)
  ]

  module _ (raw raw_new : Text) (now : ℕ) (s : Sessions) (u : User) (s' : Sessions) where
    abbrev rotated_state : User → Sessions
    rotated_state v = record s {
      tokens =
          revoke_found (hash_token raw) now s.tokens
          ++ new_token lifetime hash_token v.id raw_new now ∷ [];
    }

    renew_active :
        (v : User)
        → v.is_active ≡ true
        → renew lifetime hash_token (some v) raw raw_new now s
          ≡ (rotated v raw_new, rotated_state v)
    unfolding renew
    renew_active v e =
        ap
          (λ b.
            if◌then◌else◌ {A = Rotation × Sessions} b (rotated v raw_new, rotated_state v)
              (inactive_user, s))
          e

    renewed :
        (o : Option User)
        → renew lifetime hash_token o raw raw_new now s ≡ (rotated u raw_new, s')
        → (o ≡ some u) × (u.is_active ≡ true) × (s' ≡ rotated_state u)
    unfolding renew
    renewed none h = absurd (cc)
    renewed (some v) h = elim (Bool-cases v.is_active) [
      | inl e ↦
          let done : ◌≡◌ {A = Rotation × Sessions} (rotated v raw_new, rotated_state v)
              (rotated u raw_new, s') =
            sym (renew_active v e) ∙ h in
          let same : v ≡ u = cc in
          (
            ap some same,
            subst (λ w. w.is_active ≡ true) same e,
            sym (ap (λ (q : Rotation × Sessions). q.1) done) ∙ ap rotated_state same,
          )
      | inr e ↦ absurd (refused (rw e at h))
    ]
      where
        refused : ◌≡◌ {A = Rotation × Sessions} (inactive_user, s) (rotated u raw_new, s') → ⊥
        refused k = cc

    rotated_from :
        (o : Option RefreshToken)
        → find_token (hash_token raw) s.tokens ≡ o
        → rotate_found lifetime hash_token o raw raw_new now s ≡ (rotated u raw_new, s')
        → (t : RefreshToken) × IsRotation raw raw_new now s u t s'
    unfolding rotate_found
    rotated_from none e h = absurd (cc)
    rotated_from (some t) e h = elim (Bool-cases (leb t.expires_at now)) [
      | inl d ↦ absurd (refused s (rw d at h))
      | inr d ↦ elim (Bool-cases (is_live t)) [
        | inl l ↦
            let (owner, active, left) =
              renewed (find_user t.user_id s.users) (rw l at (rw d at h)) in
            (
              t,
              record {
                found = e;
                current = ground arith;
                live = l;
                active = active;
                owner = owner;
                left = left;
              },
            )
        | inr l ↦ absurd (refused (revoke_all_for_user t.user_id now s) (rw l at (rw d at h)))
      ]
    ]
      where
        refused :
            (s₁ : Sessions)
            → ◌≡◌ {A = Rotation × Sessions} (invalid_session, s₁) (rotated u raw_new, s')
            → ⊥
        refused s₁ k = cc

  rotate_found_revoked :
      (t : RefreshToken) (raw raw_new : Text) (now : ℕ) (s : Sessions)
      → is_live t ≡ false
      → ((rotate_found lifetime hash_token (some t) raw raw_new now s).0 ≡ invalid_session)
        × (now < t.expires_at
            → IsLoggedOut t.user_id (rotate_found lifetime hash_token (some t) raw raw_new now s).1)
  unfolding rotate_found
  rotate_found_revoked t raw raw_new now s h = elim (Bool-cases (leb t.expires_at now)) [
    | inl d ↦ rw d (refl, λ l. absurd (ground arith))
    | inr d ↦ rw d (rw h (refl, λ l. revoke_all-IsLoggedOut t.user_id now s))
  ]

  rotate_found_live :
      (t : RefreshToken) (u : User) (raw raw_new : Text) (now : ℕ) (s : Sessions)
      → now < t.expires_at
      → is_live t ≡ true
      → find_user t.user_id s.users ≡ some u
      → u.is_active ≡ true
      → (rotate_found lifetime hash_token (some t) raw raw_new now s).0 ≡ rotated u raw_new
  unfolding rotate_found
  rotate_found_live t u raw raw_new now s l live owner active = rw (not-leb t.expires_at now l) (
      rw live (
        rw owner
          (ap (λ (q : Rotation × Sessions). q.0) (renew_active raw raw_new now s u s u active))))
    where
      not-leb : (a b : ℕ) → b < a → leb a b ≡ false
      not-leb a b k = ground arith

  module _ (raw raw_new third : Text) (now later : ℕ) (s : Sessions) (u : User) (s' : Sessions)
      (done : rotate lifetime hash_token raw raw_new now s ≡ (rotated u raw_new, s')) where
    rotation : (t : RefreshToken) × IsRotation raw raw_new now s u t s'
    unfolding rotate
    rotation = rotated_from raw raw_new now s u s' (find_token (hash_token raw) s.tokens) refl done

    -- A refresh token that a rotation has used is refused if it comes again next, at whatever time, and, as long
    -- as it has not expired, its reuse leaves its user without any live token.
    pub rotate_once :
        (t : RefreshToken)
        → find_token (hash_token raw) s.tokens ≡ some t
        → ((rotate lifetime hash_token raw third later s').0 ≡ invalid_session)
          × (later < t.expires_at
              → IsLoggedOut u.id (rotate lifetime hash_token raw third later s').1)
    unfolding rotate
    rotate_once t found =
        let (t₁, r) = rotation in
        let same : t₁ ≡ t = some-injective (sym r.found ∙ found) in
        let owner = find_user-id t₁.user_id s.users u r.owner in
        let again : find_token (hash_token raw) s'.tokens
            ≡ some (record t₁ { revoked_at = some now }) =
          ap (λ (q : Sessions). find_token (hash_token raw) q.tokens) r.left
          ∙ find_token-revoke_found (hash_token raw) now s.tokens _ t₁ r.found in
        let refused =
          rotate_found_revoked (record t₁ { revoked_at = some now }) raw third later s' refl in
        rw again (
          refused.0,
          λ l.
              subst
                (λ n.
                  IsLoggedOut n
                    (rotate_found lifetime hash_token (some (record t₁ { revoked_at = some now }))
                      raw third later s').1)
                (sym owner)
                (refused.1 (subst (λ (q : RefreshToken). later < q.expires_at) (sym same) l)),
        )
      where
        some-injective :
            {a b : RefreshToken} → ◌≡◌ {A = Option RefreshToken} (some a) (some b) → a ≡ b
        some-injective e = cc

    -- The token that a rotation hands out can be rotated in turn, for the same user, until it expires, if no token before
    -- had its hash.
    pub rotate_next :
        find_token (hash_token raw_new) s.tokens ≡ none
        → later < now + lifetime
        → (rotate lifetime hash_token raw_new third later s').0 ≡ rotated u third
    unfolding rotate new_token
    rotate_next fresh l =
        let (t, r) = rotation in
        let issued = new_token lifetime hash_token u.id raw_new now in
        let found : find_token (hash_token raw_new) s'.tokens ≡ some issued =
          ap (λ (q : Sessions). find_token (hash_token raw_new) q.tokens) r.left
          ∙ find_token-append (hash_token raw_new) _ issued
              (revoke_found-none (hash_token raw) (hash_token raw_new) now s.tokens fresh) refl in
        let owner = find_user-id t.user_id s.users u r.owner in
        let users : s'.users ≡ s.users = ap (λ (q : Sessions). q.users) r.left in
        let still : find_user u.id s'.users ≡ some u =
          ap (λ us. find_user u.id us) users ∙ ap (λ n. find_user n s.users) owner ∙ r.owner in
        rw found (rotate_found_live issued u raw_new third later s' l refl still r.active)
