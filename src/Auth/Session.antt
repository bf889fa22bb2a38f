-- ===== src/Auth/Session.antt =====
-- `AuthService.refreshTokens`: which refresh token is accepted, and its rotation.
use nestjs_jwt.Prelude.{
  ℕ, ◌≡◌, refl, ap, ◌∙◌, ◌↔◌, inl, inr, String, true, false, not, ◌||◌, Option, none, some, arith,
  Option-cases, if◌then◌else◌, is_some,
}
use nestjs_jwt.Common.Role.{JwtPayload}
use nestjs_jwt.Common.Exceptions.Exception.{invalid_refresh_token}
use nestjs_jwt.Common.Action.{ok, err, is_ok}
use nestjs_jwt.Users.Schema.{User}
use nestjs_jwt.Users.Collection.{first, update_first}
use nestjs_jwt.Users.Documents.{HasDistinctIds, first-update_self, first_holds}
use nestjs_jwt.Users.Updates.{by_id, by_active_id, put_refresh_token_hash}
use nestjs_jwt.Users.Lookups.{by_active_id-put_refresh_token_hash}
use nestjs_jwt.Users.Service.Effects.{find_by_id_with_secrets-first}
use nestjs_jwt.Auth.Deps.{Deps, State, Claims}
use nestjs_jwt.Auth.Service.{
  TokenPair, hash_token, sign_access, sign_refresh, issue_token_pair, is_set, is_stored, rotate,
  revoke, refresh_tokens,
}
use nestjs_jwt.Auth.Login.{documents}
use nestjs_jwt.Auth.Effects.{issued, documents-rotate}

module _ (d : Deps) where
  open d use {collection, jwt_service, jwt}

  -- The document that the refresh flow reads for an identifier.
  abbrev pub active : ℕ → State collection → Option User
  active i s = first (by_active_id i) (documents d s)

  -- The payload of a token whose signature and expiry are right.
  abbrev pub verified : String → ℕ → Option JwtPayload
  verified token now = jwt_service.verify_async token jwt.refresh_secret now

  -- An account that has a session.
  abbrev pub HasSession : User → Type 0
  HasSession u = (u.is_active ≡ true) × (is_set d u.refresh_token_hash ≡ true)

  pub refresh_without_account :
      (token : String) (now : ℕ) (s : State collection) (p : JwtPayload)
      → verified token now ≡ some p
      → active p.sub s ≡ none
      → refresh_tokens d token now s ≡ (err invalid_refresh_token, s)
  unfolding refresh_tokens
  refresh_without_account token now s p v e =
      rw (v, refresh_tokens) (rw (find_by_id_with_secrets-first collection p.sub s.store ∙ e))

  pub refresh_with_account :
      (token : String) (now : ℕ) (s : State collection) (p : JwtPayload) {u : User}
      → verified token now ≡ some p
      → active p.sub s ≡ some u
      → refresh_tokens d token now s ≡ (
          if not u.is_active || not (is_set d u.refresh_token_hash)
          then (err invalid_refresh_token, s)
          else if is_stored d (hash_token d token) u.refresh_token_hash
          then rotate d u now s
          else revoke d u s)
  unfolding refresh_tokens
  refresh_with_account token now s p {u} v e =
      rw (v, refresh_tokens)
        (rw (find_by_id_with_secrets-first collection p.sub s.store ∙ e) (ground arith))

  pub refresh_hit :
      (token : String) (now : ℕ) (s : State collection) (p : JwtPayload) {u : User}
      → verified token now ≡ some p
      → active p.sub s ≡ some u
      → HasSession u
      → is_stored d (hash_token d token) u.refresh_token_hash ≡ true
      → refresh_tokens d token now s ≡ rotate d u now s
  refresh_hit token now s p v e (a, b) m = refresh_with_account token now s p v e ∙ ground arith

  pub refresh_miss :
      (token : String) (now : ℕ) (s : State collection) (p : JwtPayload) {u : User}
      → verified token now ≡ some p
      → active p.sub s ≡ some u
      → HasSession u
      → is_stored d (hash_token d token) u.refresh_token_hash ≡ false
      → refresh_tokens d token now s ≡ revoke d u s
  refresh_miss token now s p v e (a, b) m = refresh_with_account token now s p v e ∙ ground arith

  pub rotate-is_ok :
      (u : User) (now : ℕ) (s : State collection)
      → is_ok (rotate d u now s).0 ≡ is_some (jwt_service.decode (sign_access d u now))
  unfolding rotate issue_token_pair
  rotate-is_ok u now s = ground arith

  pub rotate-ok :
      (u : User) (now : ℕ) (s : State collection) (c : Claims)
      → jwt_service.decode (sign_access d u now) ≡ some c
      → (tp : TokenPair) × ((rotate d u now s).0 ≡ ok tp)
        × (tp.access_token ≡ sign_access d u now)
        × (tp.refresh_token ≡ sign_refresh d u now)
  unfolding rotate issue_token_pair
  rotate-ok u now s c e = rw (e, rotate, issue_token_pair) (_, refl, refl, refl)

  pub revoke_fails :
      (u : User) (s : State collection) → (revoke d u s).0 ≡ err invalid_refresh_token
  unfolding revoke
  revoke_fails u s = refl

  -- What an accepted refresh needs.
  abbrev pub Accepts : String → ℕ → State collection → Type 0
  Accepts token now s =
      (p : JwtPayload) × (verified token now ≡ some p)
      × (u : User) × (active p.sub s ≡ some u)
      × HasSession u
      × (is_stored d (hash_token d token) u.refresh_token_hash ≡ true)
      × (is_some (jwt_service.decode (sign_access d u now)) ≡ true)

  refresh-Accepts :
      (token : String) (now : ℕ) (s : State collection) {p : JwtPayload} {u : User}
      → verified token now ≡ some p
      → active p.sub s ≡ some u
      → is_ok (refresh_tokens d token now s).0 ≡ true
      → Accepts token now s
  refresh-Accepts token now s {p} {u} v e h =
      let run = ap (λ r. is_ok r.0) (refresh_with_account token now s p v e) in
      (
        p,
        v,
        u,
        e,
        (ground (arith, run), ground (arith, run)),
        ground (arith, run, ap is_ok (revoke_fails u s)),
        ground (arith, run, ap is_ok (revoke_fails u s), rotate-is_ok u now s),
      )

  pub refresh_unverified :
      (token : String) (now : ℕ) (s : State collection)
      → verified token now ≡ none
      → refresh_tokens d token now s ≡ (err invalid_refresh_token, s)
  unfolding refresh_tokens
  refresh_unverified token now s v = rw (v, refresh_tokens)

  -- A refresh succeeds exactly when the token's signature and expiry are right, its subject is a
  -- stored account that is not deleted, is active and has a session, the token's hash is the
  -- stored one, and the access token just signed can be decoded.
  pub refresh-ok_iff :
      (token : String) (now : ℕ) (s : State collection)
      → (is_ok (refresh_tokens d token now s).0 ≡ true) ↔ Accepts token now s
  refresh-ok_iff token now s = (
    (λ h. elim (Option-cases (verified token now)) [
      | inl v ↦ cc (ap (λ r. is_ok r.0) (refresh_unverified token now s v))
      | inr (p, v) ↦ elim (Option-cases (active p.sub s)) [
        | inl e ↦ cc (ap (λ r. is_ok r.0) (refresh_without_account token now s p v e))
        | inr (u, e) ↦ refresh-Accepts token now s v e h
      ]
    ]),
    λ (p, v, u, e, o, m, c). rw (refresh_hit token now s p v e o m) (rotate-is_ok u now s ∙ c),
  )

  -- The active document after its token hash is written.
  pub active-put :
      (u : User) (i : ℕ) (h : Option String) (s t : State collection)
      → HasDistinctIds (documents d s)
      → active i s ≡ some u
      → documents d t ≡ update_first (by_id u.id) (put_refresh_token_hash h) (documents d s)
      → active i t ≡ some (put_refresh_token_hash h u)
  active-put u i h s t ids e f = rw f (
      first-update_self (by_active_id i) _ (documents d s) (by_active_id-put_refresh_token_hash i h)
        ids e)

  -- A token that verifies and is the stored one of an active account with a session is rotated,
  -- where the new access token can be decoded and no two documents share an identifier: both new
  -- tokens are returned, and the account's stored hash is that of the new refresh token.
  pub refresh_rotates :
      (token : String) (now : ℕ) (s : State collection) {p : JwtPayload} {u : User} {c : Claims}
      → HasDistinctIds (documents d s)
      → verified token now ≡ some p
      → active p.sub s ≡ some u
      → HasSession u
      → is_stored d (hash_token d token) u.refresh_token_hash ≡ true
      → jwt_service.decode (sign_access d u now) ≡ some c
      → let (r, t) = refresh_tokens d token now s in
        (tp : TokenPair) × (r ≡ ok tp)
        × (tp.access_token ≡ sign_access d u now)
        × (tp.refresh_token ≡ sign_refresh d u now)
        × (active p.sub t ≡ some (issued d u now u))
  refresh_rotates token now s {p} {u} {c} ids v e o m k =
      let (tp, r, at, rt) = rotate-ok u now s c k in
      rw (refresh_hit token now s p v e o m) (
        tp,
        r,
        at,
        rt,
        active-put u p.sub _ s (rotate d u now s).1 ids e (documents-rotate d u now s),
      )

  pub active-id : (i : ℕ) (s : State collection) {u : User} → active i s ≡ some u → u.id ≡ i
  unfolding by_active_id
  active-id i s {u} e = ground (arith, first_holds (by_active_id i) (documents d s) {u = u} e)
