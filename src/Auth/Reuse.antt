-- ===== src/Auth/Reuse.antt =====
-- Refresh tokens that are no longer the stored one: reuse, logout, and a rotation within one second.
use nestjs_jwt.Prelude.{
  ℕ, ◌/◌, ◌≡◌, refl, sym, ap, ◌∙◌, inl, inr, ◌≢◌, String, true, false, Option, none, some, arith,
  Option-cases, str_eq_true, str_eq_false, eq_iff,
}
use nestjs_jwt.Common.Role.{JwtPayload}
use nestjs_jwt.Common.Exceptions.Exception.{invalid_refresh_token}
use nestjs_jwt.Common.Action.{ok, err, is_ok}
use nestjs_jwt.Users.Schema.{User}
use nestjs_jwt.Users.Collection.{update_first}
use nestjs_jwt.Users.Documents.{HasDistinctIds, first-update_none, HasDistinctIds-update}
use nestjs_jwt.Users.Updates.{by_id, by_active_id, put_refresh_token_hash}
use nestjs_jwt.Users.Invariant.{put_refresh_token_hash-IsEdit}
use nestjs_jwt.Users.Lookups.{by_active_id-put_refresh_token_hash}
use nestjs_jwt.Auth.Deps.{Deps, State, Claims}
use nestjs_jwt.Auth.Service.{
  TokenPair, payload_of, hash_token, sign_access, sign_refresh, is_set, is_stored, revoke,
  refresh_tokens, logout,
}
use nestjs_jwt.Auth.Login.{documents}
use nestjs_jwt.Auth.Effects.{issued, documents-rotate, documents-revoke, documents-logout}
use nestjs_jwt.Auth.Session.{
  active, verified, HasSession, refresh_without_account, refresh_with_account, refresh_hit,
  refresh_miss, revoke_fails, active-put, active-id, refresh_rotates, refresh-ok_iff,
}

module _ (d : Deps) where
  open d use {collection, jwt_service}

  -- A token that verifies but is not the stored one of an active account with a session is
  -- refused, and the session is revoked, where no two documents share an identifier.
  pub refresh_mismatch_revokes :
      (token : String) (now : ℕ) (s : State collection) {p : JwtPayload} {u : User}
      → HasDistinctIds (documents d s)
      → verified d token now ≡ some p
      → active d p.sub s ≡ some u
      → HasSession d u
      → is_stored d (hash_token d token) u.refresh_token_hash ≡ false
      → let (r, t) = refresh_tokens d token now s in
        (r ≡ err invalid_refresh_token) × (active d p.sub t ≡ some (put_refresh_token_hash none u))
  refresh_mismatch_revokes token now s {p} {u} ids v e o m =
      rw (refresh_miss d token now s p v e o m) (
        revoke_fails d u s,
        active-put d u p.sub none s (revoke d u s).1 ids e (documents-revoke d u s),
      )

  -- Without a stored hash every token of the account is refused, and nothing changes.
  pub refresh_without_session :
      (token : String) (now : ℕ) (s : State collection) {p : JwtPayload} {u : User}
      → verified d token now ≡ some p
      → active d p.sub s ≡ some u
      → u.refresh_token_hash ≡ none
      → refresh_tokens d token now s ≡ (err invalid_refresh_token, s)
  refresh_without_session token now s {p} v e n =
      refresh_with_account d token now s p v e ∙ ground (arith, n)

  refresh_hit-ids :
      (token : String) (now : ℕ) (s : State collection) (p : JwtPayload) {u : User}
      → HasDistinctIds (documents d s)
      → verified d token now ≡ some p
      → active d p.sub s ≡ some u
      → HasSession d u
      → is_stored d (hash_token d token) u.refresh_token_hash ≡ true
      → HasDistinctIds (documents d (refresh_tokens d token now s).1)
  refresh_hit-ids token now s p {u} ids v e o m =
      rw (refresh_hit d token now s p v e o m, documents-rotate d u now s)
        (HasDistinctIds-update u.id (issued d u now) (documents d s)
          (put_refresh_token_hash-IsEdit _).keeps_id ids)

  -- Reuse detection, where no two documents share an identifier: when a refreshed token is
  -- presented again while it still verifies, and its hash is not that of the token that replaced
  -- it, the call is refused, and then so is every refresh for the account, the replacing token's
  -- included. The access token signed in between can be decoded, and the new token's hash is not
  -- empty.
  pub reuse_revokes_session :
      (old : String) (now again later : ℕ) (other : String) (s : State collection)
      {p q : JwtPayload} {u : User} {c : Claims}
      → HasDistinctIds (documents d s)
      → verified d old now ≡ some p
      → active d p.sub s ≡ some u
      → HasSession d u
      → is_stored d (hash_token d old) u.refresh_token_hash ≡ true
      → jwt_service.decode (sign_access d u now) ≡ some c
      → is_set d (some (hash_token d (sign_refresh d u now))) ≡ true
      → verified d old again ≡ some p
      → hash_token d old ≢ hash_token d (sign_refresh d u now)
      → verified d other later ≡ some q
      → q.sub ≡ p.sub
      → let t = (refresh_tokens d old now s).1 in
        let t' = (refresh_tokens d old again t).1 in
        ((refresh_tokens d old again t).0 ≡ err invalid_refresh_token)
        × (refresh_tokens d other later t' ≡ (err invalid_refresh_token, t'))
  unfolding put_refresh_token_hash
  reuse_revokes_session old now again later other s {p} {q} {u} ids v e o m k full v' ne w same =
      let t = (refresh_tokens d old now s).1 in
      let rotated = refresh_rotates d old now s ids v e o m k in
      let ids' : HasDistinctIds (documents d t) = refresh_hit-ids old now s p ids v e o m in
      let (refused, gone) =
        refresh_mismatch_revokes old again t ids' v' rotated.4 (o.0, full) (str_eq_false _ _ ne) in
      let t' : State collection = (refresh_tokens d old again t).1 in
      let ended : active d q.sub t' ≡ some (put_refresh_token_hash none (issued d u now u)) =
        rw same gone in
      (refused, refresh_without_session other later t' w ended refl)

  -- After a logout every refresh token that verifies as the account's is refused, and nothing
  -- changes, where no two documents share an identifier.
  pub logout_ends_session :
      (i : ℕ) (token : String) (now : ℕ) (s : State collection) {p : JwtPayload}
      → HasDistinctIds (documents d s)
      → verified d token now ≡ some p
      → p.sub ≡ i
      → let t = (logout d i s).1 in refresh_tokens d token now t ≡ (err invalid_refresh_token, t)
  unfolding put_refresh_token_hash
  logout_ends_session i token now s {p} ids v same =
      let t : State collection = (logout d i s).1 in
      elim (Option-cases (active d i s)) [
        | inl e ↦
            let gone : active d p.sub t ≡ none =
              rw (same, documents-logout d i s)
                (first-update_none (by_active_id i) (by_id i) _ (documents d s)
                  (by_active_id-put_refresh_token_hash i none) e) in
            refresh_without_account d token now t p v gone
        | inr (u, e) ↦
            let ended : active d p.sub t ≡ some (put_refresh_token_hash none u) = rw same (
              active-put d u i none s t ids e (
                documents-logout d i s
                ∙ ap (λ j. update_first (by_id j) (put_refresh_token_hash none) (documents d s))
                    (sym (active-id d i s e)))) in
            refresh_without_session token now t v ended refl
      ]

  sign_refresh-second :
      (u : User) (a b : ℕ)
      → ((q : JwtPayload) (secret life : String) (a b : ℕ)
          → a / 1000 ≡ b / 1000
          → jwt_service.sign_async q secret life a ≡ jwt_service.sign_async q secret life b)
      → a / 1000 ≡ b / 1000
      → sign_refresh d u a ≡ sign_refresh d u b
  unfolding sign_refresh
  sign_refresh-second u a b by_second e = by_second _ _ _ a b e

  stored-is_set :
      (h : String) (o : Option String)
      → is_stored d h o ≡ true
      → is_set d o ≡ true
      → is_set d (some h) ≡ true
  stored-is_set h none m n = cc
  stored-is_set h (some g) m n = ground (arith, eq_iff h g)

  sign_access-issued :
      (u : User) (now later : ℕ) → sign_access d (issued d u now u) later ≡ sign_access d u later
  unfolding sign_access payload_of put_refresh_token_hash
  sign_access-issued u now later = refl

  -- A refresh of a token within the second in which it was signed, where the signer reads the
  -- clock in seconds and no two documents share an identifier, returns the same token: the
  -- presented token stays valid, and a second use of it, whenever it still verifies and the access
  -- token signed then can be decoded, succeeds.
  pub refresh_within_second :
      (signed now later : ℕ) (s : State collection) {p : JwtPayload} {u : User} {c e' : Claims}
      → ((q : JwtPayload) (secret life : String) (a b : ℕ)
          → a / 1000 ≡ b / 1000
          → jwt_service.sign_async q secret life a ≡ jwt_service.sign_async q secret life b)
      → signed / 1000 ≡ now / 1000
      → HasDistinctIds (documents d s)
      → verified d (sign_refresh d u signed) now ≡ some p
      → active d p.sub s ≡ some u
      → HasSession d u
      → is_stored d (hash_token d (sign_refresh d u signed)) u.refresh_token_hash ≡ true
      → jwt_service.decode (sign_access d u now) ≡ some c
      → verified d (sign_refresh d u signed) later ≡ some p
      → jwt_service.decode (sign_access d u later) ≡ some e'
      → let token = sign_refresh d u signed in
        let (r, t) = refresh_tokens d token now s in
        (tp : TokenPair) × (r ≡ ok tp)
        × (tp.refresh_token ≡ token)
        × (is_ok (refresh_tokens d token later t).0 ≡ true)
  unfolding put_refresh_token_hash
  refresh_within_second signed now later s {p} {u} {c} {e'} by_second sec ids v e o m k v' k' =
      let token : String = sign_refresh d u signed in
      let t : State collection = (refresh_tokens d token now s).1 in
      let again : sign_refresh d u now ≡ token =
        sign_refresh-second u now signed by_second (sym sec) in
      let (tp, r, _, rt, stored) = refresh_rotates d token now s ids v e o m k in
      (
        tp,
        r,
        rt ∙ again,
        (refresh-ok_iff d token later t).1 (
          p,
          v',
          issued d u now u,
          stored,
          (
            o.0,
            stored-is_set (hash_token d (sign_refresh d u now)) u.refresh_token_hash (rw again m)
                o.1,
          ),
          str_eq_true _ _ (ap (hash_token d) (sym again)),
          rw (sign_access-issued u now later, k'),
        ),
      )
