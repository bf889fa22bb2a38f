-- ===== src/Auth/Effects.antt =====
-- What each method of the service leaves in the collection, as updates of the documents.
use nestjs_jwt.Prelude.{ℕ, ◌+◌, ◌≡◌, refl, String, true, false, Option, none, some, arith}
use nestjs_jwt.Common.Exceptions.{Exception}
use nestjs_jwt.Common.Action.{ok, err, is_ok}
use nestjs_jwt.Users.Schema.{User}
use nestjs_jwt.Users.Collection.{update_first}
use nestjs_jwt.Users.Documents.{get}
use nestjs_jwt.Users.Updates.{
  by_id, RequestMetadata, succeed_login, lock_of, fail_login, put_refresh_token_hash,
  put_reset_token, put_verification_token,
}
use nestjs_jwt.Users.Service.Effects.{
  docs-record_successful_login, docs-set_refresh_token_hash, docs-set_password_reset_token,
  docs-set_email_verification_token, register_failed_login_attempt_lem,
}
use nestjs_jwt.Auth.Deps.{Deps, State, Claims}
use nestjs_jwt.Auth.Service.{
  TokenPair, hash_token, sign_access, sign_refresh, issue_token_pair, accept_password,
  reject_password, revoke, rotate, logout, request_reset, issue_email_verification_token,
  reset_expiry, verification_expiry,
}
use nestjs_jwt.Auth.Login.{documents}

module _ (d : Deps) where
  open d use {collection, security, jwt_service}

  -- The document's new token hash, when a pair is issued.
  abbrev pub issued : User → ℕ → User → User
  issued u now = put_refresh_token_hash (some (hash_token d (sign_refresh d u now)))

  pub documents-issue_token_pair :
      (u : User) (now : ℕ) (s : State collection)
      → documents d (issue_token_pair d u now s).1
        ≡ update_first (by_id u.id) (issued u now) (documents d s)
  unfolding issue_token_pair
  documents-issue_token_pair u now s = ground (
    arith,
    docs-set_refresh_token_hash collection u.id (some (hash_token d (sign_refresh d u now)))
        s.store,
  )

  -- The pair is returned where the access token can be decoded.
  pub issue_token_pair-ok :
      (u : User) (now : ℕ) (s : State collection) (c : Claims)
      → jwt_service.decode (sign_access d u now) ≡ some c
      → (tp : TokenPair) × ((issue_token_pair d u now s).0 ≡ ok tp)
        × (tp.access_token ≡ sign_access d u now)
        × (tp.refresh_token ≡ sign_refresh d u now)
  unfolding issue_token_pair
  issue_token_pair-ok u now s c e = rw (e, issue_token_pair) (_, refl, refl, refl)

  pub documents-accept_password :
      (u : User) (meta : RequestMetadata) (now : ℕ) (s : State collection)
      → is_ok (accept_password d u meta now s).0 ≡ true
      → documents d (accept_password d u meta now s).1
        ≡ update_first
            (by_id u.id)
            (succeed_login now meta)
            (update_first (by_id u.id) (issued u now) (documents d s))
  unfolding accept_password issue_token_pair
  documents-accept_password u meta now s h = ground (
    arith,
    docs-set_refresh_token_hash collection u.id (some (hash_token d (sign_refresh d u now)))
        s.store,
    docs-record_successful_login collection u.id meta now (issue_token_pair d u now s).1.store,
  )

  pub documents-accept_password_undecoded :
      (u : User) (meta : RequestMetadata) (now : ℕ) (s : State collection)
      → is_ok (accept_password d u meta now s).0 ≡ false
      → documents d (accept_password d u meta now s).1
        ≡ update_first (by_id u.id) (issued u now) (documents d s)
  unfolding accept_password issue_token_pair
  documents-accept_password_undecoded u meta now s h = ground (
    arith,
    docs-set_refresh_token_hash collection u.id (some (hash_token d (sign_refresh d u now)))
        s.store,
  )

  -- The lock that a wrong password sets on an account.
  abbrev pub next_lock : User → ℕ → Option ℕ
  next_lock u now =
      lock_of security.account_lock_max_attempts security.account_lock_duration_minutes now
        (u.failed_login_attempts + 1)

  abbrev pub locked_or_invalid : Option ℕ → Exception
  locked_or_invalid none = Exception.invalid_credentials
  locked_or_invalid (some t) = Exception.account_locked t

  pub reject_password_lem :
      (u : User) (now : ℕ) (s : State collection)
      → get u.id (documents d s) ≡ some u
      → ((reject_password d u now s).0 ≡ err (locked_or_invalid (next_lock u now)))
        × (documents d (reject_password d u now s).1
            ≡ update_first
                (by_id u.id)
                (fail_login (u.failed_login_attempts + 1) (next_lock u now))
                (documents d s))
  unfolding reject_password
  reject_password_lem u now s e =
      let (l, t, es) =
        register_failed_login_attempt_lem collection u.id security.account_lock_max_attempts
          security.account_lock_duration_minutes now s.store e in
      (ground (arith, l, t), es)

  pub documents-revoke :
      (u : User) (s : State collection)
      → documents d (revoke d u s).1
        ≡ update_first (by_id u.id) (put_refresh_token_hash none) (documents d s)
  unfolding revoke
  documents-revoke u s = docs-set_refresh_token_hash collection u.id none s.store

  pub documents-rotate :
      (u : User) (now : ℕ) (s : State collection)
      → documents d (rotate d u now s).1 ≡ update_first (by_id u.id) (issued u now) (documents d s)
  unfolding rotate issue_token_pair
  documents-rotate u now s = ground (
    arith,
    docs-set_refresh_token_hash collection u.id (some (hash_token d (sign_refresh d u now)))
        s.store,
  )

  pub documents-logout :
      (i : ℕ) (s : State collection)
      → documents d (logout d i s).1
        ≡ update_first (by_id i) (put_refresh_token_hash none) (documents d s)
  unfolding logout
  documents-logout i s = docs-set_refresh_token_hash collection i none s.store

  pub documents-request_reset :
      (u : User) (raw : String) (now : ℕ) (s : State collection)
      → documents d (request_reset d u raw now s).1
        ≡ update_first
            (by_id u.id)
            (put_reset_token (hash_token d raw) (reset_expiry d now))
            (documents d s)
  unfolding request_reset
  documents-request_reset u raw now s =
      docs-set_password_reset_token collection u.id (hash_token d raw) (reset_expiry d now) s.store

  pub documents-issue_email_verification_token :
      (u : User) (raw : String) (now : ℕ) (s : State collection)
      → documents d (issue_email_verification_token d u raw now s).1
        ≡ update_first
            (by_id u.id)
            (put_verification_token (hash_token d raw) (verification_expiry d now))
            (documents d s)
  unfolding issue_email_verification_token
  documents-issue_email_verification_token u raw now s =
      docs-set_email_verification_token collection u.id (hash_token d raw)
        (verification_expiry d now) s.store
