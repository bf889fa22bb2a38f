-- ===== src/Auth/Verification.antt =====
-- `AuthService.verifyEmail` and `resendVerificationEmail`.
use nestjs_jwt.Prelude.{ℕ, ◌≡◌, refl, ◌∙◌, String, true, false, Option, none, some, arith}
use nestjs_jwt.Common.Exceptions.Exception.{invalid_verification_token, not_found}
use nestjs_jwt.Common.Action.{ok, err}
use nestjs_jwt.Users.Schema.{User}
use nestjs_jwt.Users.Collection.{first, update_first}
use nestjs_jwt.Users.Updates.{by_id, by_verification_token, put_verified}
use nestjs_jwt.Users.Service.{find_active_by_id_or_throw}
use nestjs_jwt.Users.Service.Effects.{
  find_by_email_verification_token_hash-first, docs-mark_email_verified, find_active_by_id-first,
}
use nestjs_jwt.Auth.Deps.{Deps, State}
use nestjs_jwt.Auth.Service.{
  hash_token, issue_email_verification_token, verify_email, resend_verification_email,
}
use nestjs_jwt.Auth.Login.{documents}
use nestjs_jwt.Auth.Session.{active}

module _ (d : Deps) where
  open d use {collection}

  abbrev pub verifiable : String → ℕ → State collection → Option User
  verifiable token now s = first (by_verification_token (hash_token d token) now) (documents d s)

  pub verify_email_unknown :
      (token : String) (now : ℕ) (s : State collection)
      → verifiable token now s ≡ none
      → verify_email d token now s ≡ (err invalid_verification_token, s)
  unfolding verify_email
  verify_email_unknown token now s e = rw (
    find_by_email_verification_token_hash-first collection (hash_token d token) now s.store ∙ e,
    verify_email,
  )

  pub verify_email_known :
      (token : String) (now : ℕ) (s : State collection) {u : User}
      → verifiable token now s ≡ some u
      → let (r, t) = verify_email d token now s in
        (r ≡ ok tt) × (documents d t ≡ update_first (by_id u.id) put_verified (documents d s))
  unfolding verify_email
  verify_email_known token now s {u} e =
      rw
        (
          find_by_email_verification_token_hash-first collection (hash_token d token) now s.store
              ∙ e,
          verify_email,
        )
        (refl, docs-mark_email_verified collection u.id s.store)

  -- A request for an account that is missing or deleted is refused.
  pub resend_unknown :
      (i : ℕ) (raw : String) (now : ℕ) (s : State collection)
      → active d i s ≡ none
      → resend_verification_email d i raw now s ≡ (err (not_found "User not found"), s)
  unfolding resend_verification_email find_active_by_id_or_throw
  resend_unknown i raw now s e = ground (arith, find_active_by_id-first collection i s.store, e)

  -- A verified account is left alone, so a repeated request is harmless.
  pub resend_verified :
      (i : ℕ) (raw : String) (now : ℕ) (s : State collection) {u : User}
      → active d i s ≡ some u
      → u.is_email_verified ≡ true
      → resend_verification_email d i raw now s ≡ (ok tt, s)
  unfolding resend_verification_email find_active_by_id_or_throw
  resend_verified i raw now s e v = ground (arith, find_active_by_id-first collection i s.store, e)

  pub resend_unverified :
      (i : ℕ) (raw : String) (now : ℕ) (s : State collection) {u : User}
      → active d i s ≡ some u
      → u.is_email_verified ≡ false
      → resend_verification_email d i raw now s ≡ issue_email_verification_token d u raw now s
  unfolding resend_verification_email find_active_by_id_or_throw
  resend_unverified i raw now s e v =
      ground (arith, find_active_by_id-first collection i s.store, e)
