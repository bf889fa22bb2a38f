-- ===== src/Auth/Races.antt =====
-- Requests whose reads come before each other's writes: `AuthService.refreshTokens` of
-- src/auth/auth.service.ts reads the account, waits for the database, and then writes.
use nestjs_jwt.Prelude.{
  ℕ, ◌≡◌, refl, sym, ap, ◌∙◌, inl, inr, String, not, ◌||◌, Option, none, some, arith, Option-cases,
  if◌then◌else◌,
}
use nestjs_jwt.Common.Role.{JwtPayload}
use nestjs_jwt.Common.Exceptions.Exception.{invalid_refresh_token}
use nestjs_jwt.Common.Action.{Result, err, throw}
use nestjs_jwt.Users.Schema.{User}
use nestjs_jwt.Users.Service as Users
use nestjs_jwt.Users.Service.{FailedAttempt, register_failed_login_attempt}
use nestjs_jwt.Users.Service.Effects.{find_by_id_with_secrets-first}
use nestjs_jwt.Auth.Deps.{Deps, State}
use nestjs_jwt.Auth.Service.{
  Method, TokenPair, hash_token, is_set, is_stored, rotate, revoke, refresh_tokens,
}
use nestjs_jwt.Auth.Session.{
  active, verified, refresh_unverified, refresh_with_account, refresh_without_account,
}

-- What a refresh makes of the account that it has read.
pub data Verdict : Type 0 where
  refuses : Verdict
  revokes rotates : User → Verdict

module _ (d : Deps) where
  open d use {collection, jwt_service, jwt}

  abbrev pub verdict_of : String → Option User → Verdict
  verdict_of token none = refuses
  verdict_of token (some u) =
      if not u.is_active || not (is_set d u.refresh_token_hash)
      then refuses
      else if is_stored d (hash_token d token) u.refresh_token_hash
      then rotates u
      else revokes u

  -- `refreshTokens` up to its first write.
  unfoldable pub refresh_read : String → ℕ → State collection → Verdict
  refresh_read token now s = elim (jwt_service.verify_async token jwt.refresh_secret now) [
    | none ↦ refuses
    | some p ↦ verdict_of token (Users.find_by_id_with_secrets collection p.sub s.store)
  ]

  -- The rest of it, in a state that may have changed since.
  unfoldable pub refresh_write : Verdict → ℕ → Method d TokenPair
  refresh_write refuses now = throw invalid_refresh_token
  refresh_write (revokes u) now = revoke d u
  refresh_write (rotates u) now = rotate d u now

  read_unverified :
      (token : String) (now : ℕ) (s : State collection)
      → verified d token now ≡ none
      → refresh_read token now s ≡ refuses
  unfolding refresh_read
  read_unverified token now s v = rw (refresh_read, v) refl

  read_verified :
      (token : String) (now : ℕ) (s : State collection) (p : JwtPayload) {o : Option User}
      → verified d token now ≡ some p
      → active d p.sub s ≡ o
      → refresh_read token now s ≡ verdict_of token o
  unfolding refresh_read
  read_verified token now s p v e =
      rw (refresh_read, v)
        (ap (verdict_of token) (find_by_id_with_secrets-first collection p.sub s.store ∙ e))

  write_verdict :
      (token : String) (u : User) (now : ℕ) (s : State collection)
      → refresh_write (verdict_of token (some u)) now s ≡ (
          if not u.is_active || not (is_set d u.refresh_token_hash)
          then (err invalid_refresh_token, s)
          else if is_stored d (hash_token d token) u.refresh_token_hash
          then rotate d u now s
          else revoke d u s)
  unfolding refresh_write
  write_verdict token u now s = ground arith

  -- Without another request in between, the two parts are the method.
  pub refresh-read_write :
      (token : String) (now : ℕ) (s : State collection)
      → refresh_tokens d token now s ≡ refresh_write (refresh_read token now s) now s
  unfolding refresh_write
  refresh-read_write token now s =
      let write : Verdict → Result TokenPair × State collection = λ x. refresh_write x now s in
      elim (Option-cases (verified d token now)) [
        | inl v ↦
            refresh_unverified d token now s v ∙ sym (ap write (read_unverified token now s v))
        | inr (p, v) ↦ elim (Option-cases (active d p.sub s)) [
          | inl a ↦
              refresh_without_account d token now s p v a
              ∙ sym (ap write (read_verified token now s p v a))
          | inr (u, a) ↦
              refresh_with_account d token now s p v a
              ∙ sym (write_verdict token u now s)
              ∙ sym (ap write (read_verified token now s p v a))
        ]
      ]
