-- ===== src/Auth/Service.antt =====
-- src/auth/auth.service.ts. The current time, and what a method draws at random (an identifier, a
-- salt, a raw token), are its arguments; a request reads the clock once.
mod Tokens
unfoldable pub use Tokens.*
use nestjs_jwt.Prelude.{
  ℕ, ◌+◌, ◌-◌, ◌*◌, String, Bool, false, not, ◌||◌, Option, none, some, ◌∷◌, is_some, if◌then◌else◌,
  str_eq,
}
use nestjs_jwt.Common.Role.{JwtPayload}
use nestjs_jwt.Common.Exceptions.{Exception}
use nestjs_jwt.Common.Exceptions.Exception.{
  email_already_exists, invalid_credentials, account_inactive, invalid_refresh_token,
  invalid_reset_token, invalid_verification_token, incorrect_password, account_locked, type_error,
}
use nestjs_jwt.Common.Action.{Result, ok, Action, pure, throw, or_throw, throw_if, ◌>>=◌, ◌>>◌}
use nestjs_jwt.Mail.{Email, send_password_reset_email, send_email_verification_email}
use nestjs_jwt.Users.Schema.{User}
use nestjs_jwt.Users.Updates.{is_after, RequestMetadata}
use nestjs_jwt.Users.Service as Users
use nestjs_jwt.Users.Service.{CreateUserInput, FailedAttempt}
use nestjs_jwt.Auth.Deps.{Deps, State}

module _ (d : Deps) where
  open d use {collection, text, jwt_service, jwt, security, mail}

  unfoldable pub input_of : RegisterDto → String → CreateUserInput
  input_of dto hashed = record {
    first_name = dto.first_name;
    last_name = dto.last_name;
    email = dto.email;
    hashed_password = hashed;
    role = none;
  }

  -- The rest of `register`, once the user is created.
  unfoldable pub welcome : User → String → ℕ → Method d User
  welcome user raw now = do
    issue_email_verification_token d user raw now
    log_auth d "User registered" user.id (some user.email)
    pure user

  unfoldable pub register : RegisterDto → ℕ → String → String → ℕ → Method d User
  unfolding hash_value
  register dto i salt raw now = do
    existing ← query d (Users.find_by_email collection text dto.email)
    throw_if (is_some existing) email_already_exists
    let hashed = hash_value d dto.password salt
    user ← attempt d (Users.create collection text i (input_of dto hashed))
    welcome user raw now

  -- `if (locked && lockUntil) throw new AccountLockedException(lockUntil)`
  abbrev pub refusal : FailedAttempt → Exception
  refusal a = elim a.lock_until [
    | none ↦ invalid_credentials
    | some t ↦ if a.locked then account_locked t else invalid_credentials
  ]

  unfoldable pub reject_password : User → ℕ → Method d TokenPair
  reject_password user now = do
    failed ← call d (
        Users.register_failed_login_attempt collection user.id security.account_lock_max_attempts
          security.account_lock_duration_minutes now)
    log_auth d "Failed login attempt" user.id (some user.email)
    throw (refusal failed)

  unfoldable pub accept_password : User → RequestMetadata → ℕ → Method d TokenPair
  accept_password user meta now = do
    tokens ← issue_token_pair d user now
    write d (Users.record_successful_login collection user.id meta now)
    log_auth d "User logged in" user.id (some user.email)
    pure tokens

  -- `throw new AccountLockedException(user.lockUntil)`, where the lock is in the future.
  abbrev pub throw_if_locked : User → ℕ → Method d (Unit {0})
  throw_if_locked user now = elim user.lock_until [
    | none ↦ pure tt
    | some t ↦ throw_if (is_after (some t) now) (account_locked t)
  ]

  unfoldable pub login : LoginDto → RequestMetadata → ℕ → Method d TokenPair
  unfolding compare_value
  login dto meta now = do
    found ← query d (Users.find_by_email_with_secrets collection text dto.email)
    user ← or_throw found invalid_credentials
    throw_if_locked user now
    throw_if (not user.is_active) account_inactive
    if compare_value d dto.password user.password
        then accept_password user meta now
        else reject_password user now

  -- `!user.refreshTokenHash`: an empty text is false too.
  abbrev pub is_set : Option String → Bool
  is_set none = false
  is_set (some h) = not (str_eq h "")

  abbrev pub is_stored : String → Option String → Bool
  is_stored h none = false
  is_stored h (some g) = str_eq h g

  unfoldable pub revoke : User → Method d TokenPair
  revoke user = do
    write d (Users.set_refresh_token_hash collection user.id none)
    throw invalid_refresh_token

  unfoldable pub rotate : User → ℕ → Method d TokenPair
  rotate user now = do
    tokens ← issue_token_pair d user now
    log_auth d "Refresh token rotated" user.id none
    pure tokens

  unfoldable pub refresh_tokens : String → ℕ → Method d TokenPair
  refresh_tokens token now = do
    payload ← or_throw (jwt_service.verify_async token jwt.refresh_secret now) invalid_refresh_token
    found ← query d (Users.find_by_id_with_secrets collection payload.sub)
    user ← or_throw found invalid_refresh_token
    throw_if (not user.is_active || not (is_set user.refresh_token_hash)) invalid_refresh_token
    if is_stored (hash_token d token) user.refresh_token_hash then rotate user now else revoke user

  unfoldable pub logout : ℕ → Method d (Unit {0})
  logout i = do
    write d (Users.set_refresh_token_hash collection i none)
    log_auth d "User logged out" i none

  unfoldable pub change_password : ℕ → ChangePasswordDto → String → Method d (Unit {0})
  unfolding compare_value hash_value
  change_password i dto salt = do
    found ← query d (Users.find_by_id_with_secrets collection i)
    user ← or_throw found invalid_credentials
    throw_if (not (compare_value d dto.old_password user.password)) incorrect_password
    write d (Users.update_password collection i (hash_value d dto.new_password salt))
    log_auth d "Password changed" i none

  unfoldable pub request_reset : User → String → ℕ → Method d (Unit {0})
  request_reset user raw now = do
    write d
        (Users.set_password_reset_token collection user.id (hash_token d raw) (reset_expiry d now))
    send d (send_password_reset_email mail user.email raw)
    log_auth d "Password reset requested" user.id none

  -- `if (!user) return;`
  abbrev pub request_reset_of : Option User → String → ℕ → Method d (Unit {0})
  request_reset_of none raw now = pure tt
  request_reset_of (some user) raw now = request_reset user raw now

  unfoldable pub forgot_password : String → String → ℕ → Method d (Unit {0})
  forgot_password email raw now = do
    found ← query d (Users.find_by_email collection text email)
    request_reset_of found raw now

  unfoldable pub reset_password : String → String → String → ℕ → Method d (Unit {0})
  unfolding hash_value
  reset_password token new_password salt now = do
    found ← query d (Users.find_by_password_reset_token_hash collection (hash_token d token) now)
    user ← or_throw found invalid_reset_token
    write d (Users.update_password collection user.id (hash_value d new_password salt))
    write d (Users.clear_password_reset_token collection user.id)
    log_auth d "Password reset completed" user.id none

  unfoldable pub verify_email : String → ℕ → Method d (Unit {0})
  verify_email token now = do
    found ←
        query d (Users.find_by_email_verification_token_hash collection (hash_token d token) now)
    user ← or_throw found invalid_verification_token
    write d (Users.mark_email_verified collection user.id)
    log_auth d "Email verified" user.id none

  unfoldable pub resend_verification_email : ℕ → String → ℕ → Method d (Unit {0})
  resend_verification_email i raw now = do
    user ← λ s. (Users.find_active_by_id_or_throw collection i s.store, s)
    if user.is_email_verified then pure tt else issue_email_verification_token d user raw now
