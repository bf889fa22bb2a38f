-- ===== src/Auth/Deps.antt =====
-- What `AuthService` is given: the collection, the mail service, the configuration, and the
-- libraries that it calls (bcrypt, Node's crypto, `@nestjs/jwt`).
use nestjs_jwt.Prelude.{ℕ, String, Bool, Option, List}
use nestjs_jwt.Common.Role.{JwtPayload}
use nestjs_jwt.Mail.{MailConfig, Email}
use nestjs_jwt.Users.Schema.{Text}
use nestjs_jwt.Users.Collection.{Collection}

-- `iat` and `exp` of a decoded token, in seconds.
pub record Claims : Type 0 where
  pub iat : ℕ
  pub exp : ℕ

-- `sign_async` takes the payload, the secret, the lifetime and the current time in milliseconds;
-- `verify_async` takes the token, the secret and the current time.
pub record JwtService : Type 0 where
  pub sign_async : JwtPayload → String → String → ℕ → String
  pub verify_async : String → String → ℕ → Option JwtPayload
  pub decode : String → Option Claims

pub record JwtConfig : Type 0 where
  pub access_secret : String
  pub access_expiration : String
  pub refresh_secret : String
  pub refresh_expiration : String

pub record SecurityConfig : Type 0 where
  pub bcrypt_salt_rounds : ℕ
  pub reset_password_token_expiration_minutes : ℕ
  pub email_verification_token_expiration_hours : ℕ
  pub account_lock_max_attempts : ℕ
  pub account_lock_duration_minutes : ℕ

-- `bcrypt.hash` takes the value, the rounds and the salt that it draws; `sha256` is the hex digest.
pub record Hashes : Type 0 where
  pub bcrypt_hash : String → ℕ → String → String
  pub bcrypt_compare : String → String → Bool
  pub sha256 : String → String

pub record Deps : Type 1 where
  pub collection : Collection
  pub text : Text
  pub hashes : Hashes
  pub jwt_service : JwtService
  pub jwt : JwtConfig
  pub security : SecurityConfig
  pub mail : MailConfig

-- A line of the logger's channel for authentication events.
pub record AuthEvent : Type 0 where
  pub message : String
  pub user_id : ℕ
  pub email : Option String

-- The state that a request changes: the stored documents, the mail sent and the events logged, the
-- newest first.
pub record State (c : Collection) : Type 0 where
  pub store : c.Store
  pub outbox : List Email
  pub log : List AuthEvent
