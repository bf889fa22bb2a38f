-- ===== src/Auth/Service/Tokens.antt =====
-- The tokens that src/auth/auth.service.ts signs and stores, and the calls of which its methods are made.
use nestjs_jwt.Prelude.{ℕ, ◌+◌, ◌-◌, ◌*◌, String, Bool, Option, some, ◌∷◌}
use nestjs_jwt.Common.Role.{JwtPayload}
use nestjs_jwt.Common.Exceptions.Exception.{type_error}
use nestjs_jwt.Common.Action.{Result, ok, Action, pure, or_throw, ◌>>=◌, ◌>>◌}
use nestjs_jwt.Mail.{Email, send_email_verification_email}
use nestjs_jwt.Users.Schema.{User}
use nestjs_jwt.Users.Service as Users
use nestjs_jwt.Users.Service.{CreateUserInput, FailedAttempt}
use nestjs_jwt.Auth.Deps.{Deps, State}

pub record TokenPair : Type 0 where
  pub access_token : String
  pub refresh_token : String
  pub expires_in : ℕ
  pub token_type : String

pub record RegisterDto : Type 0 where
  pub first_name : String
  pub last_name : String
  pub email : String
  pub password : String

pub record LoginDto : Type 0 where
  pub email : String
  pub password : String

pub record ChangePasswordDto : Type 0 where
  pub old_password : String
  pub new_password : String

module _ (d : Deps) where
  open d use {collection, text, hashes, jwt_service, jwt, security, mail}

  -- A method of the service.
  abbrev pub Method : Type 0 → Type 0
  Method A = Action (State collection) A

  -- A call of the users service that reads, that writes, and that does both and may throw.
  abbrev pub query : {A : Type 0} → (collection.Store → A) → Method A
  query f s = (ok (f s.store), s)

  abbrev pub write : (collection.Store → collection.Store) → Method (Unit {0})
  write f s = (ok tt, record s { store = f s.store })

  abbrev pub call : {A : Type 0} → (collection.Store → A × collection.Store) → Method A
  call f s = let (a, store) = f s.store in (ok a, record s { store = store })

  abbrev pub attempt : {A : Type 0} → (collection.Store → Result A × collection.Store) → Method A
  attempt f s = let (r, store) = f s.store in (r, record s { store = store })

  abbrev pub log_auth : String → ℕ → Option String → Method (Unit {0})
  log_auth message i email s =
      (ok tt, record s { log = record { message = message; user_id = i; email = email } ∷ s.log })

  abbrev pub send : Email → Method (Unit {0})
  send e s = (ok tt, record s { outbox = e ∷ s.outbox })

  unfoldable pub hash_value : String → String → String
  hash_value value salt = hashes.bcrypt_hash value security.bcrypt_salt_rounds salt

  unfoldable pub compare_value : String → String → Bool
  compare_value value hashed = hashes.bcrypt_compare value hashed

  unfoldable pub hash_token : String → String
  hash_token token = hashes.sha256 token

  unfoldable pub payload_of : User → JwtPayload
  payload_of u = record { sub = u.id; email = u.email; role = u.role }

  unfoldable pub sign_access : User → ℕ → String
  sign_access u now =
      jwt_service.sign_async (payload_of u) jwt.access_secret jwt.access_expiration now

  unfoldable pub sign_refresh : User → ℕ → String
  sign_refresh u now =
      jwt_service.sign_async (payload_of u) jwt.refresh_secret jwt.refresh_expiration now

  -- `decoded.exp - decoded.iat`, where a token expires after it is issued; reading a field of `null`
  -- throws.
  unfoldable pub issue_token_pair : User → ℕ → Method TokenPair
  issue_token_pair u now = do
    let access = sign_access u now
    let refresh = sign_refresh u now
    write (Users.set_refresh_token_hash collection u.id (some (hash_token refresh)))
    decoded ← or_throw (jwt_service.decode access) type_error
    pure (record {
      access_token = access;
      refresh_token = refresh;
      expires_in = decoded.exp - decoded.iat;
      token_type = "Bearer";
    })

  unfoldable pub verification_expiry : ℕ → ℕ
  verification_expiry now = now + security.email_verification_token_expiration_hours * 3600000

  unfoldable pub reset_expiry : ℕ → ℕ
  reset_expiry now = now + security.reset_password_token_expiration_minutes * 60000

  unfoldable pub issue_email_verification_token : User → String → ℕ → Method (Unit {0})
  issue_email_verification_token u raw now = do
    write (
        Users.set_email_verification_token collection u.id (hash_token raw)
          (verification_expiry now))
    send (send_email_verification_email mail u.email raw)
