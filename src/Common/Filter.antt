-- ===== src/Common/Filter.antt =====
-- src/common/filters/all-exceptions.filter.ts and src/common/exceptions/app.exceptions.ts: what a
-- client is told of anything that is thrown. The built-in exceptions of Nest are parameters.
use nestjs_jwt.Prelude.{
  ℕ, ◌≡◌, refl, String, Bool, false, Option, none, some, List, [], ◌∷◌, ◌==◌, if◌then◌else◌, get_or,
  map,
}
use Prim.Native.String.{◌++◌}
use nestjs_jwt.Common.Exceptions.{Exception}
use nestjs_jwt.Common.Exceptions.Exception.{
  email_already_exists, invalid_credentials, account_inactive, invalid_refresh_token,
  invalid_reset_token, invalid_verification_token, incorrect_password, account_locked, not_found,
  unauthorized, cast_error, duplicate_key, type_error, missing_required,
}

-- `message?: string | string[]` of an object payload.
pub data PayloadMessage : Type 0 where
  absent : PayloadMessage
  one : String → PayloadMessage
  many : List String → PayloadMessage

-- `HttpException.getResponse()`
pub data Payload : Type 0 where
  text : String → Payload
  object : PayloadMessage → Option String → Payload

-- What can be thrown, by the tests that the filter makes. `unknown` has the value's `code`, if any,
-- and its message.
pub data Thrown : Type 0 where
  http_exception : ℕ → String → Payload → Thrown
  validation_error : List String → Thrown
  invalid_cast : Thrown
  unknown : Option ℕ → String → Thrown

pub record ApiErrorResponse : Type 0 where
  pub success : Bool
  pub message : String
  pub errors : List String

pub record Resolved : Type 0 where
  pub status : ℕ
  pub message : String
  pub errors : List String

abbrev pub plain : ℕ → String → Resolved
plain status m = record { status = status; message = m; errors = m ∷ [] }

abbrev pub payload_messages : PayloadMessage → String → List String
payload_messages absent fallback = fallback ∷ []
payload_messages (one m) fallback = m ∷ []
payload_messages (many ms) fallback = ms

abbrev pub payload_message : PayloadMessage → Option String → String → String
payload_message absent error fallback = fallback
payload_message (one m) error fallback = m
payload_message (many ms) error fallback = get_or error "Validation failed"

abbrev pub is_duplicate_key_error : Option ℕ → Bool
is_duplicate_key_error none = false
is_duplicate_key_error (some code) = code == 11000

unfoldable pub resolve : Thrown → Resolved
resolve (http_exception status m (text p)) = plain status p
resolve (http_exception status m (object pm error)) = record {
  status = status;
  message = payload_message pm error m;
  errors = payload_messages pm m;
}
resolve (validation_error errors) = record {
  status = 400;
  message = "Validation failed";
  errors = errors;
}
resolve invalid_cast = plain 400 "Invalid identifier supplied"
resolve (unknown code m) =
    if is_duplicate_key_error code
    then plain 409 "Duplicate value violates a unique constraint"
    else plain 500 "Internal server error"

-- The status and the body of the response.
unfoldable pub catch : Thrown → ℕ × ApiErrorResponse
catch e =
    let r = resolve e in
    (r.status, record { success = false; message = r.message; errors = r.errors })

-- Nest's `ConflictException`, `UnauthorizedException` and `NotFoundException`, given a message, the
-- messages of the errors that others throw, and `Date.toISOString`.
pub record Builtins : Type 0 where
  pub conflict_exception : String → Thrown
  pub unauthorized_exception : String → Thrown
  pub not_found_exception : String → Thrown
  pub driver_message : String
  pub type_message : String
  -- Mongoose's message about a required field.
  pub required_message : String → String
  pub to_iso_string : ℕ → String

module _ (b : Builtins) where
  -- The message that a class of this file passes to its built-in.
  abbrev pub lock_message : ℕ → String
  lock_message unlock_at =
      "Account locked due to too many failed login attempts. Try again after "
      ++ b.to_iso_string unlock_at

  unfoldable pub thrown : Exception → Thrown
  thrown email_already_exists = b.conflict_exception "An account with this email already exists"
  thrown invalid_credentials = b.unauthorized_exception "Invalid email or password"
  thrown (account_locked unlock_at) = b.unauthorized_exception (lock_message unlock_at)
  thrown account_inactive = b.unauthorized_exception "This account has been deactivated"
  thrown invalid_refresh_token = b.unauthorized_exception "Invalid or expired refresh token"
  thrown invalid_reset_token = b.unauthorized_exception "Invalid or expired password reset token"
  thrown invalid_verification_token =
      b.unauthorized_exception "Invalid or expired email verification token"
  thrown incorrect_password = b.unauthorized_exception "Current password is incorrect"
  thrown (not_found m) = b.not_found_exception m
  thrown (unauthorized m) = b.unauthorized_exception m
  thrown cast_error = invalid_cast
  thrown duplicate_key = unknown (some 11000) b.driver_message
  thrown type_error = unknown none b.type_message
  thrown (missing_required fields) = validation_error (map b.required_message fields)

  -- The documented shape of Nest's built-ins: their status, and an object with the given message.
  pub record IsDocumented : Type 0 where
    pub conflict :
        (m : String)
        → b.conflict_exception m ≡ http_exception 409 m (object (one m) (some "Conflict"))
    pub unauthorized :
        (m : String)
        → b.unauthorized_exception m ≡ http_exception 401 m (object (one m) (some "Unauthorized"))
    pub not_found :
        (m : String)
        → b.not_found_exception m ≡ http_exception 404 m (object (one m) (some "Not Found"))

  -- The status of every error of the services, independently of how it is thrown.
  abbrev pub status_of : Exception → ℕ
  status_of email_already_exists = 409
  status_of duplicate_key = 409
  status_of (not_found m) = 404
  status_of cast_error = 400
  status_of (missing_required fields) = 400
  status_of type_error = 500
  status_of _ = 401

  -- With Nest's built-ins as documented, each error of the services reaches the client with its
  -- status and `success: false`.
  pub catch-thrown :
      IsDocumented
      → (e : Exception)
      → let (status, body) = catch (thrown e) in (status ≡ status_of e) × (body.success ≡ false)
  unfolding catch resolve thrown
  catch-thrown h email_already_exists = rw (h.conflict _) (refl, refl)
  catch-thrown h invalid_credentials = rw (h.unauthorized _) (refl, refl)
  catch-thrown h (account_locked t) = rw (h.unauthorized _) (refl, refl)
  catch-thrown h account_inactive = rw (h.unauthorized _) (refl, refl)
  catch-thrown h invalid_refresh_token = rw (h.unauthorized _) (refl, refl)
  catch-thrown h invalid_reset_token = rw (h.unauthorized _) (refl, refl)
  catch-thrown h invalid_verification_token = rw (h.unauthorized _) (refl, refl)
  catch-thrown h incorrect_password = rw (h.unauthorized _) (refl, refl)
  catch-thrown h (not_found m) = rw (h.not_found _) (refl, refl)
  catch-thrown h (unauthorized m) = rw (h.unauthorized _) (refl, refl)
  catch-thrown h cast_error = (refl, refl)
  catch-thrown h duplicate_key = (refl, refl)
  catch-thrown h type_error = (refl, refl)
  catch-thrown h (missing_required fields) = (refl, refl)

-- What an unrecognized error says of itself never reaches the client: two that are alike in being
-- or not being a duplicate key are answered alike.
pub catch_opaque :
    (code code' : Option ℕ) (m m' : String)
    → is_duplicate_key_error code ≡ is_duplicate_key_error code'
    → catch (unknown code m) ≡ catch (unknown code' m')
unfolding catch resolve
catch_opaque code code' m m' e = rw e
