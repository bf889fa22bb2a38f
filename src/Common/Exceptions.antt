-- ===== src/Common/Exceptions.antt =====
-- src/common/exceptions/app.exceptions.ts, with the Nest built-ins and the Mongoose errors that the
-- services let through. Times are milliseconds since the epoch.
use nestjs_jwt.Prelude.{ℕ, String, List}

pub data Exception : Type 0 where
  email_already_exists invalid_credentials account_inactive invalid_refresh_token : Exception
  invalid_reset_token invalid_verification_token incorrect_password : Exception
  account_locked : ℕ → Exception
  not_found unauthorized : String → Exception
  cast_error duplicate_key type_error : Exception
  -- Mongoose's `ValidationError`, with the required fields that are missing or empty.
  missing_required : (fields : List String) → Exception
