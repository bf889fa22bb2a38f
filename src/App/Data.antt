-- ===== src/App/Data.antt =====
-- What the controllers hand to the interceptor: the values under `data`, and `{ message, data }`.
use nestjs_jwt.Prelude.{String}
use nestjs_jwt.Common.Response.{present, nullish, Returned, object}
use nestjs_jwt.Users.Schema.{User}
use nestjs_jwt.Users.Listing.{PaginatedResult}
use nestjs_jwt.Auth.Service.{TokenPair}

-- `itself` is the object that a controller returns, which the envelope does not pass on.
pub data Data : Type 0 where
  user_document : User → Data
  token_pair : TokenPair → Data
  users_page : PaginatedResult User → Data
  health_report : Data
  itself : Data

-- `{ message, data }` and `{ message, data: null }`
abbrev pub result : String → Data → Returned Data
result message v = object (present message) (present v) itself

abbrev pub result_null : String → Returned Data
result_null message = object (present message) nullish itself
