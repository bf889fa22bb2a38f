-- ===== src/Dto/Receive.antt =====
-- What a request becomes before a handler sees it: the class that the handler's parameter names, the
-- sanitizer of src/common/middlewares, and the pipe.
use nestjs_jwt.Prelude.{ℕ, String, Option, none, some, List}
use nestjs_jwt.Common.Json.{Fields}
use nestjs_jwt.Common.Sanitize.{Inputs, sanitize_inputs}
use nestjs_jwt.App.Routes.{
  Route, register, login, refresh, logout, change_password, forgot_password, reset_password,
  verify_email, resend_verification, get_profile, update_profile, list, remove, check, Call,
  register_call, login_call, refresh_call, logout_call, change_password_call, forgot_password_call,
  reset_password_call, verify_email_call, resend_verification_call, get_profile_call,
  update_profile_call, list_call, remove_call, check_call,
}
use nestjs_jwt.App.Pipeline.{Body, accepted, rejected}
use nestjs_jwt.Dto.Rules.{
  Property, register_dto, login_dto, refresh_token_dto, change_password_dto, forgot_password_dto,
  reset_password_dto, verify_email_dto, update_profile_dto, pagination_query_dto,
}
use nestjs_jwt.Dto.Pipe.{pipe_options, Instance, Piped, passed, stopped, ValidationPipe}
use nestjs_jwt.Dto.Read.{
  ◌>>=◌, read_register, read_login, read_refresh_token, read_change_password, read_forgot_password,
  read_reset_password, read_verify_email, read_update_profile, read_pagination_query,
}

-- A request that names a route: what it sends, and what the other parameters of the handlers read.
pub record Incoming : Type 0 where
  pub route : Route
  pub inputs : Inputs
  pub ip : String
  pub user_agent : Option String
  pub id : Option ℕ

-- The object that `@Body()` or, for `list`, `@Query()` takes.
unfoldable pub payload : Route → Inputs → Fields
payload list r = r.query
payload _ r = r.body

-- What a handler's parameter is made from, before and behind the sanitizer; a query is the same in both.
abbrev pub sent : Incoming → Fields
sent h = payload h.route h.inputs

abbrev pub sanitized : Incoming → Fields
sanitized h = payload h.route (sanitize_inputs h.inputs)

-- The class of the parameter with `@Body()`, or `@Query()`.
unfoldable pub dto_of : Route → Option (List Property)
dto_of register = some register_dto
dto_of login = some login_dto
dto_of refresh = some refresh_token_dto
dto_of change_password = some change_password_dto
dto_of forgot_password = some forgot_password_dto
dto_of reset_password = some reset_password_dto
dto_of verify_email = some verify_email_dto
dto_of update_profile = some update_profile_dto
dto_of list = some pagination_query_dto
dto_of logout = none
dto_of resend_verification = none
dto_of get_profile = none
dto_of remove = none
dto_of check = none

-- The call, where the instance has the types that the class declares.
unfoldable pub call_of : Route → Incoming → Instance → Option Call
call_of register h i = read_register i >>= λ dto. some (register_call dto)
call_of login h i = read_login i >>= λ dto. some (login_call dto h.ip h.user_agent)
call_of refresh h i = read_refresh_token i >>= λ dto. some (refresh_call dto)
call_of change_password h i = read_change_password i >>= λ dto. some (change_password_call dto)
call_of forgot_password h i = read_forgot_password i >>= λ dto. some (forgot_password_call dto)
call_of reset_password h i = read_reset_password i >>= λ dto. some (reset_password_call dto)
call_of verify_email h i = read_verify_email i >>= λ dto. some (verify_email_call dto)
call_of update_profile h i = read_update_profile i >>= λ dto. some (update_profile_call dto)
call_of list h i = read_pagination_query i >>= λ dto. some (list_call dto)
call_of logout h i = some logout_call
call_of resend_verification h i = some resend_verification_call
call_of get_profile h i = some get_profile_call
call_of remove h i = some (remove_call h.id)
call_of check h i = some check_call

module _ (pipe : ValidationPipe) where
  abbrev pub body_of : Incoming → Piped → Option Body
  body_of h (passed i) = call_of h.route h i >>= λ call. some (accepted call)
  body_of h (stopped messages) = some (rejected h.route messages)

  -- The sanitizer, which does not reach a query, and then the pipe; a handler without such a parameter
  -- has nothing to validate.
  abbrev pub piped : Incoming → Option (List Property) → Piped
  piped h none = passed (λ k. none)
  piped h (some ps) = pipe.run pipe_options ps (sanitized h)

  unfoldable pub receive : Incoming → Option Body
  receive h = body_of h (piped h (dto_of h.route))
