-- ===== src/App/Routes.antt =====
-- The routes of the controllers: what the decorators on a handler and on its class say of it, and
-- the call that a request whose body the pipe accepts makes.
use nestjs_jwt.Prelude.{ℕ, String, Bool, true, Option, none, some, List, [], ◌∷◌}
use nestjs_jwt.Common.Role.{Role}
use nestjs_jwt.Users.Updates.{UpdateProfileDto}
use nestjs_jwt.Users.Listing.{PaginationQueryDto}
use nestjs_jwt.Auth.Service.{RegisterDto, LoginDto, ChangePasswordDto}
use nestjs_jwt.App.AuthController.{
  RefreshTokenDto, ForgotPasswordDto, ResetPasswordDto, VerifyEmailDto,
}

-- `/auth/register` and so on, under the names of the handlers.
pub data Route : Type 0 where
  register login refresh logout change_password forgot_password : Route
  reset_password verify_email resend_verification : Route
  get_profile update_profile list remove check : Route

-- A route with what the pipe made of the body, the query and the path.
pub data Call : Type 0 where
  register_call : RegisterDto → Call
  login_call : LoginDto → (ip : String) → (user_agent : Option String) → Call
  refresh_call : RefreshTokenDto → Call
  logout_call : Call
  change_password_call : ChangePasswordDto → Call
  forgot_password_call : ForgotPasswordDto → Call
  reset_password_call : ResetPasswordDto → Call
  verify_email_call : VerifyEmailDto → Call
  resend_verification_call : Call
  get_profile_call : Call
  update_profile_call : UpdateProfileDto → Call
  list_call : PaginationQueryDto → Call
  remove_call : (id : Option ℕ) → Call
  check_call : Call

abbrev pub route_of : Call → Route
route_of (register_call dto) = register
route_of (login_call dto ip user_agent) = login
route_of (refresh_call dto) = refresh
route_of logout_call = logout
route_of (change_password_call dto) = change_password
route_of (forgot_password_call dto) = forgot_password
route_of (reset_password_call dto) = reset_password
route_of (verify_email_call dto) = verify_email
route_of resend_verification_call = resend_verification
route_of get_profile_call = get_profile
route_of (update_profile_call dto) = update_profile
route_of (list_call dto) = list
route_of (remove_call id) = remove
route_of check_call = check

-- `@Public()`
unfoldable pub is_public : Route → Option Bool
is_public register = some true
is_public login = some true
is_public refresh = some true
is_public forgot_password = some true
is_public reset_password = some true
is_public verify_email = some true
is_public check = some true
is_public logout = none
is_public change_password = none
is_public resend_verification = none
is_public get_profile = none
is_public update_profile = none
is_public list = none
is_public remove = none

-- `@Roles(Role.ADMIN)` stands, with the guard that reads it, on the class of `list` and `remove`.
unfoldable pub required_roles : Route → Option (List Role)
required_roles list = some (Role.admin ∷ [])
required_roles remove = some (Role.admin ∷ [])
required_roles _ = none

-- `@RawResponse()`
unfoldable pub is_raw : Route → Option Bool
is_raw check = some true
is_raw _ = none

-- `@HttpCode(HttpStatus.OK)`, or what Nest sends without it: 201 for a POST, 200 otherwise.
unfoldable pub status_code : Route → ℕ
status_code register = 201
status_code _ = 200
