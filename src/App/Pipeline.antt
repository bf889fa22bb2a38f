-- ===== src/App/Pipeline.antt =====
-- The way of a request, in the order of src/app.module.ts: rate limit, `JwtAuthGuard`, `RolesGuard`,
-- the pipe of src/main.ts, the handler, the interceptors, and the filter for whatever is thrown. The
-- middleware runs before: Common/Sanitize in Dto/Receive, and App/Trace.
use nestjs_jwt.Prelude.{ℕ, String, Bool, Option, none, some, List, [], ◌∷◌, if◌then◌else◌}
use Prim.Native.String.{◌++◌}
use nestjs_jwt.Prelude.Decimal.{to_text}
use nestjs_jwt.Common.Role.{JwtPayload, AuthenticatedUser}
use nestjs_jwt.Common.Exceptions.Exception.{type_error}
use nestjs_jwt.Common.Action.{Result, ok, err, pure, throw}
use nestjs_jwt.Common.Filter.{Thrown, Builtins, ApiErrorResponse, thrown, catch}
use nestjs_jwt.Common.Guards.{jwt_can_activate, roles_can_activate}
use nestjs_jwt.Common.Response.{Returned, Sent, value, intercept}
use nestjs_jwt.Users.Listing.{RegExp}
use nestjs_jwt.Auth.Deps.{Deps, State}
use nestjs_jwt.Auth.Service.{Method}
use nestjs_jwt.Auth.Strategy.{validate}
use nestjs_jwt.App.Data.{Data, health_report}
use nestjs_jwt.App.AuthController as AuthController
use nestjs_jwt.App.UserControllers as UserControllers
use nestjs_jwt.Common.Json.{str}
use nestjs_jwt.Logger.{LogCall, log, error}
use nestjs_jwt.App.Routes.{
  Route, Call, register_call, login_call, refresh_call, logout_call, change_password_call,
  forgot_password_call, reset_password_call, verify_email_call, resend_verification_call,
  get_profile_call, update_profile_call, list_call, remove_call, check_call, route_of, is_public,
  required_roles, is_raw, status_code,
}

-- What Nest and the libraries beside it throw and verify.
pub record Framework : Type 0 where
  pub builtins : Builtins
  -- Passport's verification: the secret, the token and the time.
  pub passport_verify : String → String → ℕ → Option JwtPayload
  -- `AuthGuard('jwt')` without a token that verifies.
  pub unauthenticated : Thrown
  -- A guard that answers false.
  pub forbidden : Thrown
  -- The rate limiter.
  pub too_many_requests : Thrown
  -- `ValidationPipe`, with its messages.
  pub bad_request : List String → Thrown
  pub regex : RegExp
  -- `exception.stack` of what is an `Error`, and nothing of what is not.
  pub stack : Thrown → Option String

-- What the pipe makes of the body: a call, or messages about one for a route.
pub data Body : Type 0 where
  accepted : Call → Body
  rejected : Route → List String → Body

abbrev pub body_route : Body → Route
body_route (accepted call) = route_of call
body_route (rejected route messages) = route

-- A request, the time, what is drawn at random while it is served, and what the rate limiter and the
-- ping of the database say.
pub record Request : Type 0 where
  pub method : String
  pub url : String
  pub request_id : String
  pub bearer : Option String
  pub body : Body
  pub within_limit : Bool
  pub unreachable : Option Thrown
  pub now : ℕ
  pub identifier : ℕ
  pub salt : String
  pub raw_token : String
  pub duration : String

-- Whether a guard lets the request pass, and as whom.
pub data Admission : Type 0 where
  admitted : Option AuthenticatedUser → Admission
  refused : Thrown → Admission

pub data Response : Type 0 where
  success : ℕ → Sent Data → Response
  failure : ℕ → ApiErrorResponse → Response

-- The response, and the calls of the logger that the interceptor and the filter make.
pub record Served : Type 0 where
  pub response : Response
  pub logged : List LogCall

module _ (d : Deps) (f : Framework) where
  open d use {collection, jwt}

  -- What Passport does with a bearer token at a time.
  abbrev pub verify_bearer : Option String → ℕ → State collection → Admission
  verify_bearer none now s = refused f.unauthenticated
  verify_bearer (some token) now s = elim (f.passport_verify jwt.access_secret token now) [
    | none ↦ refused f.unauthenticated
    | some p ↦ elim (validate d p s) [
      | ok user ↦ admitted (some user)
      | err e ↦ refused (thrown f.builtins e)
    ]
  ]

  -- `AuthGuard('jwt')`, over the strategy.
  unfoldable pub passport : Request → State collection → Admission
  passport r s = verify_bearer r.bearer r.now s

  -- `RolesGuard`, which Nest runs after the global guards.
  abbrev pub check_roles : Route → Admission → Admission
  check_roles route (refused e) = refused e
  check_roles route (admitted user) =
      if roles_can_activate (required_roles route) user then admitted user else refused f.forbidden

  -- The three guards in turn, given what the rate limiter and the strategy say.
  abbrev pub admit : Bool → Route → Admission → Admission
  admit within_limit route passport =
      if within_limit
      then check_roles route (jwt_can_activate (is_public route) (λ b. admitted none) passport)
      else refused f.too_many_requests

  unfoldable pub guards : Request → State collection → Admission
  guards r s = admit r.within_limit (body_route r.body) (passport r s)

  -- Reading a property of a missing user throws. (`@CurrentUser('userId')` gives undefined in its place;
  -- no public route reads the user, so it is there.)
  abbrev pub as_user :
      Option AuthenticatedUser
      → (AuthenticatedUser → Method d (Returned Data))
      → Method d (Returned Data)
  as_user none h = throw type_error
  as_user (some user) h = h user

  unfoldable pub handle : Call → Option AuthenticatedUser → Request → Method d (Returned Data)
  handle (register_call dto) user r =
      AuthController.register d dto r.identifier r.salt r.raw_token r.now
  handle (login_call dto ip user_agent) user r = AuthController.login d dto ip user_agent r.now
  handle (refresh_call dto) user r = AuthController.refresh d dto r.now
  handle logout_call user r = as_user user (λ u. AuthController.logout d u)
  handle (change_password_call dto) user r =
      as_user user (λ u. AuthController.change_password d u dto r.salt)
  handle (forgot_password_call dto) user r = AuthController.forgot_password d dto r.raw_token r.now
  handle (reset_password_call dto) user r = AuthController.reset_password d dto r.salt r.now
  handle (verify_email_call dto) user r = AuthController.verify_email d dto r.now
  handle resend_verification_call user r =
      as_user user (λ u. AuthController.resend_verification d u r.raw_token r.now)
  handle get_profile_call user r = as_user user (λ u. UserControllers.get_profile d u.user_id)
  handle (update_profile_call dto) user r =
      as_user user (λ u. UserControllers.update_profile d u.user_id dto)
  handle (list_call dto) user r = UserControllers.list d f.regex dto
  handle (remove_call id) user r = UserControllers.remove d id r.now
  handle check_call user r = pure (value health_report)

  -- The line of `LoggingInterceptor`.
  abbrev pub interceptor_line : Request → ℕ → LogCall
  interceptor_line r status =
      log
        (str (
          r.method
          ++ (" " ++ (r.url ++ (" " ++ (to_text status ++ (" - " ++ (r.duration ++ "ms"))))))))
        none

  -- The line of `AllExceptionsFilter`, with the exception's stack.
  abbrev pub filter_line : Request → ℕ → String → Option String → LogCall
  filter_line r status message trace =
      error
        (str (
          r.method
          ++ (" "
              ++ (r.url
                  ++ (" -> "
                      ++ (to_text status
                          ++ (": " ++ (message ++ (" [requestId=" ++ (r.request_id ++ "]"))))))))))
        trace none

  -- `AllExceptionsFilter.catch`
  unfoldable pub fail : Request → Thrown → Served
  fail r e =
      let (status, body) = catch e in
      record {
        response = failure status body;
        logged = filter_line r status body.message (f.stack e) ∷ [];
      }

  -- The envelope, and then the line: `LoggingInterceptor` is the outer of the two.
  unfoldable pub succeed : Request → Route → Returned Data → Served
  succeed r route v = record {
    response = success (status_code route) (intercept (is_raw route) v);
    logged = interceptor_line r (status_code route) ∷ [];
  }

  -- The health check throws what the ping of the database reports.
  abbrev pub ping : Call → Request → Option Thrown
  ping check_call r = r.unreachable
  ping call r = none

  abbrev pub reply : Request → Route → Result (Returned Data) → Served
  reply r route (ok v) = succeed r route v
  reply r route (err e) = fail r (thrown f.builtins e)

  unfoldable pub respond :
      Call → Option AuthenticatedUser → Request → State collection → Served × State collection
  respond call user r s = elim (ping call r) [
    | some e ↦ (fail r e, s)
    | none ↦ let (res, s') = handle call user r s in (reply r (route_of call) res, s')
  ]

  abbrev pub enter :
      Body → Option AuthenticatedUser → Request → State collection → Served × State collection
  enter (rejected route messages) user r s = (fail r (f.bad_request messages), s)
  enter (accepted call) user r s = respond call user r s

  unfoldable pub serve : Request → State collection → Served × State collection
  serve r s = elim (guards r s) [
    | refused e ↦ (fail r e, s)
    | admitted user ↦ enter r.body user r s
  ]
