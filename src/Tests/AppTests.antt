-- ===== src/Tests/AppTests.antt =====
-- Requests served at one account, an administrator's.
use nestjs_jwt.Prelude.{ℕ, String, Option, ◌≡◌, ◌⊎◌, refl, true, false, none, some, [], ◌∷◌}
use nestjs_jwt.Common.Role.{Role, JwtPayload}
use nestjs_jwt.Common.Filter.{http_exception, object, text, one, many, ApiErrorResponse}
use nestjs_jwt.Users.Updates.{by_active_id, by_email, put_verification_token}
use nestjs_jwt.Users.Service as Users
use nestjs_jwt.Auth.Strategy.{validate}
use nestjs_jwt.Common.Guards.{jwt_can_activate, roles_can_activate}
use nestjs_jwt.App.Routes.{
  Call, is_public, required_roles, get_profile_call, remove_call, register_call, login_call,
  forgot_password_call, logout_call,
}
use nestjs_jwt.App.Pipeline.{
  Framework, Request, accepted, success, failure, passport, guards, respond, handle, serve, fail,
  succeed,
}
use nestjs_jwt.Common.Response.{success as enveloped}
use nestjs_jwt.Auth.Service.{
  TokenPair, register, input_of, hash_value, compare_value, sign_access, welcome,
  issue_email_verification_token,
}
use nestjs_jwt.Common.Filter.{catch, resolve}
use nestjs_jwt.App.AuthController as AuthController
use nestjs_jwt.Users.Schema.{new_user}
use nestjs_jwt.App.Data.{token_pair}
use nestjs_jwt.App.Signup.{forgot_password_response, is_success, signup_then_login}
use nestjs_jwt.App.Trace.{answer, failed_line, answer_traced}
use nestjs_jwt.App.Refines.{serve_all}
use nestjs_jwt.App.Bearer.{IsDocumented, IsBearer}
use nestjs_jwt.App.Isolation.{serve-IsIsolated}
use nestjs_jwt.Common.Json.{Fields}
use nestjs_jwt.Common.Json as Json
use nestjs_jwt.Logger.{LogCall, AppLogger, call}
use nestjs_jwt.Users.Documents.{get}
use nestjs_jwt.App.Allowed.{IsAllowed, IsRefusal, serve_guarded}
use nestjs_jwt.App.Replies.{IsReply, serve-IsReply}
use nestjs_jwt.App.Removal.{removal_ends_access}
use nestjs_jwt.Tests.Sample.{world, root, ruled, ruled-IsWellFormed, bob, start, payload}

abbrev pub nest : Framework
nest = record {
  builtins = record {
    conflict_exception = λ m. http_exception 409 m (object (one m) (some "Conflict"));
    unauthorized_exception = λ m. http_exception 401 m (object (one m) (some "Unauthorized"));
    not_found_exception = λ m. http_exception 404 m (object (one m) (some "Not Found"));
    driver_message = "E11000";
    type_message = "null";
    required_message = λ name. name;
    to_iso_string = λ t. "later";
  };
  passport_verify = λ secret token now. some (record payload { role = Role.admin });
  unauthenticated = http_exception 401 "Unauthorized" (object (one "Unauthorized") none);
  forbidden =
      http_exception 403 "Forbidden resource"
        (object (one "Forbidden resource") (some "Forbidden"));
  too_many_requests =
      http_exception 429 "ThrottlerException: Too Many Requests"
        (text "ThrottlerException: Too Many Requests");
  bad_request =
      λ ms. http_exception 400 "Bad Request Exception" (object (many ms) (some "Bad Request"));
  regex = λ a b. true;
  stack = λ e. some "Error";
}

abbrev pub nest-IsDocumented : IsDocumented nest
nest-IsDocumented = record {
  builtins = record { conflict = λ m. refl; unauthorized = λ m. refl; not_found = λ m. refl };
  unauthenticated = refl;
  forbidden = refl;
  too_many_requests = refl;
  bad_request = λ ms. refl;
}

abbrev pub request : Option String → Call → Request
request bearer call = record {
  method = "GET";
  url = "/";
  request_id = "1";
  bearer = bearer;
  body = accepted call;
  within_limit = true;
  unreachable = none;
  now = 5;
  identifier = 8;
  salt = "salt";
  raw_token = "raw";
  duration = "1";
}

serve_guarded_example :
    let r : Request = request none get_profile_call in
    IsAllowed world nest r start
    ⊎ ((n : ℕ) × (body : ApiErrorResponse) × IsRefusal world nest r.within_limit n
        × ((serve world nest r start).0.response ≡ failure n body)
        × (body.success ≡ false)
        × ((serve world nest r start).1 ≡ start))
serve_guarded_example =
    serve_guarded world nest (request none get_profile_call) start nest-IsDocumented

serve-IsReply_example :
    let r : Request = request (some "access0") (remove_call none) in
    IsReply (serve world nest r ruled).0.response (serve world nest r ruled).0.logged
serve-IsReply_example =
    serve-IsReply world nest (request (some "access0") (remove_call none)) ruled nest-IsDocumented
      tt

removal_ends_access_example :
    let r : Request = request (some "access0") (remove_call (some 7)) in
    let q : Request = request (some "access0") get_profile_call in
    let t = (serve_all world nest [] (serve world nest r ruled).1).1 in
    (body : ApiErrorResponse) × ((serve world nest q t).0.response ≡ failure 401 body)
    × (body.success ≡ false)
    × ((serve world nest q t).1 ≡ t)
unfolding guards is_public jwt_can_activate passport validate Users.find_active_by_id by_active_id
    roles_can_activate required_roles
removal_ends_access_example =
    removal_ends_access world nest (request (some "access0") (remove_call (some 7))) []
      (request (some "access0") get_profile_call) ruled "access0"
      (record payload { role = Role.admin }) {u = root} nest-IsDocumented ruled-IsWellFormed refl
      refl refl tt refl refl refl refl

abbrev forgetful : Request
forgetful = request none (forgot_password_call (record { email = "Ann@x.io" }))

forgot_password_response_example :
    (serve world nest forgetful start).0.response
    ≡ success 200 (enveloped "If that email exists, a password reset link has been sent" none)
forgot_password_response_example =
    forgot_password_response world nest forgetful (record { email = "Ann@x.io" }) start refl refl

abbrev signup : Request
signup = request none (register_call bob)

signed_up : is_success (serve world nest signup start).0.response ≡ true
unfolding serve guards jwt_can_activate is_public roles_can_activate required_roles respond handle
    AuthController.register register Users.find_by_email by_email Users.create Users.user_of
    new_user input_of hash_value welcome issue_email_verification_token succeed
signed_up = refl

signup_then_login_example :
    let r : Request = signup in
    let q : Request =
      request none (login_call (record { email = "bob@x.io"; password = "pw" }) "127.0.0.1" none) in
    (tokens : TokenPair) × ((serve world nest q (serve world nest r start).1).0.response
      ≡ success 200 (enveloped "Login successful" (some (token_pair tokens))))
unfolding compare_value hash_value sign_access Users.user_of new_user put_verification_token
    input_of
signup_then_login_example =
    signup_then_login world nest signup
      (request none (login_call (record { email = "bob@x.io"; password = "pw" }) "127.0.0.1" none))
      bob "127.0.0.1" none start refl refl refl refl refl refl (refl, tt) refl refl signed_up

answer_traced_example :
    let (a, t) = answer world nest "id-1" (request none get_profile_call) start in
    (a.headers ≡ ("X-Request-Id", "id-1") ∷ [])
    × ((c : LogCall) × (a.served.logged ≡ c ∷ [])
        × ((l : AppLogger) (time : String)
            → (p : Fields) × ((call l time c).out ≡ p ∷ [])
              × (Json.get "level" p ≡ some (Json.str "ERROR"))
              × (Json.get "message" p
                  ≡ some (
                      Json.str
                        (failed_line (request none get_profile_call) "id-1" 401 "Unauthorized")))))
unfolding answer serve guards jwt_can_activate is_public passport fail catch resolve
answer_traced_example = answer_traced world nest "id-1" (request none get_profile_call) start refl

abbrev leaving : Request
leaving = request (some "access0") logout_call

serve-IsIsolated_example :
    (get 9 (serve world nest leaving start).1.store ≡ get 9 start.store)
    ⊎ ((p : JwtPayload) × IsBearer world nest leaving.bearer leaving.now start p
        × ((9 ≡ p.sub) ⊎ (p.role ≡ Role.admin)))
unfolding is_public
serve-IsIsolated_example = serve-IsIsolated world nest leaving start 9 refl (refl, tt) refl
