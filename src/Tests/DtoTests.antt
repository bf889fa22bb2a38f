-- ===== src/Tests/DtoTests.antt =====
-- Requests that a sample of the pipe lets through or stops.
use nestjs_jwt.Prelude.{
  ℕ, ◌≡◌, refl, ◌⊎◌, Option, String, true, false, length, none, some, [], ◌∷◌, arith, All,
}
use nestjs_jwt.Common.Json.{get, null, str, Fields, end, field}
use nestjs_jwt.Common.Sanitize.{is_prohibited, sanitize, sanitize_inputs}
use nestjs_jwt.Common.Validation.{is_strong_password, looks_ahead, repeats}
use nestjs_jwt.Common.Role.{AuthenticatedUser}
use nestjs_jwt.Common.Filter.{ApiErrorResponse, Thrown}
use nestjs_jwt.App.Routes.{Route, Call}
use nestjs_jwt.App.Pipeline.{
  Request, Body, accepted, rejected, body_route, failure, admitted, refused, guards, serve,
}
use nestjs_jwt.App.Refines.{serve_all}
use nestjs_jwt.App.Allowed.{IsRefusal}
use nestjs_jwt.Auth.Service.{RegisterDto}
use nestjs_jwt.Dto.Rules.{
  code_units, is_phone_number, register_dto, update_profile_dto, strong_password,
}
use nestjs_jwt.Dto.Pipe.{pipe_options, declared}
use nestjs_jwt.Dto.Read.{read_register, read_update_profile}
use nestjs_jwt.Dto.Receive.{payload, Incoming, dto_of, call_of, receive}
use nestjs_jwt.Dto.Typed.{receive-typed}
use nestjs_jwt.Dto.Vetted.{IsVetted, receive-IsVetted}
use nestjs_jwt.Dto.Undeclared.{serve_undeclared}
use nestjs_jwt.Dto.Strong.{HasStrongPassword, serve_all-strong}
use nestjs_jwt.Tests.Sample.{world, ruled, nothing}
use nestjs_jwt.Tests.AppTests.{nest, nest-IsDocumented, request}
use nestjs_jwt.Tests.SamplePipe.{sample_pipe, sample_pipe-IsDocumented}

abbrev incoming : Route → Fields → Incoming
incoming route fields = record {
  route = route;
  inputs = record { body = fields; params = end; query = fields };
  ip = "127.0.0.1";
  user_agent = none;
  id = none;
}

abbrev form : String → Fields → Fields
form password rest = field "firstName" (str "Bob") (
    field "lastName" (str "Ray")
      (field "email" (str "bob@x.io") (field "password" (str password) rest)))

abbrev bob_strong : RegisterDto
bob_strong = record {
  first_name = "Bob";
  last_name = "Ray";
  email = "bob@x.io";
  password = "Passw0rd!";
}

strong_form :
    receive sample_pipe (incoming Route.register (form "Passw0rd!" end))
    ≡ some (accepted (Call.register_call bob_strong))
unfolding receive pipe_options dto_of call_of register_dto strong_password declared get
    read_register sanitize payload sanitize_inputs code_units is_prohibited is_strong_password
    looks_ahead repeats
strong_form = refl

weak_form :
    receive sample_pipe (incoming Route.register (form "password" end))
    ≡ some (rejected Route.register ("Bad Request" ∷ []))
unfolding receive pipe_options dto_of call_of register_dto strong_password declared get
    read_register sanitize payload sanitize_inputs code_units is_prohibited is_strong_password
    looks_ahead
weak_form = refl

-- A role is no property of the profile form.
abbrev promotion : Incoming
promotion = incoming Route.update_profile (field "role" (str "admin") end)

promotion_stopped :
    receive sample_pipe promotion ≡ some (rejected Route.update_profile ("Bad Request" ∷ []))
unfolding receive pipe_options dto_of update_profile_dto declared sanitize payload sanitize_inputs
    is_prohibited
promotion_stopped = refl

-- A null for a name passes the pipe, and the form is then no `UpdateProfileDto`.
null_name : receive sample_pipe (incoming Route.update_profile (field "firstName" null end)) ≡ none
unfolding receive pipe_options dto_of call_of update_profile_dto declared get read_update_profile
    sanitize payload sanitize_inputs is_prohibited
null_name = refl

no_phone_number : is_phone_number (code_units "+0123456789") ≡ false
unfolding is_phone_number code_units
no_phone_number = refl

phone_number : is_phone_number (code_units "+15551234567") ≡ true
unfolding is_phone_number code_units
phone_number = refl

-- A character beyond the basic plane is two code units.
two_units : length (code_units "😀") ≡ 2
unfolding code_units
two_units = refl

abbrev served : Body → Request
served b = record (request (some "access0") Call.check_call) { body = b }

receive-typed_example :
    (b : Body) × (receive sample_pipe (incoming Route.list end) ≡ some b)
    × (body_route b ≡ Route.list)
unfolding get sanitize payload sanitize_inputs
receive-typed_example =
    receive-typed sample_pipe (incoming Route.list end) sample_pipe-IsDocumented
      (λ k h. ground (arith, h))

receive-IsVetted_example : IsVetted sample_pipe (Call.register_call bob_strong)
receive-IsVetted_example =
    receive-IsVetted sample_pipe (incoming Route.register (form "Passw0rd!" end))
      (Call.register_call bob_strong) sample_pipe-IsDocumented strong_form

serve_undeclared_example :
    let r : Request = served (rejected Route.update_profile ("Bad Request" ∷ [])) in
    (n : ℕ) × (body : ApiErrorResponse) × (((e : Thrown) × (guards world nest r ruled ≡ refused e)
        × IsRefusal world nest r.within_limit n)
      ⊎ ((user : Option AuthenticatedUser) × (guards world nest r ruled ≡ admitted user)
          × (n ≡ 400)))
    × ((serve world nest r ruled).0.response ≡ failure n body)
    × ((serve world nest r ruled).1 ≡ ruled)
unfolding dto_of update_profile_dto declared is_prohibited get payload
serve_undeclared_example =
    serve_undeclared world nest sample_pipe promotion
      (served (rejected Route.update_profile ("Bad Request" ∷ []))) ruled update_profile_dto "role"
      (str "admin") nest-IsDocumented sample_pipe-IsDocumented promotion_stopped refl refl refl refl

serve_all-strong_example :
    All
      (HasStrongPassword world)
      (serve_all world nest
        (served (accepted (Call.register_call bob_strong)) ∷ [])
        nothing).1.store
serve_all-strong_example =
    serve_all-strong world nest sample_pipe (served (accepted (Call.register_call bob_strong)) ∷ [])
      nothing sample_pipe-IsDocumented (refl, tt)
      ((incoming Route.register (form "Passw0rd!" end), strong_form), tt)
      (record { ids = tt; emails = tt; sound = tt }) tt
