-- ===== src/App/Signup.antt =====
-- Requests to public routes of src/auth/auth.controller.ts, one after the other, as the client sees them.
use nestjs_jwt.Prelude.{
  ◌≡◌, refl, sym, ap, ap₂, ◌∙◌, ◌⊎◌, inl, inr, String, Bool, true, false, Option, none, some, arith,
  is_some,
}
use nestjs_jwt.Common.Exceptions.{Exception}
use nestjs_jwt.Common.Action.{Result, ok, err, Action, pure, ◌>>=◌, is_ok}
use nestjs_jwt.Common.Filter.{thrown}
use nestjs_jwt.Common.Response.{Returned, success, intercept}
use nestjs_jwt.Users.Schema.{User}
use nestjs_jwt.Users.Updates.{normalize, RequestMetadata}
use nestjs_jwt.Users.Documents.{get, HasDistinctIds}
use nestjs_jwt.Auth.Deps.{Deps, State}
use nestjs_jwt.Auth.Service as AuthService
use nestjs_jwt.Auth.Service.{
  Method, RegisterDto, LoginDto, TokenPair, hash_value, compare_value, sign_access,
}
use nestjs_jwt.Auth.Login.{documents}
use nestjs_jwt.Auth.Registration.{registered, register_then_login}
use nestjs_jwt.Auth.Passwords.{forgot_password-ok}
use nestjs_jwt.App.Data.{Data, token_pair, user_document, result, result_null}
use nestjs_jwt.App.AuthController as AuthController
use nestjs_jwt.App.AuthController.{ForgotPasswordDto}
use nestjs_jwt.App.Routes.{
  Call, route_of, is_public, status_code, is_raw, register_call, login_call, forgot_password_call,
}
use nestjs_jwt.App.Pipeline as Pipeline
use nestjs_jwt.App.Pipeline.{
  Framework, Request, accepted, admitted, Response, guards, passport, admit, ping, fail, succeed,
  reply, handle, respond, serve,
}
use nestjs_jwt.App.Refines.{serve_admitted}
use nestjs_jwt.App.Allowed.{admit_public, is_public-cases}

Result-cases :
    {A : Type 0} (r : Result A) → ((a : A) × (r ≡ ok a)) ⊎ ((e : Exception) × (r ≡ err e))
Result-cases (ok a) = inl (a, refl)
Result-cases (err e) = inr (e, refl)

module _ {S A B : Type 0} (m : Action S A) (g : A → B) (s : S) where
  then_ok : {a : A} → (m s).0 ≡ ok a → (m >>= λ a. pure (g a)) s ≡ (ok (g a), (m s).1)
  then_ok e = rw (◌>>=◌, e) refl

  then_err : {e : Exception} → (m s).0 ≡ err e → (m >>= λ a. pure (g a)) s ≡ (err e, (m s).1)
  then_err e = rw (◌>>=◌, e) refl

abbrev pub is_success : Response → Bool
is_success (Response.success n v) = true
is_success (Response.failure n b) = false

module _ (d : Deps) (f : Framework) where
  open d use {collection, text, jwt_service}

  -- Within the rate limit, a public route is served to anyone.
  serve_public :
      (r : Request) (call : Call) (s : State collection)
      → r.within_limit ≡ true
      → r.body ≡ accepted call
      → is_public (route_of call) ≡ some true
      → ping d f call r ≡ none
      → serve d f r s
        ≡ (reply d f r (route_of call) (handle d f call none r s).0, (handle d f call none r s).1)
  unfolding guards respond
  serve_public r call s l b p n = elim (is_public-cases (route_of call)) [
    | inl q ↦ absurd (ground (arith, p, q))
    | inr (_, q) ↦
        let open_ : guards d f r s ≡ admitted none =
          ap₂ (λ x y. admit d f x (Pipeline.body_route y) (passport d f r s)) l b
          ∙ admit_public d f (route_of call) (passport d f r s) p q in
        serve_admitted d f r s open_ b ∙ rw (respond, n) refl
  ]

  -- A handler that calls one method and then returns, on a public route.
  module _ (r : Request) (call : Call) (s : State collection) {A : Type 0} (m : Method d A)
      (g : A → Returned Data) (run : handle d f call none r s ≡ (m >>= λ a. pure (g a)) s)
      (l : r.within_limit ≡ true) (b : r.body ≡ accepted call)
      (p : is_public (route_of call) ≡ some true) (n : ping d f call r ≡ none) where
    serve_ok :
        {a : A} → (m s).0 ≡ ok a → serve d f r s ≡ (succeed d f r (route_of call) (g a), (m s).1)
    serve_ok e =
        serve_public r call s l b p n
        ∙ ap (λ x. (reply d f r (route_of call) x.0, x.1)) (run ∙ then_ok m g s e)

    serve_err :
        {e : Exception}
        → (m s).0 ≡ err e
        → serve d f r s ≡ (fail d f r (thrown f.builtins e), (m s).1)
    serve_err e =
        serve_public r call s l b p n
        ∙ ap (λ x. (reply d f r (route_of call) x.0, x.1)) (run ∙ then_err m g s e)

  -- Whatever address is asked for, and whoever has it, a request for a reset within the rate limit
  -- has the same response, status and body.
  pub forgot_password_response :
      (r : Request) (dto : ForgotPasswordDto) (s : State collection)
      → r.within_limit ≡ true
      → r.body ≡ accepted (forgot_password_call dto)
      → (serve d f r s).0.response
        ≡ Response.success 200
            (success "If that email exists, a password reset link has been sent" none)
  unfolding handle AuthController.forgot_password is_public succeed status_code is_raw intercept
  forgot_password_response r dto s l b =
      ap (λ x. x.0.response)
        (serve_ok r (forgot_password_call dto) s
          (AuthService.forgot_password d dto.email r.raw_token r.now)
          (λ _. result_null "If that email exists, a password reset link has been sent") refl l b
          refl refl (forgot_password-ok d dto.email r.raw_token r.now s))

  -- Signing up and in. Once a registration is answered with a success, a login with the same
  -- address and password, at any time after it, is answered with status 200 and a pair of tokens,
  -- both within the rate limit: where the identifier drawn is that of no document and no two
  -- documents share one, normalising a normalised address changes nothing, bcrypt accepts a
  -- password against its own hash, and the access token can be decoded.
  pub signup_then_login :
      (r q : Request) (dto : RegisterDto) (ip : String) (user_agent : Option String)
      (s : State collection)
      → r.within_limit ≡ true
      → q.within_limit ≡ true
      → r.body ≡ accepted (register_call dto)
      → q.body
        ≡ accepted
            (login_call (record { email = dto.email; password = dto.password }) ip user_agent)
      → normalize text (normalize text dto.email) ≡ normalize text dto.email
      → compare_value d dto.password (hash_value d dto.password r.salt) ≡ true
      → HasDistinctIds (documents d s)
      → get r.identifier (documents d s) ≡ none
      → is_some (
          jwt_service.decode
            (sign_access d (registered d dto r.identifier r.salt r.raw_token r.now) q.now))
        ≡ true
      → is_success (serve d f r s).0.response ≡ true
      → (tokens : TokenPair) × ((serve d f q (serve d f r s).1).0.response
          ≡ Response.success 200 (success "Login successful" (some (token_pair tokens))))
  unfolding handle AuthController.register AuthController.login is_public succeed status_code is_raw
      intercept fail
  signup_then_login r q dto ip user_agent s l l' b b' idem match ids fresh decodes h =
      let m : Method d _ = AuthService.register d dto r.identifier r.salt r.raw_token r.now in
      elim (Result-cases (m s).0) [
        | inr (e, x) ↦
            let run = serve_err r (register_call dto) s m welcome_reply refl l b refl refl x in
            absurd (ground (arith, ap (λ y. is_success y.0.response) run, h))
        | inl (u, x) ↦
            let run = serve_ok r (register_call dto) s m welcome_reply refl l b refl refl x in
            let t = (m s).1 in
            let meta : RequestMetadata = record { ip_address = some ip; user_agent = user_agent } in
            let in_ =
              register_then_login d dto r.identifier r.salt r.raw_token r.now q.now meta s idem
                match ids fresh decodes (ap is_ok x) in
            let login : Method d TokenPair = AuthService.login d credentials meta q.now in
            elim (Result-cases (login t).0) [
              | inr (e, y) ↦ absurd (ground (arith, sym (ap is_ok y) ∙ in_.1))
              | inl (tokens, y) ↦
                  let entered =
                    serve_ok q (login_call credentials ip user_agent) t login
                      (λ v. result "Login successful" (token_pair v)) refl l' b' refl refl y in
                  (
                    tokens,
                    ap (λ z. (serve d f q z.1).0.response) run ∙ ap (λ z. z.0.response) entered,
                  )
            ]
      ]
    where
      credentials : LoginDto
      credentials = record { email = dto.email; password = dto.password }

      welcome_reply : User → Returned Data
      welcome_reply u =
          result "Registration successful. Please check your email to verify your account."
            (user_document u)
