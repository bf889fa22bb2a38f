-- ===== src/Dto/Typed.antt =====
-- What passes the pipe has the types that src/auth/dto, src/users/dto and src/common/dto declare.
use nestjs_jwt.Prelude.{
  ℕ, ◌≡◌, refl, ap, ◌⊎◌, inl, inr, String, true, Option, none, some, List, arith, is_some,
  Option-cases,
}
use nestjs_jwt.Common.Json.{Json, Fields}
use nestjs_jwt.App.Routes.{
  Call, route_of, Route, register, login, refresh, change_password, forgot_password, reset_password,
  verify_email, update_profile, list,
}
use nestjs_jwt.App.Pipeline.{Body, accepted, rejected, body_route}
use nestjs_jwt.Dto.Rules.{
  Property, register_dto, login_dto, refresh_token_dto, change_password_dto, forgot_password_dto,
  reset_password_dto, verify_email_dto, update_profile_dto, pagination_query_dto,
}
use nestjs_jwt.Dto.Pipe.{
  pipe_options, Instance, passed, stopped, declared, Piped, ValidationPipe, IsDocumented,
}
use nestjs_jwt.Dto.Passed.{HasNoNull, required, optional}
use nestjs_jwt.Dto.Read.{
  ◌>>=◌, bind-some_inv, optional_text, numeral, read_register, read_login, read_refresh_token,
  read_change_password, read_forgot_password, read_reset_password, read_verify_email,
  read_update_profile, read_pagination_query,
}
use nestjs_jwt.Dto.Receive.{sanitized, Incoming, dto_of, call_of, receive, piped}

pub Piped-cases :
    (p : Piped) → ((i : Instance) × (p ≡ passed i)) ⊎ ((ms : List String) × (p ≡ stopped ms))
Piped-cases (passed i) = inl (i, refl)
Piped-cases (stopped ms) = inr (ms, refl)

-- An optional text is missing or a text.
optional_text-some :
    (v : Option Json) {A B : Type 0}
    → (B → (s : String) × (v ≡ some (Json.str s)))
    → ((v ≡ none) × A) ⊎ B
    → (o : Option String) × (optional_text v ≡ some o)
optional_text-some v k (inl (e, a)) = (none, rw e refl)
optional_text-some v k (inr b) = let (s, e) = k b in (some s, rw e refl)

-- An optional number that starts with one is a number.
numeral-some :
    (v : Option Json) {A B : Type 0}
    → (A → ⊥)
    → ((v ≡ none) × A) ⊎ (((n : ℕ) × (v ≡ some (Json.num n))) × B)
    → (n : ℕ) × (numeral v ≡ some n)
numeral-some v k (inl (e, a)) = absurd (k a)
numeral-some v k (inr ((n, e), b)) = (n, rw e refl)

module _ (pipe : ValidationPipe) (doc : IsDocumented pipe) (h : Incoming) (body : Fields)
    (i : Instance) (full : HasNoNull body) where
  open pipe use {run}

  IsPassed : List Property → Type 0
  IsPassed ps = run pipe_options ps body ≡ passed i

  register_typed : IsPassed register_dto → is_some (call_of register h i) ≡ true
  unfolding IsPassed call_of register_dto declared read_register
  register_typed e =
      let text = required pipe doc register_dto body i e in
      let (_, first) = (text "firstName" _ refl refl).0 in
      let (_, last) = (text "lastName" _ refl refl).0 in
      let (_, email) = (text "email" _ refl refl).0 in
      let (_, password) = (text "password" _ refl refl).0 in rw (first, last, email, password) refl

  login_typed : IsPassed login_dto → is_some (call_of login h i) ≡ true
  unfolding IsPassed call_of login_dto declared read_login
  login_typed e =
      let text = required pipe doc login_dto body i e in
      let (_, email) = (text "email" _ refl refl).0 in
      let (_, password) = (text "password" _ refl refl).0 in rw (email, password) refl

  refresh_typed : IsPassed refresh_token_dto → is_some (call_of refresh h i) ≡ true
  unfolding IsPassed call_of refresh_token_dto declared read_refresh_token
  refresh_typed e =
      let (_, token) = (required pipe doc _ body i e "refreshToken" _ refl refl).0 in rw token refl

  change_password_typed :
      IsPassed change_password_dto → is_some (call_of change_password h i) ≡ true
  unfolding IsPassed call_of change_password_dto declared read_change_password
  change_password_typed e =
      let text = required pipe doc change_password_dto body i e in
      let (_, old) = (text "oldPassword" _ refl refl).0 in
      let (_, new) = (text "newPassword" _ refl refl).0 in rw (old, new) refl

  forgot_password_typed :
      IsPassed forgot_password_dto → is_some (call_of forgot_password h i) ≡ true
  unfolding IsPassed call_of forgot_password_dto declared read_forgot_password
  forgot_password_typed e =
      let (_, email) = (required pipe doc _ body i e "email" _ refl refl).0 in rw email refl

  reset_password_typed : IsPassed reset_password_dto → is_some (call_of reset_password h i) ≡ true
  unfolding IsPassed call_of reset_password_dto declared read_reset_password
  reset_password_typed e =
      let text = required pipe doc reset_password_dto body i e in
      let (_, token) = (text "token" _ refl refl).0 in
      let (_, new) = (text "newPassword" _ refl refl).0 in rw (token, new) refl

  verify_email_typed : IsPassed verify_email_dto → is_some (call_of verify_email h i) ≡ true
  unfolding IsPassed call_of verify_email_dto declared read_verify_email
  verify_email_typed e =
      let (_, token) = (required pipe doc _ body i e "token" _ refl refl).0 in rw token refl

  update_profile_typed : IsPassed update_profile_dto → is_some (call_of update_profile h i) ≡ true
  unfolding IsPassed call_of update_profile_dto declared read_update_profile
  update_profile_typed e =
      let text = optional pipe doc update_profile_dto body i e in
      let (_, first) = optional_text-some _ (λ b. b.0) (text "firstName" _ refl full refl) in
      let (_, last) = optional_text-some _ (λ b. b.0) (text "lastName" _ refl full refl) in
      let (_, phone) =
        optional_text-some _ (λ b. (b.0.0, b.0.1)) (text "phoneNumber" _ refl full refl) in
      let (_, avatar) = optional_text-some _ (λ b. b.0) (text "avatar" _ refl full refl) in
      rw (first, last, phone, avatar) refl

  list_typed : IsPassed pagination_query_dto → is_some (call_of list h i) ≡ true
  unfolding IsPassed call_of pagination_query_dto declared read_pagination_query
  list_typed e =
      let value = optional pipe doc pagination_query_dto body i e in
      let (_, page) =
        numeral-some _ (λ n. absurd (ground (arith, n))) (value "page" _ refl full refl) in
      let (_, limit) =
        numeral-some _ (λ n. absurd (ground (arith, n))) (value "limit" _ refl full refl) in
      let (_, search) = optional_text-some _ (λ b. b.0) (value "search" _ refl full refl) in
      rw (page, limit, search) refl

  -- Whatever the route, an instance that passes is a call.
  call_of-some :
      (route : Route) (ps : List Property)
      → dto_of route ≡ some ps
      → IsPassed ps
      → is_some (call_of route h i) ≡ true
  unfolding IsPassed dto_of
  call_of-some register ps d e = register_typed (ground (arith, d, e))
  call_of-some login ps d e = login_typed (ground (arith, d, e))
  call_of-some refresh ps d e = refresh_typed (ground (arith, d, e))
  call_of-some change_password ps d e = change_password_typed (ground (arith, d, e))
  call_of-some forgot_password ps d e = forgot_password_typed (ground (arith, d, e))
  call_of-some reset_password ps d e = reset_password_typed (ground (arith, d, e))
  call_of-some verify_email ps d e = verify_email_typed (ground (arith, d, e))
  call_of-some update_profile ps d e = update_profile_typed (ground (arith, d, e))
  call_of-some list ps d e = list_typed (ground (arith, d, e))
  call_of-some _ ps d e = absurd (ground (arith, d))

plain_call_of-some :
    (h : Incoming) (i : Instance) (route : Route)
    → dto_of route ≡ none
    → is_some (call_of route h i) ≡ true
unfolding dto_of call_of
plain_call_of-some h i route d = ground (arith, d)

-- A call is one for the route.
pub call_of-route :
    (h : Incoming) (i : Instance) (route : Route) (call : Call)
    → call_of route h i ≡ some call
    → route_of call ≡ route
unfolding call_of
call_of-route h i register call e = let (_, _, made) = bind-some_inv _ _ e in ap route_of made
call_of-route h i login call e = let (_, _, made) = bind-some_inv _ _ e in ap route_of made
call_of-route h i refresh call e = let (_, _, made) = bind-some_inv _ _ e in ap route_of made
call_of-route h i change_password call e =
    let (_, _, made) = bind-some_inv _ _ e in ap route_of made
call_of-route h i forgot_password call e =
    let (_, _, made) = bind-some_inv _ _ e in ap route_of made
call_of-route h i reset_password call e = let (_, _, made) = bind-some_inv _ _ e in ap route_of made
call_of-route h i verify_email call e = let (_, _, made) = bind-some_inv _ _ e in ap route_of made
call_of-route h i update_profile call e = let (_, _, made) = bind-some_inv _ _ e in ap route_of made
call_of-route h i list call e = let (_, _, made) = bind-some_inv _ _ e in ap route_of made
call_of-route h i _ call e = ground (arith, e)

accepted-some :
    (h : Incoming) (o : Option Call)
    → is_some o ≡ true
    → ((call : Call) → o ≡ some call → route_of call ≡ h.route)
    → (b : Body) × ((o >>= λ call. some (accepted call)) ≡ some b) × (body_route b ≡ h.route)
accepted-some h none k r = absurd (ground (arith, k))
accepted-some h (some call) k r = (accepted call, refl, r call refl)

module _ (pipe : ValidationPipe) where
  -- With class-validator and class-transformer as documented, every request without a null among
  -- the properties that the sanitizer leaves is either refused with messages or becomes a call,
  -- whose fields have the types that the class of its route declares.
  pub receive-typed :
      (h : Incoming)
      → IsDocumented pipe
      → HasNoNull (sanitized h)
      → (b : Body) × (receive pipe h ≡ some b) × (body_route b ≡ h.route)
  unfolding receive IsPassed
  receive-typed h doc full = elim (Option-cases (dto_of h.route)) [
    | inl d ↦ rw d (
        accepted-some h _ (plain_call_of-some h (λ k. none) h.route d)
          (call_of-route h (λ k. none) h.route))
    | inr (ps, d) ↦ elim (Piped-cases (piped pipe h (some ps))) [
      | inl (i, e) ↦
          let some_call = call_of-some pipe doc h (sanitized h) i full h.route ps d e in
          rw (d, e) (accepted-some h _ some_call (call_of-route h i h.route))
      | inr (ms, e) ↦ rw (d, e) (rejected h.route ms, refl, refl)
    ]
  ]
