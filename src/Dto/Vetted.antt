-- ===== src/Dto/Vetted.antt =====
-- What holds of the texts and numbers of a call that the pipe lets through.
use nestjs_jwt.Prelude.{
  ℕ, ◌≤◌, ◌≡◌, refl, sym, subst, inl, inr, String, true, Option, none, some, List, arith,
  Option-cases, All,
}
use nestjs_jwt.Common.Json.{Json, Fields}
use nestjs_jwt.Common.Validation.{IsStrong, is_strong_password, is_strong_password_iff}
use nestjs_jwt.Auth.Service.{RegisterDto, ChangePasswordDto}
use nestjs_jwt.Users.Updates.{UpdateProfileDto}
use nestjs_jwt.Users.Listing.{PaginationQueryDto}
use nestjs_jwt.App.AuthController.{ResetPasswordDto}
use nestjs_jwt.App.Pipeline.{accepted}
use nestjs_jwt.App.Routes.{
  Route, register, login, refresh, change_password, forgot_password, reset_password, verify_email,
  update_profile, list, Call, register_call, change_password_call, reset_password_call,
  update_profile_call, list_call,
}
use nestjs_jwt.Dto.Rules.{
  Property, code_units, is_phone_number, strong_password, register_dto, change_password_dto,
  reset_password_dto, update_profile_dto, pagination_query_dto,
}
use nestjs_jwt.Dto.Pipe.{
  Instance, ValidationPipe, IsDocumented, Passes, pipe_options, passed, declared,
}
use nestjs_jwt.Dto.Passed.{required, cases}
use nestjs_jwt.Dto.Read.{
  text, numeral, bind-some_inv, read_register, read_change_password, read_reset_password,
  read_update_profile, read_pagination_query,
}
use nestjs_jwt.Dto.Fields.{
  of_text, of_numeral, Where, of_optional, read_register_inv, read_change_password_inv,
  read_reset_password_inv, read_update_profile_inv, read_pagination_query_inv,
}
use nestjs_jwt.Dto.Receive.{sanitized, Incoming, dto_of, call_of, piped, receive}
use nestjs_jwt.Dto.Typed.{Piped-cases}

module _ (pipe : ValidationPipe) where
  open pipe use {run, measure}

  -- What the classes ask of the fields of a call.
  abbrev pub IsVetted : Call → Type 0
  IsVetted (register_call dto) =
      (1 ≤ measure dto.first_name)
      × (measure dto.first_name ≤ 50)
      × (1 ≤ measure dto.last_name)
      × (measure dto.last_name ≤ 50)
      × (measure dto.email ≤ 255)
      × IsStrong (code_units dto.password)
  IsVetted (change_password_call dto) = IsStrong (code_units dto.new_password)
  IsVetted (reset_password_call dto) = IsStrong (code_units dto.new_password)
  IsVetted (update_profile_call dto) =
      Where (λ s. measure s ≤ 50) dto.first_name
      × Where (λ s. measure s ≤ 50) dto.last_name
      × Where (λ s. is_phone_number (code_units s) ≡ true) dto.phone_number
  IsVetted (list_call dto) = (1 ≤ dto.page) × (1 ≤ dto.limit) × (dto.limit ≤ 100)
  IsVetted _ = Unit {0}

  strong :
      (v : Option Json) {t : String}
      → Passes pipe strong_password v
      → text v ≡ some t
      → IsStrong (code_units t)
  unfolding strong_password
  strong v {t} p r =
      (is_strong_password_iff (code_units t)).0
        (of_text (λ s. is_strong_password (code_units s) ≡ true) v p r)

  module _ (doc : IsDocumented pipe) (h : Incoming) (body : Fields) (i : Instance) where
    register-IsVetted :
        (dto : RegisterDto)
        → run pipe_options register_dto body ≡ passed i
        → read_register i ≡ some dto
        → IsVetted (register_call dto)
    unfolding register_dto declared
    register-IsVetted dto e r =
        let (first_text, last_text, email_text, password_text) = read_register_inv i dto r in
        let passes = required pipe doc register_dto body i e in
        let first = passes "firstName" _ refl refl in
        let last = passes "lastName" _ refl refl in
        let email = passes "email" _ refl refl in
        let password = passes "password" _ refl refl in
        (
          of_text (λ s. 1 ≤ measure s) _ first.1.0 first_text,
          of_text (λ s. measure s ≤ 50) _ first.1.1.0 first_text,
          of_text (λ s. 1 ≤ measure s) _ last.1.0 last_text,
          of_text (λ s. measure s ≤ 50) _ last.1.1.0 last_text,
          of_text (λ s. measure s ≤ 255) _ email.1.0 email_text,
          strong _ password.1.0 password_text,
        )

    change_password-IsVetted :
        (dto : ChangePasswordDto)
        → run pipe_options change_password_dto body ≡ passed i
        → read_change_password i ≡ some dto
        → IsVetted (change_password_call dto)
    unfolding change_password_dto declared
    change_password-IsVetted dto e r =
        strong _ (required pipe doc _ body i e "newPassword" _ refl refl).1.0
          (read_change_password_inv i dto r)

    reset_password-IsVetted :
        (dto : ResetPasswordDto)
        → run pipe_options reset_password_dto body ≡ passed i
        → read_reset_password i ≡ some dto
        → IsVetted (reset_password_call dto)
    unfolding reset_password_dto declared
    reset_password-IsVetted dto e r =
        strong _ (required pipe doc _ body i e "newPassword" _ refl refl).1.0
          (read_reset_password_inv i dto r)

    update_profile-IsVetted :
        (dto : UpdateProfileDto)
        → run pipe_options update_profile_dto body ≡ passed i
        → read_update_profile i ≡ some dto
        → IsVetted (update_profile_call dto)
    unfolding update_profile_dto declared
    update_profile-IsVetted dto e r =
        let (first_text, last_text, phone_text) = read_update_profile_inv i dto r in
        let value = cases pipe doc update_profile_dto body i e in
        (
          of_optional (λ s. measure s ≤ 50) _ _ first_text
              (elim (value "firstName" _ refl) [ inl a ↦ inl a.1 | inr p ↦ inr p.1.0 ]),
          of_optional (λ s. measure s ≤ 50) _ _ last_text
              (elim (value "lastName" _ refl) [ inl a ↦ inl a.1 | inr p ↦ inr p.1.0 ]),
          of_optional (λ s. is_phone_number (code_units s) ≡ true) _ _ phone_text
              (elim (value "phoneNumber" _ refl) [ inl a ↦ inl a.1 | inr p ↦ inr p.0 ]),
        )

    -- A property that is read as a number is not absent.
    number_passes :
        (ps : List Property) (k : String) (p : Property) {n : ℕ}
        → run pipe_options ps body ≡ passed i
        → declared k ps ≡ some p
        → numeral (i k) ≡ some n
        → All (λ c. Passes pipe c (i k)) p.decorators
    number_passes ps k p e d r = elim (cases pipe doc ps body i e k p d) [
      | inl (_, a) ↦ absurd (ground (arith, a, r))
      | inr h ↦ h
    ]

    list-IsVetted :
        (dto : PaginationQueryDto)
        → run pipe_options pagination_query_dto body ≡ passed i
        → read_pagination_query i ≡ some dto
        → IsVetted (list_call dto)
    unfolding pagination_query_dto declared
    list-IsVetted dto e r =
        let (page_number, limit_number) = read_pagination_query_inv i dto r in
        let page = number_passes _ "page" _ e refl page_number in
        let limit = number_passes _ "limit" _ e refl limit_number in
        (
          of_numeral (λ n. 1 ≤ n) _ page.1.0 page_number,
          of_numeral (λ n. 1 ≤ n) _ limit.1.0 limit_number,
          of_numeral (λ n. n ≤ 100) _ limit.1.1.0 limit_number,
        )

    call_of-IsVetted :
        (route : Route) (ps : List Property) (call : Call)
        → dto_of route ≡ some ps
        → run pipe_options ps body ≡ passed i
        → call_of route h i ≡ some call
        → IsVetted call
    unfolding dto_of call_of
    call_of-IsVetted register ps call d e c =
        let (dto, r, made) = bind-some_inv _ _ c in
        subst IsVetted (sym made) (register-IsVetted dto (ground (arith, d, e)) r)
    call_of-IsVetted change_password ps call d e c =
        let (dto, r, made) = bind-some_inv _ _ c in
        subst IsVetted (sym made) (change_password-IsVetted dto (ground (arith, d, e)) r)
    call_of-IsVetted reset_password ps call d e c =
        let (dto, r, made) = bind-some_inv _ _ c in
        subst IsVetted (sym made) (reset_password-IsVetted dto (ground (arith, d, e)) r)
    call_of-IsVetted update_profile ps call d e c =
        let (dto, r, made) = bind-some_inv _ _ c in
        subst IsVetted (sym made) (update_profile-IsVetted dto (ground (arith, d, e)) r)
    call_of-IsVetted list ps call d e c =
        let (dto, r, made) = bind-some_inv _ _ c in
        subst IsVetted (sym made) (list-IsVetted dto (ground (arith, d, e)) r)
    call_of-IsVetted login ps call d e c =
        let (_, _, made) = bind-some_inv _ _ c in subst IsVetted (sym made) tt
    call_of-IsVetted refresh ps call d e c =
        let (_, _, made) = bind-some_inv _ _ c in subst IsVetted (sym made) tt
    call_of-IsVetted forgot_password ps call d e c =
        let (_, _, made) = bind-some_inv _ _ c in subst IsVetted (sym made) tt
    call_of-IsVetted verify_email ps call d e c =
        let (_, _, made) = bind-some_inv _ _ c in subst IsVetted (sym made) tt
    call_of-IsVetted _ ps call d e c = absurd (ground (arith, d))

  plain_call_of-IsVetted :
      (h : Incoming) (i : Instance) (route : Route) (call : Call)
      → dto_of route ≡ none
      → call_of route h i ≡ some call
      → IsVetted call
  unfolding dto_of call_of
  plain_call_of-IsVetted h i route call d c = ground (arith, d, c)

  -- A call that the pipe lets through keeps to what its class declares, with class-validator and
  -- class-transformer as documented: a new password is strong, names at a registration have 1 to
  -- 50 characters and the address at most 255, names on the profile form have at most 50 and the
  -- phone number has the pattern's form, and a listing asks for a page from 1 and a limit from 1
  -- to 100.
  pub receive-IsVetted :
      (h : Incoming) (call : Call)
      → IsDocumented pipe
      → receive pipe h ≡ some (accepted call)
      → IsVetted call
  unfolding receive
  receive-IsVetted h call doc r = elim (Option-cases (dto_of h.route)) [
    | inl d ↦
        let (made, c, e) = bind-some_inv (call_of h.route h (λ k. none)) accepted (rw d at r) in
        subst IsVetted (ground (arith, e)) (plain_call_of-IsVetted h (λ k. none) h.route made d c)
    | inr (ps, d) ↦ elim (Piped-cases (piped pipe h (some ps))) [
      | inl (i, p) ↦
          let (made, c, e) = bind-some_inv (call_of h.route h i) accepted (rw (d, p) at r) in
          let vetted = call_of-IsVetted doc h (sanitized h) i h.route ps made d p c in
          subst IsVetted (ground (arith, e)) vetted
      | inr (ms, p) ↦ absurd (ground (arith, r, d, p))
    ]
  ]
