-- ===== src/App/Bearer.antt =====
-- What the bearer token of a request is worth: Passport's verification and the strategy of
-- src/auth/strategies/jwt.strategy.ts.
use nestjs_jwt.Prelude.{
  ℕ, ◌≡◌, refl, ◌⊎◌, inl, inr, String, true, Option, none, some, List, arith, Option-cases,
  Bool-cases,
}
use nestjs_jwt.Common.Role.{JwtPayload, AuthenticatedUser}
use nestjs_jwt.Common.Exceptions.Exception.{unauthorized}
use nestjs_jwt.Common.Action.{ok, err}
use nestjs_jwt.Common.Filter as Filter
use nestjs_jwt.Common.Filter.{
  Thrown, http_exception, text, object, one, many, ApiErrorResponse, thrown, catch, resolve,
}
use nestjs_jwt.Users.Schema.{User}
use nestjs_jwt.Users.Service.Effects.{find_active_by_id-first}
use nestjs_jwt.Auth.Deps.{Deps, State}
use nestjs_jwt.Auth.Session.{active}
use nestjs_jwt.Auth.Strategy.{validate}
use nestjs_jwt.App.Pipeline.{Framework, admitted, refused, verify_bearer}

-- The documented shape of what Nest, Passport and the rate limiter throw.
pub record IsDocumented (f : Framework) : Type 0 where
  pub builtins : Filter.IsDocumented f.builtins
  pub unauthenticated :
      f.unauthenticated ≡ http_exception 401 "Unauthorized" (object (one "Unauthorized") none)
  pub forbidden :
      f.forbidden
      ≡ http_exception 403 "Forbidden resource"
          (object (one "Forbidden resource") (some "Forbidden"))
  pub too_many_requests :
      f.too_many_requests
      ≡ http_exception 429 "ThrottlerException: Too Many Requests"
          (text "ThrottlerException: Too Many Requests")
  pub bad_request :
      (ms : List String)
      → f.bad_request ms
        ≡ http_exception 400 "Bad Request Exception" (object (many ms) (some "Bad Request"))

-- The status that the filter answers something thrown with.
abbrev pub status : Thrown → ℕ
status e = (catch e).0

module _ (d : Deps) (f : Framework) where
  open d use {collection, jwt}

  -- The bearer token verifies with the access secret, as `p`, and names a stored account that is
  -- active.
  pub record IsBearer (bearer : Option String) (now : ℕ) (s : State collection) (p : JwtPayload)
      : Type 0 where
    pub token : String
    pub account : User
    pub sent : bearer ≡ some token
    pub verifies : f.passport_verify jwt.access_secret token now ≡ some p
    pub stored : active d p.sub s ≡ some account
    pub is_active : account.is_active ≡ true

  abbrev pub account_of : JwtPayload → AuthenticatedUser
  account_of p = record { user_id = p.sub; email = p.email; role = p.role }

  pub validate-cases :
      (p : JwtPayload) (s : State collection)
      → (validate d p s ≡ err (unauthorized "User no longer exists or is inactive"))
        ⊎ ((u : User) × (active d p.sub s ≡ some u)
            × (u.is_active ≡ true)
            × (validate d p s ≡ ok (account_of p)))
  unfolding validate
  validate-cases p s =
      rw (find_active_by_id-first collection p.sub s.store)
        (elim (Option-cases (active d p.sub s)) [
          | inl e ↦ inl (rw e refl)
          | inr (u, e) ↦ elim (Bool-cases u.is_active) [
            | inl a ↦ inr (u, e, a, ground arith)
            | inr i ↦ inl (ground arith)
          ]
        ])

  -- A token is refused with status 401, or verifies as the payload of an active account.
  pub verify_bearer-cases :
      (bearer : Option String) (now : ℕ) (s : State collection)
      → ((e : Thrown) × (verify_bearer d f bearer now s ≡ refused e)
          × (IsDocumented f → status e ≡ 401))
        ⊎ ((p : JwtPayload) × IsBearer bearer now s p
            × (verify_bearer d f bearer now s ≡ admitted (some (account_of p))))
  unfolding catch resolve thrown
  verify_bearer-cases none now s = inl (f.unauthenticated, refl, λ h. rw h.unauthenticated refl)
  verify_bearer-cases (some token) now s =
      elim (Option-cases (f.passport_verify jwt.access_secret token now)) [
        | inl v ↦
            inl (f.unauthenticated, rw (verify_bearer, v) refl, λ h. rw h.unauthenticated refl)
        | inr (p, v) ↦ elim (validate-cases p s) [
          | inl e ↦ inl (
            thrown f.builtins (unauthorized "User no longer exists or is inactive"),
            rw (verify_bearer, v, e) refl,
            λ h. rw (h.builtins.unauthorized _) refl,
          )
          | inr (u, e, a, valid) ↦ inr (
            p,
            record {
              token = token;
              account = u;
              sent = refl;
              verifies = v;
              stored = e;
              is_active = a;
            },
            rw (verify_bearer, v, valid) refl,
          )
        ]
      ]
