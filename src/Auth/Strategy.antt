-- ===== src/Auth/Strategy.antt =====
-- src/auth/strategies/jwt.strategy.ts, the guards that stand on it, and the admin routes of
-- src/users/users.controller.ts: who a request is served as.
use nestjs_jwt.Prelude.{
  is_some, ℕ, ◌≡◌, ◌↔◌, inl, inr, String, Bool, true, ◌&&◌, Option, none, some, [], ◌∷◌, arith,
  Option-cases, if◌then◌else◌,
}
use nestjs_jwt.Common.Role.{role_eq_iff, JwtPayload, AuthenticatedUser}
use nestjs_jwt.Common.Role.Role.{admin}
use nestjs_jwt.Common.Exceptions.Exception.{unauthorized}
use nestjs_jwt.Common.Action.{Result, ok, err, is_ok}
use nestjs_jwt.Common.Guards.{jwt_can_activate, roles_can_activate}
use nestjs_jwt.Users.Schema.{User}
use nestjs_jwt.Users.Service as Users
use nestjs_jwt.Users.Service.Effects.{find_active_by_id-first}
use nestjs_jwt.Auth.Deps.{Deps, State}
use nestjs_jwt.Auth.Session.{active}

abbrev pub usable : Option User → JwtPayload → Result AuthenticatedUser
usable none p = err (unauthorized "User no longer exists or is inactive")
usable (some u) p =
    if u.is_active
    then ok (record { user_id = p.sub; email = p.email; role = p.role })
    else err (unauthorized "User no longer exists or is inactive")

module _ (d : Deps) where
  open d use {collection, jwt}

  -- `JwtStrategy.validate`
  unfoldable pub validate : JwtPayload → State collection → Result AuthenticatedUser
  validate p s = usable (Users.find_active_by_id collection p.sub s.store) p

  -- A payload is accepted exactly when its subject is a stored account, not deleted and active.
  pub validate-ok_iff :
      (p : JwtPayload) (s : State collection)
      → (is_ok (validate p s) ≡ true)
        ↔ ((u : User) × (active d p.sub s ≡ some u) × (u.is_active ≡ true))
  unfolding validate
  validate-ok_iff p s = rw (find_active_by_id-first collection p.sub s.store) (
    (λ h. elim (Option-cases (active d p.sub s)) [
      | inl e ↦ ground (arith, h)
      | inr (u, e) ↦ (u, e, ground arith)
    ]),
    λ (u, e, a). ground arith,
  )

  -- The account that `RolesGuard` reads off the request.
  abbrev pub request_user : Result AuthenticatedUser → Option AuthenticatedUser
  request_user (ok u) = some u
  request_user (err e) = none

  -- What `passport_verify`, which takes a secret, a token and the time, makes of a bearer token with the
  -- access secret and the expiry checked; Passport hands the payload to `validate`.
  unfoldable pub authenticate :
      (String → String → ℕ → Option JwtPayload)
      → String
      → ℕ
      → State collection
      → Option AuthenticatedUser
  authenticate passport_verify token now s = elim (passport_verify jwt.access_secret token now) [
    | none ↦ none
    | some p ↦ request_user (validate p s)
  ]

  -- The two guards of `UsersController`: every route is for administrators.
  unfoldable pub admits_admin :
      (String → String → ℕ → Option JwtPayload) → String → ℕ → State collection → Bool
  unfolding authenticate
  admits_admin passport_verify token now s =
      let user = authenticate passport_verify token now s in
      jwt_can_activate none (λ b. b) (is_some user) && roles_can_activate (some (admin ∷ [])) user

  -- An admin route serves a request exactly when its bearer token verifies with the access secret,
  -- its subject is a stored account, not deleted and active, and the token carries the role of an
  -- administrator.
  pub admits_admin_iff :
      (passport_verify : String → String → ℕ → Option JwtPayload) (token : String) (now : ℕ)
      (s : State collection)
      → (admits_admin passport_verify token now s ≡ true) ↔ (
          (p : JwtPayload) × (passport_verify jwt.access_secret token now ≡ some p)
          × (u : User) × (active d p.sub s ≡ some u)
          × (u.is_active ≡ true)
          × (p.role ≡ admin))
  unfolding admits_admin authenticate validate jwt_can_activate roles_can_activate
  admits_admin_iff passport_verify token now s =
      elim (Option-cases (passport_verify jwt.access_secret token now)) [
        | inl v ↦ (λ h. ground (arith, v, h), λ (p, w, u, e, a, r). ground arith)
        | inr (p, v) ↦
            let found = find_active_by_id-first collection p.sub s.store in
            (
              (λ h. elim (Option-cases (active d p.sub s)) [
                | inl e ↦ ground (arith, h, found)
                | inr (u, e) ↦ (
                  p,
                  v,
                  u,
                  e,
                  ground (arith, found),
                  (role_eq_iff p.role admin).0 (ground (arith, found)),
                )
              ]),
              λ (q, w, u, e, a, r). ground (
                arith,
                find_active_by_id-first collection q.sub s.store,
                role_eq_iff q.role admin,
              ),
            )
      ]
