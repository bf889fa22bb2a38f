-- ===== src/App/Allowed.antt =====
-- Who may make a request: the guards of src/app.module.ts and of the controllers, and the answer to a
-- request that they refuse.
use nestjs_jwt.Prelude.{
  ℕ, ◌≡◌, refl, ap, ap₂, ◌∙◌, ◌⊎◌, inl, inr, Bool, true, false, Option, none, some, [], ◌∷◌, arith,
  Bool-cases,
}
use nestjs_jwt.Common.Role.{Role, JwtPayload, AuthenticatedUser}
use nestjs_jwt.Common.Filter.{Thrown, ApiErrorResponse, catch, resolve}
use nestjs_jwt.Common.Guards.{jwt_can_activate, roles_can_activate}
use nestjs_jwt.Auth.Deps.{Deps, State}
use nestjs_jwt.App.Routes.{Route, is_public, required_roles}
use nestjs_jwt.App.Pipeline.{
  Framework, Request, body_route, Admission, admitted, refused, failure, verify_bearer, passport,
  admit, guards, fail, serve,
}
use nestjs_jwt.App.Refines.{serve_refused}
use nestjs_jwt.App.Bearer.{IsDocumented, status, IsBearer, account_of, verify_bearer-cases}

pub is_public-cases :
    (route : Route)
    → (is_public route ≡ none) ⊎ ((is_public route ≡ some true) × (required_roles route ≡ none))
unfolding is_public required_roles
is_public-cases route = ground arith

Role-cases : (r : Role) → (r ≡ Role.user) ⊎ (r ≡ Role.admin)
Role-cases r = ground arith

required_roles-cases :
    (route : Route)
    → (required_roles route ≡ none) ⊎ (required_roles route ≡ some (Role.admin ∷ []))
unfolding required_roles
required_roles-cases route = ground arith

module _ (d : Deps) (f : Framework) where
  open d use {collection, jwt}

  -- The roles that a route asks for.
  abbrev pub HasRole : Route → JwtPayload → Type 0
  HasRole route p = (required_roles route ≡ none) ⊎ (p.role ≡ Role.admin)

  -- A request that may be served: within the rate limit, and to a public route or with the token of an
  -- account whose role the route asks for.
  abbrev pub IsAllowed : Request → State collection → Type 0
  IsAllowed r s =
      (r.within_limit ≡ true)
      × ((is_public (body_route r.body) ≡ some true)
          ⊎ ((p : JwtPayload) × IsBearer d f r.bearer r.now s p × HasRole (body_route r.body) p))

  -- A public route admits without a user.
  pub admit_public :
      (route : Route) (a : Admission)
      → is_public route ≡ some true
      → required_roles route ≡ none
      → admit d f true route a ≡ admitted none
  unfolding jwt_can_activate roles_can_activate
  admit_public route a h q = rw (h, jwt_can_activate, q) refl

  pub admit_refused :
      (route : Route) (e : Thrown)
      → is_public route ≡ none
      → admit d f true route (refused e) ≡ refused e
  unfolding jwt_can_activate
  admit_refused route e h = rw (h, jwt_can_activate) refl

  -- Another route admits an account by its role.
  pub admit-cases :
      (route : Route) (p : JwtPayload)
      → is_public route ≡ none
      → let a : Admission = admitted (some (account_of d f p)) in
        ((admit d f true route a ≡ a) × HasRole route p)
        ⊎ (admit d f true route a ≡ refused f.forbidden)
  unfolding jwt_can_activate roles_can_activate
  admit-cases route p h = elim (required_roles-cases route) [
    | inl q ↦ inl (rw (h, jwt_can_activate, q) refl, inl q)
    | inr q ↦ elim (Role-cases p.role) [
      | inl k ↦ inr (rw (h, jwt_can_activate, q, roles_can_activate, k) refl)
      | inr k ↦ inl (rw (h, jwt_can_activate, q, roles_can_activate, k) refl, inr k)
    ]
  ]

  -- The status of a refusal, by its reason.
  abbrev pub IsRefusal : Bool → ℕ → Type 0
  IsRefusal within_limit n =
      ((within_limit ≡ false) × (n ≡ 429)) ⊎ ((within_limit ≡ true) × ((n ≡ 401) ⊎ (n ≡ 403)))

  pub guards-cases :
      (r : Request) (s : State collection)
      → ((e : Thrown) × (guards d f r s ≡ refused e)
          × (IsDocumented f → IsRefusal r.within_limit (status e)))
        ⊎ ((user : Option AuthenticatedUser) × (guards d f r s ≡ admitted user) × IsAllowed r s)
  unfolding guards passport catch resolve
  guards-cases r s =
      let route = body_route r.body in
      let run : (b : Bool) (a : Admission)
          → r.within_limit ≡ b
          → verify_bearer d f r.bearer r.now s ≡ a
          → guards d f r s ≡ admit d f b route a =
        λ b a l v. ap₂ (λ x y. admit d f x route y) l v in
      elim (Bool-cases r.within_limit) [
        | inr l ↦
            inl (f.too_many_requests, run false _ l refl, λ k. inl (l, rw k.too_many_requests refl))
        | inl l ↦ elim (is_public-cases route) [
          | inr (h, q) ↦ inr (none, run true _ l refl ∙ admit_public route _ h q, (l, inl h))
          | inl h ↦ elim (verify_bearer-cases d f r.bearer r.now s) [
            | inl (e, v, unauthorized_) ↦
                inl
                  (e, run true _ l v ∙ admit_refused route e h, λ k. inr (l, inl (unauthorized_ k)))
            | inr (p, bearer, v) ↦ elim (admit-cases route p h) [
              | inl (a, role) ↦
                  inr (some (account_of d f p), run true _ l v ∙ a, (l, inr (p, bearer, role)))
              | inr a ↦
                  inl (f.forbidden, run true _ l v ∙ a, λ k. inr (l, inr (rw k.forbidden refl)))
            ]
          ]
        ]
      ]

  -- With what Nest and its libraries throw as documented, a request either is allowed (within the
  -- rate limit, and to a public route or with the token of an active account whose role the route
  -- asks for), or is answered by a failure, with status 429 over the rate limit and 401 or 403
  -- within it, and changes nothing.
  pub serve_guarded :
      (r : Request) (s : State collection)
      → IsDocumented f
      → IsAllowed r s
        ⊎ ((n : ℕ) × (body : ApiErrorResponse) × IsRefusal r.within_limit n
            × ((serve d f r s).0.response ≡ failure n body)
            × (body.success ≡ false)
            × ((serve d f r s).1 ≡ s))
  unfolding fail catch
  serve_guarded r s k = elim (guards-cases r s) [
    | inr (user, g, allowed) ↦ inl allowed
    | inl (e, g, n) ↦
        let run = serve_refused d f r s g in
        inr (status e, (catch e).1, n k, ap (λ x. x.0.response) run, refl, ap (λ x. x.1) run)
  ]
