-- ===== src/App/Refines.antt =====
-- Served requests as steps of the services: what src/app.module.ts puts around a handler changes no
-- document.
use nestjs_jwt.Prelude.{
  String, ◌≡◌, refl, ap, ◌∙◌, ◌⊎◌, inl, inr, Option, none, List, [], ◌∷◌, Option-cases,
}
use nestjs_jwt.Common.Role.{AuthenticatedUser}
use nestjs_jwt.Common.Filter.{Thrown}
use nestjs_jwt.Users.Documents.{get}
use nestjs_jwt.Auth.Deps.{Deps, State}
use nestjs_jwt.Auth.Login.{documents}
use nestjs_jwt.Auth.Steps.{Reach, here, Reach-trans}
use nestjs_jwt.App.Routes.{Route, Call}
use nestjs_jwt.App.Pipeline.{
  Framework, Request, Body, accepted, rejected, Admission, admitted, refused, Served, guards, fail,
  handle, ping, respond, enter, serve,
}
use nestjs_jwt.App.Handlers.{handle-Reach}

pub Admission-cases :
    (a : Admission)
    → ((e : Thrown) × (a ≡ refused e)) ⊎ ((user : Option AuthenticatedUser) × (a ≡ admitted user))
Admission-cases (refused e) = inl (e, refl)
Admission-cases (admitted user) = inr (user, refl)

pub Body-cases :
    (b : Body)
    → ((route : Route) × (messages : List String) × (b ≡ rejected route messages))
      ⊎ ((call : Call) × (b ≡ accepted call))
Body-cases (rejected route messages) = inl (route, messages, refl)
Body-cases (accepted call) = inr (call, refl)

module _ (d : Deps) (f : Framework) where
  open d use {collection}

  pub serve_refused :
      (r : Request) (s : State collection) {e : Thrown}
      → guards d f r s ≡ refused e
      → serve d f r s ≡ (fail d f r e, s)
  unfolding serve
  serve_refused r s g = rw (serve, g) refl

  pub serve_admitted :
      (r : Request) (s : State collection) {user : Option AuthenticatedUser} {b : Body}
      → guards d f r s ≡ admitted user
      → r.body ≡ b
      → serve d f r s ≡ enter d f b user r s
  unfolding serve
  serve_admitted r s {user} g b =
      let entered : serve d f r s ≡ enter d f r.body user r s = rw (serve, g) refl in
      entered ∙ ap (λ x. enter d f x user r s) b

  respond-cases :
      (call : Call) (user : Option AuthenticatedUser) (r : Request) (s : State collection)
      → ((respond d f call user r s).1 ≡ s)
        ⊎ ((respond d f call user r s).1 ≡ (handle d f call user r s).1)
  unfolding respond
  respond-cases call user r s = elim (Option-cases (ping d f call r)) [
    | inl p ↦ inr (rw (respond, p) refl)
    | inr (e, p) ↦ inl (rw (respond, p) refl)
  ]

  -- What a request does to the state, its handler does: a request that a guard, the pipe or the ping
  -- refuses leaves the state alone.
  pub serve-cases :
      (r : Request) (s : State collection)
      → ((serve d f r s).1 ≡ s)
        ⊎ ((call : Call) × (user : Option AuthenticatedUser) × (r.body ≡ accepted call)
            × (guards d f r s ≡ admitted user)
            × ((serve d f r s).1 ≡ (handle d f call user r s).1))
  serve-cases r s = elim (Admission-cases (guards d f r s)) [
    | inl (e, g) ↦ inl (ap (λ x. x.1) (serve_refused r s g))
    | inr (user, g) ↦ elim (Body-cases r.body) [
      | inl (route, messages, b) ↦ inl (ap (λ x. x.1) (serve_admitted r s g b))
      | inr (call, b) ↦
          let entered : (serve d f r s).1 ≡ (respond d f call user r s).1 =
            ap (λ x. x.1) (serve_admitted r s g b) in
          elim (respond-cases call user r s) [
            | inl e ↦ inl (entered ∙ e)
            | inr e ↦ inr (call, user, b, g, entered ∙ e)
          ]
    ]
  ]

  pub serve-Reach :
      (r : Request) (s : State collection)
      → get r.identifier (documents d s) ≡ none
      → Reach d s (serve d f r s).1
  serve-Reach r s fresh = elim (serve-cases r s) [
    | inl e ↦ rw e here
    | inr (call, user, b, g, e) ↦ rw e (handle-Reach d f call user r s fresh)
  ]

  -- Requests one after the other, with the answers.
  abbrev pub serve_all : List Request → State collection → List Served × State collection
  serve_all [] s = ([], s)
  serve_all (r ∷ rest) s =
      let (answer, s') = serve d f r s in
      let (answers, t) = serve_all rest s' in (answer ∷ answers, t)

  -- The identifier drawn for each request is that of no document when it is served.
  abbrev pub AreFresh : List Request → State collection → Type 0
  AreFresh [] s = Unit {0}
  AreFresh (r ∷ rest) s =
      (get r.identifier (documents d s) ≡ none) × AreFresh rest (serve d f r s).1

  -- Served requests refine the services' steps: whatever sequence of requests is served, to any
  -- route, by anyone, well-formed or not, the state that it leaves is one that steps of the
  -- services reach, when the identifier drawn for each request is that of no document.
  pub serve_all-Reach :
      (rs : List Request) (s : State collection) → AreFresh rs s → Reach d s (serve_all rs s).1
  serve_all-Reach [] s h = here
  serve_all-Reach (r ∷ rest) s (fresh, h) =
      Reach-trans d (serve-Reach r s fresh) (serve_all-Reach rest (serve d f r s).1 h)
