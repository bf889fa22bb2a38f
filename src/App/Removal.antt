-- ===== src/App/Removal.antt =====
-- `DELETE /users/:id` of src/users/users.controller.ts, and what the removed account's requests meet.
use nestjs_jwt.Prelude.{
  ℕ, ◌≡◌, refl, subst, ap, ap₂, ◌∙◌, String, true, false, Option, none, some, List,
}
use nestjs_jwt.Common.Role.{JwtPayload, AuthenticatedUser}
use nestjs_jwt.Common.Exceptions.{Exception}
use nestjs_jwt.Common.Exceptions.Exception.{unauthorized}
use nestjs_jwt.Common.Action.{err}
use nestjs_jwt.Common.Filter.{ApiErrorResponse, thrown, catch, resolve}
use nestjs_jwt.Users.Schema.{User}
use nestjs_jwt.Users.Documents.{get}
use nestjs_jwt.Users.Changes.{IsWellFormed}
use nestjs_jwt.Users.Service as UsersService
use nestjs_jwt.Auth.Deps.{Deps, State}
use nestjs_jwt.Auth.Login.{documents}
use nestjs_jwt.Auth.Strategy.{validate}
use nestjs_jwt.Auth.Steps.{Reach}
use nestjs_jwt.Auth.Access.{delete_ends_access}
use nestjs_jwt.App.UserControllers as UserControllers
use nestjs_jwt.App.Routes.{remove_call, is_public}
use nestjs_jwt.App.Pipeline.{
  Framework, Request, body_route, accepted, Admission, admitted, refused, failure, verify_bearer,
  passport, admit, guards, handle, respond, fail, serve,
}
use nestjs_jwt.App.Refines.{serve_refused, serve_admitted, serve_all, AreFresh, serve_all-Reach}
use nestjs_jwt.App.Bearer.{IsDocumented}
use nestjs_jwt.App.Allowed.{admit_refused}

abbrev no_account : Exception
no_account = unauthorized "User no longer exists or is inactive"

module _ (d : Deps) (f : Framework) where
  open d use {collection, jwt}

  -- The state once the account of an identifier is deleted.
  abbrev pub removed : ℕ → ℕ → State collection → State collection
  removed i now s = record s { store = UsersService.soft_delete collection i now s.store }

  serve_remove :
      (r : Request) (i : ℕ) (s : State collection) {user : Option AuthenticatedUser}
      → r.body ≡ accepted (remove_call (some i))
      → guards d f r s ≡ admitted user
      → (serve d f r s).1 ≡ removed i r.now s
  unfolding respond handle UserControllers.remove
  serve_remove r i s b g = ap (λ x. x.1) (serve_admitted d f r s g b)

  -- A token that the strategy refuses, on a route that is not public.
  serve_invalid :
      (r : Request) (s : State collection) (token : String) (p : JwtPayload)
      → r.within_limit ≡ true
      → is_public (body_route r.body) ≡ none
      → r.bearer ≡ some token
      → f.passport_verify jwt.access_secret token r.now ≡ some p
      → validate d p s ≡ err no_account
      → guards d f r s ≡ refused (thrown f.builtins no_account)
  unfolding guards passport
  serve_invalid r s token p l h b v e =
      let refusal : Admission = refused (thrown f.builtins no_account) in
      let run : verify_bearer d f (some token) r.now s ≡ refusal = rw (verify_bearer, v, e) refl in
      ap₂ (λ x y. admit d f x (body_route r.body) (verify_bearer d f y r.now s)) l b
      ∙ ap (admit d f true (body_route r.body)) run
      ∙ admit_refused d f (body_route r.body) _ h

  -- Once the removal of an account, in a well-formed collection, is let through, any request to a
  -- protected route with a token that verifies as that account's, within the rate limit and after
  -- any requests that draw new identifiers, is answered with status 401 and changes nothing, with
  -- what Nest and its libraries throw as documented.
  pub removal_ends_access :
      (r : Request) (later : List Request) (q : Request) (s : State collection) (token : String)
      (p : JwtPayload) {u : User} {user : Option AuthenticatedUser}
      → IsDocumented f
      → IsWellFormed (documents d s)
      → get p.sub (documents d s) ≡ some u
      → r.body ≡ accepted (remove_call (some p.sub))
      → guards d f r s ≡ admitted user
      → AreFresh d f later (serve d f r s).1
      → q.within_limit ≡ true
      → is_public (body_route q.body) ≡ none
      → q.bearer ≡ some token
      → f.passport_verify jwt.access_secret token q.now ≡ some p
      → let t = (serve_all d f later (serve d f r s).1).1 in
        (body : ApiErrorResponse) × ((serve d f q t).0.response ≡ failure 401 body)
        × (body.success ≡ false)
        × ((serve d f q t).1 ≡ t)
  unfolding fail catch resolve thrown
  removal_ends_access r later q s token p k w e b g fresh l h sent v =
      let s' : State collection = (serve d f r s).1 in
      let t : State collection = (serve_all d f later s').1 in
      let reached : Reach d (removed p.sub r.now s) t =
        subst (λ x. Reach d x t) (serve_remove r p.sub s b g)
          (serve_all-Reach d f later s' fresh) in
      let gone : validate d p t ≡ err no_account = delete_ends_access d p r.now s w e reached in
      let run = serve_refused d f q t (serve_invalid q t token p l h sent v gone) in
      let e401 : (catch (thrown f.builtins no_account)).0 ≡ 401 =
        rw (k.builtins.unauthorized _) refl in
      let body : ApiErrorResponse = (catch (thrown f.builtins no_account)).1 in
      (body, ap (λ x. x.0.response) run ∙ ap (λ n. failure n body) e401, refl, ap (λ x. x.1) run)
