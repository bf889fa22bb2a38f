-- ===== src/App/Replies.antt =====
-- What every request is answered with, whatever happens to it: the response and the call of the logger,
-- of src/common/interceptors and src/common/filters together.
use nestjs_jwt.Prelude.{
  ℕ, ◌≤◌, ◌<◌, ◌≡◌, refl, sym, ◌∙◌, ◌⊎◌, inl, inr, String, false, Option, none, some, List, [], ◌∷◌,
  arith, Option-cases,
}
use nestjs_jwt.Common.Role.{AuthenticatedUser}
use nestjs_jwt.Common.Exceptions.{Exception}
use nestjs_jwt.Common.Action.{Result, ok, err}
use nestjs_jwt.Common.Filter.{Thrown, thrown, catch, resolve, status_of, catch-thrown}
use nestjs_jwt.Common.Response.{Returned}
use nestjs_jwt.Common.Json.{str}
use nestjs_jwt.Logger.{LogCall, log, error}
use nestjs_jwt.Auth.Deps.{Deps, State}
use nestjs_jwt.App.Data.{Data}
use nestjs_jwt.App.Routes.{Route, Call, route_of, status_code}
use nestjs_jwt.App.Pipeline.{
  Framework, Request, Response, success, failure, Served, ping, fail, succeed, handle, reply,
  respond, serve,
}
use nestjs_jwt.App.Refines.{Body-cases, serve_refused, serve_admitted}
use nestjs_jwt.App.Bearer.{IsDocumented, status}
use nestjs_jwt.App.Allowed.{guards-cases, IsRefusal}

-- A success with a status of the 200s and the call of the interceptor, or a failure with a status from
-- 400 to 599 and the call of the filter.
abbrev pub IsReply : Response → List LogCall → Type 0
IsReply (success n v) logged =
    (200 ≤ n) × (n < 300) × (text : String) × (logged ≡ log (str text) none ∷ [])
IsReply (failure n body) logged =
    (400 ≤ n)
    × (n < 600)
    × (body.success ≡ false)
    × ((text : String) × (trace : Option String) × (logged ≡ error (str text) trace none ∷ []))

abbrev pub IsFailure : ℕ → Type 0
IsFailure n = (400 ≤ n) × (n < 600)

-- The health check of Terminus throws its `ServiceUnavailableException`.
abbrev pub IsUnavailable : Option Thrown → Type 0
IsUnavailable none = Unit {0}
IsUnavailable (some e) = status e ≡ 503

IsUnavailable-IsFailure :
    (o : Option Thrown) {e : Thrown} → IsUnavailable o → o ≡ some e → IsFailure (status e)
IsUnavailable-IsFailure none u h = absurd (ground (arith, h))
IsUnavailable-IsFailure (some x) u h = ground (arith, u, h)

status_code-bounds : (route : Route) → (200 ≤ status_code route) × (status_code route < 300)
unfolding status_code
status_code-bounds route = ground arith

module _ (d : Deps) (f : Framework) where
  open d use {collection}

  abbrev pub IsReplied : Served → Type 0
  IsReplied a = IsReply a.response a.logged

  status_of-IsFailure : (e : Exception) → IsFailure (status_of f.builtins e)
  status_of-IsFailure e = ground arith

  thrown-IsFailure : IsDocumented f → (e : Exception) → IsFailure (status (thrown f.builtins e))
  thrown-IsFailure k e = rw ((catch-thrown f.builtins k.builtins e).0) (status_of-IsFailure e)

  fail-IsReplied : (r : Request) (e : Thrown) → IsFailure (status e) → IsReplied (fail d f r e)
  unfolding fail catch
  fail-IsReplied r e (low, high) = (low, high, refl, (_, _, refl))

  succeed-IsReplied :
      (r : Request) (route : Route) (v : Returned Data) → IsReplied (succeed d f r route v)
  unfolding succeed
  succeed-IsReplied r route v = let (low, high) = status_code-bounds route in (low, high, _, refl)

  reply-IsReplied :
      (r : Request) (route : Route) (res : Result (Returned Data))
      → IsDocumented f
      → IsReplied (reply d f r route res)
  reply-IsReplied r route (ok v) k = succeed-IsReplied r route v
  reply-IsReplied r route (err e) k = fail-IsReplied r _ (thrown-IsFailure k e)

  ping-cases :
      (call : Call) (r : Request) → (ping d f call r ≡ none) ⊎ (ping d f call r ≡ r.unreachable)
  ping-cases call r = ground arith

  ping-IsFailure :
      (call : Call) (r : Request) {e : Thrown}
      → IsUnavailable r.unreachable
      → ping d f call r ≡ some e
      → IsFailure (status e)
  ping-IsFailure call r u p = elim (ping-cases call r) [
    | inl q ↦ absurd (ground (arith, p, q))
    | inr q ↦ IsUnavailable-IsFailure r.unreachable u (sym q ∙ p)
  ]

  refusal-IsFailure :
      (r : Request) (e : Thrown) → IsRefusal d f r.within_limit (status e) → IsFailure (status e)
  refusal-IsFailure r e h = ground (arith, h)

  respond-IsReplied :
      (call : Call) (user : Option AuthenticatedUser) (r : Request) (s : State collection)
      → IsDocumented f
      → IsUnavailable r.unreachable
      → IsReplied (respond d f call user r s).0
  unfolding respond
  respond-IsReplied call user r s k u = elim (Option-cases (ping d f call r)) [
    | inl p ↦ rw (respond, p) (reply-IsReplied r (route_of call) (handle d f call user r s).0 k)
    | inr (e, p) ↦ rw (respond, p) (fail-IsReplied r e (ping-IsFailure call r u p))
  ]

  -- With what Nest and its libraries throw as documented, every request is answered, and the
  -- interceptor and the filter together call the logger exactly once for it: a success has a
  -- status of the 200s and a `log` with a text, a failure has a status from 400 to 599, `success:
  -- false` and an `error` with a text and a trace, if there is one.
  pub serve-IsReply :
      (r : Request) (s : State collection)
      → IsDocumented f
      → IsUnavailable r.unreachable
      → IsReply (serve d f r s).0.response (serve d f r s).0.logged
  unfolding catch resolve
  serve-IsReply r s k u = elim (guards-cases d f r s) [
    | inl (e, g, n) ↦
        rw (serve_refused d f r s g) (fail-IsReplied r e (refusal-IsFailure r e (n k)))
    | inr (user, g, _) ↦ elim (Body-cases r.body) [
      | inl (route, messages, b) ↦
          rw (serve_admitted d f r s g b)
            (fail-IsReplied r (f.bad_request messages) (rw (k.bad_request messages) (ground arith)))
      | inr (call, b) ↦ rw (serve_admitted d f r s g b) (respond-IsReplied call user r s k u)
    ]
  ]
