-- ===== src/App/Trace.antt =====
-- src/common/middlewares/request-id.middleware.ts in front of everything else: the identifier of a
-- request, in the header of its response and in the line of the filter.
use Prim.Native.String.{◌++◌}
use nestjs_jwt.Prelude.{
  ℕ, ◌≡◌, refl, ap, inl, inr, String, Option, none, some, List, [], ◌∷◌, arith, Option-cases,
}
use nestjs_jwt.Prelude.Decimal.{to_text}
use nestjs_jwt.Common.Action.{Result, ok, err}
use nestjs_jwt.Common.Role.{AuthenticatedUser}
use nestjs_jwt.Common.Filter.{ApiErrorResponse, Thrown, thrown}
use nestjs_jwt.Common.Response.{Returned}
use nestjs_jwt.Common.Json.{str, Fields, get}
use nestjs_jwt.Logger.{LogCall, AppLogger, error, call, write, payload}
use nestjs_jwt.Auth.Deps.{Deps, State}
use nestjs_jwt.App.Data.{Data}
use nestjs_jwt.App.Routes.{Route, Call, route_of}
use nestjs_jwt.App.Pipeline.{
  Framework, Request, Response, Served, guards, ping, fail, succeed, reply, handle, respond, serve,
}
use nestjs_jwt.App.Refines.{Admission-cases, Body-cases, serve_refused, serve_admitted}

-- What is served, with the headers that the middleware has set.
pub record Answer : Type 0 where
  pub headers : List (String × String)
  pub served : Served

-- The text of the filter's line.
abbrev pub failed_line : Request → String → ℕ → String → String
failed_line r id status message =
    r.method
    ++ (" "
        ++ (r.url
            ++ (" -> "
                ++ (to_text status ++ (": " ++ (message ++ (" [requestId=" ++ (id ++ "]"))))))))

module _ (d : Deps) (f : Framework) where
  open d use {collection}

  -- `RequestIdMiddleware.use`, with the identifier that it draws, and then the rest.
  unfoldable pub answer : String → Request → State collection → Answer × State collection
  answer id r s =
      let (a, t) = serve d f (record r { request_id = id }) s in
      (record { headers = ("X-Request-Id", id) ∷ []; served = a }, t)

  -- A failure has the line of the filter.
  abbrev IsTraced : Request → Served → Type 0
  IsTraced r a =
      (n : ℕ) (body : ApiErrorResponse)
      → a.response ≡ Response.failure n body
      → (trace : Option String) × (a.logged
          ≡ error (str (failed_line r r.request_id n body.message)) trace none ∷ [])

  fail-IsTraced : (r : Request) (e : Thrown) → IsTraced r (fail d f r e)
  unfolding fail
  fail-IsTraced r e n body h = (
    f.stack e,
    ap
        (λ x.
          error (str (failed_line r r.request_id (status_in x) (message_in x))) (f.stack e) none
          ∷ [])
        h,
  )
    where
      status_in : Response → ℕ
      status_in (Response.failure n body) = n
      status_in (Response.success n v) = n

      message_in : Response → String
      message_in (Response.failure n body) = body.message
      message_in (Response.success n v) = ""

  reply-IsTraced :
      (r : Request) (route : Route) (res : Result (Returned Data))
      → IsTraced r (reply d f r route res)
  unfolding succeed
  reply-IsTraced r route (err e) = fail-IsTraced r (thrown f.builtins e)
  reply-IsTraced r route (ok v) = λ n body h. absurd (ground (arith, h))

  respond-IsTraced :
      (call : Call) (user : Option AuthenticatedUser) (r : Request) (s : State collection)
      → IsTraced r (respond d f call user r s).0
  unfolding respond
  respond-IsTraced call user r s = elim (Option-cases (ping d f call r)) [
    | inl p ↦ rw (respond, p) (reply-IsTraced r (route_of call) (handle d f call user r s).0)
    | inr (e, p) ↦ rw (respond, p) (fail-IsTraced r e)
  ]

  serve-IsTraced : (r : Request) (s : State collection) → IsTraced r (serve d f r s).0
  serve-IsTraced r s = elim (Admission-cases (guards d f r s)) [
    | inl (e, g) ↦ rw (serve_refused d f r s g) (fail-IsTraced r e)
    | inr (user, g) ↦ elim (Body-cases r.body) [
      | inl (route, messages, b) ↦
          rw (serve_admitted d f r s g b) (fail-IsTraced r (f.bad_request messages))
      | inr (call, b) ↦ rw (serve_admitted d f r s g b) (respond-IsTraced call user r s)
    ]
  ]

  -- For a failure the filter calls the logger once, and what that call prints by console.log is
  -- one object of the level ERROR, whose message has the method, the URL, the status and the
  -- message of the response, and the identifier that was drawn for the request: the one that its
  -- client gets in the header `X-Request-Id`.
  pub answer_traced :
      (id : String) (r : Request) (s : State collection) {n : ℕ} {body : ApiErrorResponse}
      → (answer id r s).0.served.response ≡ Response.failure n body
      → ((answer id r s).0.headers ≡ ("X-Request-Id", id) ∷ [])
        × ((c : LogCall) × ((answer id r s).0.served.logged ≡ c ∷ [])
            × ((l : AppLogger) (time : String)
                → (p : Fields) × ((call l time c).out ≡ p ∷ [])
                  × (get "level" p ≡ some (str "ERROR"))
                  × (get "message" p ≡ some (str (failed_line r id n body.message)))))
  unfolding answer call write payload get
  answer_traced id r s {n} {body} h =
      let (trace, e) = serve-IsTraced (record r { request_id = id }) s n body h in
      (refl, (_, e, λ l time. (_, refl, refl, refl)))
