-- ===== src/Dto/Undeclared.antt =====
-- A property that no class declares: `forbidNonWhitelisted` of src/main.ts, behind the sanitizer.
use nestjs_jwt.Prelude.{
  ℕ, ◌≡◌, refl, ap, ◌∙◌, ◌⊎◌, inl, inr, String, false, Option, none, some, List, arith, Bool-cases,
  str_eq, eq_iff,
}
use nestjs_jwt.Common.Json.{get, Json, Fields, end, field}
use nestjs_jwt.Common.Sanitize.{sanitize_inputs, is_prohibited, sanitize, sanitize_fields}
use nestjs_jwt.Common.Filter.{ApiErrorResponse, Thrown, catch, resolve}
use nestjs_jwt.Common.Role.{AuthenticatedUser}
use nestjs_jwt.Auth.Deps.{Deps, State}
use nestjs_jwt.App.Pipeline.{
  Framework, Request, Body, rejected, failure, fail, admitted, refused, guards, serve,
}
use nestjs_jwt.App.Refines.{serve_refused, serve_admitted}
use nestjs_jwt.App.Bearer.{status}
use nestjs_jwt.App.Bearer as Bearer
use nestjs_jwt.App.Allowed.{guards-cases, IsRefusal}
use nestjs_jwt.Dto.Rules.{Property}
use nestjs_jwt.Dto.Pipe.{pipe_options, declared, ValidationPipe, IsDocumented}
use nestjs_jwt.Dto.Receive.{sent, sanitized, payload, Incoming, dto_of, piped, receive}
use nestjs_jwt.Dto.Typed.{Piped-cases}

-- The sanitizer leaves a property whose name is not prohibited.
get-sanitize_fields :
    (k : String) (fs : Fields) {v : Json}
    → is_prohibited k ≡ false
    → get k fs ≡ some v
    → get k (sanitize_fields fs) ≡ some (sanitize v)
unfolding get sanitize_fields
get-sanitize_fields k end p e = absurd (ground (arith, e))
get-sanitize_fields k (field j w fs) {v} p e = elim (Bool-cases (str_eq j k)) [
  | inl same ↦
      let here : w ≡ v = ground (arith, e, same) in
      let kept : is_prohibited j ≡ false = ap is_prohibited ((eq_iff j k).0 same) ∙ p in
      rw (kept, same, here) refl
  | inr other ↦
      let rest = get-sanitize_fields k fs p (ground (arith, e, other)) in
      elim (Bool-cases (is_prohibited j)) [ inl q ↦ rw q rest | inr q ↦ rw (q, other) rest ]
]

-- What the pipe gets, a sanitized body or a query as it was sent, has the property.
get-sanitized :
    (h : Incoming) (k : String) (v : Json)
    → is_prohibited k ≡ false
    → get k (sent h) ≡ some v
    → (w : Json) × (get k (sanitized h) ≡ some w)
unfolding payload sanitize_inputs
get-sanitized h k v p e = elim (sanitized-cases h) [
  | inl q ↦ (sanitize v, ap (get k) q ∙ get-sanitize_fields k (sent h) p e)
  | inr q ↦ (v, ap (get k) q ∙ e)
]
  where
    sanitized-cases :
        (h : Incoming) → (sanitized h ≡ sanitize_fields (sent h)) ⊎ (sanitized h ≡ sent h)
    sanitized-cases h = ground arith

module _ (pipe : ValidationPipe) where
  receive_undeclared :
      (h : Incoming) (ps : List Property) (k : String) (v : Json) {b : Body}
      → IsDocumented pipe
      → dto_of h.route ≡ some ps
      → declared k ps ≡ none
      → is_prohibited k ≡ false
      → get k (sent h) ≡ some v
      → receive pipe h ≡ some b
      → (messages : List String) × (b ≡ rejected h.route messages)
  unfolding receive pipe_options
  receive_undeclared h ps k v doc d n p g r = elim (Piped-cases (piped pipe h (some ps))) [
    | inl (i, e) ↦
        let (w, kept) = get-sanitized h k v p g in
        let known = doc.forbids pipe_options ps (sanitized h) i k w refl refl e kept in
        absurd (ground (arith, known, n))
    | inr (ms, e) ↦ (ms, ground (arith, rw (d, e) at r))
  ]

module _ (d : Deps) (f : Framework) (pipe : ValidationPipe) where
  open d use {collection}

  -- A body with a property that the class of its route does not declare, under a name that the
  -- sanitizer does not remove (a role, say, or an address on the profile form), is answered by a
  -- failure and changes nothing: of status 400 where the guards admit the request, and of that of
  -- their refusal where they do not, with Nest and its libraries as documented.
  pub serve_undeclared :
      (h : Incoming) (r : Request) (s : State collection) (ps : List Property) (k : String)
      (v : Json)
      → Bearer.IsDocumented f
      → IsDocumented pipe
      → receive pipe h ≡ some r.body
      → dto_of h.route ≡ some ps
      → declared k ps ≡ none
      → is_prohibited k ≡ false
      → get k (sent h) ≡ some v
      → (n : ℕ) × (body : ApiErrorResponse) × (((e : Thrown) × (guards d f r s ≡ refused e)
            × IsRefusal d f r.within_limit n)
          ⊎ ((user : Option AuthenticatedUser) × (guards d f r s ≡ admitted user) × (n ≡ 400)))
        × ((serve d f r s).0.response ≡ failure n body)
        × ((serve d f r s).1 ≡ s)
  unfolding fail catch resolve
  serve_undeclared h r s ps k v doc_f doc received o n p g = elim (guards-cases d f r s) [
    | inl (e, refused_, status_) ↦
        let run = serve_refused d f r s refused_ in
        (
          status e,
          (catch e).1,
          inl (e, refused_, status_ doc_f),
          ap (λ x. x.0.response) run,
          ap (λ x. x.1) run,
        )
    | inr (user, admitted_, _) ↦
        let (ms, b) = receive_undeclared pipe h ps k v doc o n p g received in
        let run = serve_admitted d f r s admitted_ b in
        let e = f.bad_request ms in
        (
          status e,
          (catch e).1,
          inr (user, admitted_, rw (doc_f.bad_request ms) refl),
          ap (λ x. x.0.response) run,
          ap (λ x. x.1) run,
        )
  ]
