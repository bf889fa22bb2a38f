-- ===== src/App/Isolation.antt =====
-- Whose account a request to a protected route may change: the guards and the handlers of
-- src/auth/auth.controller.ts and src/users together.
use nestjs_jwt.Prelude.{
  ℕ, ◌≡◌, refl, sym, subst, ap, ap₂, ◌∙◌, ◌⊎◌, inl, inr, Bool, true, false, Option, none, some,
  arith, Bool-cases, ◌==◌, ==_iff,
}
use nestjs_jwt.Common.Role.{Role, JwtPayload, AuthenticatedUser}
use nestjs_jwt.Users.Documents.{get, HasDistinctIds}
use nestjs_jwt.Users.Changes.{Whatever, Whatever-IsQuiet, Edits-others}
use nestjs_jwt.Auth.Deps.{Deps, State}
use nestjs_jwt.Auth.Login.{documents}
use nestjs_jwt.Auth.Steps.{
  Step, registers, resets, logs_out, changes_password, resends, updates_profile, deletes,
  Step-Edits, Writes, owner,
}
use nestjs_jwt.App.Routes.{Call, route_of, is_public, required_roles}
use nestjs_jwt.App.Pipeline.{
  Framework, Request, body_route, Admission, admitted, passport, admit, verify_bearer, guards,
  handle, serve,
}
use nestjs_jwt.App.Handlers.{IsOwn, IsOfCall, handle-keeps}
use nestjs_jwt.App.Refines.{serve-cases}
use nestjs_jwt.App.Bearer.{IsBearer, account_of, verify_bearer-cases}
use nestjs_jwt.App.Allowed.{HasRole, admit_refused, admit-cases}

module _ (d : Deps) (f : Framework) where
  open d use {collection}

  -- A protected route admits the account that the bearer token names.
  guards_protected :
      (r : Request) (s : State collection) {user : Option AuthenticatedUser}
      → is_public (body_route r.body) ≡ none
      → guards d f r s ≡ admitted user
      → (p : JwtPayload) × IsBearer d f r.bearer r.now s p
        × (user ≡ some (account_of d f p))
        × HasRole d f (body_route r.body) p
  unfolding guards passport
  guards_protected r s {user} h g =
      let route = body_route r.body in
      let run : (b : Bool) (a : Admission)
          → r.within_limit ≡ b
          → verify_bearer d f r.bearer r.now s ≡ a
          → admit d f b route a ≡ admitted user =
        λ b a l v. ap₂ (λ x y. admit d f x route y) (sym l) (sym v) ∙ g in
      elim (Bool-cases r.within_limit) [
        | inr l ↦ absurd (ground (arith, run false _ l refl))
        | inl l ↦ elim (verify_bearer-cases d f r.bearer r.now s) [
          | inl (e, v, _) ↦
              absurd (ground (arith, sym (admit_refused d f route e h) ∙ run true _ l v))
          | inr (p, bearer, v) ↦ elim (admit-cases d f route p h) [
            | inl (a, role) ↦ (p, bearer, ground (arith, sym a ∙ run true _ l v), role)
            | inr a ↦ absurd (ground (arith, sym a ∙ run true _ l v))
          ]
        ]
      ]

  -- What a request may do to the account `j`: nothing, unless its token is that of the account or of an
  -- administrator.
  abbrev pub IsIsolated : ℕ → JwtPayload → (s t : State collection) → Type 0
  IsIsolated j p s t =
      (get j (documents d t) ≡ get j (documents d s)) ⊎ ((j ≡ p.sub) ⊎ (p.role ≡ Role.admin))

  module _ (j : ℕ) (p : JwtPayload) (s : State collection) (ids : HasDistinctIds (documents d s))
      (call : Call) (user : Option AuthenticatedUser) (h : is_public (route_of call) ≡ none)
      (same : user ≡ some (account_of d f p)) (role : HasRole d f (route_of call) p) where
    own-IsIsolated :
        {t : State collection} (st : Step d s t) (i : ℕ)
        → Writes d Whatever st
        → owner d st ≡ some i
        → IsOwn d f user i
        → IsIsolated j p s t
    own-IsIsolated st i w o (u, e, id) =
        let mine : i ≡ p.sub = ground (arith, same, e, id) in
        elim (Bool-cases (j == i)) [
          | inl q ↦ inr (inl ((==_iff j i).0 q ∙ mine))
          | inr n ↦ inl (
              Edits-others j (Step-Edits d Whatever Whatever-IsQuiet ids st w i o)
                (λ q. ground (arith, n, q)))
        ]

    Step-IsIsolated :
        {t : State collection} (st : Step d s t) → IsOfCall d f call user st → IsIsolated j p s t
    unfolding is_public required_roles
    Step-IsIsolated (logs_out i) own = own-IsIsolated (logs_out i) i tt refl own
    Step-IsIsolated (changes_password i dto salt) (_, own) =
        own-IsIsolated (changes_password i dto salt) i tt refl own
    Step-IsIsolated (resends i raw now) own = own-IsIsolated (resends i raw now) i tt refl own
    Step-IsIsolated (updates_profile i dto) own =
        own-IsIsolated (updates_profile i dto) i tt refl own
    Step-IsIsolated (deletes i now) c = inr (inr (ground (arith, c, role)))
    Step-IsIsolated (registers dto i salt raw now fresh) c = absurd (ground (arith, c, h))
    Step-IsIsolated (resets token new salt now) (dto, c, _) = absurd (ground (arith, c, h))
    Step-IsIsolated _ c = absurd (ground (arith, c, h))

  -- A request to a protected route changes an account only where its bearer token verifies as that
  -- of the account itself or of an administrator: every other document is afterwards as it was,
  -- where no two share an identifier and the identifier drawn for the request is that of none.
  pub serve-IsIsolated :
      (r : Request) (s : State collection) (j : ℕ)
      → is_public (body_route r.body) ≡ none
      → HasDistinctIds (documents d s)
      → get r.identifier (documents d s) ≡ none
      → (get j (documents d (serve d f r s).1) ≡ get j (documents d s))
        ⊎ ((p : JwtPayload) × IsBearer d f r.bearer r.now s p
            × ((j ≡ p.sub) ⊎ (p.role ≡ Role.admin)))
  serve-IsIsolated r s j h ids fresh = elim (serve-cases d f r s) [
    | inl e ↦ inl (ap (λ t. get j (documents d t)) e)
    | inr (call, user, b, g, e) ↦
        let (p, bearer, same, role) = guards_protected r s h g in
        let h' : is_public (route_of call) ≡ none =
          ap (λ x. is_public (body_route x)) (sym b) ∙ h in
        let role' : HasRole d f (route_of call) p =
          subst (λ x. HasRole d f (body_route x) p) b role in
        let done : IsIsolated j p s (handle d f call user r s).1 =
          handle-keeps d f (IsIsolated j p s) call user r s fresh (inl refl)
            (λ t st c. Step-IsIsolated j p s ids call user h' same role' st c) in
        elim done [
          | inl kept ↦ inl (ap (λ t. get j (documents d t)) e ∙ kept)
          | inr owned ↦ inr (p, bearer, owned)
        ]
  ]
