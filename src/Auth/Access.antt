-- ===== src/Auth/Access.antt =====
-- Tokens and the account behind them, across requests: the role and address that a token carries.
use nestjs_jwt.Prelude.{
  ℕ, ◌≡◌, refl, sym, ap₂, ◌∙◌, true, false, Option, none, some, List, [], ◌∷◌, ◌++◌, arith,
}
use nestjs_jwt.Common.Role.{JwtPayload, AuthenticatedUser}
use nestjs_jwt.Common.Action.{ok, err}
use nestjs_jwt.Users.Schema.{User}
use nestjs_jwt.Users.Documents.{
  get, get-update_self, get-append, first-by_active_id, unless_deleted,
}
use nestjs_jwt.Common.Exceptions.Exception.{unauthorized}
use nestjs_jwt.Users.Updates.{put_deleted}
use nestjs_jwt.Users.Invariant.{put_deleted-IsEdit}
use nestjs_jwt.Users.Service as Users
use nestjs_jwt.Users.Service.Effects.{docs-soft_delete, find_active_by_id-first}
use nestjs_jwt.Users.Changes.{
  Whatever, IsWellFormed, SameAccount, SameAccount-refl, SameAccount-trans, Edits-accounts,
}
use nestjs_jwt.Auth.Deps.{Deps, State}
use nestjs_jwt.Auth.Service.{payload_of}
use nestjs_jwt.Auth.Login.{documents}
use nestjs_jwt.Auth.Strategy.{validate, usable}
use nestjs_jwt.Auth.Steps.{Reach, here, next, deletes, Effect, touches, inserts, Step-Effect}
use nestjs_jwt.Auth.History.{Reach-IsWellFormed}

SameAccount-some :
    (u : User) (o : Option User)
    → SameAccount (some u) o
    → (v : User) × (o ≡ some v) × SameAccount (some u) (some v)
SameAccount-some u none h = absurd h
SameAccount-some u (some v) h = (v, refl, h)

usable-ok :
    (v : User) (p : JwtPayload) {a : AuthenticatedUser}
    → usable (unless_deleted (some v)) p ≡ ok a
    → (v.is_active ≡ true)
      × (v.is_deleted ≡ false)
      × (record { user_id = p.sub; email = p.email; role = p.role } ≡ a)
usable-ok v p h = (ground (arith, h), ground (arith, h), ground (arith, h))

module _ (d : Deps) where
  open d use {collection}

  Effect-account :
      {ds es : List User} (i : ℕ) {u : User}
      → Effect d Whatever ds es
      → get i ds ≡ some u
      → (v : User) × (get i es ≡ some v) × SameAccount (some u) (some v)
  Effect-account {ds} {es} i {u} (touches (j, c)) e =
      SameAccount-some u (get i es) (rw e at (Edits-accounts i c))
  Effect-account {ds} {es} i {u} (inserts w fresh free k role c) e =
      let kept : get i (ds ++ w ∷ []) ≡ some u = rw (get-append i ds w, e) in
      SameAccount-some u (get i es) (rw kept at (Edits-accounts i c))

  Reach-SameAccount :
      {s t : State collection} (i : ℕ) {u : User}
      → IsWellFormed (documents d s)
      → Reach d s t
      → get i (documents d s) ≡ some u
      → (v : User) × (get i (documents d t) ≡ some v) × SameAccount (some u) (some v)
  Reach-SameAccount i {u} w here e = (u, e, SameAccount-refl (some u))
  Reach-SameAccount i {u} w (next r st) e =
      let (m, g, same) = Reach-SameAccount i w r e in
      let (v, g', same') = Effect-account i (Step-Effect d (Reach-IsWellFormed d w r).ids st) g in
      (v, g', SameAccount-trans (some u) (some m) (some v) same same')

  -- From a well-formed collection, no sequence of requests removes an account or changes its
  -- address or its role.
  pub Reach-account :
      {s t : State collection} (i : ℕ) {u : User}
      → IsWellFormed (documents d s)
      → Reach d s t
      → get i (documents d s) ≡ some u
      → (v : User) × (get i (documents d t) ≡ some v) × (v.email ≡ u.email) × (v.role ≡ u.role)
  Reach-account i w r e = let (v, g, same) = Reach-SameAccount i w r e in (v, g, same.0, same.1)

  -- Once an account of a well-formed collection is deleted, no payload that names it is accepted,
  -- after any requests that follow.
  pub delete_ends_access :
      {t : State collection} (p : JwtPayload) (now : ℕ) (s : State collection) {u : User}
      → IsWellFormed (documents d s)
      → get p.sub (documents d s) ≡ some u
      → Reach d (record s { store = Users.soft_delete collection p.sub now s.store }) t
      → validate d p t ≡ err (unauthorized "User no longer exists or is inactive")
  unfolding validate put_deleted
  delete_ends_access {t} p now s {u} w e r =
      let s' : State collection = record s {
        store = Users.soft_delete collection p.sub now s.store;
      } in
      let w' : IsWellFormed (documents d s') =
        Reach-IsWellFormed d {s = s} {t = s'} w (next here (deletes p.sub now)) in
      let gone : get p.sub (documents d s') ≡ some (put_deleted now u) = rw (
        docs-soft_delete collection p.sub now s.store,
        get-update_self p.sub (put_deleted now) (documents d s) (put_deleted-IsEdit now).keeps_id,
        e,
      ) in
      let (v, g, same) = Reach-SameAccount p.sub w' r gone in
      rw (
        find_active_by_id-first collection p.sub t.store,
        first-by_active_id p.sub (documents d t) (Reach-IsWellFormed d w' r).ids,
        g,
        same.2 refl,
      )

  -- The payload of a token signed for a stored account, presented after any requests from a
  -- well-formed collection and accepted, stands for that account as it is stored then: active, not
  -- deleted, with its identifier, address and role.
  pub token_is_current :
      {s t : State collection} {u : User} {a : AuthenticatedUser}
      → IsWellFormed (documents d s)
      → Reach d s t
      → get u.id (documents d s) ≡ some u
      → validate d (payload_of d u) t ≡ ok a
      → (v : User) × (get u.id (documents d t) ≡ some v)
        × (v.is_active ≡ true)
        × (v.is_deleted ≡ false)
        × (a ≡ record { user_id = u.id; email = v.email; role = v.role })
  unfolding validate payload_of
  token_is_current {s} {t} {u} {a} w r e h =
      let (v, g, same_email, same_role) = Reach-account u.id w r e in
      let found =
        find_active_by_id-first collection u.id t.store
        ∙ first-by_active_id u.id (documents d t) (Reach-IsWellFormed d w r).ids in
      let run = rw (found, g) at h in
      let (act, live, same) = usable-ok v (payload_of d u) run in
      (
        v,
        g,
        act,
        live,
        sym same
            ∙ ap₂ (λ m k. record { user_id = u.id; email = m; role = k }) (sym same_email)
                (sym same_role),
      )
