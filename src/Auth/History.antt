-- ===== src/Auth/History.antt =====
-- What holds after any number of requests.
use nestjs_jwt.Prelude.{ℕ, ◌≡◌, ◌∙◌, some, List, [], ◌∷◌, ◌++◌, arith}
use nestjs_jwt.Common.Role.{Role}
use nestjs_jwt.Users.Schema.{User}
use nestjs_jwt.Users.Documents.{get, get-append}
use nestjs_jwt.Users.Changes.{
  Whatever, IsWellFormed, Edits-IsWellFormed, insert-IsWellFormed, SameAccount-role, Edits-accounts,
}
use nestjs_jwt.Auth.Deps.{Deps, State}
use nestjs_jwt.Auth.Login.{documents}
use nestjs_jwt.Auth.Steps.{Step, Reach, here, next, Effect, touches, inserts, Step-Effect}

module _ (d : Deps) where
  open d use {collection}

  Step-IsWellFormed :
      {s t : State collection}
      → IsWellFormed (documents d s)
      → Step d s t
      → IsWellFormed (documents d t)
  Step-IsWellFormed w st = after (Step-Effect d w.ids st) w
    where
      after : {ds es : List User} → Effect d Whatever ds es → IsWellFormed ds → IsWellFormed es
      after (touches (i, es)) h = Edits-IsWellFormed es h
      after (inserts u fresh free k _ es) h =
          Edits-IsWellFormed es (insert-IsWellFormed _ u h fresh free k)

  -- After any requests from a well-formed collection, where new documents get new identifiers,
  -- identifiers and addresses are unique, every login history has at most twenty entries, and a
  -- token hash is stored with an expiry or not at all.
  pub Reach-IsWellFormed :
      {s t : State collection}
      → IsWellFormed (documents d s)
      → Reach d s t
      → IsWellFormed (documents d t)
  Reach-IsWellFormed w here = w
  Reach-IsWellFormed w (next r st) = Step-IsWellFormed (Reach-IsWellFormed w r) st

  Effect-admin :
      {ds es : List User} (i : ℕ) {v : User}
      → Effect d Whatever ds es
      → get i es ≡ some v
      → v.role ≡ Role.admin
      → (u : User) × (get i ds ≡ some u) × (u.role ≡ Role.admin)
  Effect-admin {ds} i {v} (touches (j, c)) e a =
      let (u, g, r) = SameAccount-role (get i ds) v (rw e at (Edits-accounts i c)) in (u, g, r ∙ a)
  Effect-admin {ds} i {v} (inserts w fresh free k role c) e a =
      let (u, g, r) = SameAccount-role (get i (ds ++ w ∷ [])) v (rw e at (Edits-accounts i c)) in
      (u, ground (arith, get-append i ds w, g, r, a, role), r ∙ a)

  -- No sequence of requests from a well-formed collection makes an administrator: an account that
  -- is one afterwards was one before, under the same identifier.
  pub Reach-admin :
      {s t : State collection} (i : ℕ) {v : User}
      → IsWellFormed (documents d s)
      → Reach d s t
      → get i (documents d t) ≡ some v
      → v.role ≡ Role.admin
      → (u : User) × (get i (documents d s) ≡ some u) × (u.role ≡ Role.admin)
  Reach-admin i {v} w here e a = (v, e, a)
  Reach-admin i w (next r st) e a =
      let (m, g, b) = Effect-admin i (Step-Effect d (Reach-IsWellFormed w r).ids st) e a in
      Reach-admin i w r g b
