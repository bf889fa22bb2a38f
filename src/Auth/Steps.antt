-- ===== src/Auth/Steps.antt =====
-- What the requests that write do to the documents.
mod Requests
pub use Requests.*
use nestjs_jwt.Prelude.{
  ℕ, ◌≡◌, refl, subst, sym, ap, ◌∙◌, inl, inr, String, false, none, some, List, [], ◌∷◌, ◌++◌,
  arith, Option-cases,
}
use nestjs_jwt.Common.Role.{Role}
use nestjs_jwt.Users.Schema.{User, new_user}
use nestjs_jwt.Users.Collection.{first, update_first, has_email}
use nestjs_jwt.Users.Documents.{get-append, get, HasDistinctIds}
use nestjs_jwt.Users.Updates.{
  put_refresh_token_hash, put_password, by_id, by_active_id, RequestMetadata, UpdateProfileDto,
  put_deleted, set_profile, put_verification_token,
}
use nestjs_jwt.Users.Invariant.{
  IsSound, put_deleted-IsEdit, set_profile-IsEdit, put_verification_token-IsEdit,
}
use nestjs_jwt.Users.Changes.{
  IsOfPasswords, Edits, done, edit, IsQuiet, Whatever, Whatever-IsQuiet, Touches, Touches-same,
  Touches-one,
}
use nestjs_jwt.Users.Quiet.{Unless, Related, Edits-Related}
use nestjs_jwt.Users.Service as Users
use nestjs_jwt.Users.Service.{user_of}
use nestjs_jwt.Users.Service.Effects.{
  docs-soft_delete, update_profile-found, update_profile-missing,
}
use nestjs_jwt.Auth.Deps.{Deps, State}
use nestjs_jwt.Auth.Service.{
  RegisterDto, LoginDto, ChangePasswordDto, hash_value, hash_token, verification_expiry, input_of,
  register, login, refresh_tokens, logout, change_password, forgot_password, reset_password,
  verify_email, resend_verification_email,
}
use nestjs_jwt.Auth.Login.{documents, account}
use nestjs_jwt.Auth.Registration.{created, created-id, register_existing, register_new}
use nestjs_jwt.Auth.Passwords.{reset}
use nestjs_jwt.Auth.Touches.{
  login-Touches, refresh-Touches, logout-Edits, change_password-Edits, forgot_password-Touches,
  reset_password-Touches, verify_email-Touches, resend-Edits,
}

module _ (d : Deps) where
  open d use {collection, text}

  -- What a step does to the documents: it updates one, or inserts one with the role of a plain user
  -- under a new identifier and address, and updates that.
  pub data Effect (P : (User → User) → Type 0) (ds es : List User) : Type 0 where
    touches : Touches P ds es → Effect P ds es
    inserts :
        (u : User)
        → get u.id ds ≡ none
        → has_email u.email ds ≡ false
        → IsSound u
        → u.role ≡ Role.user
        → Edits P u.id (ds ++ u ∷ []) es
        → Effect P ds es

  created-IsSound : (dto : RegisterDto) (i : ℕ) (salt : String) → IsSound (created d dto i salt)
  unfolding user_of new_user
  created-IsSound dto i salt = ground arith

  created-role :
      (dto : RegisterDto) (i : ℕ) (salt : String) → (created d dto i salt).role ≡ Role.user
  unfolding user_of new_user input_of
  created-role dto i salt = refl

  register-Effect :
      (P : (User → User) → Type 0) (q : IsQuiet P) (dto : RegisterDto) (i : ℕ) (salt raw : String)
      (now : ℕ) (s : State collection)
      → get i (documents d s) ≡ none
      → Effect P (documents d s) (documents d (register d dto i salt raw now s).1)
  register-Effect P q dto i salt raw now s fresh = elim (Option-cases (account d dto.email s)) [
    | inr (u, e) ↦
        touches
          (Touches-same (ap (λ r. documents d r.1) (register_existing d dto i salt raw now s e)))
    | inl e ↦ elim (register_new d dto i salt raw now s e) [
      | inl (_, _, _, t) ↦ touches (Touches-same (ap (documents d) t))
      | inr (free, _, docs) ↦
          let u : User = created d dto i salt in
          inserts u (rw (created-id d dto i salt) fresh) free (created-IsSound dto i salt)
            (created-role dto i salt)
            (edit _ (put_verification_token-IsEdit _ _) (q.of_verification_token _ _)
              (docs
                ∙ ap
                    (λ j.
                      update_first (by_id j)
                        (put_verification_token (hash_token d raw) (verification_expiry d now))
                        (documents d s ++ u ∷ []))
                    (sym (created-id d dto i salt)))
              (done refl))
    ]
  ]

  update_profile-Edits :
      (P : (User → User) → Type 0) (q : IsQuiet P) (i : ℕ) (dto : UpdateProfileDto)
      (s : State collection)
      → HasDistinctIds (documents d s)
      → Edits P i
          (documents d s)
          (collection.docs (Users.update_profile collection text i dto s.store).1)
  update_profile-Edits P q i dto s ids =
      elim (Option-cases (first (by_active_id i) (documents d s))) [
        | inl e ↦ done (update_profile-missing collection text i dto s.store e).1
        | inr (u, e) ↦
            edit (set_profile text dto) (set_profile-IsEdit text dto) (q.of_profile text dto)
              (update_profile-found collection text i dto s.store ids e).1 (done refl)
      ]

  -- A step for an account updates that account, by updates that are each a `P`, where one that writes a
  -- password is.
  delete-Edits :
      (P : (User → User) → Type 0) (q : IsQuiet P) (i now : ℕ) (s : State collection)
      → Edits P i (documents d s) (collection.docs (Users.soft_delete collection i now s.store))
  delete-Edits P q i now s =
      edit (put_deleted now) (put_deleted-IsEdit now) (q.of_deleted now)
        (docs-soft_delete collection i now s.store) (done refl)

  pub Step-Edits :
      {s t : State collection} (P : (User → User) → Type 0)
      → IsQuiet P
      → HasDistinctIds (documents d s)
      → (st : Step d s t) → Writes d P st
      → (i : ℕ) → owner d st ≡ some i
      → Edits P i (documents d s) (documents d t)
  Step-Edits {s} {t} P q ids st w i e = owned st w e
    where
      at_owner :
          {es : List User} {k : ℕ}
          → some k ≡ some i
          → Edits P k (documents d s) es
          → Edits P i (documents d s) es
      at_owner {es} {k} e c =
          let same : k ≡ i = ground (arith, e) in subst (λ x. Edits P x (documents d s) es) same c

      owned :
          {t : State collection} (st : Step d s t)
          → Writes d P st
          → owner d st ≡ some i
          → Edits P i (documents d s) (documents d t)
      owned (logs_out k) w e = at_owner e (logout-Edits d P q k s)
      owned (changes_password k dto salt) w e =
          at_owner e (change_password-Edits d P q k dto salt s w)
      owned (resends k raw now) w e = at_owner e (resend-Edits d P q k raw now s)
      owned (updates_profile k dto) w e = at_owner e (update_profile-Edits P q k dto s ids)
      owned (deletes k now) w e = at_owner e (delete-Edits P q k now s)
      owned _ w e = absurd (ground (arith, e))

  -- A step that is no registration updates one document, by updates that are each a `P`, where the ones
  -- that write a password or open a session are.
  pub Step-Touches :
      {s t : State collection} (P : (User → User) → Type 0)
      → IsQuiet P
      → HasDistinctIds (documents d s)
      → (st : Step d s t) → (Registers d st → ⊥)
      → Writes d P st
      → (OpensSession d st → (h : String) → P (put_refresh_token_hash (some h)))
      → Touches P (documents d s) (documents d t)
  Step-Touches {s} P q ids (registers dto i salt raw now fresh) n w o = absurd (n tt)
  Step-Touches {s} P q ids (logs_in dto meta now) n w o =
      login-Touches d P q dto meta now s ids (o tt)
  Step-Touches {s} P q ids (refreshes token now) n w o = refresh-Touches d P q token now s (o tt)
  Step-Touches {s} P q ids (forgets email raw now) n w o =
      forgot_password-Touches d P q email raw now s
  Step-Touches {s} P q ids (resets token new salt now) n w o =
      reset_password-Touches d P q token new salt now s w
  Step-Touches {s} P q ids (verifies token now) n w o = verify_email-Touches d P q token now s
  Step-Touches {s} P q ids st n w o = (_, Step-Edits P q ids st w _ refl)

  any_password :
      {s t : State collection} (P : (User → User) → Type 0) (st : Step d s t)
      → (WritesPassword d st → IsOfPasswords P)
      → Writes d P st
  any_password P (changes_password i dto salt) w = (w tt).of_password _
  any_password P (resets token new salt now) w = (w tt).of_reset _
  any_password P _ w = tt

  -- The effect of a step, by updates that are each a `P`: an update that writes no password and opens no
  -- session is one, and so is one that does, in a step that may.
  pub Step-Effect_through :
      {s t : State collection} (P : (User → User) → Type 0)
      → IsQuiet P
      → HasDistinctIds (documents d s)
      → (st : Step d s t) → (WritesPassword d st → IsOfPasswords P)
      → (OpensSession d st → (h : String) → P (put_refresh_token_hash (some h)))
      → Effect P (documents d s) (documents d t)
  Step-Effect_through {s} P q ids (registers dto i salt raw now fresh) w o =
      register-Effect P q dto i salt raw now s fresh
  Step-Effect_through {s} P q ids st w o =
      touches (Step-Touches P q ids st (λ r. r) (any_password P st w) o)

  -- What a step does, whatever its updates are.
  pub Step-Effect :
      {s t : State collection}
      → HasDistinctIds (documents d s)
      → Step d s t
      → Effect Whatever (documents d s) (documents d t)
  Step-Effect ids st =
      Step-Effect_through Whatever Whatever-IsQuiet ids st (λ w. ground arith) (λ o h. tt)

  -- What the updates of a step relate, the step relates, for an account that is there before.
  pub Effect-Related :
      (R : User → User → Type 0) (R-refl : (u : User) → R u u)
      (R-trans : (u v w : User) → R u v → R v w → R u w) {C : Type 0} {ds es : List User} (j : ℕ)
      {u : User}
      → Effect (Unless R R-refl R-trans C) ds es
      → get j ds ≡ some u
      → Related R R-refl R-trans C u (get j es)
  Effect-Related R R-refl R-trans j (touches (i, c)) e = Edits-Related R R-refl R-trans j c e
  Effect-Related R R-refl R-trans {ds = ds} j (inserts w fresh free k role c) e =
      Edits-Related R R-refl R-trans j c (rw (get-append j ds w, e) refl)
