-- ===== src/Auth/Passwords.antt =====
-- `AuthService.changePassword`, `forgotPassword` and `resetPassword`.
use nestjs_jwt.Prelude.{
  ℕ, ◌<◌, ◌≤◌, ◌≡◌, refl, ap, ◌∙◌, String, true, false, Option, none, some, List, [], ◌∷◌, arith,
  Option-cases, any, str_eq_true, inl, inr,
}
use nestjs_jwt.Common.Exceptions.Exception.{invalid_reset_token, incorrect_password}
use nestjs_jwt.Common.Action.{ok, err}
use nestjs_jwt.Users.Schema.{User}
use nestjs_jwt.Users.Collection.{first, update_first}
use nestjs_jwt.Users.Documents.{
  HasDistinctIds, get-first, first_holds, first-update_self, update-update, first-update_hit,
  first-update_miss,
}
use nestjs_jwt.Users.Updates.{
  by_id, by_email, by_reset_token, holds, put_password, put_reset_token, drop_reset_token,
}
use nestjs_jwt.Users.Invariant.{put_password-IsEdit}
use nestjs_jwt.Users.Service.Effects.{
  find_by_email-first, find_by_id_with_secrets-first, find_by_password_reset_token_hash-first,
  docs-update_password, docs-clear_password_reset_token,
}
use nestjs_jwt.Auth.Deps.{Deps, State}
use nestjs_jwt.Auth.Service.{
  ChangePasswordDto, compare_value, hash_value, hash_token, reset_expiry, change_password,
  request_reset, forgot_password, reset_password,
}
use nestjs_jwt.Auth.Login.{documents, account}
use nestjs_jwt.Auth.Effects.{documents-request_reset}
use nestjs_jwt.Auth.Session.{active}

module _ (d : Deps) where
  open d use {collection, text}

  pub change_password_unknown :
      (i : ℕ) (dto : ChangePasswordDto) (salt : String) (s : State collection)
      → active d i s ≡ none
      → (change_password d i dto salt s).1 ≡ s
  unfolding change_password
  change_password_unknown i dto salt s e =
      rw (find_by_id_with_secrets-first collection i s.store ∙ e, change_password)

  -- A wrong old password changes nothing.
  pub change_password_wrong :
      (i : ℕ) (dto : ChangePasswordDto) (salt : String) (s : State collection) {u : User}
      → active d i s ≡ some u
      → compare_value d dto.old_password u.password ≡ false
      → change_password d i dto salt s ≡ (err incorrect_password, s)
  unfolding change_password
  change_password_wrong i dto salt s e w =
      rw (find_by_id_with_secrets-first collection i s.store ∙ e, change_password)
        (ground (arith, w))

  -- With the right old password of an account that is not deleted, a change of password stores the
  -- hash of the new one and drops the session, in one update.
  pub change_password_right :
      (i : ℕ) (dto : ChangePasswordDto) (salt : String) (s : State collection) {u : User}
      → active d i s ≡ some u
      → compare_value d dto.old_password u.password ≡ true
      → let (r, t) = change_password d i dto salt s in
        (r ≡ ok tt)
        × (documents d t
            ≡ update_first
                (by_id i)
                (put_password (hash_value d dto.new_password salt))
                (documents d s))
  unfolding change_password
  change_password_right i dto salt s e w =
      rw (find_by_id_with_secrets-first collection i s.store ∙ e, change_password)
        (ground (
          arith,
          w,
          docs-update_password collection i (hash_value d dto.new_password salt) s.store,
        ))

  -- An unknown address is answered as a known one is, and nothing is written, mailed or logged.
  pub forgot_password_unknown :
      (email raw : String) (now : ℕ) (s : State collection)
      → account d email s ≡ none
      → forgot_password d email raw now s ≡ (ok tt, s)
  unfolding forgot_password
  forgot_password_unknown email raw now s e =
      rw (find_by_email-first collection text email s.store ∙ e, forgot_password)

  pub forgot_password_known :
      (email raw : String) (now : ℕ) (s : State collection) {u : User}
      → account d email s ≡ some u
      → forgot_password d email raw now s ≡ request_reset d u raw now s
  unfolding forgot_password
  forgot_password_known email raw now s e =
      rw (find_by_email-first collection text email s.store ∙ e, forgot_password)

  request_reset-ok :
      (u : User) (raw : String) (now : ℕ) (s : State collection)
      → (request_reset d u raw now s).0 ≡ ok tt
  unfolding request_reset
  request_reset-ok u raw now s = refl

  -- The answer to a request for a reset is the same whether or not the address has an account.
  pub forgot_password-ok :
      (email raw : String) (now : ℕ) (s : State collection)
      → (forgot_password d email raw now s).0 ≡ ok tt
  forgot_password-ok email raw now s = elim (Option-cases (account d email s)) [
    | inl e ↦ rw (forgot_password_unknown email raw now s e)
    | inr (u, e) ↦ rw (forgot_password_known email raw now s e) (request_reset-ok u raw now s)
  ]

  -- The documents that a reset token's hash and expiry pick.
  abbrev pub resettable : String → ℕ → State collection → Option User
  resettable token now s = first (by_reset_token (hash_token d token) now) (documents d s)

  pub reset_password_unknown :
      (token new salt : String) (now : ℕ) (s : State collection)
      → resettable token now s ≡ none
      → reset_password d token new salt now s ≡ (err invalid_reset_token, s)
  unfolding reset_password
  reset_password_unknown token new salt now s e = rw (
    find_by_password_reset_token_hash-first collection (hash_token d token) now s.store ∙ e,
    reset_password,
  )

  -- A reset stores the new hash, drops the session and burns the token.
  abbrev pub reset : String → String → User → User
  reset new salt u = drop_reset_token (put_password (hash_value d new salt) u)

  pub reset_password_known :
      (token new salt : String) (now : ℕ) (s : State collection) {u : User}
      → resettable token now s ≡ some u
      → let (r, t) = reset_password d token new salt now s in
        (r ≡ ok tt) × (documents d t ≡ update_first (by_id u.id) (reset new salt) (documents d s))
  unfolding reset_password
  reset_password_known token new salt now s {u} e =
      rw
        (
          find_by_password_reset_token_hash-first collection (hash_token d token) now s.store ∙ e,
          reset_password,
        )
        (
          refl,
          docs-clear_password_reset_token collection u.id _
              ∙ ap (update_first (by_id u.id) drop_reset_token)
                  (docs-update_password collection u.id (hash_value d new salt) s.store)
              ∙ update-update u.id (put_password (hash_value d new salt)) drop_reset_token
                  (documents d s) (put_password-IsEdit (hash_value d new salt)).keeps_id,
        )

  not_holding :
      (h : String) (now : ℕ) (ds : List User)
      → any (λ u. holds u.password_reset_token_hash h) ds ≡ false
      → first (by_reset_token h now) ds ≡ none
  unfolding by_reset_token
  not_holding h now [] e = refl
  not_holding h now (x ∷ ds) e = ground (arith, not_holding h now ds)

  -- The account after a reset that followed the request for it.
  abbrev pub recovered : String → String → String → ℕ → User → User
  recovered raw new salt now u =
      reset new salt (put_reset_token (hash_token d raw) (reset_expiry d now) u)

  -- Where no two documents share an identifier, a reset requested for a known address, with a
  -- token whose hash no document holds, and presented before it expires, succeeds: the account has
  -- the new password's hash and no session. Presented again, at any time, or for the first time
  -- when it has expired, the token is refused and nothing changes.
  pub forgot_then_reset :
      (email raw new salt new' salt' : String) (now used again late : ℕ) (s : State collection)
      {u : User}
      → HasDistinctIds (documents d s)
      → account d email s ≡ some u
      → any (λ v. holds v.password_reset_token_hash (hash_token d raw)) (documents d s) ≡ false
      → used < reset_expiry d now
      → reset_expiry d now ≤ late
      → let s₁ = (forgot_password d email raw now s).1 in
        let s₂ = (reset_password d raw new salt used s₁).1 in
        ((reset_password d raw new salt used s₁).0 ≡ ok tt)
        × ((v : User) × (account d email s₂ ≡ some v)
            × (v.id ≡ u.id)
            × (v.password ≡ hash_value d new salt)
            × (v.refresh_token_hash ≡ none))
        × (reset_password d raw new' salt' again s₂ ≡ (err invalid_reset_token, s₂))
        × (reset_password d raw new' salt' late s₁ ≡ (err invalid_reset_token, s₁))
  unfolding by_reset_token by_email put_password put_reset_token drop_reset_token
  forgot_then_reset email raw new salt new' salt' now used again late s {u} ids e fresh early
        expired =
      let h : String = hash_token d raw in
      let mark : User → User = put_reset_token h (reset_expiry d now) in
      let s₁ : State collection = (forgot_password d email raw now s).1 in
      let s₂ : State collection = (reset_password d raw new salt used s₁).1 in
      let found = get-first (by_email text email) (documents d s) ids e in
      let live : u.is_deleted ≡ false =
        ground (arith, first_holds (by_email text email) (documents d s) {u = u} e) in
      let marked : documents d s₁ ≡ update_first (by_id u.id) mark (documents d s) =
        rw (forgot_password_known email raw now s e) (documents-request_reset d u raw now s) in
      let pick : resettable raw used s₁ ≡ some (mark u) = rw marked (
        first-update_hit (by_reset_token h used) u.id mark (documents d s)
          (not_holding h used (documents d s) fresh) found
          (ground (arith, live, str_eq_true h h refl))) in
      let (r, after) = reset_password_known raw new salt used s₁ pick in
      let both : documents d s₂
          ≡ update_first (by_id u.id) (recovered raw new salt now) (documents d s) =
        after ∙ rw marked (update-update u.id mark (reset new salt) (documents d s) (λ v. refl)) in
      (
        r,
        (
          recovered raw new salt now u,
          rw both (first-update_self (by_email text email) _ (documents d s) (λ v. refl) ids e),
          refl,
          refl,
          refl,
        ),
        reset_password_unknown raw new' salt' again s₂ (
            rw both (
              first-update_miss (by_reset_token h again) u.id _ (documents d s)
                (not_holding h again (documents d s) fresh) found refl)),
        reset_password_unknown raw new' salt' late s₁ (
            rw marked (
              first-update_miss (by_reset_token h late) u.id mark (documents d s)
                (not_holding h late (documents d s) fresh) found (ground (arith, expired)))),
      )
