-- ===== src/Auth/Registration.antt =====
-- `AuthService.register`, and the login that follows it.
use nestjs_jwt.Prelude.{
  ℕ, ◌≡◌, refl, ap, ◌∙◌, ◌⊎◌, String, true, false, none, some, [], ◌∷◌, ◌++◌, arith, Option-cases,
  str_eq_true, inl, inr, is_some,
}
use nestjs_jwt.Common.Exceptions.{Exception}
use nestjs_jwt.Common.Exceptions.Exception.{email_already_exists, duplicate_key}
use nestjs_jwt.Common.Action.{ok, err, is_ok}
use nestjs_jwt.Users.Schema.{User, new_user, missing}
use nestjs_jwt.Users.Collection.{update_first, has_email}
use nestjs_jwt.Users.Documents.{
  get, HasDistinctIds, first-update_self, HasDistinctIds-append, first-append,
}
use nestjs_jwt.Users.Updates.{by_id, by_email, normalize, put_verification_token, RequestMetadata}
use nestjs_jwt.Users.Service.{user_of}
use nestjs_jwt.Users.Service.Effects.{find_by_email-first, create-cases}
use nestjs_jwt.Auth.Deps.{Deps, State}
use nestjs_jwt.Auth.Service.{
  RegisterDto, hash_value, hash_token, compare_value, input_of, sign_access, verification_expiry,
  issue_email_verification_token, welcome, register, login,
}
use nestjs_jwt.Auth.Login.{documents, account, login-ok_iff}
use nestjs_jwt.Auth.Effects.{documents-issue_email_verification_token}

module _ (d : Deps) where
  open d use {collection, text, jwt_service}

  -- The account that a registration creates, and the same once its token is stored.
  abbrev pub created : RegisterDto → ℕ → String → User
  created dto i salt = user_of text i (input_of d dto (hash_value d dto.password salt))

  abbrev pub registered : RegisterDto → ℕ → String → String → ℕ → User
  registered dto i salt raw now =
      put_verification_token (hash_token d raw) (verification_expiry d now) (created dto i salt)

  welcome-ok :
      (u : User) (raw : String) (now : ℕ) (s : State collection) → (welcome d u raw now s).0 ≡ ok u
  unfolding welcome issue_email_verification_token
  welcome-ok u raw now s = refl

  documents-welcome :
      (u : User) (raw : String) (now : ℕ) (s : State collection)
      → documents d (welcome d u raw now s).1
        ≡ update_first
            (by_id u.id)
            (put_verification_token (hash_token d raw) (verification_expiry d now))
            (documents d s)
  unfolding welcome issue_email_verification_token
  documents-welcome u raw now s = documents-issue_email_verification_token d u raw now s

  pub created-id : (dto : RegisterDto) (i : ℕ) (salt : String) → (created dto i salt).id ≡ i
  unfolding user_of new_user
  created-id dto i salt = refl

  -- An address that a live account has is refused, and nothing changes.
  pub register_existing :
      (dto : RegisterDto) (i : ℕ) (salt raw : String) (now : ℕ) (s : State collection) {u : User}
      → account d dto.email s ≡ some u
      → register d dto i salt raw now s ≡ (err email_already_exists, s)
  unfolding register
  register_existing dto i salt raw now s e =
      rw (find_by_email-first collection text dto.email s.store ∙ e, register)

  -- A registration of an address that no live account has either meets a deleted account that
  -- holds it, and then fails as a duplicate key, or lacks a required field, and then fails the
  -- schema's validation, and changes nothing; or it stores the new account last, with its
  -- verification token, and returns it.
  pub register_new :
      (dto : RegisterDto) (i : ℕ) (salt raw : String) (now : ℕ) (s : State collection)
      → account d dto.email s ≡ none
      → let (r, t) = register d dto i salt raw now s in
        ((e : Exception) × (((e ≡ duplicate_key)
              × (has_email (created dto i salt).email (documents d s) ≡ true))
            ⊎ (e ≡ Exception.missing_required (missing (created dto i salt))))
          × (r ≡ err e)
          × (t ≡ s))
        ⊎ ((has_email (created dto i salt).email (documents d s) ≡ false)
            × (r ≡ ok (created dto i salt))
            × (documents d t
                ≡ update_first
                    (by_id i)
                    (put_verification_token (hash_token d raw) (verification_expiry d now))
                    (documents d s ++ created dto i salt ∷ [])))
  unfolding register
  register_new dto i salt raw now s e =
      let u : User = created dto i salt in
      let none_found = find_by_email-first collection text dto.email s.store ∙ e in
      elim (create-cases collection text i (input_of d dto (hash_value d dto.password salt))
        s.store) [
          | inl (x, h, e') ↦
              let run : register d dto i salt raw now s ≡ (err x, s) =
                ground (arith, none_found, e') in
              inl (x, h, ap (λ r. r.0) run, ap (λ r. r.1) run)
          | inr (h, s', e', more) ↦
              let run : register d dto i salt raw now s
                  ≡ welcome d u raw now (record s { store = s' }) =
                ground (arith, none_found, e') in
              let mark : User → User =
                put_verification_token (hash_token d raw) (verification_expiry d now) in
              inr (
                h,
                ap (λ r. r.0) run ∙ welcome-ok u raw now _,
                ap (λ r. documents d r.1) run
                    ∙ documents-welcome u raw now _
                    ∙ ap (update_first (by_id u.id) mark) more
                    ∙ ap (λ j. update_first (by_id j) mark (documents d s ++ u ∷ []))
                        (created-id dto i salt),
              )
        ]

  -- Once a registration under a new identifier succeeds, the address names the new account and a
  -- login with the same address and password succeeds, where no two documents share an identifier,
  -- normalising a normalised address changes nothing, bcrypt accepts a password against its own
  -- hash, and the access token can be decoded.
  pub register_then_login :
      (dto : RegisterDto) (i : ℕ) (salt raw : String) (now later : ℕ) (meta : RequestMetadata)
      (s : State collection)
      → normalize text (normalize text dto.email) ≡ normalize text dto.email
      → compare_value d dto.password (hash_value d dto.password salt) ≡ true
      → HasDistinctIds (documents d s)
      → get i (documents d s) ≡ none
      → is_some (jwt_service.decode (sign_access d (registered dto i salt raw now) later)) ≡ true
      → is_ok (register d dto i salt raw now s).0 ≡ true
      → let t = (register d dto i salt raw now s).1 in
        (account d dto.email t ≡ some (registered dto i salt raw now))
        × (is_ok (login d (record { email = dto.email; password = dto.password }) meta later t).0
            ≡ true)
  unfolding put_verification_token user_of new_user by_email input_of hash_value
  register_then_login dto i salt raw now later meta s idem match ids fresh decodes h =
      elim (Option-cases (account d dto.email s)) [
        | inr (u, e) ↦ cc (ap (λ r. is_ok r.0) (register_existing dto i salt raw now s e))
        | inl e ↦ elim (register_new dto i salt raw now s e) [
          | inl (_, _, r, _) ↦ cc (ap is_ok r)
          | inr (_, _, docs) ↦
              let found : account d dto.email (register d dto i salt raw now s).1
                  ≡ some (registered dto i salt raw now) =
                rw docs (
                  first-update_self (by_email text dto.email) _ _ (λ v. refl)
                    (HasDistinctIds-append (documents d s) (created dto i salt) ids fresh)
                    (first-append (by_email text dto.email) (documents d s) (created dto i salt) e
                      (rw (str_eq_true _ _ idem)))) in
              (found, (login-ok_iff d _ meta later _).1 (_, found, (refl, refl), match, decodes))
        ]
      ]
