-- ===== src/Users/Service/Effects.antt =====
-- What each call of the users service finds, and what it leaves in the collection, told of the
-- documents.
use nestjs_jwt.Prelude.{
  ℕ, ◌+◌, ◌≡◌, refl, ◌∙◌, ◌⊎◌, String, true, false, Option, none, some, [], ◌∷◌, ◌++◌, arith,
  is_some, Option-cases, inl, inr, List, ap, sym,
}
use nestjs_jwt.Common.Exceptions.{Exception}
use nestjs_jwt.Common.Action.{ok, err}
use nestjs_jwt.Users.Schema.{User, Text, missing}
use nestjs_jwt.Users.Collection.{Collection, first, update_first, has_email}
use nestjs_jwt.Users.Documents.{HasDistinctIds, update_none, update-by_active_id, get, first-by_id}
use nestjs_jwt.Users.Updates.{
  UpdateProfileDto, set_profile, by_id, by_active_id, by_email, by_reset_token,
  by_verification_token, RequestMetadata, succeed_login, lock_of, fail_login,
  put_refresh_token_hash, put_password, put_reset_token, drop_reset_token, put_verification_token,
  put_verified, put_deleted,
}
use nestjs_jwt.Users.Service.{
  CreateUserInput, user_of, insert_valid, create, update_profile, find_by_email,
  find_by_email_with_secrets, find_active_by_id, find_by_id_with_secrets, record_successful_login,
  register_failed_login_attempt, set_refresh_token_hash, update_password, set_password_reset_token,
  find_by_password_reset_token_hash, clear_password_reset_token, set_email_verification_token,
  find_by_email_verification_token_hash, mark_email_verified, soft_delete,
}

List-cases : {A : Type 0} (xs : List A) → (xs ≡ []) ⊎ ((x : A) × (rest : List A) × (xs ≡ x ∷ rest))
List-cases [] = inl refl
List-cases (x ∷ rest) = inr (x, rest, refl)

module _ (c : Collection) (t : Text) where
  pub find_by_email-first :
      (e : String) (s : c.Store) → find_by_email c t e s ≡ first (by_email t e) (c.docs s)
  unfolding find_by_email
  find_by_email-first e s = c.find_one_law (by_email t e) s

  pub find_by_email_with_secrets-first :
      (e : String) (s : c.Store)
      → find_by_email_with_secrets c t e s ≡ first (by_email t e) (c.docs s)
  unfolding find_by_email_with_secrets
  find_by_email_with_secrets-first e s = c.find_one_law (by_email t e) s

  -- `create` stores the new document last, or refuses a taken address or an empty field and stores
  -- nothing.
  pub create-cases :
      (i : ℕ) (input : CreateUserInput) (s : c.Store)
      → let u = user_of t i input in
        ((e : Exception) × (((e ≡ Exception.duplicate_key) × (has_email u.email (c.docs s) ≡ true))
            ⊎ (e ≡ Exception.missing_required (missing u)))
          × (create c t i input s ≡ (err e, s)))
        ⊎ ((has_email u.email (c.docs s) ≡ false)
            × (s' : c.Store) × (create c t i input s ≡ (ok u, s'))
            × (c.docs s' ≡ c.docs s ++ u ∷ []))
  unfolding create
  create-cases i input s =
      let law = c.create_law (user_of t i input) s in
      elim (List-cases (missing (user_of t i input))) [
        | inr (f, fs, m) ↦
            let run = ap (λ gs. insert_valid c t gs i input s) m in
            inl (
              Exception.missing_required (missing (user_of t i input)),
              inr refl,
              run ∙ ap (λ gs. (err (Exception.missing_required gs), s)) (sym m),
            )
        | inl m ↦
            let run = ap (λ gs. insert_valid c t gs i input s) m in
            elim (Option-cases (c.create (user_of t i input) s)) [
              | inl e ↦ inl (
                Exception.duplicate_key,
                inl (refl, ground (arith, rw e at law)),
                run ∙ rw (e, insert_valid) refl,
              )
              | inr (s', e) ↦ inr (
                ground (arith, rw e at law),
                s',
                run ∙ rw (e, insert_valid) refl,
                ground (arith, rw e at law),
              )
            ]
      ]

  -- A live account is updated and returned; for any other identifier nothing is written.
  pub update_profile-found :
      (i : ℕ) (dto : UpdateProfileDto) (s : c.Store) {u : User}
      → HasDistinctIds (c.docs s)
      → first (by_active_id i) (c.docs s) ≡ some u
      → let (r, s') = update_profile c t i dto s in
        (r ≡ ok (set_profile t dto u))
        × (c.docs s' ≡ update_first (by_id i) (set_profile t dto) (c.docs s))
  unfolding update_profile
  update_profile-found i dto s ids e =
      let (r, docs) = c.find_one_and_update_law (by_active_id i) (set_profile t dto) s in
      (rw (r, e), docs ∙ update-by_active_id i (set_profile t dto) (c.docs s) ids e)

  pub update_profile-missing :
      (i : ℕ) (dto : UpdateProfileDto) (s : c.Store)
      → first (by_active_id i) (c.docs s) ≡ none
      → let (r, s') = update_profile c t i dto s in
        (r ≡ err (Exception.not_found "User not found")) × (c.docs s' ≡ c.docs s)
  unfolding update_profile
  update_profile-missing i dto s e =
      let (r, docs) = c.find_one_and_update_law (by_active_id i) (set_profile t dto) s in
      (rw (r, e), docs ∙ update_none (by_active_id i) (set_profile t dto) (c.docs s) e)

module _ (c : Collection) where
  pub find_active_by_id-first :
      (i : ℕ) (s : c.Store) → find_active_by_id c i s ≡ first (by_active_id i) (c.docs s)
  unfolding find_active_by_id
  find_active_by_id-first i s = c.find_one_law (by_active_id i) s

  pub find_by_id_with_secrets-first :
      (i : ℕ) (s : c.Store) → find_by_id_with_secrets c i s ≡ first (by_active_id i) (c.docs s)
  unfolding find_by_id_with_secrets
  find_by_id_with_secrets-first i s = c.find_one_law (by_active_id i) s

  pub find_by_password_reset_token_hash-first :
      (h : String) (now : ℕ) (s : c.Store)
      → find_by_password_reset_token_hash c h now s ≡ first (by_reset_token h now) (c.docs s)
  unfolding find_by_password_reset_token_hash
  find_by_password_reset_token_hash-first h now s = c.find_one_law (by_reset_token h now) s

  pub find_by_email_verification_token_hash-first :
      (h : String) (now : ℕ) (s : c.Store)
      → find_by_email_verification_token_hash c h now s
        ≡ first (by_verification_token h now) (c.docs s)
  unfolding find_by_email_verification_token_hash
  find_by_email_verification_token_hash-first h now s =
      c.find_one_law (by_verification_token h now) s

  pub docs-record_successful_login :
      (i : ℕ) (meta : RequestMetadata) (now : ℕ) (s : c.Store)
      → c.docs (record_successful_login c i meta now s)
        ≡ update_first (by_id i) (succeed_login now meta) (c.docs s)
  unfolding record_successful_login
  docs-record_successful_login i meta now s = c.update_one_law _ _ s

  pub docs-set_refresh_token_hash :
      (i : ℕ) (h : Option String) (s : c.Store)
      → c.docs (set_refresh_token_hash c i h s)
        ≡ update_first (by_id i) (put_refresh_token_hash h) (c.docs s)
  unfolding set_refresh_token_hash
  docs-set_refresh_token_hash i h s = c.update_one_law _ _ s

  pub docs-update_password :
      (i : ℕ) (hashed : String) (s : c.Store)
      → c.docs (update_password c i hashed s)
        ≡ update_first (by_id i) (put_password hashed) (c.docs s)
  unfolding update_password
  docs-update_password i hashed s = c.update_one_law _ _ s

  pub docs-set_password_reset_token :
      (i : ℕ) (h : String) (expires : ℕ) (s : c.Store)
      → c.docs (set_password_reset_token c i h expires s)
        ≡ update_first (by_id i) (put_reset_token h expires) (c.docs s)
  unfolding set_password_reset_token
  docs-set_password_reset_token i h expires s = c.update_one_law _ _ s

  pub docs-clear_password_reset_token :
      (i : ℕ) (s : c.Store)
      → c.docs (clear_password_reset_token c i s)
        ≡ update_first (by_id i) drop_reset_token (c.docs s)
  unfolding clear_password_reset_token
  docs-clear_password_reset_token i s = c.update_one_law _ _ s

  pub docs-set_email_verification_token :
      (i : ℕ) (h : String) (expires : ℕ) (s : c.Store)
      → c.docs (set_email_verification_token c i h expires s)
        ≡ update_first (by_id i) (put_verification_token h expires) (c.docs s)
  unfolding set_email_verification_token
  docs-set_email_verification_token i h expires s = c.update_one_law _ _ s

  pub docs-mark_email_verified :
      (i : ℕ) (s : c.Store)
      → c.docs (mark_email_verified c i s) ≡ update_first (by_id i) put_verified (c.docs s)
  unfolding mark_email_verified
  docs-mark_email_verified i s = c.update_one_law _ _ s

  pub docs-soft_delete :
      (i now : ℕ) (s : c.Store)
      → c.docs (soft_delete c i now s) ≡ update_first (by_id i) (put_deleted now) (c.docs s)
  unfolding soft_delete
  docs-soft_delete i now s = c.update_one_law _ _ s

  -- The counter read is the counter of the document with the identifier.
  pub register_failed_login_attempt_lem :
      (i max_attempts minutes now : ℕ) (s : c.Store) {u : User}
      → get i (c.docs s) ≡ some u
      → let until = lock_of max_attempts minutes now (u.failed_login_attempts + 1) in
        let (a, s') = register_failed_login_attempt c i max_attempts minutes now s in
        (a.locked ≡ is_some until)
        × (a.lock_until ≡ until)
        × (c.docs s'
            ≡ update_first (by_id i) (fail_login (u.failed_login_attempts + 1) until) (c.docs s))
  unfolding register_failed_login_attempt
  register_failed_login_attempt_lem i max_attempts minutes now s {u} e =
      let found : c.find_one (by_id i) s ≡ some u =
        c.find_one_law (by_id i) s ∙ first-by_id i (c.docs s) ∙ e in
      rw (found, register_failed_login_attempt) (refl, refl, c.update_one_law _ _ s)
