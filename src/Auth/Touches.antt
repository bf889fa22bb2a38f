-- ===== src/Auth/Touches.antt =====
-- The writes of each method of `AuthService`, as updates of one account.
use nestjs_jwt.Prelude.{
  ℕ, ◌+◌, ◌≡◌, refl, ap, ◌∙◌, some, inl, inr, String, true, false, none, some, arith, Option-cases,
  Bool-cases, if◌then◌else◌, not, ◌||◌,
}
use nestjs_jwt.Common.Exceptions.Exception.{invalid_refresh_token}
use nestjs_jwt.Common.Action.{Result, err, is_ok}
use nestjs_jwt.Users.Schema.{User}
use nestjs_jwt.Users.Collection.{first, update_first}
use nestjs_jwt.Users.Documents.{HasDistinctIds, get-first, first_holds}
use nestjs_jwt.Users.Updates.{
  by_id, put_verification_token, by_email, by_active_id, by_verification_token, RequestMetadata,
  succeed_login, put_refresh_token_hash, put_password, drop_reset_token, put_verified,
}
use nestjs_jwt.Users.Invariant.{
  IsEdit, succeed_login-IsEdit, fail_login-IsEdit, put_refresh_token_hash-IsEdit,
  put_password-IsEdit, put_reset_token-IsEdit, put_verification_token-IsEdit, put_verified-IsEdit,
}
use nestjs_jwt.Users.Changes.{Edits, done, edit, Touches, IsQuiet, Touches-same, Touches-one}
use nestjs_jwt.Auth.Deps.{Deps, State}
use nestjs_jwt.Auth.Service.{
  LoginDto, ChangePasswordDto, hash_value, hash_token, verification_expiry, compare_value,
  TokenPair, is_set, is_stored, rotate, revoke, accept_password, login, refresh_tokens, logout,
  change_password, forgot_password, reset_password, verify_email, resend_verification_email,
}
use nestjs_jwt.Auth.Login.{documents, account, login_open, login-gate, gate}
use nestjs_jwt.Auth.Effects.{
  issued, documents-accept_password, documents-accept_password_undecoded, reject_password_lem,
  documents-rotate, documents-revoke, documents-logout, documents-request_reset,
  documents-issue_email_verification_token, next_lock,
}
use nestjs_jwt.Auth.Session.{
  active, verified, refresh_with_account, refresh_without_account, refresh_unverified,
}
use nestjs_jwt.Auth.Passwords.{
  change_password_unknown, change_password_right, change_password_wrong, forgot_password_unknown,
  forgot_password_known, reset_password_known, reset_password_unknown, resettable, reset,
}
use nestjs_jwt.Auth.Verification.{
  verify_email_unknown, verify_email_known, resend_unknown, resend_verified, resend_unverified,
}

module _ (d : Deps) (P : (User → User) → Type 0) (q : IsQuiet P) where
  open d use {collection, text, jwt_service}

  pub accept_password-Edits :
      (u : User) (meta : RequestMetadata) (now : ℕ) (s : State collection)
      → ((h : String) → P (put_refresh_token_hash (some h)))
      → Edits P u.id (documents d s) (documents d (accept_password d u meta now s).1)
  accept_password-Edits u meta now s o =
      elim (Bool-cases (is_ok (accept_password d u meta now s).0)) [
        | inr h ↦
            edit (issued d u now) (put_refresh_token_hash-IsEdit _) (o _)
              (documents-accept_password_undecoded d u meta now s h) (done refl)
        | inl h ↦ edit (issued d u now) (put_refresh_token_hash-IsEdit _) (o _) refl (
            edit (succeed_login now meta) (succeed_login-IsEdit now meta)
              (q.of_succeed_login now meta) (documents-accept_password d u meta now s h)
              (done refl))
      ]

  pub login-Touches :
      (dto : LoginDto) (meta : RequestMetadata) (now : ℕ) (s : State collection)
      → HasDistinctIds (documents d s)
      → ((h : String) → P (put_refresh_token_hash (some h)))
      → Touches P (documents d s) (documents d (login d dto meta now s).1)
  login-Touches dto meta now s ids o = elim (Option-cases (gate d (account d dto.email s) now)) [
    | inr (x, g) ↦ Touches-same (ap (λ r. documents d r.1) (login-gate d dto meta now s g))
    | inl g ↦ elim (Option-cases (account d dto.email s)) [
      | inl e ↦ absurd (ground (arith, e, g))
      | inr (u, e) ↦ elim (Bool-cases (compare_value d dto.password u.password)) [
        | inl right ↦
            rw (login_open d dto meta now s e (ground arith), right)
              (u.id, accept_password-Edits u meta now s o)
        | inr wrong ↦
            rw (login_open d dto meta now s e (ground arith), wrong)
              (Touches-one u.id _
                (fail_login-IsEdit (u.failed_login_attempts + 1) (next_lock d u now))
                (q.of_fail_login _ _)
                (reject_password_lem d u now s (get-first (by_email text dto.email) _ ids e)).1)
      ]
    ]
  ]

  pub refresh-Touches :
      (token : String) (now : ℕ) (s : State collection)
      → ((h : String) → P (put_refresh_token_hash (some h)))
      → Touches P (documents d s) (documents d (refresh_tokens d token now s).1)
  refresh-Touches token now s o = elim (Option-cases (verified d token now)) [
    | inl v ↦ Touches-same (ap (λ r. documents d r.1) (refresh_unverified d token now s v))
    | inr (p, v) ↦ elim (Option-cases (active d p.sub s)) [
      | inl e ↦
          Touches-same (ap (λ r. documents d r.1) (refresh_without_account d token now s p v e))
      | inr (u, e) ↦
          rw (refresh_with_account d token now s p v e)
            (elim (not u.is_active || not (is_set d u.refresh_token_hash))
              as (λ b.
                Touches P (documents d s)
                  (documents d (if b then (err invalid_refresh_token, s) else answer u).1)) [
                    | true ↦ Touches-same refl
                    | false ↦ answer-Touches u
                  ])
    ]
  ]
    where
      answer : User → Result TokenPair × State collection
      answer u =
          if is_stored d (hash_token d token) u.refresh_token_hash
          then rotate d u now s
          else revoke d u s

      answer-Touches : (u : User) → Touches P (documents d s) (documents d (answer u).1)
      answer-Touches u =
          elim (is_stored d (hash_token d token) u.refresh_token_hash)
            as (λ b.
              Touches P (documents d s)
                (documents d (if b then rotate d u now s else revoke d u s).1)) [
                  | true ↦
                      Touches-one u.id (issued d u now) (put_refresh_token_hash-IsEdit _) (o _)
                        (documents-rotate d u now s)
                  | false ↦
                      Touches-one u.id (put_refresh_token_hash none)
                        (put_refresh_token_hash-IsEdit none) q.of_no_session
                        (documents-revoke d u s)
                ]

  pub logout-Edits :
      (i : ℕ) (s : State collection) → Edits P i (documents d s) (documents d (logout d i s).1)
  logout-Edits i s =
      edit (put_refresh_token_hash none) (put_refresh_token_hash-IsEdit none) q.of_no_session
        (documents-logout d i s) (done refl)

  pub change_password-Edits :
      (i : ℕ) (dto : ChangePasswordDto) (salt : String) (s : State collection)
      → P (put_password (hash_value d dto.new_password salt))
      → Edits P i (documents d s) (documents d (change_password d i dto salt s).1)
  change_password-Edits i dto salt s w = elim (Option-cases (active d i s)) [
    | inl e ↦ done (ap (documents d) (change_password_unknown d i dto salt s e))
    | inr (u, e) ↦ elim (Bool-cases (compare_value d dto.old_password u.password)) [
      | inl right ↦
          edit (put_password (hash_value d dto.new_password salt)) (put_password-IsEdit _) w
            (change_password_right d i dto salt s e right).1 (done refl)
      | inr wrong ↦ done (ap (λ r. documents d r.1) (change_password_wrong d i dto salt s e wrong))
    ]
  ]

  pub forgot_password-Touches :
      (email raw : String) (now : ℕ) (s : State collection)
      → Touches P (documents d s) (documents d (forgot_password d email raw now s).1)
  forgot_password-Touches email raw now s = elim (Option-cases (account d email s)) [
    | inl e ↦ Touches-same (ap (λ r. documents d r.1) (forgot_password_unknown d email raw now s e))
    | inr (u, e) ↦ rw (forgot_password_known d email raw now s e) (
        Touches-one u.id _ (put_reset_token-IsEdit _ _) (q.of_reset_token _ _)
          (documents-request_reset d u raw now s))
  ]

  reset-IsEdit : (new salt : String) → IsEdit (reset d new salt)
  unfolding put_password drop_reset_token
  reset-IsEdit new salt = ground arith

  pub reset_password-Touches :
      (token new salt : String) (now : ℕ) (s : State collection)
      → P (reset d new salt)
      → Touches P (documents d s) (documents d (reset_password d token new salt now s).1)
  reset_password-Touches token new salt now s w = elim (Option-cases (resettable d token now s)) [
    | inl e ↦
        Touches-same (ap (λ r. documents d r.1) (reset_password_unknown d token new salt now s e))
    | inr (u, e) ↦
        Touches-one u.id (reset d new salt) (reset-IsEdit new salt) w
          (reset_password_known d token new salt now s e).1
  ]

  pub verify_email-Touches :
      (token : String) (now : ℕ) (s : State collection)
      → Touches P (documents d s) (documents d (verify_email d token now s).1)
  verify_email-Touches token now s =
      elim (Option-cases (first (by_verification_token (hash_token d token) now) (documents d s))) [
        | inl e ↦ Touches-same (ap (λ r. documents d r.1) (verify_email_unknown d token now s e))
        | inr (u, e) ↦
            Touches-one u.id put_verified put_verified-IsEdit q.of_verified
              (verify_email_known d token now s e).1
      ]

  active-id : (i : ℕ) (s : State collection) {u : User} → active d i s ≡ some u → u.id ≡ i
  unfolding by_active_id
  active-id i s e = ground (arith, first_holds (by_active_id i) (documents d s) e)

  pub resend-Edits :
      (i : ℕ) (raw : String) (now : ℕ) (s : State collection)
      → Edits P i (documents d s) (documents d (resend_verification_email d i raw now s).1)
  resend-Edits i raw now s = elim (Option-cases (active d i s)) [
    | inl e ↦ done (ap (λ r. documents d r.1) (resend_unknown d i raw now s e))
    | inr (u, e) ↦ elim (Bool-cases u.is_email_verified) [
      | inl v ↦ done (ap (λ r. documents d r.1) (resend_verified d i raw now s e v))
      | inr v ↦ rw (resend_unverified d i raw now s e v) (
          let f = put_verification_token (hash_token d raw) (verification_expiry d now) in
          edit f (put_verification_token-IsEdit _ _) (q.of_verification_token _ _)
            (documents-issue_email_verification_token d u raw now s
              ∙ ap (λ k. update_first (by_id k) f (documents d s)) (active-id i s e))
            (done refl))
    ]
  ]
