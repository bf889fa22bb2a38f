-- ===== src/Auth/Flows.antt =====
-- Flows over several requests: a login and the refresh of its token, and the verification of an
-- address.
use nestjs_jwt.Prelude.{
  ℕ, ◌<◌, ◌≤◌, ◌≡◌, refl, ap, ◌∙◌, String, true, false, none, some, List, [], ◌∷◌, arith, any,
  is_some, str_eq_true,
}
use nestjs_jwt.Common.Exceptions.Exception.{invalid_verification_token}
use nestjs_jwt.Common.Action.{ok, err, is_ok}
use nestjs_jwt.Users.Schema.{User}
use nestjs_jwt.Users.Collection.{first, update_first}
use nestjs_jwt.Users.Documents.{
  HasDistinctIds, first-update_self, first-update_hit, first-update_miss, update-update,
  first_holds, get-first, first-by_active_id,
}
use nestjs_jwt.Users.Updates.{
  by_id, by_active_id, by_email, by_verification_token, holds, put_refresh_token_hash,
  succeed_login, put_verification_token, put_verified, RequestMetadata,
}
use nestjs_jwt.Auth.Deps.{Deps, State, Claims}
use nestjs_jwt.Auth.Service.{
  TokenPair, LoginDto, hash_token, compare_value, payload_of, sign_access, sign_refresh,
  issue_token_pair, accept_password, is_set, login, refresh_tokens, verification_expiry,
  resend_verification_email, verify_email,
}
use nestjs_jwt.Auth.Login.{documents, account, IsOpen, login_open}
use nestjs_jwt.Auth.Effects.{
  issued, documents-accept_password, documents-issue_email_verification_token,
}
use nestjs_jwt.Auth.Session.{active, verified, refresh-ok_iff}
use nestjs_jwt.Auth.Verification.{
  verifiable, verify_email_unknown, verify_email_known, resend_unverified,
}

module _ (d : Deps) where
  open d use {collection, text, jwt_service}

  -- The account once a login has gone through.
  abbrev pub logged_in : User → RequestMetadata → ℕ → User
  logged_in u meta now = succeed_login now meta (issued d u now u)

  accept_password-ok :
      (u : User) (meta : RequestMetadata) (now : ℕ) (s : State collection) (c : Claims)
      → jwt_service.decode (sign_access d u now) ≡ some c
      → (tp : TokenPair) × ((accept_password d u meta now s).0 ≡ ok tp)
        × (tp.refresh_token ≡ sign_refresh d u now)
  unfolding accept_password issue_token_pair
  accept_password-ok u meta now s c e = rw (e, accept_password, issue_token_pair) (_, refl, refl)

  active-account :
      (email : String) (s : State collection) {u : User}
      → HasDistinctIds (documents d s)
      → account d email s ≡ some u
      → active d u.id s ≡ some u
  unfolding by_email
  active-account email s {u} ids e =
      let live = first_holds (by_email text email) (documents d s) {u = u} e in
      first-by_active_id u.id (documents d s) ids
      ∙ ground (arith, get-first (by_email text email) (documents d s) {u = u} ids e, live)

  sign_access-logged_in :
      (u : User) (meta : RequestMetadata) (now later : ℕ)
      → sign_access d (logged_in u meta now) later ≡ sign_access d u later
  unfolding sign_access payload_of put_refresh_token_hash succeed_login
  sign_access-logged_in u meta now later = refl

  -- A login with the right password to an open account returns a pair, clears the failures and the
  -- lock, and its refresh token then succeeds, where it verifies as the account's, its hash is not
  -- empty, the access tokens can be decoded and no two documents share an identifier.
  pub login_then_refresh :
      (dto : LoginDto) (meta : RequestMetadata) (now later : ℕ) (s : State collection) {u : User}
      {c : Claims}
      → HasDistinctIds (documents d s)
      → account d dto.email s ≡ some u
      → IsOpen d u now
      → compare_value d dto.password u.password ≡ true
      → jwt_service.decode (sign_access d u now) ≡ some c
      → verified d (sign_refresh d u now) later ≡ some (payload_of d u)
      → is_set d (some (hash_token d (sign_refresh d u now))) ≡ true
      → is_some (jwt_service.decode (sign_access d u later)) ≡ true
      → let (r, t) = login d dto meta now s in
        (tp : TokenPair) × (r ≡ ok tp)
        × (account d dto.email t ≡ some (logged_in u meta now))
        × ((logged_in u meta now).failed_login_attempts ≡ 0)
        × ((logged_in u meta now).lock_until ≡ none)
        × (is_ok (refresh_tokens d tp.refresh_token later t).0 ≡ true)
  unfolding succeed_login put_refresh_token_hash by_email by_active_id payload_of
  login_then_refresh dto meta now later s {u} {c} ids e o m k v full k' =
      let t : State collection = (accept_password d u meta now s).1 in
      let (tp, r, rt) = accept_password-ok u meta now s c k in
      let mark : User → User = λ w. succeed_login now meta (issued d u now w) in
      let docs : documents d t ≡ update_first (by_id u.id) mark (documents d s) =
        documents-accept_password d u meta now s (ap is_ok r)
        ∙ update-update u.id (issued d u now) (succeed_login now meta) (documents d s)
            (λ w. refl) in
      let stored : active d u.id t ≡ some (logged_in u meta now) = rw docs (
        first-update_self (by_active_id u.id) mark (documents d s) (λ w. refl) ids
          (active-account dto.email s ids e)) in
      rw (login_open d dto meta now s e o, m)
        (
          tp,
          r,
          rw docs
              (first-update_self (by_email text dto.email) mark (documents d s) (λ w. refl) ids e),
          refl,
          refl,
          rw rt (
              (refresh-ok_iff d (sign_refresh d u now) later t).1 (
                payload_of d u,
                v,
                logged_in u meta now,
                stored,
                (o.1, full),
                str_eq_true _ _ refl,
                rw (sign_access-logged_in u meta now later) k',
              )),
        )

  not_holding :
      (h : String) (now : ℕ) (ds : List User)
      → any (λ u. holds u.email_verification_token_hash h) ds ≡ false
      → first (by_verification_token h now) ds ≡ none
  unfolding by_verification_token
  not_holding h now [] e = refl
  not_holding h now (x ∷ ds) e = ground (arith, not_holding h now ds)

  resend-docs :
      (i : ℕ) (raw : String) (now : ℕ) (s : State collection) {u : User}
      → active d i s ≡ some u
      → u.is_email_verified ≡ false
      → documents d (resend_verification_email d i raw now s).1
        ≡ update_first
            (by_id u.id)
            (put_verification_token (hash_token d raw) (verification_expiry d now))
            (documents d s)
  resend-docs i raw now s {u} e v =
      rw (resend_unverified d i raw now s e v)
        (documents-issue_email_verification_token d u raw now s)

  -- A verification mail asked for by the owner of an unverified account, with a token whose hash
  -- no document holds, where no two documents share an identifier: the token presented before it
  -- expires succeeds, and the account is verified and holds no token; presented again, at any
  -- time, or for the first time when it has expired, it is refused and nothing changes.
  pub resend_then_verify :
      (i : ℕ) (raw : String) (now used again late : ℕ) (s : State collection) {u : User}
      → HasDistinctIds (documents d s)
      → active d i s ≡ some u
      → u.is_email_verified ≡ false
      → any (λ v. holds v.email_verification_token_hash (hash_token d raw)) (documents d s) ≡ false
      → used < verification_expiry d now
      → verification_expiry d now ≤ late
      → let s₁ = (resend_verification_email d i raw now s).1 in
        let s₂ = (verify_email d raw used s₁).1 in
        ((verify_email d raw used s₁).0 ≡ ok tt)
        × ((v : User) × (active d i s₂ ≡ some v)
            × (v.is_email_verified ≡ true)
            × (v.email_verification_token_hash ≡ none)
            × (v.email ≡ u.email))
        × (verify_email d raw again s₂ ≡ (err invalid_verification_token, s₂))
        × (verify_email d raw late s₁ ≡ (err invalid_verification_token, s₁))
  unfolding by_verification_token by_active_id put_verification_token put_verified
  resend_then_verify i raw now used again late s {u} ids e unverified fresh early expired =
      let h : String = hash_token d raw in
      let mark : User → User = put_verification_token h (verification_expiry d now) in
      let s₁ : State collection = (resend_verification_email d i raw now s).1 in
      let s₂ : State collection = (verify_email d raw used s₁).1 in
      let found = get-first (by_active_id i) (documents d s) ids e in
      let live : u.is_deleted ≡ false =
        ground (arith, first_holds (by_active_id i) (documents d s) {u = u} e) in
      let marked = resend-docs i raw now s e unverified in
      let pick : verifiable d raw used s₁ ≡ some (mark u) = rw marked (
        first-update_hit (by_verification_token h used) u.id mark (documents d s)
          (not_holding h used (documents d s) fresh) found
          (ground (arith, live, str_eq_true h h refl))) in
      let (r, after) = verify_email_known d raw used s₁ pick in
      let both : documents d s₂
          ≡ update_first (by_id u.id) (λ w. put_verified (mark w)) (documents d s) =
        after ∙ rw marked (update-update u.id mark put_verified (documents d s) (λ v. refl)) in
      (
        r,
        (
          put_verified u,
          rw both (first-update_self (by_active_id i) _ (documents d s) (λ v. refl) ids e),
          refl,
          refl,
          refl,
        ),
        verify_email_unknown d raw again s₂ (
            rw both (
              first-update_miss (by_verification_token h again) u.id _ (documents d s)
                (not_holding h again (documents d s) fresh) found refl)),
        verify_email_unknown d raw late s₁ (
            rw marked (
              first-update_miss (by_verification_token h late) u.id mark (documents d s)
                (not_holding h late (documents d s) fresh) found (ground (arith, expired)))),
      )
