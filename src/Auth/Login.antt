-- ===== src/Auth/Login.antt =====
-- `AuthService.login`: when it succeeds, what it answers otherwise, and what it writes.
use nestjs_jwt.Prelude.{
  ℕ, ◌≡◌, ap, ◌∙◌, ◌↔◌, inl, inr, String, true, false, Option, none, some, List, arith,
  Option-cases, if◌then◌else◌, is_some,
}
use nestjs_jwt.Common.Exceptions.{Exception}
use nestjs_jwt.Common.Exceptions.Exception.{invalid_credentials, account_inactive, account_locked}
use nestjs_jwt.Common.Action.{err, is_ok}
use nestjs_jwt.Users.Schema.{User}
use nestjs_jwt.Users.Collection.{first}
use nestjs_jwt.Users.Updates.{by_email, is_after, RequestMetadata}
use nestjs_jwt.Users.Service.Effects.{find_by_email_with_secrets-first}
use nestjs_jwt.Auth.Deps.{Deps, State}
use nestjs_jwt.Auth.Service.{
  LoginDto, compare_value, sign_access, issue_token_pair, accept_password, reject_password, login,
}

abbrev pub lock_time : Option ℕ → ℕ
lock_time none = 0
lock_time (some t) = t

module _ (d : Deps) where
  open d use {collection, text, jwt_service}

  -- The documents of a state.
  abbrev pub documents : State collection → List User
  documents s = collection.docs s.store

  -- The account that an address names.
  abbrev pub account : String → State collection → Option User
  account email s = first (by_email text email) (documents s)

  -- An account that may try its password now.
  abbrev pub IsOpen : User → ℕ → Type 0
  IsOpen u now = (is_after u.lock_until now ≡ false) × (u.is_active ≡ true)

  pub login_unknown :
      (dto : LoginDto) (meta : RequestMetadata) (now : ℕ) (s : State collection)
      → account dto.email s ≡ none
      → login d dto meta now s ≡ (err invalid_credentials, s)
  unfolding login
  login_unknown dto meta now s e =
      rw (find_by_email_with_secrets-first collection text dto.email s.store ∙ e, login)

  pub login_open :
      (dto : LoginDto) (meta : RequestMetadata) (now : ℕ) (s : State collection) {u : User}
      → account dto.email s ≡ some u
      → IsOpen u now
      → login d dto meta now s ≡ (
          if compare_value d dto.password u.password
          then accept_password d u meta now s
          else reject_password d u now s)
  unfolding login
  login_open dto meta now s {u} e (unlocked, active) =
      rw (find_by_email_with_secrets-first collection text dto.email s.store ∙ e, login)
        (ground arith)

  -- The refusals that come before the password, in their order.
  abbrev pub gate : Option User → ℕ → Option Exception
  gate none now = some invalid_credentials
  gate (some u) now =
      if is_after u.lock_until now
      then some (account_locked (lock_time u.lock_until))
      else if u.is_active
      then none
      else some account_inactive

  -- An address without an account, a lock in the future and a deactivated account refuse a login
  -- in this order, whatever the password, and leave the state as it was.
  pub login-gate :
      (dto : LoginDto) (meta : RequestMetadata) (now : ℕ) (s : State collection) {x : Exception}
      → gate (account dto.email s) now ≡ some x
      → login d dto meta now s ≡ (err x, s)
  unfolding login
  login-gate dto meta now s e =
      rw (find_by_email_with_secrets-first collection text dto.email s.store, login) (ground arith)

  pub accept_password-is_ok :
      (u : User) (meta : RequestMetadata) (now : ℕ) (s : State collection)
      → is_ok (accept_password d u meta now s).0
        ≡ is_some (jwt_service.decode (sign_access d u now))
  unfolding accept_password issue_token_pair
  accept_password-is_ok u meta now s = ground arith

  reject_password-is_ok :
      (u : User) (now : ℕ) (s : State collection) → is_ok (reject_password d u now s).0 ≡ false
  unfolding reject_password
  reject_password-is_ok u now s = ground arith

  -- What a successful login needs of the account.
  abbrev pub Admits : LoginDto → ℕ → State collection → Type 0
  Admits dto now s =
      (u : User) × (account dto.email s ≡ some u)
      × IsOpen u now
      × (compare_value d dto.password u.password ≡ true)
      × (is_some (jwt_service.decode (sign_access d u now)) ≡ true)

  login-Admits :
      (dto : LoginDto) (meta : RequestMetadata) (now : ℕ) (s : State collection) {u : User}
      → account dto.email s ≡ some u
      → is_ok (login d dto meta now s).0 ≡ true
      → Admits dto now s
  login-Admits dto meta now s {u} e h = elim (Option-cases (gate (account dto.email s) now)) [
    | inr (x, g) ↦ cc (ap (λ r. is_ok r.0) (login-gate dto meta now s g))
    | inl g ↦
        let open_now : IsOpen u now = ground arith in
        let run = login_open dto meta now s e open_now in
        (
          u,
          e,
          open_now,
          ground (arith, reject_password-is_ok u now s, ap (λ r. is_ok r.0) run),
          ground (
            arith,
            reject_password-is_ok u now s,
            accept_password-is_ok u meta now s,
            ap (λ r. is_ok r.0) run,
          ),
        )
  ]

  -- A login succeeds exactly when the address names an account that is neither locked nor
  -- deactivated, the password matches its hash and the token just signed can be decoded.
  pub login-ok_iff :
      (dto : LoginDto) (meta : RequestMetadata) (now : ℕ) (s : State collection)
      → (is_ok (login d dto meta now s).0 ≡ true) ↔ Admits dto now s
  login-ok_iff dto meta now s = (
    (λ h. elim (Option-cases (account dto.email s)) [
      | inl e ↦ cc (ap (λ r. is_ok r.0) (login_unknown dto meta now s e))
      | inr (u, e) ↦ login-Admits dto meta now s e h
    ]),
    λ (u, e, o, m, c).
        rw (login_open dto meta now s e o, m) (accept_password-is_ok u meta now s ∙ c),
  )
