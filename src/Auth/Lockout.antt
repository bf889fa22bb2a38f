-- ===== src/Auth/Lockout.antt =====
-- Brute force against one account: the lock of `AuthService.login`.
use nestjs_jwt.Prelude.{
  ℕ, ◌+◌, ◌*◌, ◌<◌, ◌≤◌, ◌≡◌, refl, ap, ◌∙◌, String, true, false, none, some, List, [], ◌∷◌, ◌++◌,
  arith, length, All, is_some,
}
use nestjs_jwt.Common.Exceptions.Exception.{account_locked}
use nestjs_jwt.Common.Action.{Result, err, is_ok}
use nestjs_jwt.Users.Schema.{User}
use nestjs_jwt.Users.Documents.{HasDistinctIds, get-first, first-update_self, HasDistinctIds-update}
use nestjs_jwt.Users.Updates.{RequestMetadata, is_after, by_email, lock_of, fail_login}
use nestjs_jwt.Users.Invariant.{fail_login-IsEdit}
use nestjs_jwt.Users.Lookups.{by_email-fail_login}
use nestjs_jwt.Auth.Deps.{Deps, State}
use nestjs_jwt.Auth.Service.{TokenPair, LoginDto, compare_value, sign_access, login}
use nestjs_jwt.Auth.Login.{documents, account, IsOpen, login_open, login-gate, login-ok_iff}
use nestjs_jwt.Auth.Effects.{next_lock, locked_or_invalid, reject_password_lem}

pub record Attempt : Type 0 where
  pub password : String
  pub meta : RequestMetadata
  pub now : ℕ

module _ (d : Deps) (email : String) where
  open d use {collection, text, security, jwt_service}

  abbrev pub try_login : Attempt → State collection → Result TokenPair × State collection
  try_login a = login d (record { email = email; password = a.password }) a.meta a.now

  -- The attempts one after the other.
  abbrev pub try_logins : List Attempt → State collection → State collection
  try_logins [] s = s
  try_logins (a ∷ rest) s = try_logins rest (try_login a s).1

  abbrev pub IsWrong : User → Attempt → Type 0
  IsWrong u a = compare_value d a.password u.password ≡ false

  abbrev pub failed : User → ℕ → User
  failed u now = fail_login (u.failed_login_attempts + 1) (next_lock d u now) u

  -- Where no two documents share an identifier, a wrong password on an open account is counted,
  -- sets the lock when it is one too many, and is answered by the lock or by the message of an
  -- unknown address; identifiers stay distinct.
  pub login_wrong :
      (a : Attempt) (s : State collection) {u : User}
      → HasDistinctIds (documents d s)
      → account d email s ≡ some u
      → IsOpen d u a.now
      → IsWrong u a
      → ((try_login a s).0 ≡ err (locked_or_invalid d (next_lock d u a.now)))
        × (account d email (try_login a s).1 ≡ some (failed u a.now))
        × HasDistinctIds (documents d (try_login a s).1)
  login_wrong a s {u} ids e o w =
      let dto : LoginDto = record { email = email; password = a.password } in
      let found = get-first (by_email text email) (documents d s) ids e in
      let (r, es) = reject_password_lem d u a.now s found in
      rw (login_open d dto a.meta a.now s e o, w)
        (
          r,
          rw es (
              first-update_self (by_email text email) _ (documents d s)
                (by_email-fail_login text email (u.failed_login_attempts + 1) (next_lock d u a.now))
                ids e),
          rw es (
              HasDistinctIds-update u.id _ (documents d s)
                (fail_login-IsEdit (u.failed_login_attempts + 1) (next_lock d u a.now)).keeps_id
                ids),
        )

  -- When the lock that an attempt sets runs out.
  abbrev pub unlock_time : Attempt → ℕ
  unlock_time a = a.now + security.account_lock_duration_minutes * 60000

  next_lock_below :
      (u : User) (now : ℕ)
      → u.failed_login_attempts + 1 < security.account_lock_max_attempts
      → next_lock d u now ≡ none
  unfolding lock_of
  next_lock_below u now h = ground arith

  next_lock_reached :
      (u : User) (now : ℕ)
      → security.account_lock_max_attempts ≤ u.failed_login_attempts + 1
      → next_lock d u now ≡ some (now + security.account_lock_duration_minutes * 60000)
  unfolding lock_of
  next_lock_reached u now h = ground arith

  -- After as many wrong passwords as are left, the account carries the last one's lock.
  try_logins_lock :
      (before : List Attempt) (final : Attempt) (s : State collection) {u : User}
      → HasDistinctIds (documents d s)
      → account d email s ≡ some u
      → (u.lock_until ≡ none) × (u.is_active ≡ true)
      → All (IsWrong u) (before ++ final ∷ [])
      → u.failed_login_attempts + length before + 1 ≡ security.account_lock_max_attempts
      → (v : User) × (account d email (try_logins (before ++ final ∷ []) s) ≡ some v)
        × (v.lock_until ≡ some (unlock_time final))
        × (v.is_active ≡ true)
        × (v.password ≡ u.password)
  unfolding fail_login
  try_logins_lock [] final s {u} ids e (l, a) w n =
      let (_, found, _) = login_wrong final s ids e (ground arith) w.0 in
      let reached = next_lock_reached u final.now (omega arith) in
      (
        failed u final.now,
        found,
        rw (reached, fail_login),
        rw (reached, fail_login) a,
        rw (reached, fail_login) refl,
      )
  try_logins_lock (x ∷ before) final s {u} ids e (l, a) w n =
      let (_, found, ids') = login_wrong x s ids e (ground arith) w.0 in
      let below : next_lock d u x.now ≡ none = next_lock_below u x.now (omega arith) in
      let same : failed u x.now ≡ record u { failed_login_attempts = u.failed_login_attempts + 1 } =
        ground (arith, below) in
      try_logins_lock before final (try_login x s).1 ids' (found ∙ ap some same) (l, a) w.1
        (omega arith)

  -- Where no two documents share an identifier, wrong passwords in a row, as many as the limit
  -- allows from the stored count, lock an active account that had no lock: any login before the
  -- last one's lock runs out is refused, the right password included, and changes nothing.
  pub brute_force_locks :
      (before : List Attempt) (final later : Attempt) (s : State collection) {u : User}
      → HasDistinctIds (documents d s)
      → account d email s ≡ some u
      → (u.lock_until ≡ none) × (u.is_active ≡ true)
      → All (IsWrong u) (before ++ final ∷ [])
      → u.failed_login_attempts + length before + 1 ≡ security.account_lock_max_attempts
      → later.now < unlock_time final
      → let s' = try_logins (before ++ final ∷ []) s in
        try_login later s' ≡ (err (account_locked (unlock_time final)), s')
  brute_force_locks before final later s ids e o w n early =
      let (v, found, lock, _, _) = try_logins_lock before final s ids e o w n in
      login-gate d _ later.meta later.now _ (ground (arith, found, lock))

  -- After the lock that wrong passwords in a row have set runs out, the right password is
  -- accepted, where no two documents share an identifier and access tokens just signed can be
  -- decoded.
  pub lock_runs_out :
      (before : List Attempt) (final later : Attempt) (s : State collection) {u : User}
      → HasDistinctIds (documents d s)
      → account d email s ≡ some u
      → (u.lock_until ≡ none) × (u.is_active ≡ true)
      → All (IsWrong u) (before ++ final ∷ [])
      → u.failed_login_attempts + length before + 1 ≡ security.account_lock_max_attempts
      → unlock_time final ≤ later.now
      → compare_value d later.password u.password ≡ true
      → ((v : User) → is_some (jwt_service.decode (sign_access d v later.now)) ≡ true)
      → is_ok (try_login later (try_logins (before ++ final ∷ []) s)).0 ≡ true
  lock_runs_out before final later s ids e o w n late right decodes =
      let (v, found, lock, act, same) = try_logins_lock before final s ids e o w n in
      let over : is_after v.lock_until later.now ≡ false = ground (arith, lock, late) in
      (login-ok_iff d _ later.meta later.now _).1 (v, found, (over, act), rw same right, decodes v)
