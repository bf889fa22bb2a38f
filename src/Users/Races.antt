-- ===== src/Users/Races.antt =====
-- `UsersService.registerFailedLoginAttempt` of src/users/users.service.ts reads the account, waits for the
-- database, and then writes: two calls whose reads come before their writes.
use nestjs_jwt.Prelude.{
  ℕ, ◌+◌, ◌≡◌, refl, ◌∙◌, inl, inr, false, Option, none, some, Option-cases, is_some,
}
use nestjs_jwt.Users.Schema.{User}
use nestjs_jwt.Users.Collection.{Collection}
use nestjs_jwt.Users.Documents.{get, first-by_id, get-update_self}
use nestjs_jwt.Users.Updates.{by_id, lock_of, fail_login}
use nestjs_jwt.Users.Invariant.{fail_login-IsEdit}
use nestjs_jwt.Users.Service.{FailedAttempt, register_failed_login_attempt}

-- `registerFailedLoginAttempt`: the update that follows from the account that was read.
module _ (c : Collection) (i max_attempts minutes : ℕ) where
  unfoldable pub attempt_write : Option User → ℕ → c.Store → FailedAttempt × c.Store
  attempt_write none now s = (record { locked = false; lock_until = none }, s)
  attempt_write (some u) now s =
      let attempts = u.failed_login_attempts + 1 in
      let until = lock_of max_attempts minutes now attempts in
      (
        record { locked = is_some until; lock_until = until },
        c.update_one (by_id i) (fail_login attempts until) s,
      )

  -- Without another request in between, it is the read and the write.
  pub attempt-read_write :
      (now : ℕ) (s : c.Store)
      → register_failed_login_attempt c i max_attempts minutes now s
        ≡ attempt_write (c.find_one (by_id i) s) now s
  unfolding register_failed_login_attempt attempt_write
  attempt-read_write now s = elim (Option-cases (c.find_one (by_id i) s)) [
    | inl e ↦ rw (register_failed_login_attempt, e) refl
    | inr (u, e) ↦ rw (register_failed_login_attempt, e) refl
  ]

  attempts-fail_login :
      (attempts : ℕ) (until : Option ℕ) (u : User)
      → (fail_login attempts until u).failed_login_attempts ≡ attempts
  unfolding fail_login
  attempts-fail_login attempts none u = refl
  attempts-fail_login attempts (some t) u = refl

  -- Two wrong passwords for an account, each of which reads the counter before the other writes
  -- it, count as one.
  pub concurrent_failures :
      (now now' : ℕ) (s : c.Store) {u : User}
      → get i (c.docs s) ≡ some u
      → let read = c.find_one (by_id i) s in
        let s₁ = (attempt_write read now s).1 in
        let s₂ = (attempt_write read now' s₁).1 in
        (v : User) × (get i (c.docs s₂) ≡ some v)
        × (v.failed_login_attempts ≡ u.failed_login_attempts + 1)
  unfolding attempt_write
  concurrent_failures now now' s {u} e =
      let read : c.find_one (by_id i) s ≡ some u =
        c.find_one_law (by_id i) s ∙ first-by_id i (c.docs s) ∙ e in
      let n : ℕ = u.failed_login_attempts + 1 in
      let f : User → User = fail_login n (lock_of max_attempts minutes now n) in
      let g : User → User = fail_login n (lock_of max_attempts minutes now' n) in
      let after : get i (c.docs (c.update_one (by_id i) f s)) ≡ some (f u) =
        rw
          (
            c.update_one_law (by_id i) f s,
            get-update_self i f (c.docs s) (fail_login-IsEdit _ _).keeps_id,
            e,
          )
          refl in
      let last : get i (c.docs (c.update_one (by_id i) g (c.update_one (by_id i) f s)))
          ≡ some (g (f u)) =
        rw
          (
            c.update_one_law (by_id i) g (c.update_one (by_id i) f s),
            get-update_self i g _ (fail_login-IsEdit _ _).keeps_id,
            after,
          )
          refl in
      rw (read, attempt_write) (g (f u), last, attempts-fail_login n _ (f u))
