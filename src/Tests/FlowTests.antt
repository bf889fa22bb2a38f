-- ===== src/Tests/FlowTests.antt =====
-- Access, registration and account flows at one account.
use nestjs_jwt.Prelude.{ℕ, String, Option, ◌≡◌, refl, true, false, none, some, ◌⊎◌, arith}
use nestjs_jwt.Common.Role.{Role, JwtPayload, AuthenticatedUser}
use nestjs_jwt.Common.Exceptions.Exception.{invalid_verification_token}
use nestjs_jwt.Common.Action.{ok, err, is_ok}
use nestjs_jwt.Users.Schema.{User}
use nestjs_jwt.Users.Collection.{in_memory}
use nestjs_jwt.Users.Documents.{get}
use nestjs_jwt.Users.Service as Users
use nestjs_jwt.Users.Service.{user_of, find_active_by_id}
use nestjs_jwt.Users.Updates.{by_id, by_email, by_active_id, put_refresh_token_hash, put_password}
use nestjs_jwt.Auth.Deps.{State}
use nestjs_jwt.Auth.Service.{
  rotate, issue_token_pair, TokenPair, ChangePasswordDto, hash_value, hash_token, compare_value,
  payload_of, sign_access, sign_refresh, verification_expiry, login, refresh_tokens, logout,
  change_password, resend_verification_email, verify_email,
}
use nestjs_jwt.Auth.Login.{documents, account}
use nestjs_jwt.Auth.Session.{active}
use nestjs_jwt.Auth.Lockout.{Attempt}
use nestjs_jwt.Auth.Strategy.{validate}
use nestjs_jwt.Auth.Access.{token_is_current}
use nestjs_jwt.Auth.Steps.{refreshes, here, next, logs_out, changes_password}
use nestjs_jwt.Auth.History.{Reach-admin}
use nestjs_jwt.Auth.Warrants.{IsWarranted, password_origin}
use nestjs_jwt.Users.Quiet.{KeepsSession}
use nestjs_jwt.Auth.Openings.{IsOpened, session_origin}
use nestjs_jwt.Users.Races.{attempt_write, concurrent_failures}
use nestjs_jwt.Auth.Flows.{logged_in, login_then_refresh, resend_then_verify}
use nestjs_jwt.Tests.Sample.{
  world, root, ruled, ruled-IsWellFormed, ann, start, meta, right, payload, start-IsWellFormed,
}

Reach-admin_example : (u : User) × (get 7 (documents world ruled) ≡ some u) × (u.role ≡ Role.admin)
unfolding put_refresh_token_hash by_id logout Users.set_refresh_token_hash
Reach-admin_example =
    Reach-admin world {s = ruled} {t = (logout world 7 ruled).1} 7
      {v = record root { refresh_token_hash = none }} ruled-IsWellFormed (next here (logs_out 7))
      refl refl

token_is_current_example :
    (v : User) × (get 7 (documents world (logout world 7 start).1) ≡ some v)
    × (v.is_active ≡ true)
    × (v.is_deleted ≡ false)
    × (◌≡◌ {A = AuthenticatedUser}
        (record { user_id = 7; email = "ann@x.io"; role = Role.user })
        (record { user_id = 7; email = v.email; role = v.role }))
unfolding validate payload_of find_active_by_id by_active_id by_id put_refresh_token_hash logout
    Users.set_refresh_token_hash
token_is_current_example =
    token_is_current world {s = start} {t = (logout world 7 start).1} {u = ann} start-IsWellFormed
      (next here (logs_out 7)) refl refl

-- Verifies every token as an administrator's.
abbrev admin_verify : String → String → ℕ → Option JwtPayload
admin_verify secret token now = some (record payload { role = Role.admin })

-- The account once it is deleted.
abbrev deleted : State in_memory
deleted = record start { store = Users.soft_delete in_memory 7 9 start.store }

abbrev guess : Attempt
guess = record { password = "guess"; meta = meta; now = 5 }

password_origin_example :
    let dto : ChangePasswordDto = record { old_password = "secret"; new_password = "new" } in
    (◌≡◌ {A = String} "h:new" "h:secret")
    ⊎ IsWarranted world {s = start} {t = (change_password world 7 dto "salt" start).1} 7 ann
        (changes_password 7 dto "salt")
unfolding change_password compare_value hash_value by_id by_active_id put_password
    Users.update_password Users.find_by_id_with_secrets
password_origin_example =
    let dto : ChangePasswordDto = record { old_password = "secret"; new_password = "new" } in
    password_origin world {s = start} {t = (change_password world 7 dto "salt" start).1} 7
      (put_password "h:new" ann) {u = ann} start-IsWellFormed (changes_password 7 dto "salt") refl
      refl

login_then_refresh_example :
    let (r, t) = login world right meta 5 start in
    (tp : TokenPair) × (r ≡ ok tp)
    × (account world "Ann@x.io" t ≡ some (logged_in world ann meta 5))
    × ((logged_in world ann meta 5).failed_login_attempts ≡ 0)
    × ((logged_in world ann meta 5).lock_until ≡ none)
    × (is_ok (refresh_tokens world tp.refresh_token 900 t).0 ≡ true)
unfolding by_email compare_value sign_access sign_refresh hash_token payload_of
login_then_refresh_example =
    login_then_refresh world right meta 5 900 start {u = ann} (refl, tt) refl (refl, refl) refl refl
      refl refl refl

resend_then_verify_example :
    let s₁ = (resend_verification_email world 7 "raw" 0 start).1 in
    let s₂ = (verify_email world "raw" 60000 s₁).1 in
    ((verify_email world "raw" 60000 s₁).0 ≡ ok tt)
    × ((v : User) × (active world 7 s₂ ≡ some v)
        × (v.is_email_verified ≡ true)
        × (v.email_verification_token_hash ≡ none)
        × (v.email ≡ "ann@x.io"))
    × (verify_email world "raw" 60001 s₂ ≡ (err invalid_verification_token, s₂))
    × (verify_email world "raw" 600000000000 s₁ ≡ (err invalid_verification_token, s₁))
unfolding by_active_id hash_token verification_expiry
resend_then_verify_example =
    resend_then_verify world 7 "raw" 0 60000 60001 600000000000 start {u = ann} (refl, tt) refl refl
      refl (omega arith) (omega arith)

session_origin_example :
    let v : User = record ann { refresh_token_hash = some "#refresh1" } in
    KeepsSession ann v
    ⊎ IsOpened world {s = start} {t = (refresh_tokens world "refresh0" 1500 start).1} 7 ann
        (refreshes "refresh0" 1500)
unfolding refresh_tokens Users.find_by_id_with_secrets by_active_id hash_token rotate
    issue_token_pair Users.set_refresh_token_hash by_id put_refresh_token_hash sign_refresh
session_origin_example =
    session_origin world {s = start} {t = (refresh_tokens world "refresh0" 1500 start).1} 7
      (record ann { refresh_token_hash = some "#refresh1" }) {u = ann} start-IsWellFormed
      (refreshes "refresh0" 1500) refl refl

concurrent_failures_example :
    let read = in_memory.find_one (by_id 7) start.store in
    let s₁ = (attempt_write in_memory 7 2 15 read 5 start.store).1 in
    let s₂ = (attempt_write in_memory 7 2 15 read 6 s₁).1 in
    (v : User) × (get 7 s₂ ≡ some v) × (v.failed_login_attempts ≡ 1)
concurrent_failures_example = concurrent_failures in_memory 7 2 15 5 6 start.store {u = ann} refl
