-- ===== src/Tests/AuthTests.antt =====
-- The flows of authentication at one account.
use nestjs_jwt.Prelude.{none, ◌≡◌, refl, true, false, some, [], eq_iff, ◌∷◌, ◌↔◌, arith}
use nestjs_jwt.Common.Exceptions.Exception.{
  account_locked, account_inactive, invalid_refresh_token, invalid_reset_token,
}
use nestjs_jwt.Common.Action.{ok, err, is_ok}
use nestjs_jwt.Users.Schema.{User}
use nestjs_jwt.Users.Updates.{by_email, by_active_id}
use nestjs_jwt.Auth.Service.{
  TokenPair, compare_value, hash_token, hash_value, sign_access, sign_refresh, reset_expiry, login,
  refresh_tokens, logout, reset_password, forgot_password,
}
use nestjs_jwt.Auth.Login.{login-gate, login-ok_iff, Admits, documents, account}
use nestjs_jwt.Auth.Lockout.{Attempt, try_login, try_logins, brute_force_locks, lock_runs_out}
use nestjs_jwt.Auth.Session.{refresh-ok_iff, Accepts}
use nestjs_jwt.Auth.Passwords.{forgot_then_reset}
use nestjs_jwt.Auth.Steps.{Reach, here, next, logs_in, logs_out}
use nestjs_jwt.Auth.History.{Reach-IsWellFormed}
use nestjs_jwt.Users.Changes.{IsWellFormed}
use nestjs_jwt.Auth.Reuse.{reuse_revokes_session, logout_ends_session, refresh_within_second}
use nestjs_jwt.Tests.Sample.{world, ann, start, meta, right, signer_by_second, start-IsWellFormed}

abbrev wrong : Attempt
wrong = record { password = "guess"; meta = meta; now = 5 }

login-ok_iff_example :
    (is_ok (login world right meta 5 start).0 ≡ true) ↔ Admits world right 5 start
login-ok_iff_example = login-ok_iff world right meta 5 start

login-gate_example :
    login world right meta 5 (record start { store = record ann { is_active = false } ∷ [] })
    ≡ (err account_inactive, record start { store = record ann { is_active = false } ∷ [] })
unfolding by_email
login-gate_example =
    login-gate world right meta 5 (record start { store = record ann { is_active = false } ∷ [] })
      refl

brute_force_locks_example :
    let s' = try_logins world "ann@x.io" (wrong ∷ wrong ∷ []) start in
    try_login world "ann@x.io" (record { password = "secret"; meta = meta; now = 800 }) s'
    ≡ (err (account_locked 900005), s')
unfolding by_email compare_value
brute_force_locks_example =
    brute_force_locks world "ann@x.io" (wrong ∷ []) wrong
      (record { password = "secret"; meta = meta; now = 800 }) start {u = ann} (refl, tt) refl
      (refl, refl) (refl, (refl, tt)) refl (omega arith)

lock_runs_out_example :
    is_ok
      (try_login world "ann@x.io"
        (record { password = "secret"; meta = meta; now = 900005 })
        (try_logins world "ann@x.io" (wrong ∷ wrong ∷ []) start)).0
    ≡ true
unfolding by_email compare_value sign_access
lock_runs_out_example =
    lock_runs_out world "ann@x.io" (wrong ∷ []) wrong
      (record { password = "secret"; meta = meta; now = 900005 }) start {u = ann} (refl, tt) refl
      (refl, refl) (refl, (refl, tt)) refl (omega arith) refl (λ v. refl)

refresh-ok_iff_example :
    (is_ok (refresh_tokens world "refresh0" 5 start).0 ≡ true) ↔ Accepts world "refresh0" 5 start
refresh-ok_iff_example = refresh-ok_iff world "refresh0" 5 start

-- Two seconds hold two tokens: the rotation at 1500 ms replaces `refresh0` by `refresh1`.
reuse_revokes_session_example :
    let t = (refresh_tokens world "refresh0" 1500 start).1 in
    let t' = (refresh_tokens world "refresh0" 1600 t).1 in
    ((refresh_tokens world "refresh0" 1600 t).0 ≡ err invalid_refresh_token)
    × (refresh_tokens world "refresh1" 1700 t' ≡ (err invalid_refresh_token, t'))
unfolding by_active_id hash_token sign_access sign_refresh
reuse_revokes_session_example =
    reuse_revokes_session world "refresh0" 1500 1600 1700 "refresh1" start {u = ann} (refl, tt) refl
      refl (refl, refl) refl refl refl refl (ground (arith, eq_iff "#refresh0" "#refresh1")) refl
      refl

logout_ends_session_example :
    let t = (logout world 7 start).1 in
    refresh_tokens world "refresh0" 5 t ≡ (err invalid_refresh_token, t)
logout_ends_session_example = logout_ends_session world 7 "refresh0" 5 start (refl, tt) refl refl

refresh_within_second_example :
    let (r, t) = refresh_tokens world "refresh0" 900 start in
    (tp : TokenPair) × (r ≡ ok tp)
    × (tp.refresh_token ≡ "refresh0")
    × (is_ok (refresh_tokens world "refresh0" 2500 t).0 ≡ true)
unfolding by_active_id hash_token sign_access sign_refresh
refresh_within_second_example =
    refresh_within_second world 100 900 2500 start {u = ann} signer_by_second refl (refl, tt) refl
      refl (refl, refl) refl refl refl refl

forgot_then_reset_example :
    let s₁ = (forgot_password world "Ann@x.io" "raw" 0 start).1 in
    let s₂ = (reset_password world "raw" "new" "salt" 60000 s₁).1 in
    ((reset_password world "raw" "new" "salt" 60000 s₁).0 ≡ ok tt)
    × ((v : User) × (account world "Ann@x.io" s₂ ≡ some v)
        × (v.id ≡ 7)
        × (v.password ≡ "h:new")
        × (v.refresh_token_hash ≡ none))
    × (reset_password world "raw" "other" "salt" 60001 s₂ ≡ (err invalid_reset_token, s₂))
    × (reset_password world "raw" "other" "salt" 600000000000 s₁ ≡ (err invalid_reset_token, s₁))
unfolding by_email hash_token hash_value reset_expiry
forgot_then_reset_example =
    forgot_then_reset world "Ann@x.io" "raw" "new" "salt" "other" "salt" 0 60000 60001 600000000000
      start {u = ann} (refl, tt) refl refl (omega arith) (omega arith)

abbrev served : Reach world start (login world right meta 5 (logout world 7 start).1).1
served = next (next here (logs_out 7)) (logs_in right meta 5)

Reach-IsWellFormed_example :
    IsWellFormed (documents world (login world right meta 5 (logout world 7 start).1).1)
Reach-IsWellFormed_example = Reach-IsWellFormed world start-IsWellFormed served
