-- ===== src/Users/Lookups.antt =====
-- What the filters of the service find after an update that leaves alone what they read.
use nestjs_jwt.Prelude.{ℕ, refl, String, Option, none, some}
use nestjs_jwt.Users.Schema.{Text}
use nestjs_jwt.Users.Documents.{Respects}
use nestjs_jwt.Users.Updates.{
  by_email, by_active_id, fail_login, put_refresh_token_hash, put_password, put_reset_token,
  drop_reset_token, by_reset_token,
}

module _ (t : Text) (e : String) where
  pub by_email-fail_login : (n : ℕ) (l : Option ℕ) → Respects (by_email t e) (fail_login n l)
  unfolding by_email fail_login
  by_email-fail_login n none u = refl
  by_email-fail_login n (some l) u = refl

  pub by_email-put_password : (h : String) → Respects (by_email t e) (put_password h)
  unfolding by_email put_password
  by_email-put_password h u = refl

  pub by_email-put_reset_token :
      (h : String) (expires : ℕ) → Respects (by_email t e) (put_reset_token h expires)
  unfolding by_email put_reset_token
  by_email-put_reset_token h expires u = refl

  pub by_email-drop_reset_token : Respects (by_email t e) drop_reset_token
  unfolding by_email drop_reset_token
  by_email-drop_reset_token u = refl

pub by_active_id-put_refresh_token_hash :
    (i : ℕ) (h : Option String) → Respects (by_active_id i) (put_refresh_token_hash h)
unfolding by_active_id put_refresh_token_hash
by_active_id-put_refresh_token_hash i h u = refl

pub by_reset_token-put_password :
    (h : String) (now : ℕ) (hashed : String) → Respects (by_reset_token h now) (put_password hashed)
unfolding by_reset_token put_password
by_reset_token-put_password h now hashed u = refl
