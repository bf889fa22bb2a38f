-- ===== src/Users/Invariant.antt =====
-- What every stored document satisfies, what no update document of the service changes, and the
-- changes of the collection made of such updates.
use nestjs_jwt.Prelude.{
  ℕ, ◌-◌, ◌≤◌, ◌≡◌, refl, String, true, Option, none, some, List, [], ◌∷◌, ◌++◌, arith, is_some,
  length, length-drop,
}
use nestjs_jwt.Users.Schema.{User, LoginHistoryEntry, Text}
use nestjs_jwt.Users.Updates.{
  UpdateProfileDto, set_profile, push_last, RequestMetadata, succeed_login, fail_login,
  put_refresh_token_hash, put_password, put_reset_token, drop_reset_token, put_verification_token,
  put_verified, put_deleted,
}

-- The history is bounded, and a stored token hash has an expiry.
pub record IsSound (u : User) : Type 0 where
  pub bounded : length u.login_history ≤ 20
  pub reset_expires : is_some u.password_reset_token_hash ≡ is_some u.password_reset_expires
  pub verification_expires :
      is_some u.email_verification_token_hash ≡ is_some u.email_verification_expires

-- An update document that leaves the identifier, the address and the role alone, and restores no
-- deleted account.
pub record IsEdit (f : User → User) : Type 0 where
  pub keeps_id : (u : User) → (f u).id ≡ u.id
  pub keeps_email : (u : User) → (f u).email ≡ u.email
  pub keeps_role : (u : User) → (f u).role ≡ u.role
  pub keeps_deleted : (u : User) → u.is_deleted ≡ true → (f u).is_deleted ≡ true
  pub keeps_sound : (u : User) → IsSound u → IsSound (f u)

length-push_last :
    (n : ℕ) (e : LoginHistoryEntry) (es : List LoginHistoryEntry) → length (push_last n e es) ≤ n
unfolding push_last
length-push_last n e es = omega (arith, length-drop (length (es ++ e ∷ []) - n) (es ++ e ∷ []))

pub succeed_login-IsEdit : (now : ℕ) (meta : RequestMetadata) → IsEdit (succeed_login now meta)
unfolding succeed_login
succeed_login-IsEdit now meta = record {
  keeps_id = λ u. refl;
  keeps_email = λ u. refl;
  keeps_role = λ u. refl;
  keeps_deleted = λ u h. h;
  keeps_sound = λ u h. record {
    bounded = length-push_last 20 _ u.login_history;
    reset_expires = h.reset_expires;
    verification_expires = h.verification_expires;
  };
}

pub fail_login-IsEdit : (attempts : ℕ) (until : Option ℕ) → IsEdit (fail_login attempts until)
unfolding fail_login
fail_login-IsEdit attempts none = ground arith
fail_login-IsEdit attempts (some t) = ground arith

pub put_refresh_token_hash-IsEdit : (h : Option String) → IsEdit (put_refresh_token_hash h)
unfolding put_refresh_token_hash
put_refresh_token_hash-IsEdit h = ground arith

pub put_password-IsEdit : (hashed : String) → IsEdit (put_password hashed)
unfolding put_password
put_password-IsEdit hashed = ground arith

pub put_reset_token-IsEdit : (h : String) (expires : ℕ) → IsEdit (put_reset_token h expires)
unfolding put_reset_token
put_reset_token-IsEdit h expires = ground arith

pub drop_reset_token-IsEdit : IsEdit drop_reset_token
unfolding drop_reset_token
drop_reset_token-IsEdit = ground arith

pub put_verification_token-IsEdit :
    (h : String) (expires : ℕ) → IsEdit (put_verification_token h expires)
unfolding put_verification_token
put_verification_token-IsEdit h expires = ground arith

pub put_verified-IsEdit : IsEdit put_verified
unfolding put_verified
put_verified-IsEdit = ground arith

pub put_deleted-IsEdit : (now : ℕ) → IsEdit (put_deleted now)
unfolding put_deleted
put_deleted-IsEdit now = ground arith

pub set_profile-IsEdit : (t : Text) (dto : UpdateProfileDto) → IsEdit (set_profile t dto)
unfolding set_profile
set_profile-IsEdit t dto = ground arith
