-- ===== src/Users/Updates.antt =====
-- The filters and the update documents of src/users/users.service.ts, as tests and functions on
-- one document.
use nestjs_jwt.Prelude.{
  ℕ, ◌+◌, ◌-◌, ◌*◌, String, Bool, true, false, not, ◌&&◌, Option, none, some, List, [], ◌∷◌, ◌++◌,
  ltb, leb, ◌==◌, if◌then◌else◌, str_eq, length, drop,
}
use nestjs_jwt.Users.Schema.{User, LoginHistoryEntry, Text}

-- A stored string is the given one; an absent field matches none.
abbrev pub holds : Option String → String → Bool
holds none h = false
holds (some g) h = str_eq g h

-- `{ $gt: now }`, and the test `lockUntil && lockUntil > new Date()`.
abbrev pub is_after : Option ℕ → ℕ → Bool
is_after none now = false
is_after (some t) now = ltb now t

-- `email.toLowerCase().trim()`
abbrev pub normalize : Text → String → String
normalize t email = t.trim (t.to_lower_case email)

unfoldable pub by_id : ℕ → User → Bool
by_id i u = u.id == i

unfoldable pub by_active_id : ℕ → User → Bool
by_active_id i u = u.id == i && not u.is_deleted

unfoldable pub by_email : Text → String → User → Bool
by_email t email u = str_eq u.email (normalize t email) && not u.is_deleted

unfoldable pub by_reset_token : String → ℕ → User → Bool
by_reset_token h now u =
    holds u.password_reset_token_hash h && is_after u.password_reset_expires now && not u.is_deleted

unfoldable pub by_verification_token : String → ℕ → User → Bool
by_verification_token h now u =
    holds u.email_verification_token_hash h
    && is_after u.email_verification_expires now
    && not u.is_deleted

-- What the profile form may change; an absent field is dropped from `$set`.
pub record UpdateProfileDto : Type 0 where
  pub first_name : Option String
  pub last_name : Option String
  pub phone_number : Option String
  pub avatar : Option String

-- An optional field of the document, where the form has a value for it.
abbrev pub or_else : Option String → Option String → Option String
or_else none old = old
or_else (some v) old = some v

abbrev pub set_name : Text → Option String → String → String
set_name t none old = old
set_name t (some v) old = t.trim v

unfoldable pub set_profile : Text → UpdateProfileDto → User → User
set_profile t dto u = record u {
  first_name = set_name t dto.first_name u.first_name;
  last_name = set_name t dto.last_name u.last_name;
  phone_number = or_else dto.phone_number u.phone_number;
  avatar = or_else dto.avatar u.avatar;
}

-- `$push` with `$slice: -n`: the last n entries.
unfoldable pub push_last : ℕ → LoginHistoryEntry → List LoginHistoryEntry → List LoginHistoryEntry
push_last n e es = let all = es ++ e ∷ [] in drop (length all - n) all

-- Request metadata, as the login handler passes it on.
pub record RequestMetadata : Type 0 where
  pub ip_address : Option String
  pub user_agent : Option String

unfoldable pub succeed_login : ℕ → RequestMetadata → User → User
unfolding push_last
succeed_login now meta u = record u {
  last_login = some now;
  failed_login_attempts = 0;
  lock_until = none;
  login_count = u.login_count + 1;
  login_history = push_last 20 entry u.login_history;
}
  where
    entry : LoginHistoryEntry
    entry = record { timestamp = now; ip_address = meta.ip_address; user_agent = meta.user_agent }

-- The `lockUntil` of the partial update, where the attempt is one too many.
unfoldable pub lock_of : ℕ → ℕ → ℕ → ℕ → Option ℕ
lock_of max_attempts minutes now attempts =
    if leb max_attempts attempts then some (now + minutes * 60000) else none

-- `$set: update` with that partial update.
unfoldable pub fail_login : ℕ → Option ℕ → User → User
fail_login attempts none u = record u { failed_login_attempts = attempts }
fail_login attempts (some t) u = record u { failed_login_attempts = attempts; lock_until = some t }

unfoldable pub put_refresh_token_hash : Option String → User → User
put_refresh_token_hash h u = record u { refresh_token_hash = h }

unfoldable pub put_password : String → User → User
put_password hashed u = record u { password = hashed; refresh_token_hash = none }

unfoldable pub put_reset_token : String → ℕ → User → User
put_reset_token h expires u = record u {
  password_reset_token_hash = some h;
  password_reset_expires = some expires;
}

unfoldable pub drop_reset_token : User → User
drop_reset_token u = record u { password_reset_token_hash = none; password_reset_expires = none }

unfoldable pub put_verification_token : String → ℕ → User → User
put_verification_token h expires u = record u {
  email_verification_token_hash = some h;
  email_verification_expires = some expires;
}

unfoldable pub put_verified : User → User
put_verified u = record u {
  is_email_verified = true;
  email_verification_token_hash = none;
  email_verification_expires = none;
}

unfoldable pub put_deleted : ℕ → User → User
put_deleted now u = record u { is_deleted = true; deleted_at = some now }
