-- ===== src/Users/Service.antt =====
-- src/users/users.service.ts over the collection that it is given. Identifiers of new documents
-- and the current time are arguments. `listUsers` stands in Users/Listing.
pub mod Effects
use nestjs_jwt.Prelude.{
  ℕ, ◌+◌, String, Bool, false, List, [], ◌∷◌, Option, none, some, get_or, is_some,
}
use nestjs_jwt.Common.Role.{Role}
use nestjs_jwt.Common.Exceptions.{Exception}
use nestjs_jwt.Common.Action.{Result, ok, err}
use nestjs_jwt.Users.Schema.{User, Text, new_user, missing}
use nestjs_jwt.Users.Collection.{Collection}
use nestjs_jwt.Users.Updates.{
  by_id, by_active_id, by_email, by_reset_token, by_verification_token, normalize, UpdateProfileDto,
  set_profile, RequestMetadata, succeed_login, lock_of, fail_login, put_refresh_token_hash,
  put_password, put_reset_token, drop_reset_token, put_verification_token, put_verified,
  put_deleted,
}

pub record CreateUserInput : Type 0 where
  pub first_name : String
  pub last_name : String
  pub email : String
  pub hashed_password : String
  pub role : Option Role

pub record FailedAttempt : Type 0 where
  pub locked : Bool
  pub lock_until : Option ℕ

-- The document that `create` inserts.
unfoldable pub user_of : Text → ℕ → CreateUserInput → User
user_of t i input =
    new_user t i input.first_name input.last_name (normalize t input.email) input.hashed_password
      (get_or input.role Role.user)

abbrev pub found_or : Option User → Exception → Result User
found_or none e = err e
found_or (some u) e = ok u

module _ (c : Collection) (t : Text) where
  -- The validators of the schema run before the insertion.
  abbrev pub insert_valid : List String → ℕ → CreateUserInput → c.Store → Result User × c.Store
  insert_valid (f ∷ fs) i input s = (err (Exception.missing_required (f ∷ fs)), s)
  insert_valid [] i input s = elim (c.create (user_of t i input) s) [
    | none ↦ (err Exception.duplicate_key, s)
    | some s' ↦ (ok (user_of t i input), s')
  ]

  unfoldable pub create : ℕ → CreateUserInput → c.Store → Result User × c.Store
  create i input s = insert_valid (missing (user_of t i input)) i input s

  unfoldable pub find_by_email : String → c.Store → Option User
  find_by_email email = c.find_one (by_email t email)

  unfoldable pub find_by_email_with_secrets : String → c.Store → Option User
  find_by_email_with_secrets email = c.find_one (by_email t email)

  unfoldable pub update_profile : ℕ → UpdateProfileDto → c.Store → Result User × c.Store
  update_profile i dto s =
      let (found, s') = c.find_one_and_update (by_active_id i) (set_profile t dto) s in
      (found_or found (Exception.not_found "User not found"), s')

module _ (c : Collection) where
  unfoldable pub find_active_by_id : ℕ → c.Store → Option User
  find_active_by_id i = c.find_one (by_active_id i)

  unfoldable pub find_active_by_id_or_throw : ℕ → c.Store → Result User
  unfolding find_active_by_id
  find_active_by_id_or_throw i s =
      found_or (find_active_by_id i s) (Exception.not_found "User not found")

  unfoldable pub find_by_id_with_secrets : ℕ → c.Store → Option User
  find_by_id_with_secrets i = c.find_one (by_active_id i)

  unfoldable pub record_successful_login : ℕ → RequestMetadata → ℕ → c.Store → c.Store
  record_successful_login i meta now = c.update_one (by_id i) (succeed_login now meta)

  -- The read of the counter and the write of its successor are two calls.
  unfoldable pub register_failed_login_attempt : ℕ → ℕ → ℕ → ℕ → c.Store → FailedAttempt × c.Store
  register_failed_login_attempt i max_attempts minutes now s = elim (c.find_one (by_id i) s) [
    | none ↦ (record { locked = false; lock_until = none }, s)
    | some u ↦
        let attempts = u.failed_login_attempts + 1 in
        let until = lock_of max_attempts minutes now attempts in
        (
          record { locked = is_some until; lock_until = until },
          c.update_one (by_id i) (fail_login attempts until) s,
        )
  ]

  unfoldable pub set_refresh_token_hash : ℕ → Option String → c.Store → c.Store
  set_refresh_token_hash i h = c.update_one (by_id i) (put_refresh_token_hash h)

  unfoldable pub update_password : ℕ → String → c.Store → c.Store
  update_password i hashed = c.update_one (by_id i) (put_password hashed)

  unfoldable pub set_password_reset_token : ℕ → String → ℕ → c.Store → c.Store
  set_password_reset_token i h expires = c.update_one (by_id i) (put_reset_token h expires)

  unfoldable pub find_by_password_reset_token_hash : String → ℕ → c.Store → Option User
  find_by_password_reset_token_hash h now = c.find_one (by_reset_token h now)

  unfoldable pub clear_password_reset_token : ℕ → c.Store → c.Store
  clear_password_reset_token i = c.update_one (by_id i) drop_reset_token

  unfoldable pub set_email_verification_token : ℕ → String → ℕ → c.Store → c.Store
  set_email_verification_token i h expires =
      c.update_one (by_id i) (put_verification_token h expires)

  unfoldable pub find_by_email_verification_token_hash : String → ℕ → c.Store → Option User
  find_by_email_verification_token_hash h now = c.find_one (by_verification_token h now)

  unfoldable pub mark_email_verified : ℕ → c.Store → c.Store
  mark_email_verified i = c.update_one (by_id i) put_verified

  unfoldable pub soft_delete : ℕ → ℕ → c.Store → c.Store
  soft_delete i now = c.update_one (by_id i) (put_deleted now)
