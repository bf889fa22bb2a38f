-- ===== src/Users/Schema.antt =====
-- src/users/schemas/user.schema.ts. `createdAt` and `updatedAt` are written by Mongoose alone and
-- read nowhere; identifiers are numbers, times are milliseconds.
use nestjs_jwt.Prelude.{
  ℕ, String, Bool, true, false, Option, none, List, [], ◌∷◌, ◌++◌, str_eq, if◌then◌else◌,
}
use nestjs_jwt.Common.Role.{Role}

pub record LoginHistoryEntry : Type 0 where
  pub timestamp : ℕ
  pub ip_address : Option String
  pub user_agent : Option String

pub record User : Type 0 where
  pub id : ℕ
  pub first_name : String
  pub last_name : String
  pub email : String
  pub password : String
  pub phone_number : Option String
  pub avatar : Option String
  pub role : Role
  pub is_email_verified : Bool
  pub is_active : Bool
  pub refresh_token_hash : Option String
  pub password_reset_token_hash : Option String
  pub password_reset_expires : Option ℕ
  pub email_verification_token_hash : Option String
  pub email_verification_expires : Option ℕ
  pub failed_login_attempts : ℕ
  pub lock_until : Option ℕ
  pub last_login : Option ℕ
  pub login_count : ℕ
  pub login_history : List LoginHistoryEntry
  pub is_deleted : Bool
  pub deleted_at : Option ℕ

-- The runtime's Unicode tables: `String.prototype.toLowerCase` and `trim`.
pub record Text : Type 0 where
  pub to_lower_case : String → String
  pub trim : String → String

-- A document as Mongoose creates it: the string options of the schema applied, its defaults filled in.
unfoldable pub new_user : Text → ℕ → String → String → String → String → Role → User
new_user t i first_name last_name email password role = record {
  id = i;
  first_name = t.trim first_name;
  last_name = t.trim last_name;
  email = t.trim (t.to_lower_case email);
  password = password;
  phone_number = none;
  avatar = none;
  role = role;
  is_email_verified = false;
  is_active = true;
  refresh_token_hash = none;
  password_reset_token_hash = none;
  password_reset_expires = none;
  email_verification_token_hash = none;
  email_verification_expires = none;
  failed_login_attempts = 0;
  lock_until = none;
  last_login = none;
  login_count = 0;
  login_history = [];
  is_deleted = false;
  deleted_at = none;
}

abbrev blank : String → String → List String
blank name v = if str_eq v "" then name ∷ [] else []

-- The fields with `required: true` that a new document has not filled in, once its strings are trimmed.
abbrev pub missing : User → List String
missing u =
    blank "firstName" u.first_name
    ++ (blank "lastName" u.last_name ++ (blank "email" u.email ++ blank "password" u.password))
