-- ===== src/Tests/Sample.antt =====
-- A small world: documents in a list, functions that stand in for bcrypt, SHA-256 and the signer, and
-- one account.
use Prim.Native.String.{◌++◌}
use nestjs_jwt.Prelude.{
  ℕ, ◌/◌, ◌≡◌, ap, String, true, false, ◌||◌, none, some, [], ◌∷◌, ◌==◌, if◌then◌else◌, str_eq,
  refl, arith,
}
use nestjs_jwt.Common.Role.{Role, JwtPayload}
use nestjs_jwt.Users.Schema.{User, Text}
use nestjs_jwt.Users.Collection.{in_memory}
use nestjs_jwt.Users.Updates.{RequestMetadata}
use nestjs_jwt.Users.Changes.{IsWellFormed}
use nestjs_jwt.Auth.Deps.{Deps, State, JwtService, Hashes}
use nestjs_jwt.Auth.Service.{LoginDto, RegisterDto}

abbrev pub plain_text : Text
plain_text = record {
  to_lower_case = λ s. if str_eq s "Ann@x.io" then "ann@x.io" else s;
  trim = λ s. s;
}

abbrev pub payload : JwtPayload
payload = record { sub = 7; email = "ann@x.io"; role = Role.user }

-- Signs by the second, and accepts what it signed in the first two seconds.
abbrev pub signer : JwtService
signer = record {
  sign_async = λ p secret life now. secret ++ (if now / 1000 == 0 then "0" else "1");
  verify_async = λ token secret now.
      if str_eq token (secret ++ "0") || str_eq token (secret ++ "1") then some payload else none;
  decode = λ token. some (record { iat = 0; exp = 900 });
}

abbrev pub hashes : Hashes
hashes = record {
  bcrypt_hash = λ value rounds salt. "h:" ++ value;
  bcrypt_compare = λ value hashed. str_eq hashed ("h:" ++ value);
  sha256 = λ token. "#" ++ token;
}

abbrev pub world : Deps
world = record {
  collection = in_memory;
  text = plain_text;
  hashes = hashes;
  jwt_service = signer;
  jwt = record {
    access_secret = "access";
    access_expiration = "15m";
    refresh_secret = "refresh";
    refresh_expiration = "7d";
  };
  security = record {
    bcrypt_salt_rounds = 12;
    reset_password_token_expiration_minutes = 15;
    email_verification_token_expiration_hours = 24;
    account_lock_max_attempts = 2;
    account_lock_duration_minutes = 15;
  };
  mail = record { frontend_url = some "http://localhost"; sender = "no-reply@example.com" };
}

abbrev pub ann : User
ann = record {
  id = 7;
  first_name = "Ann";
  last_name = "Lee";
  email = "ann@x.io";
  password = "h:secret";
  phone_number = none;
  avatar = none;
  role = Role.user;
  is_email_verified = false;
  is_active = true;
  refresh_token_hash = some "#refresh0";
  password_reset_token_hash = none;
  password_reset_expires = none;
  email_verification_token_hash = none;
  email_verification_expires = none;
  failed_login_attempts = 0;
  lock_until = none;
  last_login = none;
  login_count = 0;
  login_history = [];
  is_deleted = false;
  deleted_at = none;
}

abbrev pub start : State in_memory
start = record { store = ann ∷ []; outbox = []; log = [] }

abbrev pub nothing : State in_memory
nothing = record { store = []; outbox = []; log = [] }

abbrev pub meta : RequestMetadata
meta = record { ip_address = some "127.0.0.1"; user_agent = none }

abbrev pub right : LoginDto
right = record { email = "Ann@x.io"; password = "secret" }

abbrev pub bob : RegisterDto
bob = record { first_name = "Bob"; last_name = "Ray"; email = "bob@x.io"; password = "pw" }

pub signer_by_second :
    (q : JwtPayload) (secret life : String) (a b : ℕ)
    → a / 1000 ≡ b / 1000
    → signer.sign_async q secret life a ≡ signer.sign_async q secret life b
signer_by_second q secret life a b e = ap (λ k. secret ++ (if k == 0 then "0" else "1")) e

abbrev pub start-IsWellFormed : IsWellFormed (start.store)
start-IsWellFormed = record {
  ids = (refl, tt);
  emails = (refl, tt);
  sound = (record { bounded = omega arith; reset_expires = refl; verification_expires = refl }, tt);
}

abbrev pub root : User
root = record ann { role = Role.admin }

abbrev pub ruled : State in_memory
ruled = record start { store = root ∷ [] }

abbrev pub ruled-IsWellFormed : IsWellFormed (ruled.store)
ruled-IsWellFormed = record {
  ids = (refl, tt);
  emails = (refl, tt);
  sound = (record { bounded = omega arith; reset_expires = refl; verification_expires = refl }, tt);
}
