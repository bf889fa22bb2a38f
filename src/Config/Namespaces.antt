-- ===== src/Config/Namespaces.antt =====
-- The factories of src/config/*.config.ts over `process.env`, which is asked for a variable by name,
-- and what src/app.module.ts and src/main.ts make of their values.
use nestjs_jwt.Prelude.{ℕ, ◌*◌, String, Bool, Option, none, some, get_or, str_eq, if◌then◌else◌}
use nestjs_jwt.Config.Numbers.{Number, nan, infinite, integer, parse_int}

abbrev pub ProcessEnv : Type 0
ProcessEnv = String → Option String

pub record AppConfig : Type 0 where
  pub node_env : Option String
  pub port : Number
  pub api_prefix : String
  pub cors_origin : String
  pub frontend_url : Option String

pub record DatabaseConfig : Type 0 where
  pub uri : Option String

pub record JwtSettings : Type 0 where
  pub access_secret : Option String
  pub access_expiration : String
  pub refresh_secret : Option String
  pub refresh_expiration : String

pub record SecuritySettings : Type 0 where
  pub bcrypt_salt_rounds : Number
  pub throttle_ttl : Number
  pub throttle_limit : Number
  pub reset_password_token_expiration_minutes : Number
  pub email_verification_token_expiration_hours : Number
  pub account_lock_max_attempts : Number
  pub account_lock_duration_minutes : Number

pub record MailSettings : Type 0 where
  pub host : Option String
  pub port : Option Number
  pub user : Option String
  pub password : Option String
  pub sender : String

pub record ThrottlerOptions : Type 0 where
  pub ttl : Number
  pub limit : Number

unfoldable pub database_config : ProcessEnv → DatabaseConfig
database_config env = record { uri = env "MONGODB_URI" }

unfoldable pub jwt_config : ProcessEnv → JwtSettings
jwt_config env = record {
  access_secret = env "JWT_ACCESS_SECRET";
  access_expiration = get_or (env "JWT_ACCESS_EXPIRATION") "15m";
  refresh_secret = env "JWT_REFRESH_SECRET";
  refresh_expiration = get_or (env "JWT_REFRESH_EXPIRATION") "7d";
}

module _ (nearest : Bool → ℕ → Number) where
  -- `parseInt(process.env.NAME ?? 'default', 10)`
  abbrev pub number : ProcessEnv → String → String → Number
  number env name default_ = parse_int nearest (get_or (env name) default_)

  unfoldable pub app_config : ProcessEnv → AppConfig
  app_config env = record {
    node_env = env "NODE_ENV";
    port = number env "PORT" "3000";
    api_prefix = get_or (env "API_PREFIX") "api/v1";
    cors_origin = get_or (env "CORS_ORIGIN") "*";
    frontend_url = env "FRONTEND_URL";
  }

  unfoldable pub security_config : ProcessEnv → SecuritySettings
  security_config env = record {
    bcrypt_salt_rounds = number env "BCRYPT_SALT_ROUNDS" "12";
    throttle_ttl = number env "THROTTLE_TTL" "60";
    throttle_limit = number env "THROTTLE_LIMIT" "20";
    reset_password_token_expiration_minutes =
        number env "RESET_PASSWORD_TOKEN_EXPIRATION_MINUTES" "15";
    email_verification_token_expiration_hours =
        number env "EMAIL_VERIFICATION_TOKEN_EXPIRATION_HOURS" "24";
    account_lock_max_attempts = number env "ACCOUNT_LOCK_MAX_ATTEMPTS" "5";
    account_lock_duration_minutes = number env "ACCOUNT_LOCK_DURATION_MINUTES" "15";
  }

  -- `MAIL_PORT ? parseInt(MAIL_PORT, 10) : undefined`: an empty text is false too.
  abbrev pub port_of : Option String → Option Number
  port_of none = none
  port_of (some s) = if str_eq s "" then none else some (parse_int nearest s)

  unfoldable pub mail_config : ProcessEnv → MailSettings
  mail_config env = record {
    host = env "MAIL_HOST";
    port = port_of (env "MAIL_PORT");
    user = env "MAIL_USER";
    password = env "MAIL_PASSWORD";
    sender = get_or (env "MAIL_FROM") "no-reply@example.com";
  }

  -- `throttleTtl * 1000`
  abbrev pub thousandfold : Number → Number
  thousandfold nan = nan
  thousandfold (infinite b) = infinite b
  thousandfold (integer b n) = nearest b (n * 1000)

  unfoldable pub throttler_options : SecuritySettings → ThrottlerOptions
  throttler_options s = record { ttl = thousandfold s.throttle_ttl; limit = s.throttle_limit }
