-- ===== src/Config/Printed.antt =====
-- The environment that a `.env` file with decimal numbers gives, and what src/config/security.config.ts
-- and src/app.module.ts read from it.
use nestjs_jwt.Prelude.{ℕ, ◌*◌, ◌<◌, ◌≡◌, refl, String, Bool, false, some, [], ◌∷◌, arith}
use nestjs_jwt.Prelude.Dict.{lookup}
use nestjs_jwt.Prelude.Decimal.{to_text}
use nestjs_jwt.Auth.Deps.{SecurityConfig}
use nestjs_jwt.Config.Numbers.{Number, integer, parse_int-to_text}
use nestjs_jwt.Config.Namespaces.{
  ProcessEnv, SecuritySettings, security_config, throttler_options, number,
}

-- The values of the variables of security.config.ts.
abbrev pub print : SecurityConfig → (ttl limit : ℕ) → ProcessEnv
print c ttl limit name = lookup name (
    ("BCRYPT_SALT_ROUNDS", to_text c.bcrypt_salt_rounds)
    ∷ ("THROTTLE_TTL", to_text ttl)
    ∷ ("THROTTLE_LIMIT", to_text limit)
    ∷ ("RESET_PASSWORD_TOKEN_EXPIRATION_MINUTES", to_text c.reset_password_token_expiration_minutes)
    ∷ (
      "EMAIL_VERIFICATION_TOKEN_EXPIRATION_HOURS",
      to_text c.email_verification_token_expiration_hours,
    )
    ∷ ("ACCOUNT_LOCK_MAX_ATTEMPTS", to_text c.account_lock_max_attempts)
    ∷ ("ACCOUNT_LOCK_DURATION_MINUTES", to_text c.account_lock_duration_minutes)
    ∷ [])

-- Settings that are the given natural numbers.
abbrev pub settings : SecurityConfig → (ttl limit : ℕ) → SecuritySettings
settings c ttl limit = record {
  bcrypt_salt_rounds = integer false c.bcrypt_salt_rounds;
  throttle_ttl = integer false ttl;
  throttle_limit = integer false limit;
  reset_password_token_expiration_minutes = integer false c.reset_password_token_expiration_minutes;
  email_verification_token_expiration_hours =
      integer false c.email_verification_token_expiration_hours;
  account_lock_max_attempts = integer false c.account_lock_max_attempts;
  account_lock_duration_minutes = integer false c.account_lock_duration_minutes;
}

-- What a double holds exactly.
abbrev pub IsSafe : ℕ → Type 0
IsSafe n = n < 9007199254740992

-- The settings of the services and of the rate limiter, the time in milliseconds too.
pub record AreSafe (c : SecurityConfig) (ttl limit : ℕ) : Type 0 where
  pub rounds : IsSafe c.bcrypt_salt_rounds
  pub minutes : IsSafe c.reset_password_token_expiration_minutes
  pub hours : IsSafe c.email_verification_token_expiration_hours
  pub attempts : IsSafe c.account_lock_max_attempts
  pub duration : IsSafe c.account_lock_duration_minutes
  pub limit_ : IsSafe limit
  pub milliseconds : IsSafe (ttl * 1000)

module _ (nearest : Bool → ℕ → Number) where
  number-printed :
      (env : ProcessEnv) (name default_ : String) (n : ℕ)
      → ((b : Bool) (m : ℕ) → IsSafe m → nearest b m ≡ integer b m)
      → IsSafe n
      → env name ≡ some (to_text n)
      → number nearest env name default_ ≡ integer false n
  number-printed env name default_ n exact safe e = rw e (parse_int-to_text nearest n exact safe)

  -- Where integers below `2 ^ 53` are doubles, settings below it and a time that stays below it in
  -- milliseconds, written to the environment in decimal, are read back as they are: the services
  -- get the given numbers, and the rate limiter the given limit and time.
  pub security_config-print :
      (c : SecurityConfig) (ttl limit : ℕ)
      → ((b : Bool) (m : ℕ) → IsSafe m → nearest b m ≡ integer b m)
      → AreSafe c ttl limit
      → let read = security_config nearest (print c ttl limit) in
        (read ≡ settings c ttl limit)
        × (throttler_options nearest read
            ≡ record { ttl = integer false (ttl * 1000); limit = integer false limit })
  unfolding security_config throttler_options
  security_config-print c ttl limit exact h =
      let seconds : IsSafe ttl = omega (arith, h.milliseconds) in
      let read : (name default_ : String) (n : ℕ)
          → IsSafe n
          → print c ttl limit name ≡ some (to_text n)
          → number nearest (print c ttl limit) name default_ ≡ integer false n =
        λ name default_ n safe e. number-printed (print c ttl limit) name default_ n exact safe e in
      rw
        (
          security_config,
          read "BCRYPT_SALT_ROUNDS" "12" _ h.rounds refl,
          read "THROTTLE_TTL" "60" _ seconds refl,
          read "THROTTLE_LIMIT" "20" _ h.limit_ refl,
          read "RESET_PASSWORD_TOKEN_EXPIRATION_MINUTES" "15" _ h.minutes refl,
          read "EMAIL_VERIFICATION_TOKEN_EXPIRATION_HOURS" "24" _ h.hours refl,
          read "ACCOUNT_LOCK_MAX_ATTEMPTS" "5" _ h.attempts refl,
          read "ACCOUNT_LOCK_DURATION_MINUTES" "15" _ h.duration refl,
        )
        (refl, rw (exact false _ h.milliseconds) refl)
