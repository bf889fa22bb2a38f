-- ===== src/Config/Validation.antt =====
-- src/config/env.validation.ts. What class-transformer makes of a variable, and what class-validator
-- reports of a property, are parameters; `V` is the type of a property's values.
use Prim.Native.String.{◌++◌}
use nestjs_jwt.Prelude.{
  ℕ, ◌≡◌, refl, sym, ◌∙◌, ◌↔◌, inl, inr, String, Bool, true, false, not, ◌&&◌, Option, none, some,
  List, [], ◌∷◌, map, is_some, if◌then◌else◌, All, Bool-cases, ◌⊎◌, arith,
}
use nestjs_jwt.Config.Namespaces.{ProcessEnv}

-- The decorators of a property; `min_length` has its own message.
pub data Constraint : Type 0 where
  is_enum : (values : List String) → Constraint
  is_number is_string : Constraint
  min_length : ℕ → (message : String) → Constraint

-- The values of `enum Environment`.
abbrev pub environments : List String
environments = "development" ∷ "production" ∷ "test" ∷ []

-- The declared type, by which `enableImplicitConversion` converts.
pub data Kind : Type 0 where
  environment number string : Kind

pub record Declaration : Type 0 where
  pub name : String
  pub kind : Kind
  pub optional : Bool
  pub constraints : List Constraint

abbrev pub declares : String → Kind → List Constraint → Declaration
declares name kind cs = record { name = name; kind = kind; optional = false; constraints = cs }

abbrev pub textual : String → Declaration
textual name = declares name string (is_string ∷ [])

abbrev pub numeric : String → Declaration
numeric name = declares name number (is_number ∷ [])

abbrev pub secret : String → String → Declaration
secret name message = declares name string (is_string ∷ min_length 32 message ∷ [])

abbrev pub optionally : Declaration → Declaration
optionally p = record p { optional = true }

-- `EnvironmentVariables`
unfoldable pub environment_variables : List Declaration
environment_variables =
    declares "NODE_ENV" environment (is_enum environments ∷ [])
    ∷ numeric "PORT"
    ∷ textual "API_PREFIX"
    ∷ textual "CORS_ORIGIN"
    ∷ textual "MONGODB_URI"
    ∷ secret "JWT_ACCESS_SECRET" "JWT_ACCESS_SECRET must be at least 32 characters long"
    ∷ textual "JWT_ACCESS_EXPIRATION"
    ∷ secret "JWT_REFRESH_SECRET" "JWT_REFRESH_SECRET must be at least 32 characters long"
    ∷ textual "JWT_REFRESH_EXPIRATION"
    ∷ numeric "BCRYPT_SALT_ROUNDS"
    ∷ numeric "THROTTLE_TTL"
    ∷ numeric "THROTTLE_LIMIT"
    ∷ numeric "RESET_PASSWORD_TOKEN_EXPIRATION_MINUTES"
    ∷ numeric "EMAIL_VERIFICATION_TOKEN_EXPIRATION_HOURS"
    ∷ numeric "ACCOUNT_LOCK_MAX_ATTEMPTS"
    ∷ numeric "ACCOUNT_LOCK_DURATION_MINUTES"
    ∷ textual "FRONTEND_URL"
    ∷ optionally (textual "MAIL_HOST")
    ∷ optionally (numeric "MAIL_PORT")
    ∷ optionally (textual "MAIL_USER")
    ∷ optionally (textual "MAIL_PASSWORD")
    ∷ optionally (textual "MAIL_FROM")
    ∷ []

-- `texts.join(separator)`
unfoldable pub join : String → List String → String
join separator [] = ""
join separator (s ∷ []) = s
join separator (s ∷ t ∷ rest) = s ++ (separator ++ join separator (t ∷ rest))

abbrev collect : List String → List (List String) → List (List String)
collect [] rest = rest
collect (m ∷ ms) rest = (m ∷ ms) ∷ rest

collect_iff :
    (es : List String) (rest : List (List String))
    → (collect es rest ≡ []) ↔ ((es ≡ []) × (rest ≡ []))
collect_iff [] rest = ground arith
collect_iff (m ∷ ms) rest = ground arith

module _ (V : Type 0) where
  -- `plain_to_instance` converts a variable, which may be missing; `violations` are the messages of the
  -- constraints that a property breaks.
  pub record Libraries : Type 0 where
    pub plain_to_instance : Kind → Option String → Option V
    pub violations : List Constraint → Option V → List String

  pub data Validated : Type 0 where
    validated : List (String × Option V) → Validated
    failed : String → Validated

module _ {V : Type 0} (lib : Libraries V) where
  -- The messages about one property; an optional one is not looked at when it is missing.
  abbrev pub errors_of : Declaration → Option V → List String
  errors_of p v = if p.optional && not (is_some v) then [] else lib.violations p.constraints v

  abbrev pub converted : Declaration → ProcessEnv → Option V
  converted p config = lib.plain_to_instance p.kind (config p.name)

  -- `validateSync`: the messages of each property that has any.
  unfoldable pub validate_sync : List Declaration → ProcessEnv → List (List String)
  validate_sync [] config = []
  validate_sync (p ∷ ps) config =
      let rest = validate_sync ps config in collect (errors_of p (converted p config)) rest

  -- The properties of the instance; variables that are not declared stay on it as they are.
  abbrev pub instance_of : ProcessEnv → List (String × Option V)
  instance_of config = map (λ p. (p.name, converted p config)) environment_variables

  abbrev pub outcome : List (List String) → ProcessEnv → Validated V
  outcome [] config = validated (instance_of config)
  outcome (e ∷ es) config =
      failed ("Environment variable validation failed: " ++ join "; " (map (join ", ") (e ∷ es)))

  unfoldable pub validate : ProcessEnv → Validated V
  validate config = outcome (validate_sync environment_variables config) config

  abbrev pub is_validated : Validated V → Bool
  is_validated (validated v) = true
  is_validated (failed m) = false

  outcome-ok_iff :
      (es : List (List String)) (config : ProcessEnv)
      → (is_validated (outcome es config) ≡ true) ↔ (es ≡ [])
  outcome-ok_iff [] config = ground arith
  outcome-ok_iff (e ∷ es) config = ground arith

  -- What a property has to satisfy, where `holds` is the check of a decorator.
  abbrev pub IsMet : (Constraint → Option V → Bool) → Declaration → Option V → Type 0
  IsMet holds p v = ((p.optional ≡ true) × (v ≡ none)) ⊎ All (λ c. holds c v ≡ true) p.constraints

  module _ (holds : Constraint → Option V → Bool)
      (reports : (cs : List Constraint) (v : Option V)
        → (lib.violations cs v ≡ []) ↔ All (λ c. holds c v ≡ true) cs) where
    errors_of_iff : (p : Declaration) (v : Option V) → (errors_of p v ≡ []) ↔ IsMet holds p v
    errors_of_iff p none = elim (Bool-cases p.optional) [
      | inl o ↦ (λ h. inl (o, refl), λ h. ground arith)
      | inr o ↦ (
        λ h. inr ((reports p.constraints none).0 (rw o at h)),
        λ h. elim h [
          | inl (q, e) ↦ absurd (ground (arith, o, q))
          | inr a ↦ rw o ((reports p.constraints none).1 a)
        ],
      )
    ]
    errors_of_iff p (some v) =
        let same : errors_of p (some v) ≡ lib.violations p.constraints (some v) = ground arith in
        (
          λ h. inr ((reports p.constraints (some v)).0 (sym same ∙ h)),
          λ h. elim h [
            | inl (q, e) ↦ absurd (ground (arith, e))
            | inr a ↦ same ∙ (reports p.constraints (some v)).1 a
          ],
        )

    validate_sync_iff :
        (ps : List Declaration) (config : ProcessEnv)
        → (validate_sync ps config ≡ []) ↔ All (λ p. IsMet holds p (converted p config)) ps
    unfolding validate_sync
    validate_sync_iff [] config = (λ h. tt, λ h. refl)
    validate_sync_iff (p ∷ ps) config =
        let here = errors_of_iff p (converted p config) in
        let all = validate_sync_iff ps config in
        let both = collect_iff (errors_of p (converted p config)) (validate_sync ps config) in
        (
          λ h. let (e, es) = both.0 h in (here.0 e, all.0 es),
          λ (a, as_). both.1 (here.1 a, all.1 as_),
        )

  -- With class-validator reporting a property exactly when it breaks a constraint, the environment
  -- is accepted exactly when every declared variable, converted, satisfies its constraints or is
  -- optional and missing.
  pub validate-ok_iff :
      (holds : Constraint → Option V → Bool) (config : ProcessEnv)
      → ((cs : List Constraint) (v : Option V)
          → (lib.violations cs v ≡ []) ↔ All (λ c. holds c v ≡ true) cs)
      → (is_validated (validate config) ≡ true)
        ↔ All (λ p. IsMet holds p (converted p config)) environment_variables
  unfolding validate
  validate-ok_iff holds config reports =
      let all = validate_sync_iff holds reports environment_variables config in
      let outcome_iff = outcome-ok_iff (validate_sync environment_variables config) config in
      (λ h. all.0 (outcome_iff.0 h), λ h. outcome_iff.1 (all.1 h))
