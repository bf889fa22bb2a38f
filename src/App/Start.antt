-- ===== src/App/Start.antt =====
-- How the process starts: `ConfigModule.forRoot` of src/app.module.ts, the validation of
-- src/config/env.validation.ts, and then src/main.ts. What the module makes of the files is a parameter.
use Prim.Native.String.{◌++◌}
use mathlib.Core.List.{Memᴰ}
use nestjs_jwt.Prelude.{
  subst, ◌≡◌, refl, sym, ◌∙◌, ◌↔◌, inl, inr, String, Bool, true, false, Option, some, List, [], ◌∷◌,
  arith, get_or, All, ap, ℕ, ◌<◌, ◌⊎◌, Bool-cases,
}
use nestjs_jwt.Config.Numbers.{Number}
use nestjs_jwt.Config.Namespaces.{ProcessEnv, app_config}
use nestjs_jwt.Config.Validation.{
  Constraint, Declaration, Kind, secret, environment_variables, Libraries, Validated, validated,
  failed, validate, validate_sync, outcome, min_length, is_validated, IsMet, converted,
  validate-ok_iff,
}
use nestjs_jwt.App.Server.{Server, bootstrap}

-- `load` gives the environment that is validated, from the files and the process; `assign` the one that
-- the factories read, once the validated variables are put there.
pub record ConfigModule (V : Type 0) : Type 0 where
  pub load : List String → ProcessEnv → ProcessEnv
  pub assign : List (String × Option V) → ProcessEnv → ProcessEnv

unfoldable pub env_file_path : ProcessEnv → List String
env_file_path process = (".env." ++ get_or (process "NODE_ENV") "development") ∷ ".env" ∷ []

pub data Started : Type 0 where
  started : Server → Started
  refused : (message : String) → Started

All-Memᴰ : {A : Type 0} (P : A → Type 0) {a : A} {as_ : List A} → Memᴰ a as_ → All P as_ → P a
All-Memᴰ P (Memᴰ.head e) h = subst P (sym e) h.0
All-Memᴰ P (Memᴰ.tail m) h = All-Memᴰ P m h.1

module _ {V : Type 0} (m : ConfigModule V) (lib : Libraries V) (to_double : Bool → ℕ → Number) where
  abbrev pub config_of : ProcessEnv → ProcessEnv
  config_of process = m.load (env_file_path process) process

  abbrev pub start_with : Validated V → ProcessEnv → Started
  start_with (failed message) process = refused message
  start_with (validated instance_) process =
      started (bootstrap (app_config to_double (m.assign instance_ process)))

  unfoldable pub start : ProcessEnv → Started
  start process = start_with (validate lib (config_of process)) process

  refused_of :
      (es : List (List String)) (config process : ProcessEnv)
      → is_validated lib (outcome lib es config) ≡ false
      → (rest : String) × (start_with (outcome lib es config) process
          ≡ refused ("Environment variable validation failed: " ++ rest))
  refused_of [] config process h = absurd (ground (arith, h))
  refused_of (e ∷ es) config process h = (_, refl)

  -- A variable that the process sets to a value which breaks a constraint on it stops the start,
  -- whatever the files say: where the process's variables win over those of files, class-validator
  -- reports a property exactly when it breaks a constraint, and the value is converted to one.
  pub start_refused :
      (process : ProcessEnv) (holds : Constraint → Option V → Bool) (p : Declaration)
      (c : Constraint) (s : String) (v : V)
      → ((paths : List String) (k t : String)
          → process k ≡ some t
          → m.load paths process k ≡ some t)
      → ((cs : List Constraint) (w : Option V)
          → (lib.violations cs w ≡ []) ↔ All (λ x. holds x w ≡ true) cs)
      → Memᴰ p environment_variables
      → process p.name ≡ some s
      → lib.plain_to_instance p.kind (some s) ≡ some v
      → Memᴰ c p.constraints
      → holds c (some v) ≡ false
      → (rest : String) × (start process
          ≡ refused ("Environment variable validation failed: " ++ rest))
  unfolding start validate
  start_refused process holds p c s v wins reports listed set_ converts bound broken =
      let config = config_of process in
      elim (Bool-cases (is_validated lib (validate lib config))) [
        | inr h ↦ refused_of (validate_sync lib environment_variables config) config process h
        | inl h ↦
            let met =
              All-Memᴰ (λ x. IsMet lib holds x (converted lib x config)) listed
                ((validate-ok_iff lib holds config reports).0 h) in
            let value : converted lib p config ≡ some v =
              ap (lib.plain_to_instance p.kind) (wins (env_file_path process) p.name s set_)
              ∙ converts in
            elim met [
              | inl (_, missing) ↦ absurd (ground (arith, sym value ∙ missing))
              | inr passes ↦
                  let passed =
                    All-Memᴰ (λ x. holds x (converted lib p config) ≡ true) bound passes in
                  absurd (ground (arith, ap (holds c) value, passed, broken))
            ]
      ]

  -- A secret for access or refresh tokens with fewer than 32 characters, set by the process, stops
  -- the start with a message about the environment, whatever the files say: where the process's
  -- variables win over those of files, a text is converted to itself, class-validator reports a
  -- property exactly when it breaks a constraint, and a text that is shorter than a minimal length
  -- breaks it.
  pub short_secret_refused :
      (process : ProcessEnv) (holds : Constraint → Option V → Bool) (as_value : String → V)
      (measure : String → ℕ) (name s : String)
      → ((paths : List String) (k t : String)
          → process k ≡ some t
          → m.load paths process k ≡ some t)
      → ((cs : List Constraint) (w : Option V)
          → (lib.violations cs w ≡ []) ↔ All (λ x. holds x w ≡ true) cs)
      → ((t : String) → lib.plain_to_instance Kind.string (some t) ≡ some (as_value t))
      → ((n : ℕ) (message t : String)
          → measure t < n
          → holds (min_length n message) (some (as_value t)) ≡ false)
      → (name ≡ "JWT_ACCESS_SECRET") ⊎ (name ≡ "JWT_REFRESH_SECRET")
      → process name ≡ some s
      → measure s < 32
      → (rest : String) × (start process
          ≡ refused ("Environment variable validation failed: " ++ rest))
  unfolding environment_variables
  short_secret_refused process holds as_value measure name s wins reports converts checks which set_
        short =
      elim which [
        | inl e ↦
            start_refused process holds
              (secret "JWT_ACCESS_SECRET" "JWT_ACCESS_SECRET must be at least 32 characters long")
              (min_length 32 "JWT_ACCESS_SECRET must be at least 32 characters long") s (as_value s)
              wins reports
              (Memᴰ.tail (Memᴰ.tail (Memᴰ.tail (Memᴰ.tail (Memᴰ.tail (Memᴰ.head refl))))))
              (ap process (sym e) ∙ set_) (converts s) (Memᴰ.tail (Memᴰ.head refl))
              (checks 32 _ s short)
        | inr e ↦
            start_refused process holds
              (secret "JWT_REFRESH_SECRET" "JWT_REFRESH_SECRET must be at least 32 characters long")
              (min_length 32 "JWT_REFRESH_SECRET must be at least 32 characters long") s
              (as_value s) wins reports
              (Memᴰ.tail (
                Memᴰ.tail
                  (Memᴰ.tail (Memᴰ.tail (Memᴰ.tail (Memᴰ.tail (Memᴰ.tail (Memᴰ.head refl))))))))
              (ap process (sym e) ∙ set_) (converts s) (Memᴰ.tail (Memᴰ.head refl))
              (checks 32 _ s short)
      ]
