-- ===== src/Tests/ConfigTests.antt =====
-- The configuration of a small environment.
use Prim.Native.String as Text
use Prim.Native.String.{◌++◌}
use nestjs_jwt.Prelude.{
  ℕ, suc, ◌<◌, leb, String, Bool, Bool-cases, inl, inr, str_eq, true, false, Option, List, ◌≡◌, ◌↔◌,
  refl, none, some, [], ◌∷◌, arith, All, if◌then◌else◌,
}
use nestjs_jwt.Config.Numbers.{Number, nan, integer, trim_start, parse_int}
use nestjs_jwt.Prelude.Decimal.{scan}
use nestjs_jwt.Config.Namespaces.{ProcessEnv, security_config, throttler_options}
use nestjs_jwt.Config.Printed.{print, settings, security_config-print}
use nestjs_jwt.App.Start.{ConfigModule, env_file_path, start, refused, short_secret_refused}
use nestjs_jwt.Config.Validation.{Constraint, Libraries}
use nestjs_jwt.Tests.Sample.{world}

abbrev exact : Bool → ℕ → Number
exact = integer

parse_signed_test : parse_int exact " -12px" ≡ integer true 12
unfolding parse_int trim_start scan
parse_signed_test = refl

parse_empty_test : parse_int exact "" ≡ nan
unfolding parse_int trim_start scan
parse_empty_test = refl

security_config-print_example :
    let read = security_config exact (print (world.security) 60 20) in
    (read ≡ settings (world.security) 60 20)
    × (throttler_options exact read
        ≡ record { ttl = integer false 60000; limit = integer false 20 })
security_config-print_example =
    security_config-print exact (world.security) 60 20 (λ b m h. refl)
      (record {
        rounds = omega arith;
        minutes = omega arith;
        hours = omega arith;
        attempts = omega arith;
        duration = omega arith;
        limit_ = omega arith;
        milliseconds = omega arith;
      })

abbrev units : String → ℕ
units Text.[] = 0
units (Text.◌∷◌ c s) = suc (units s)

-- A text has to have a minimal length; other constraints hold of whatever is there.
abbrev fits : Constraint → Option String → Bool
fits c none = false
fits (Constraint.min_length n message) (some s) = leb n (units s)
fits c (some s) = true

ltb-false : (k n : ℕ) → k < n → leb n k ≡ false
ltb-false k n h = ground (arith, h)

abbrev messages : List Constraint → Option String → List String
messages [] v = []
messages (c ∷ cs) v = let rest = messages cs v in if fits c v then rest else "wrong" ∷ rest

abbrev strict : Libraries String
strict = record { plain_to_instance = λ kind v. v; violations = messages }

messages_iff :
    (cs : List Constraint) (v : Option String)
    → (messages cs v ≡ []) ↔ All (λ c. fits c v ≡ true) cs
messages_iff [] v = (λ h. tt, λ h. refl)
messages_iff (c ∷ cs) v = elim (Bool-cases (fits c v)) [
  | inl e ↦
      let rest = messages_iff cs v in
      (λ h. (e, rest.0 (rw (messages, e) at h)), λ (_, hs). rw (messages, e) (rest.1 hs))
  | inr e ↦ (λ h. absurd (ground (arith, e, h)), λ (q, _). absurd (ground (arith, e, q)))
]

abbrev process : ProcessEnv
process k = if str_eq k "JWT_ACCESS_SECRET" then some "short" else none

-- A module that reads no files.
abbrev no_files : ConfigModule String
no_files = record { load = λ paths env. env; assign = λ instance_ env. env }

short_secret_refused_example :
    (rest : String) × (start no_files strict exact process
      ≡ refused ("Environment variable validation failed: " ++ rest))
short_secret_refused_example =
    short_secret_refused no_files strict exact process fits (λ s. s) units "JWT_ACCESS_SECRET"
      "short" (λ paths k t e. e) messages_iff (λ t. refl) (λ n message t h. ltb-false (units t) n h)
      (inl refl) refl (omega arith)

paths_test : env_file_path process ≡ ".env.development" ∷ ".env" ∷ []
unfolding env_file_path
paths_test = refl
