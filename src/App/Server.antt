-- ===== src/App/Server.antt =====
-- src/main.ts: how the server is set up from the `app` namespace of the configuration.
use Prim.Native.Char.{Char, code}
use Prim.Native.String as Text
use Prim.Native.String.{◌++◌}
use text.Mathlib.TextLemmas.{nil-append, cons-append}
use nestjs_jwt.Prelude.{
  ◌≡◌, refl, ap, ◌∙◌, String, Bool, true, false, Option, none, some, List, [], ◌∷◌, arith, ◌==◌,
  str_eq, if◌then◌else◌, All,
}
use nestjs_jwt.Config.Numbers.{Number}
use nestjs_jwt.Config.Namespaces.{AppConfig}
use nestjs_jwt.Config.Validation.{join}

-- The `origin` of `enableCors`: every origin, or those of a list.
pub data CorsOrigin : Type 0 where
  every : CorsOrigin
  only : List String → CorsOrigin

pub record Server : Type 0 where
  pub prefix : String
  pub cors_origin : CorsOrigin
  pub credentials : Bool
  -- Where the documents of the API are served, if they are.
  pub documents : Option String
  pub port : Number

-- A character before the first of the parts.
abbrev onto : Char → List String → List String
onto c [] = Text.◌∷◌ c Text.[] ∷ []
onto c (s ∷ rest) = Text.◌∷◌ c s ∷ rest

-- `text.split(',')`
unfoldable pub split : String → List String
split Text.[] = "" ∷ []
split (Text.◌∷◌ c s) = let rest = split s in if code c == b',' then "" ∷ rest else onto c rest

-- `corsOrigin === '*' ? true : corsOrigin.split(',')`
abbrev pub origin_of : String → CorsOrigin
origin_of s = if str_eq s "*" then every else only (split s)

-- `nodeEnv !== 'production'`
abbrev pub is_production : Option String → Bool
is_production none = false
is_production (some s) = str_eq s "production"

unfoldable pub bootstrap : AppConfig → Server
bootstrap c = record {
  prefix = c.api_prefix;
  cors_origin = origin_of c.cors_origin;
  credentials = true;
  documents = if is_production c.node_env then none else some "docs";
  port = c.port;
}

abbrev pub has_comma : String → Bool
has_comma Text.[] = false
has_comma (Text.◌∷◌ c s) = let rest = has_comma s in if code c == b',' then true else rest

split_whole : (s : String) → has_comma s ≡ false → split s ≡ s ∷ []
unfolding split
split_whole Text.[] h = refl
split_whole (Text.◌∷◌ c s) h =
    let here : (code c == b',') ≡ false = ground (arith, h) in
    let rest : has_comma s ≡ false = ground (arith, h) in rw (here, split_whole s rest) refl

split_comma : (s t : String) → has_comma s ≡ false → split (s ++ ("," ++ t)) ≡ s ∷ split t
unfolding split
split_comma Text.[] t h = rw (nil-append ("," ++ t), cons-append "," Text.[] t, nil-append t) refl
split_comma (Text.◌∷◌ c s) t h =
    let here : (code c == b',') ≡ false = ground (arith, h) in
    let rest : has_comma s ≡ false = ground (arith, h) in
    rw (cons-append c s ("," ++ t), here, split_comma s t rest) refl

split-join :
    (o : String) (os : List String)
    → All (λ s. has_comma s ≡ false) (o ∷ os)
    → split (join "," (o ∷ os)) ≡ o ∷ os
unfolding join
split-join o [] (h, _) = split_whole o h
split-join o (p ∷ os) (h, hs) = split_comma o _ h ∙ ap (λ x. o ∷ x) (split-join p os hs)

-- Origins without a comma in them, joined by commas, are the origins that the server allows, unless
-- the text is `*`, which allows every origin.
pub bootstrap-join :
    (c : AppConfig) (o : String) (os : List String)
    → All (λ s. has_comma s ≡ false) (o ∷ os)
    → str_eq (join "," (o ∷ os)) "*" ≡ false
    → (bootstrap (record c { cors_origin = join "," (o ∷ os) })).cors_origin ≡ only (o ∷ os)
unfolding bootstrap
bootstrap-join c o os free star = rw star (ap only (split-join o os free))
