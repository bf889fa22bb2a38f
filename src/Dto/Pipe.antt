-- ===== src/Dto/Pipe.antt =====
-- The pipe of src/main.ts. Nest's `ValidationPipe` with class-validator and class-transformer is a
-- parameter; its documented behaviour is a record of hypotheses.
use nestjs_jwt.Prelude.{
  ℕ, ◌≤◌, ◌≡◌, String, Bool, true, false, ◌&&◌, ◌||◌, Option, none, some, List, [], ◌∷◌, is_some,
  all, str_eq, if◌then◌else◌,
}
use nestjs_jwt.Common.Json.{get, Json, null, num, str, Fields}
use nestjs_jwt.Dto.Rules.{
  Decorator, is_string, is_email, is_url, is_jwt, is_int, min_length, max_length, min, max, matches,
  DesignType, Property,
}

pub record PipeOptions : Type 0 where
  pub whitelist : Bool
  pub forbid_non_whitelisted : Bool
  pub transform : Bool
  pub enable_implicit_conversion : Bool

-- The options of `useGlobalPipes`.
unfoldable pub pipe_options : PipeOptions
pipe_options = record {
  whitelist = true;
  forbid_non_whitelisted = true;
  transform = true;
  enable_implicit_conversion = true;
}

-- The properties of an object, which may be missing.
abbrev pub Instance : Type 0
Instance = String → Option Json

pub data Piped : Type 0 where
  passed : Instance → Piped
  stopped : List String → Piped

-- The property that a class declares under a name.
unfoldable pub declared : String → List Property → Option Property
declared k [] = none
declared k (p ∷ ps) = if str_eq p.name k then some p else declared k ps

-- Null or undefined, which `@IsOptional()` lets through.
abbrev pub is_absent : Option Json → Bool
is_absent none = true
is_absent (some null) = true
is_absent (some _) = false

-- `run` is the pipe, `convert` what class-transformer makes of a value of a type, `check` a decorator's
-- verdict, and `measure` the length that class-validator compares.
pub record ValidationPipe : Type 0 where
  pub run : PipeOptions → List Property → Fields → Piped
  pub convert : DesignType → Json → Json
  pub check : Decorator → Option Json → Bool
  pub measure : String → ℕ

module _ (pipe : ValidationPipe) where
  open pipe use {run, convert, check, measure}

  -- A property of the instance that is built from a body: what is sent, converted, or the initial value.
  abbrev pub value_of : Property → Fields → Option Json
  value_of p body = elim (get p.name body) [
    | none ↦ p.initial
    | some v ↦ some (convert p.design_type v)
  ]

  abbrev pub is_met : Property → Option Json → Bool
  is_met p v = (p.is_optional && is_absent v) || all (λ c. check c v) p.decorators

  abbrev pub IsText : Option Json → Type 0
  IsText v = (s : String) × (v ≡ some (str s))

  -- What the documentation of a decorator says of a value that passes it.
  abbrev pub Passes : Decorator → Option Json → Type 0
  Passes is_string v = IsText v
  Passes is_email v = IsText v
  Passes is_url v = IsText v
  Passes is_jwt v = IsText v
  Passes is_int v = (n : ℕ) × (v ≡ some (num n))
  Passes (min_length n) v = (s : String) × (v ≡ some (str s)) × (n ≤ measure s)
  Passes (max_length n) v = (s : String) × (v ≡ some (str s)) × (measure s ≤ n)
  Passes (min k) v = (n : ℕ) × (v ≡ some (num n)) × (k ≤ n)
  Passes (max k) v = (n : ℕ) × (v ≡ some (num n)) × (n ≤ k)
  Passes (matches re message) v = (s : String) × (v ≡ some (str s)) × (re s ≡ true)

  -- The documented behaviour: what the decorators check; that null and undefined are converted to
  -- themselves and nothing else to null; that with `transform` what passes is the converted instance,
  -- each property of which meets its decorators; and that with `whitelist` and `forbidNonWhitelisted` a
  -- body with a property that the class does not declare is stopped.
  pub record IsDocumented : Type 0 where
    pub checks : (c : Decorator) (v : Option Json) → check c v ≡ true → Passes c v
    pub converts : (t : DesignType) (v : Json) → convert t v ≡ null → v ≡ null
    pub transforms :
        (o : PipeOptions) (ps : List Property) (body : Fields) (i : Instance) (k : String)
        (p : Property)
        → o.transform ≡ true
        → o.enable_implicit_conversion ≡ true
        → run o ps body ≡ passed i
        → declared k ps ≡ some p
        → i k ≡ value_of p body
    pub validates :
        (o : PipeOptions) (ps : List Property) (body : Fields) (i : Instance) (k : String)
        (p : Property)
        → o.transform ≡ true
        → run o ps body ≡ passed i
        → declared k ps ≡ some p
        → is_met p (i k) ≡ true
    pub forbids :
        (o : PipeOptions) (ps : List Property) (body : Fields) (i : Instance) (k : String)
        (v : Json)
        → o.whitelist ≡ true
        → o.forbid_non_whitelisted ≡ true
        → run o ps body ≡ passed i
        → get k body ≡ some v
        → is_some (declared k ps) ≡ true
