-- ===== src/Dto/Rules.antt =====
-- The classes of src/auth/dto, src/users/dto and src/common/dto, as the decorators of class-validator
-- and class-transformer declare their properties.
use Prim.Native.Char.{code}
use Prim.Native.String as Text
use nestjs_jwt.Prelude.{
  ℕ, ◌+◌, ◌-◌, ◌/◌, ◌%◌, String, Bool, true, false, ◌&&◌, Option, none, some, List, [], ◌∷◌, leb,
  ltb, ◌==◌, if◌then◌else◌, all, length,
}
use nestjs_jwt.Common.Json.{Json, num}
use nestjs_jwt.Common.Validation.{between, digit, is_strong_password}

-- The UTF-16 code units of a character, of which regular expressions without the flag `u` read a text.
abbrev units : ℕ → List ℕ → List ℕ
units c rest =
    if ltb c 65536
    then c ∷ rest
    else (55296 + (c - 65536) / 1024) ∷ (56320 + (c - 65536) % 1024) ∷ rest

unfoldable pub code_units : String → List ℕ
code_units Text.[] = []
code_units (Text.◌∷◌ c s) = let rest = code_units s in units (code c) rest

-- `[1-9]\d{7,14}$`
abbrev subscriber : List ℕ → Bool
subscriber [] = false
subscriber (c ∷ cs) = between b'1' b'9' c && all digit cs && leb 7 (length cs) && leb (length cs) 14

-- `/^\+?[1-9]\d{7,14}$/`
unfoldable pub is_phone_number : List ℕ → Bool
is_phone_number [] = false
is_phone_number (c ∷ cs) = if c == b'+' then subscriber cs else subscriber (c ∷ cs)

-- The decorators that check a value; `matches` has a regular expression and its own message.
pub data Decorator : Type 0 where
  is_string is_email is_url is_jwt is_int : Decorator
  min_length max_length min max : ℕ → Decorator
  matches : (String → Bool) → (message : String) → Decorator

-- What a value is converted to: the type that the compiler emits, which `enableImplicitConversion`
-- reads, or the one that `@Type` names.
pub data DesignType : Type 0 where
  string number : DesignType

-- A property of a class; `initial` is the value of its initialiser.
pub record Property : Type 0 where
  pub name : String
  pub design_type : DesignType
  pub is_optional : Bool
  pub initial : Option Json
  pub decorators : List Decorator

abbrev pub property : String → List Decorator → Property
property name ds = record {
  name = name;
  design_type = string;
  is_optional = false;
  initial = none;
  decorators = ds;
}

abbrev pub optional : String → List Decorator → Property
optional name ds = record (property name ds) { is_optional = true }

-- An optional number with a value that it starts with.
abbrev pub numeric : String → ℕ → List Decorator → Property
numeric name n ds = record (optional name ds) { design_type = number; initial = some (num n) }

unfoldable pub strong_password : Decorator
strong_password =
    matches (λ s. is_strong_password (code_units s))
      "Password must be at least 8 characters long and include an uppercase letter, a lowercase letter, a number, and a special character"

unfoldable pub register_dto : List Property
register_dto =
    property "firstName" (is_string ∷ min_length 1 ∷ max_length 50 ∷ [])
    ∷ property "lastName" (is_string ∷ min_length 1 ∷ max_length 50 ∷ [])
    ∷ property "email" (is_email ∷ max_length 255 ∷ [])
    ∷ property "password" (is_string ∷ strong_password ∷ [])
    ∷ []

unfoldable pub login_dto : List Property
login_dto = property "email" (is_email ∷ []) ∷ property "password" (is_string ∷ []) ∷ []

unfoldable pub refresh_token_dto : List Property
refresh_token_dto = property "refreshToken" (is_jwt ∷ []) ∷ []

unfoldable pub change_password_dto : List Property
change_password_dto =
    property "oldPassword" (is_string ∷ [])
    ∷ property "newPassword" (is_string ∷ strong_password ∷ [])
    ∷ []

unfoldable pub forgot_password_dto : List Property
forgot_password_dto = property "email" (is_email ∷ []) ∷ []

unfoldable pub reset_password_dto : List Property
reset_password_dto =
    property "token" (is_string ∷ [])
    ∷ property "newPassword" (is_string ∷ strong_password ∷ [])
    ∷ []

unfoldable pub verify_email_dto : List Property
verify_email_dto = property "token" (is_string ∷ []) ∷ []

unfoldable pub update_profile_dto : List Property
update_profile_dto =
    optional "firstName" (is_string ∷ max_length 50 ∷ [])
    ∷ optional "lastName" (is_string ∷ max_length 50 ∷ [])
    ∷ optional "phoneNumber" (
        matches (λ s. is_phone_number (code_units s))
          "phoneNumber must be a valid E.164-style phone number"
        ∷ [])
    ∷ optional "avatar" (is_url ∷ [])
    ∷ []

unfoldable pub pagination_query_dto : List Property
pagination_query_dto =
    numeric "page" 1 (is_int ∷ min 1 ∷ [])
    ∷ numeric "limit" 10 (is_int ∷ min 1 ∷ max 100 ∷ [])
    ∷ optional "search" (is_string ∷ [])
    ∷ []
