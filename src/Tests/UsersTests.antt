-- ===== src/Tests/UsersTests.antt =====
-- Listings, serialization and the seed on small data.
use nestjs_jwt.Prelude.{◌≡◌, String, false, none, some, List, [], ◌∷◌, ℕ}
use nestjs_jwt.Prelude.Dict.{lookup}
use nestjs_jwt.Common.Role.{Role}
use nestjs_jwt.Users.Schema.{User}
use nestjs_jwt.Users.Listing.{escape_regex}
use nestjs_jwt.Users.Pages.{literal, literal-escape_regex}
use nestjs_jwt.Users.Json.{transform, lookup-transform}
use nestjs_jwt.Tests.Sample.{ann}

abbrev three : List User
three = ann ∷ record ann { id = 8; email = "b@x.io" } ∷ record ann { id = 9; email = "c@x.io" } ∷ []

literal-escape_regex_example : literal false (escape_regex "a.b*") ≡ some "a.b*"
literal-escape_regex_example = literal-escape_regex "a.b*"

abbrev plain_object : List (String × ℕ)
plain_object = ("email", 1) ∷ ("password", 2) ∷ []

lookup-transform_example : lookup "password" (transform plain_object) ≡ none
lookup-transform_example = lookup-transform "password" plain_object

abbrev stub_hash : String → ℕ → String → String
stub_hash value rounds salt = value
