-- ===== src/Users/Seed.antt =====
-- `seed` of src/database/seeds/seed-admin.ts: what it does to the collection, and how it ends.
use nestjs_jwt.Prelude.{ℕ, String, Option, none, some, get_or}
use Prim.Native.String as Text
use Prim.Native.Char.{Char}
use nestjs_jwt.Common.Role.{Role}
use nestjs_jwt.Common.Exceptions.{Exception}
use nestjs_jwt.Common.Action.{Result, ok, err}
use nestjs_jwt.Users.Schema.{User, Text as TextOps}
use nestjs_jwt.Users.Collection.{Collection}
use nestjs_jwt.Users.Service.{CreateUserInput, create, find_by_email}

pub data Outcome : Type 0 where
  missing_password already_exists created_admin : Outcome
  failed : Exception → Outcome

abbrev pub outcome : Result User → Outcome
outcome (ok u) = created_admin
outcome (err e) = failed e

abbrev pub admin_input : String → String → CreateUserInput
admin_input email hashed_password = record {
  first_name = "Admin";
  last_name = "User";
  email = email;
  hashed_password = hashed_password;
  role = some Role.admin;
}

module _ (c : Collection) (t : TextOps) (bcrypt_hash : String → ℕ → String → String) where
  -- With the values of `ADMIN_EMAIL` and `ADMIN_PASSWORD`, the new identifier and bcrypt's salt.
  unfoldable pub seed : Option String → Option String → ℕ → String → c.Store → Outcome × c.Store
  seed admin_email none i salt s = (missing_password, s)
  seed admin_email (some Text.[]) i salt s = (missing_password, s)
  seed admin_email (some (Text.◌∷◌ x xs)) i salt s =
      let email = get_or admin_email "admin@example.com" in
      let hashed_password = bcrypt_hash (Text.◌∷◌ x xs) 12 salt in
      elim (find_by_email c t email s) [
        | some existing ↦ (already_exists, s)
        | none ↦ let (r, s') = create c t i (admin_input email hashed_password) s in (outcome r, s')
      ]
