-- ===== src/Users/Json.antt =====
-- The `toJSON` transform of src/users/schemas/user.schema.ts, on the plain object that Mongoose hands it.
use nestjs_jwt.Prelude.{◌≡◌, refl, String, none, List, [], ◌∷◌, arith, str_eq, if◌then◌else◌, any}
use nestjs_jwt.Prelude.Dict.{lookup, delete, lookup-delete}

abbrev pub deleted_keys : List String
deleted_keys =
    "password" ∷ "refreshTokenHash" ∷ "passwordResetTokenHash" ∷ "passwordResetExpires"
    ∷ "emailVerificationTokenHash" ∷ "emailVerificationExpires" ∷ "__v" ∷ []

module _ {V : Type 0} where
  abbrev pub delete_all : List String → List (String × V) → List (String × V)
  delete_all [] ret = ret
  delete_all (k ∷ ks) ret = delete_all ks (delete k ret)

  unfoldable pub transform : List (String × V) → List (String × V)
  transform ret = delete_all deleted_keys ret

  lookup-delete_all :
      (ks : List String) (j : String) (ret : List (String × V))
      → lookup j (delete_all ks ret) ≡ (if any (λ k. str_eq k j) ks then none else lookup j ret)
  lookup-delete_all [] j ret = refl
  lookup-delete_all (k ∷ ks) j ret =
      ground (arith, lookup-delete_all ks j (delete k ret), lookup-delete k j ret)

  -- The serialized user has none of the seven secret or internal properties (the password, the
  -- hashes of the refresh, reset and verification tokens, the expiries of the latter two and the
  -- version), and every other property as it was.
  pub lookup-transform :
      (j : String) (ret : List (String × V))
      → lookup j (transform ret) ≡ (
          if any
            (λ k. str_eq k j)
            ("password" ∷ "refreshTokenHash" ∷ "passwordResetTokenHash" ∷ "passwordResetExpires"
              ∷ "emailVerificationTokenHash" ∷ "emailVerificationExpires" ∷ "__v" ∷ [])
          then none
          else lookup j ret)
  unfolding transform
  lookup-transform j ret = lookup-delete_all deleted_keys j ret
