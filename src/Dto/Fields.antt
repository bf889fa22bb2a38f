-- ===== src/Dto/Fields.antt =====
-- The fields of a call, read back as properties of the instance.
use nestjs_jwt.Prelude.{ℕ, ◌≡◌, subst, ◌⊎◌, inl, inr, String, true, Option, none, some, arith}
use nestjs_jwt.Common.Json.{Json, str, num}
use nestjs_jwt.Auth.Service.{RegisterDto, ChangePasswordDto}
use nestjs_jwt.Users.Updates.{UpdateProfileDto}
use nestjs_jwt.Users.Listing.{PaginationQueryDto}
use nestjs_jwt.App.AuthController.{ResetPasswordDto}
use nestjs_jwt.Dto.Pipe.{Instance, is_absent}
use nestjs_jwt.Dto.Read.{
  text, numeral, optional_text, read_register, read_change_password, read_reset_password,
  read_update_profile, read_pagination_query,
}

pub read_register_inv :
    (i : Instance) (dto : RegisterDto)
    → read_register i ≡ some dto
    → (text (i "firstName") ≡ some dto.first_name)
      × (text (i "lastName") ≡ some dto.last_name)
      × (text (i "email") ≡ some dto.email)
      × (text (i "password") ≡ some dto.password)
unfolding read_register
read_register_inv i dto e = ground (arith, e)

pub read_change_password_inv :
    (i : Instance) (dto : ChangePasswordDto)
    → read_change_password i ≡ some dto
    → text (i "newPassword") ≡ some dto.new_password
unfolding read_change_password
read_change_password_inv i dto e = ground (arith, e)

pub read_reset_password_inv :
    (i : Instance) (dto : ResetPasswordDto)
    → read_reset_password i ≡ some dto
    → text (i "newPassword") ≡ some dto.new_password
unfolding read_reset_password
read_reset_password_inv i dto e = ground (arith, e)

pub read_update_profile_inv :
    (i : Instance) (dto : UpdateProfileDto)
    → read_update_profile i ≡ some dto
    → (optional_text (i "firstName") ≡ some dto.first_name)
      × (optional_text (i "lastName") ≡ some dto.last_name)
      × (optional_text (i "phoneNumber") ≡ some dto.phone_number)
unfolding read_update_profile
read_update_profile_inv i dto e = ground (arith, e)

pub read_pagination_query_inv :
    (i : Instance) (dto : PaginationQueryDto)
    → read_pagination_query i ≡ some dto
    → (numeral (i "page") ≡ some dto.page) × (numeral (i "limit") ≡ some dto.limit)
unfolding read_pagination_query
read_pagination_query_inv i dto e = ground (arith, e)

pub of_text :
    (Q : String → Type 0) (v : Option Json) {t : String}
    → (s : String) × (v ≡ some (str s)) × Q s
    → text v ≡ some t
    → Q t
of_text Q v {t} (s, e, q) r = let same : s ≡ t = ground (arith, e, r) in subst Q same q

pub of_numeral :
    (Q : ℕ → Type 0) (v : Option Json) {m : ℕ}
    → (n : ℕ) × (v ≡ some (num n)) × Q n
    → numeral v ≡ some m
    → Q m
of_numeral Q v {m} (n, e, q) r = let same : n ≡ m = ground (arith, e, r) in subst Q same q

-- A field that is missing, or a text of which `Q` holds.
abbrev pub Where : (String → Type 0) → Option String → Type 0
Where Q none = Unit {0}
Where Q (some s) = Q s

pub of_optional :
    (Q : String → Type 0) (v : Option Json) (o : Option String)
    → optional_text v ≡ some o
    → (is_absent v ≡ true) ⊎ ((s : String) × (v ≡ some (str s)) × Q s)
    → Where Q o
of_optional Q v none r h = tt
of_optional Q v (some t) r h = elim h [
  | inl a ↦ absurd (ground (arith, a, r))
  | inr (s, e, q) ↦ let same : s ≡ t = ground (arith, e, r) in subst Q same q
]
