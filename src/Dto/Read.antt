-- ===== src/Dto/Read.antt =====
-- The fields of an instance with the types that its class declares for them, as the handlers read
-- them.
use nestjs_jwt.Prelude.{ℕ, ◌≡◌, refl, String, Option, none, some, arith}
use nestjs_jwt.Common.Json.{Json, num, str}
use nestjs_jwt.Users.Updates.{UpdateProfileDto}
use nestjs_jwt.Users.Listing.{PaginationQueryDto}
use nestjs_jwt.Auth.Service.{RegisterDto, LoginDto, ChangePasswordDto}
use nestjs_jwt.App.AuthController.{
  RefreshTokenDto, ForgotPasswordDto, ResetPasswordDto, VerifyEmailDto,
}
use nestjs_jwt.Dto.Pipe.{Instance}

infixl 1 ◌>>=◌
abbrev pub ◌>>=◌ : {A B : Type 0} → Option A → (A → Option B) → Option B
none >>= f = none
some a >>= f = f a

pub bind-some_inv :
    {A B : Type 0} (o : Option A) (f : A → B) {b : B}
    → (o >>= λ a. some (f a)) ≡ some b
    → (a : A) × (o ≡ some a) × (b ≡ f a)
bind-some_inv none f e = absurd (ground (arith, e))
bind-some_inv (some a) f e = (a, refl, ground (arith, e))

-- `field: string`, and `field: number`
abbrev pub text : Option Json → Option String
text (some (str s)) = some s
text _ = none

abbrev pub numeral : Option Json → Option ℕ
numeral (some (num n)) = some n
numeral _ = none

-- `field?: string`
abbrev pub optional_text : Option Json → Option (Option String)
optional_text none = some none
optional_text (some (str s)) = some (some s)
optional_text (some _) = none

unfoldable pub read_register : Instance → Option RegisterDto
read_register i = do
  first_name ← text (i "firstName")
  last_name ← text (i "lastName")
  email ← text (i "email")
  password ← text (i "password")
  some (record {
    first_name = first_name;
    last_name = last_name;
    email = email;
    password = password;
  })

unfoldable pub read_login : Instance → Option LoginDto
read_login i = do
  email ← text (i "email")
  password ← text (i "password")
  some (record { email = email; password = password })

unfoldable pub read_refresh_token : Instance → Option RefreshTokenDto
read_refresh_token i = do token ← text (i "refreshToken"); some (record { refresh_token = token })

unfoldable pub read_change_password : Instance → Option ChangePasswordDto
read_change_password i = do
  old ← text (i "oldPassword")
  new ← text (i "newPassword")
  some (record { old_password = old; new_password = new })

unfoldable pub read_forgot_password : Instance → Option ForgotPasswordDto
read_forgot_password i = do email ← text (i "email"); some (record { email = email })

unfoldable pub read_reset_password : Instance → Option ResetPasswordDto
read_reset_password i = do
  token ← text (i "token")
  new ← text (i "newPassword")
  some (record { token = token; new_password = new })

unfoldable pub read_verify_email : Instance → Option VerifyEmailDto
read_verify_email i = do token ← text (i "token"); some (record { token = token })

unfoldable pub read_update_profile : Instance → Option UpdateProfileDto
read_update_profile i = do
  first_name ← optional_text (i "firstName")
  last_name ← optional_text (i "lastName")
  phone_number ← optional_text (i "phoneNumber")
  avatar ← optional_text (i "avatar")
  some (record {
    first_name = first_name;
    last_name = last_name;
    phone_number = phone_number;
    avatar = avatar;
  })

unfoldable pub read_pagination_query : Instance → Option PaginationQueryDto
read_pagination_query i = do
  page ← numeral (i "page")
  limit ← numeral (i "limit")
  search ← optional_text (i "search")
  some (record { page = page; limit = limit; search = search })
