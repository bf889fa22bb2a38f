-- ===== src/App/AuthController.antt =====
-- src/auth/auth.controller.ts: each handler passes the parts of the request to one method of the
-- service. What the method draws at random and the current time are arguments.
use nestjs_jwt.Prelude.{ℕ, String, Option, some}
use nestjs_jwt.Common.Role.{AuthenticatedUser}
use nestjs_jwt.Common.Action.{pure, ◌>>=◌, ◌>>◌}
use nestjs_jwt.Common.Response.{Returned}
use nestjs_jwt.Auth.Deps.{Deps}
use nestjs_jwt.Auth.Service.{Method, RegisterDto, LoginDto, ChangePasswordDto}
use nestjs_jwt.Auth.Service as AuthService
use nestjs_jwt.App.Data.{Data, user_document, token_pair, result, result_null}

pub record RefreshTokenDto : Type 0 where
  pub refresh_token : String

pub record ForgotPasswordDto : Type 0 where
  pub email : String

pub record ResetPasswordDto : Type 0 where
  pub token : String
  pub new_password : String

pub record VerifyEmailDto : Type 0 where
  pub token : String

module _ (d : Deps) where
  unfoldable pub register : RegisterDto → ℕ → String → String → ℕ → Method d (Returned Data)
  register dto i salt raw now = do
    user ← AuthService.register d dto i salt raw now
    pure (
        result "Registration successful. Please check your email to verify your account."
          (user_document user))

  unfoldable pub login : LoginDto → String → Option String → ℕ → Method d (Returned Data)
  login dto ip user_agent now = do
    tokens ← AuthService.login d dto (record { ip_address = some ip; user_agent = user_agent }) now
    pure (result "Login successful" (token_pair tokens))

  unfoldable pub refresh : RefreshTokenDto → ℕ → Method d (Returned Data)
  refresh dto now = do
    tokens ← AuthService.refresh_tokens d dto.refresh_token now
    pure (result "Token refreshed" (token_pair tokens))

  unfoldable pub logout : AuthenticatedUser → Method d (Returned Data)
  logout user = do AuthService.logout d user.user_id; pure (result_null "Logout successful")

  unfoldable pub change_password :
      AuthenticatedUser → ChangePasswordDto → String → Method d (Returned Data)
  change_password user dto salt = do
    AuthService.change_password d user.user_id dto salt
    pure (result_null "Password changed successfully")

  unfoldable pub forgot_password : ForgotPasswordDto → String → ℕ → Method d (Returned Data)
  forgot_password dto raw now = do
    AuthService.forgot_password d dto.email raw now
    pure (result_null "If that email exists, a password reset link has been sent")

  unfoldable pub reset_password : ResetPasswordDto → String → ℕ → Method d (Returned Data)
  reset_password dto salt now = do
    AuthService.reset_password d dto.token dto.new_password salt now
    pure (result_null "Password reset successful")

  unfoldable pub verify_email : VerifyEmailDto → ℕ → Method d (Returned Data)
  verify_email dto now = do
    AuthService.verify_email d dto.token now
    pure (result_null "Email verified successfully")

  unfoldable pub resend_verification : AuthenticatedUser → String → ℕ → Method d (Returned Data)
  resend_verification user raw now = do
    AuthService.resend_verification_email d user.user_id raw now
    pure (result_null "Verification email sent")
