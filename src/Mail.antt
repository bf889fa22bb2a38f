-- ===== src/Mail.antt =====
-- src/mail/mail.service.ts: the stub transport, whose effect is the line that it logs.
use Prim.Native.String.{◌++◌}
use nestjs_jwt.Prelude.{String, Option, get_or}

pub record MailConfig : Type 0 where
  -- `app.frontendUrl`
  pub frontend_url : Option String
  -- `mail.from`
  pub sender : String

pub record Email : Type 0 where
  pub to : String
  pub subject : String
  pub sender : String
  pub body : String

get_frontend_url : MailConfig → String
get_frontend_url m = get_or m.frontend_url ""

deliver : MailConfig → String → String → String → Email
deliver m to subject body = record { to = to; subject = subject; sender = m.sender; body = body }

unfoldable pub send_password_reset_email : MailConfig → String → String → Email
unfolding get_frontend_url deliver
send_password_reset_email m to token =
    let url = get_frontend_url m ++ ("/reset-password?token=" ++ token) in
    deliver m to "Reset your password" ("Reset link: " ++ url)

unfoldable pub send_email_verification_email : MailConfig → String → String → Email
unfolding get_frontend_url deliver
send_email_verification_email m to token =
    let url = get_frontend_url m ++ ("/verify-email?token=" ++ token) in
    deliver m to "Verify your email address" ("Verification link: " ++ url)
