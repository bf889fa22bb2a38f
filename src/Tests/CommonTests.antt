-- ===== src/Tests/CommonTests.antt =====
-- The shared pieces on small data.
use nestjs_jwt.Prelude.{
  ◌≡◌, refl, true, some, Option, String, any, str_eq, if◌then◌else◌, ◌⊎◌, List, [], ◌∷◌, ◌≤◌, All,
  length, ◌↔◌, ℕ,
}
use mathlib.Core.Option
use nestjs_jwt.Common.Json.{Json, Fields, get}
use nestjs_jwt.Common.Sanitize.{
  is_prohibited, sanitize, Inputs, sanitize_inputs, IsPermitted, IsCleanFields,
  sanitize_inputs-IsClean,
}
use nestjs_jwt.Common.Validation.{is_strong_password, IsStrong, is_strong_password_iff}
use nestjs_jwt.Common.Stringify.{stringify, is_plain}
use nestjs_jwt.Logger.{
  AppLogger, LogCall, auth, call, payload, sanitize_meta, log_lines, auth-redacts, error,
  call-lines,
}

-- `{ "email": { "$gt": "" }, "a.b": 1 }`
abbrev injection : Fields
injection =
    Fields.field "email" (Json.obj (Fields.field "$gt" (Json.str "") Fields.end))
      (Fields.field "a.b" (Json.num 1) Fields.end)

abbrev injected : Inputs
injected = record { body = injection; params = Fields.end; query = injection }

sanitize_inputs-IsClean_example :
    let s = sanitize_inputs injected in
    IsCleanFields s.body
    × ((k : String) → IsPermitted k → get k s.body ≡ Option.map sanitize (get k injected.body))
    × (s.query ≡ injection)
sanitize_inputs-IsClean_example = sanitize_inputs-IsClean injected

-- A key with a dot or a dollar is gone, and what stood under it.
injection_sanitized :
    (sanitize_inputs injected).body ≡ Fields.field "email" (Json.obj Fields.end) Fields.end
unfolding sanitize_inputs sanitize is_prohibited
injection_sanitized = refl

-- `Aa1!aaaa`
abbrev strong : List ℕ
strong = b'A' ∷ b'a' ∷ b'1' ∷ b'!' ∷ b'a' ∷ b'a' ∷ b'a' ∷ b'a' ∷ []

is_strong_password_iff_example : (is_strong_password strong ≡ true) ↔ IsStrong strong
is_strong_password_iff_example = is_strong_password_iff strong

abbrev logger : AppLogger
logger = record { context = some "AuthService"; production = true }

-- A message with a line break, and a token among the properties.
abbrev forged : LogCall
forged = auth "Login\nLogout" (some (Fields.field "token" (Json.str "abc") Fields.end))

auth-redacts_example :
    (p clean : Fields) × ((call logger "now" forged).out ≡ p ∷ [])
    × (get "message" p ≡ some (Json.str "Login\nLogout"))
    × (get "meta" p ≡ some (Json.obj clean))
    × ((j : String)
        → get j clean ≡ (
            if any
              (λ k. str_eq k j)
              ("password" ∷ "newPassword" ∷ "oldPassword" ∷ "refreshToken" ∷ "accessToken" ∷ "token"
                ∷ [])
            then Option.map
                (λ _. Json.str "[REDACTED]")
                (get j (Fields.field "token" (Json.str "abc") Fields.end))
            else get j (Fields.field "token" (Json.str "abc") Fields.end)))
auth-redacts_example =
    auth-redacts logger "now" "Login\nLogout" (Fields.field "token" (Json.str "abc") Fields.end)

call-lines_example :
    (length (call logger "now" forged).out ≤ 1)
    × All (λ line. is_plain line ≡ true) (log_lines (call logger "now" forged))
    × (((call logger "now" forged).err ≡ [])
        ⊎ ((message : Json) × (trace : String) × (context : Option String) × (forged
              ≡ error message (some trace) context)
            × ((call logger "now" forged).err ≡ trace ∷ [])))
call-lines_example = call-lines logger "now" forged

forged_line :
    log_lines (call logger "now" forged)
    ≡ "{\"timestamp\":\"now\",\"level\":\"AUTH\",\"context\":\"AuthService\",\"message\":\"Login\\nLogout\",\"meta\":{\"token\":\"[REDACTED]\"}}"
      ∷ []
unfolding call payload sanitize_meta stringify
forged_line = refl

-- A property of a property is not looked at.
nested : Fields
nested =
    Fields.field "user" (Json.obj (Fields.field "password" (Json.str "pw") Fields.end)) Fields.end

nested_line :
    log_lines (call logger "now" (auth "Registered" (some nested)))
    ≡ "{\"timestamp\":\"now\",\"level\":\"AUTH\",\"context\":\"AuthService\",\"message\":\"Registered\",\"meta\":{\"user\":{\"password\":\"pw\"}}}"
      ∷ []
unfolding call payload sanitize_meta stringify nested
nested_line = refl
